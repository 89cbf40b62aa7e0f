-- ===== src/Except/Ends.antt =====
-- c/except.c: the end of a process in which another runtime drops an exception of this one.
use mathlib.Core.Path.{subst}
use yruntime.Base.{
  ℕ, ◌≡◌, ◌≢◌, refl, sym, ◌∙◌, ap, ◌==◌, ◌&&◌, not, List, Option, some, true, arith,
}
use yruntime.Unwind.Memory.{Outcome, ok, terminated, >>=-eq-ok, ok-injective}
use yruntime.Except.State.{Header, Thread, State}
use yruntime.Except.Threads.{set_header-here}
use yruntime.Except.Operations.{
  load_header, load_thread, get_thread_stack, create_header, store_header, store_stack, push, throw,
  exception_cleanup,
}
use yruntime.Except.Steps.{load_header-store_header, load_header-found}
use yruntime.Except.Panic.{exited, end_with_trace, panic_text, panic_exception}

push-header :
    (e stack : ℕ) (h : Header) (s s' : State)
    → push e stack (store_header e (some h) s) ≡ ok s'
    → (n : ℕ) × (s'.heap e ≡ some (record h { next = n }))
unfolding push
push-header e stack h s s' pushed =
    let held = store_header e (some h) s in
    let onward = λ (t : Thread).
      ok (store_stack stack e (store_header e (some (record h { next = t.stack })) held)) in
    let read = rw (load_header-store_header e h s) at pushed in
    let (t, _, same) = >>=-eq-ok (load_thread stack held) onward read in
    let top = some (record h { next = t.stack }) in
    (t.stack, sym (ap (λ s. s.heap e) (ok-injective same)) ∙ set_header-here held.heap e top)

moved :
    (e e' : ℕ) (s s' : State) (h : Header)
    → ◌≡◌ {A = Outcome (ℕ × State)} (ok (e, s)) (ok (e', s'))
    → s.heap e ≡ some h
    → s'.heap e' ≡ some h
moved e e' s s' h same here =
    subst (λ (r : ℕ × State). r.1.heap r.0 ≡ some h) (ok-injective same) here

module _ (self file function line object calloc calloc' : ℕ) where
  -- The header at the address that `_yrt_exc_throw` returns tells the place.
  throw-header :
      (e : ℕ) (s s' : State)
      → throw self file function line object calloc calloc' s ≡ ok (e, s')
      → (h : Header) × (s'.heap e ≡ some h)
        × (h.file ≡ file)
        × (h.function ≡ function)
        × (h.line ≡ line)
  unfolding throw
  throw-header e s s' done =
      let ((stack, s1), _, done1) = >>=-eq-ok (get_thread_stack self calloc s) _ done in
      let ((e', s2), _, done2) = >>=-eq-ok (create_header object stack calloc' s1) _ done1 in
      let (base, _, done3) = >>=-eq-ok (load_header e' s2) _ done2 in
      let placed = record base { file = file; function = function; line = line } in
      let (s3, pushed, last) =
        >>=-eq-ok (push e' stack (store_header e' (some placed) s2)) _ done3 in
      let (n, here) = push-header e' stack placed s2 s3 pushed in
      (
        record placed { next = n },
        moved e' e s3 s' (record placed { next = n }) last here,
        refl,
        refl,
        refl,
      )

-- Behind a throw, a cleanup of its header with another code than that of a catch, 0 or 1, ends the
-- process; `_yrt_exc_panic_exception` of that header prints the file, the function and the line
-- of the throw, then the trace, and exits, unless the trace crashes.
pub panic_exception-throw :
    (self file function line object calloc calloc' calloc'' code e : ℕ) (s s' : State)
    (trace : Option (List ℕ)) (behind : List ℕ) (text_at : ℕ → List ℕ)
    → throw self file function line object calloc calloc' s ≡ ok (e, s')
    → code ≢ 0
    → code ≢ 1
    → (exception_cleanup code e calloc'' s' ≡ terminated)
      × ((h : Header) × (s'.heap e ≡ some h)
          × (panic_exception trace behind text_at h
              ≡ end_with_trace trace behind
                  (panic_text (text_at file) (text_at function) line)
                  (exited 255)))
unfolding exception_cleanup panic_exception
panic_exception-throw self file function line object calloc calloc' calloc'' code e s s' trace
      behind text_at done not_none not_foreign =
    let (h, here, same_file, same_function, same_line) =
      throw-header self file function line object calloc calloc' e s s' done in
    let other : (not (code == 1) && not (code == 0)) ≡ true = ground arith in
    (
      rw (load_header-found e s' here, other) refl,
      (h, here, rw (same_file, same_function, same_line) refl),
    )
