-- ===== src/Except/Saved.antt =====
-- c/personality.c: what is saved in a header leaves the stacks of the exceptions as they are.
use mathlib.Core.Path.{subst}
use mathlib.Core.Option.{some-injective}
use yruntime.Base.{
  ℕ, ◌≡◌, ◌≢◌, refl, ap, sym, ◌∙◌, List, [], ◌∷◌, Option-cases, some, false, ◌==◌, Bool-cases, inl,
  inr, ==_iff,
}
use yruntime.Unwind.Memory.{Memory, ok, ok-injective, >>=-eq-ok}
use yruntime.Unwind.Encoded.{Frame}
use yruntime.Unwind.Scan.{Saved, Slots}
use yruntime.Unwind.Personality.{Answer, personality}
use yruntime.Except.State.{Header, zero_header, Thread, State, ehstorage, get_thread_stack_current}
use yruntime.Except.Threads.{==-ne, set_header-here, find_node-current, find_node-All}
use yruntime.Except.Operations.{store_header}
use yruntime.Except.Steps.{load_header-found}
use yruntime.Except.Unwinding.{call_personality}
use yruntime.Except.Stacks.{Stacks, Linked, IsOwned, IsGood, Holds}
use yruntime.Except.Thrown.{All-map}

module _ (e : ℕ) (s : State) (h : Header) (saved : Saved) (here : s.heap e ≡ some h)
    (live : h.object ≢ 0) where
  abbrev pub saved_state : State
  saved_state = store_header e (some (record h { saved = saved })) s

  -- What a header keeps.
  abbrev Keeps : ℕ → Header → Type 0
  Keeps p k =
      (k' : Header) × (saved_state.heap p ≡ some k')
      × (k'.object ≡ k.object)
      × (k'.thread_id ≡ k.thread_id)
      × (k'.next ≡ k.next)

  keeps : (p : ℕ) (k : Header) → s.heap p ≡ some k → Keeps p k
  keeps p k there = elim (Bool-cases (e == p)) [
    | inl at ↦
        (let same : h ≡ k = some-injective h k (sym here ∙ ap s.heap ((==_iff e p).0 at) ∙ there) in
          subst (Keeps p) same (record h { saved = saved }, rw at refl, refl, refl, refl))
    | inr apart ↦ (k, rw apart there, refl, refl, refl)
  ]

  Linked-saved :
      (id e' : ℕ) (xs : List (ℕ × ℕ)) → Linked s.heap id e' xs → Linked saved_state.heap id e' xs
  Linked-saved id e' [] l = l
  Linked-saved id e' ((p, object) ∷ xs) (k, there, top, real, is, alive, own, apart, l) =
      let (k', there', same_object, same_id, same_next) = keeps p k there in
      (
        k',
        there',
        top,
        real,
        same_object ∙ is,
        alive,
        same_id ∙ own,
        apart,
        subst (λ n. Linked saved_state.heap id n xs) (sym same_next) (Linked-saved id k.next xs l),
      )

  IsOwned-saved : (t : Thread) → IsOwned s.heap t → IsOwned saved_state.heap t
  IsOwned-saved t (inl zeroed) =
      let apart : (e == ehstorage t.address) ≡ false = ==-ne (λ same.
        let unused : h ≡ zero_header =
          some-injective h zero_header (sym here ∙ ap s.heap same ∙ zeroed) in
        live (ap (λ x. x.object) unused)) in
      inl (rw apart zeroed)
  IsOwned-saved t (inr (k, there, alive, own)) =
      let (k', there', same_object, same_id, _) = keeps (ehstorage t.address) k there in
      inr (k', there', λ z. alive (sym same_object ∙ z), same_id ∙ own)

  pub saved-Holds : (stacks : Stacks) → Holds s stacks → Holds saved_state stacks
  saved-Holds stacks holds = record {
    distinct = holds.distinct;
    good =
        All-map (IsGood s.heap s.threads stacks) (IsGood saved_state.heap s.threads stacks)
          s.threads
          (λ t good.
            (good.0, Linked-saved t.id t.stack (stacks t.id) good.1, IsOwned-saved t good.2))
          holds.good;
    absent = holds.absent;
  }

-- The header of the exception on top of a thread's stack.
pub top_header :
    (self e object : ℕ) (xs : List (ℕ × ℕ)) (s : State) (stacks : Stacks)
    → Holds s stacks
    → stacks self ≡ (e, object) ∷ xs
    → (h : Header) × (s.heap e ≡ some h) × (h.object ≢ 0)
top_header self e object xs s stacks holds on_top =
    elim (Option-cases (get_thread_stack_current self s.threads)) [
      | inl missing ↦
          (let clash : (e, object) ∷ xs ≡ [] = sym on_top ∙ holds.absent self missing in cc)
      | inr (stack, current) ↦
          (let (t, found, own) = find_node-current self stack s.threads holds.distinct current in
            let good =
              find_node-All (IsGood s.heap s.threads stacks) stack s.threads found holds.good in
            let linked : Linked s.heap self t.stack ((e, object) ∷ xs) =
              subst (λ ys. Linked s.heap self t.stack ys) on_top
                (subst (λ id. Linked s.heap id t.stack (stacks id)) own good.1) in
            let (h, here, top, real, is, live, _, _, _) = linked in
            (h, here, λ z. live (sym is ∙ z)))
    ]

-- A call of the personality routine for the exception on top of a thread's stack.
pub call_personality-Holds :
    (fuel actions self e object : ℕ) (mem : Memory) (slots : Slots) (frame : Frame)
    (xs : List (ℕ × ℕ)) (s s' : State) (stacks : Stacks) (a : Answer)
    → Holds s stacks
    → stacks self ≡ (e, object) ∷ xs
    → call_personality fuel actions e mem slots frame s ≡ ok (a, s')
    → Holds s' stacks
      × (s'.threads ≡ s.threads)
      × ((h : Header) × (personality fuel actions e mem slots frame h.saved ≡ ok a)
          × (s'.heap e ≡ some (record h { saved = a.saved })))
unfolding call_personality
call_personality-Holds fuel actions self e object mem slots frame xs s s' stacks a holds on_top
      done =
    let (h, here, live) = top_header self e object xs s stacks holds on_top in
    let read = load_header-found e s here in
    let done' = rw read at done in
    let (b, ran, last) = >>=-eq-ok (personality fuel actions e mem slots frame h.saved) _ done' in
    subst {A = Answer × State}
      (λ r.
        Holds r.1 stacks
        × (r.1.threads ≡ s.threads)
        × ((h : Header) × (personality fuel actions e mem slots frame h.saved ≡ ok r.0)
            × (r.1.heap e ≡ some (record h { saved = r.0.saved }))))
      (ok-injective last)
      (
        saved-Holds e s h b.saved here live stacks holds,
        refl,
        (h, ran, set_header-here s.heap e (some (record h { saved = b.saved }))),
      )
