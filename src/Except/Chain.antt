-- ===== src/Except/Chain.antt =====
-- c/except.c: what a change of the chain of the stacks leaves of the properties of its members.
use mathlib.Core.Path.{subst}
use mathlib.Core.Option.{some-injective}
use yruntime.Base.{
  ℕ, ◌≡◌, ◌≢◌, refl, sym, ◌∙◌, List, [], ◌∷◌, none, some, false, ◌==◌, Bool-cases, inl, inr, ==_iff,
  All, All-append, arith,
}
use yruntime.Except.State.{Thread, get_thread_stack_current, find_node, set_node, unlink}
use yruntime.Except.Threads.{==-ne, appended, Distinct}

module _ (stack : ℕ) where
  All-others :
      (P Q : Thread → Type 0) (ts : List Thread)
      → All (λ u. stack ≢ u.address) ts
      → All P ts
      → ((u : Thread) → u.address ≢ stack → P u → Q u)
      → All Q ts
  All-others P Q [] d h keep = tt
  All-others P Q (u ∷ ts) (du, d) (hu, h) keep =
      (keep u (λ same. du (sym same)) hu, All-others P Q ts d h keep)

  pub All-set_node :
      (P Q : Thread → Type 0) (v : ℕ) (ts : List Thread) (t : Thread)
      → Distinct ts
      → find_node stack ts ≡ some t
      → All P ts
      → ((u : Thread) → u.address ≢ stack → P u → Q u)
      → (P t → Q (record t { stack = v }))
      → All Q (set_node stack v ts)
  All-set_node P Q v [] t d found h keep here = tt
  All-set_node P Q v (u ∷ ts) t (du, d) found (hu, h) keep here =
      elim (Bool-cases (u.address == stack)) [
        | inl e ↦
            let head : find_node stack (u ∷ ts) ≡ some u = rw e refl in
            let same : u ≡ t = some-injective u t (sym head ∙ found) in
            let at : u.address ≡ stack = (==_iff u.address stack).0 e in
            let others = subst (λ a. All (λ w. a ≢ w.address) ts) at du in
            let here' : Q (record u { stack = v }) =
              subst (λ w. P w → Q (record w { stack = v })) (sym same) here hu in
            rw e (here', All-others P Q ts others h keep)
        | inr e ↦
            let behind : find_node stack (u ∷ ts) ≡ find_node stack ts = rw e refl in
            rw e (
              keep u (ground (arith, e)) hu,
              All-set_node P Q v ts t d (sym behind ∙ found) h keep here,
            )
      ]

  pub All-unlink :
      (P Q : Thread → Type 0) (ts : List Thread)
      → Distinct ts
      → All P ts
      → ((u : Thread) → u.address ≢ stack → P u → Q u)
      → All Q (unlink stack ts)
  All-unlink P Q [] d h keep = tt
  All-unlink P Q (u ∷ ts) (du, d) (hu, h) keep = elim (Bool-cases (u.address == stack)) [
    | inl e ↦
        let at : u.address ≡ stack = (==_iff u.address stack).0 e in
        let others = subst (λ a. All (λ w. a ≢ w.address) ts) at du in
        rw e (All-others P Q ts others h keep)
    | inr e ↦ rw e (keep u (ground (arith, e)) hu, All-unlink P Q ts d h keep)
  ]

  All-set_node_any :
      (P : Thread → Type 0) (v : ℕ) (ts : List Thread)
      → ((u : Thread) → P u → P (record u { stack = v }))
      → All P ts
      → All P (set_node stack v ts)
  All-set_node_any P v [] keep h = tt
  All-set_node_any P v (u ∷ ts) keep (hu, h) = elim (Bool-cases (u.address == stack)) [
    | inl e ↦ rw e (keep u hu, h)
    | inr e ↦ rw e (hu, All-set_node_any P v ts keep h)
  ]

  pub set_node-Distinct : (v : ℕ) (ts : List Thread) → Distinct ts → Distinct (set_node stack v ts)
  set_node-Distinct v [] d = tt
  set_node-Distinct v (u ∷ ts) (du, d) = elim (Bool-cases (u.address == stack)) [
    | inl e ↦ rw e (du, d)
    | inr e ↦
        rw e (
          All-set_node_any (λ w. u.address ≢ w.address) v ts (λ w h. h) du,
          set_node-Distinct v ts d,
        )
  ]

  pub unlink-Distinct : (ts : List Thread) → Distinct ts → Distinct (unlink stack ts)
  unlink-Distinct [] d = tt
  unlink-Distinct (u ∷ ts) (du, d) = elim (Bool-cases (u.address == stack)) [
    | inl e ↦ rw e d
    | inr e ↦ rw e (
      All-unlink (λ w. u.address ≢ w.address) (λ w. u.address ≢ w.address) ts d du (λ w other h. h),
      unlink-Distinct ts d,
    )
  ]

  pub unlink-set_node :
      (v : ℕ) (ts : List Thread) → unlink stack (set_node stack v ts) ≡ unlink stack ts
  unlink-set_node v [] = refl
  unlink-set_node v (u ∷ ts) = elim (Bool-cases (u.address == stack)) [
    | inl e ↦ rw (e, e) refl
    | inr e ↦ rw (e, e, unlink-set_node v ts) refl
  ]

  pub current-unlink :
      (id a : ℕ) (ts : List Thread)
      → get_thread_stack_current id ts ≡ some a
      → a ≢ stack
      → get_thread_stack_current id (unlink stack ts) ≡ some a
  current-unlink id a [] h other = h
  current-unlink id a (u ∷ ts) h other = elim (Bool-cases (u.id == id)) [
    | inl e ↦
        let head : get_thread_stack_current id (u ∷ ts) ≡ some u.address = rw e refl in
        let same : u.address ≡ a = some-injective u.address a (sym head ∙ h) in
        let apart : (u.address == stack) ≡ false = ==-ne (λ at. other (sym same ∙ at)) in
        rw (apart, e, same) refl
    | inr e ↦
        let behind : get_thread_stack_current id (u ∷ ts) ≡ get_thread_stack_current id ts =
          rw e refl in
        elim (Bool-cases (u.address == stack)) [
          | inl at ↦ rw at (sym behind ∙ h)
          | inr apart ↦ rw (apart, e) (current-unlink id a ts (sym behind ∙ h) other)
        ]
  ]

  -- A new stack at the end of the chain, for the thread `self`.
  module _ (self v : ℕ) where
    pub current-appended_before :
        (id a : ℕ) (ts : List Thread)
        → get_thread_stack_current id ts ≡ some a
        → get_thread_stack_current id (appended stack self v ts) ≡ some a
    current-appended_before id a [] h = cc
    current-appended_before id a (u ∷ ts) h = elim (Bool-cases (u.id == id)) [
      | inl e ↦
          let head : get_thread_stack_current id (u ∷ ts) ≡ some u.address = rw e refl in
          rw e (sym head ∙ h)
      | inr e ↦
          let behind : get_thread_stack_current id (u ∷ ts) ≡ get_thread_stack_current id ts =
            rw e refl in
          rw e (current-appended_before id a ts (sym behind ∙ h))
    ]

    pub current-appended-none :
        (id : ℕ) (ts : List Thread)
        → get_thread_stack_current id (appended stack self v ts) ≡ none
        → get_thread_stack_current id ts ≡ none
    current-appended-none id [] h = refl
    current-appended-none id (u ∷ ts) h = elim (Bool-cases (u.id == id)) [
      | inl e ↦
          let head : get_thread_stack_current id (appended stack self v (u ∷ ts)) ≡ some u.address =
            rw e refl in
          cc
      | inr e ↦
          let behind : get_thread_stack_current id (appended stack self v (u ∷ ts))
              ≡ get_thread_stack_current id (appended stack self v ts) =
            rw e refl in
          rw e (current-appended-none id ts (sym behind ∙ h))
    ]

    not_found : (ts : List Thread) → find_node stack ts ≡ none → All (λ u. u.address ≢ stack) ts
    not_found [] h = tt
    not_found (u ∷ ts) h = elim (Bool-cases (u.address == stack)) [
      | inl e ↦ let head : find_node stack (u ∷ ts) ≡ some u = rw e refl in cc
      | inr e ↦
          let behind : find_node stack (u ∷ ts) ≡ find_node stack ts = rw e refl in
          (ground (arith, e), not_found ts (sym behind ∙ h))
    ]

    appended-Distinct_from :
        (ts : List Thread)
        → All (λ u. u.address ≢ stack) ts
        → Distinct ts
        → Distinct (appended stack self v ts)
    appended-Distinct_from [] new d = (tt, tt)
    appended-Distinct_from (u ∷ ts) (other, new) (du, d) = (
      All-append (λ w. u.address ≢ w.address) ts
          (record { address = stack; stack = v; id = self } ∷ []) du (other, tt),
      appended-Distinct_from ts new d,
    )

    pub appended-Distinct :
        (ts : List Thread)
        → find_node stack ts ≡ none
        → Distinct ts
        → Distinct (appended stack self v ts)
    appended-Distinct ts new d = appended-Distinct_from ts (not_found ts new) d
