-- ===== src/Except/Threads.antt =====
-- The list of the threads' stacks, and the headers by their addresses.
use mathlib.Core.Path.{fun_ext, subst}
use mathlib.Core.Option.{some-injective}
use yruntime.Base.{
  ℕ, ◌≡◌, ◌≢◌, refl, ap, sym, ◌∙◌, List, [], ◌∷◌, ◌++◌, Option, none, some, true, false, ◌==◌,
  if◌then◌else◌, Bool-cases, inl, inr, ==_iff, All, arith,
}
use yruntime.Except.State.{
  Header, Thread, get_thread_stack_current, find_node, set_node, unlink, set_header,
}

pub ==-refl : (n : ℕ) → (n == n) ≡ true
==-refl n = ground arith

pub ==-ne : {m n : ℕ} → m ≢ n → (m == n) ≡ false
==-ne h = ground arith

module _ (heap : ℕ → Option Header) (p : ℕ) where
  pub set_header-set :
      (new old : Option Header) → set_header p new (set_header p old heap) ≡ set_header p new heap
  set_header-set new old = fun_ext (λ a.
      elim (p == a)
        as (λ b. (if b then new else if b then old else heap a) ≡ (if b then new else heap a)) [
          | true ↦ refl
          | false ↦ refl
        ])

  pub set_header-here : (new : Option Header) → set_header p new heap p ≡ new
  set_header-here new = rw (==-refl p) refl

  same_header : (old : Option Header) → heap p ≡ old → (a : ℕ) → set_header p old heap a ≡ heap a
  same_header old h a = elim (Bool-cases (p == a)) [
    | inl e ↦ rw e (sym h ∙ ap heap ((==_iff p a).0 e))
    | inr e ↦ rw e refl
  ]

  pub set_header-same : (old : Option Header) → heap p ≡ old → set_header p old heap ≡ heap
  set_header-same old h = fun_ext (same_header old h)

module _ (a : ℕ) where
  pub find_node-set_node :
      (v : ℕ) (ts : List Thread) {t : Thread}
      → find_node a ts ≡ some t
      → find_node a (set_node a v ts) ≡ some (record t { stack = v })
  find_node-set_node v [] h = cc
  find_node-set_node v (u ∷ ts) {t} h = elim (Bool-cases (u.address == a)) [
    | inl e ↦
        let head : find_node a (u ∷ ts) ≡ some u = rw e refl in
        let same : u ≡ t = some-injective u t (sym head ∙ h) in rw (e, e, ← same) refl
    | inr e ↦
        let behind : find_node a (u ∷ ts) ≡ find_node a ts = rw e refl in
        rw (e, e) (find_node-set_node v ts (sym behind ∙ h))
  ]

  pub set_node-set_node :
      (v w : ℕ) (ts : List Thread) → set_node a w (set_node a v ts) ≡ set_node a w ts
  set_node-set_node v w [] = refl
  set_node-set_node v w (u ∷ ts) = elim (Bool-cases (u.address == a)) [
    | inl e ↦ rw (e, e) refl
    | inr e ↦ rw (e, e) (ap (λ r. u ∷ r) (set_node-set_node v w ts))
  ]

  pub set_node-same :
      (ts : List Thread) {t : Thread} → find_node a ts ≡ some t → set_node a t.stack ts ≡ ts
  set_node-same [] h = refl
  set_node-same (u ∷ ts) {t} h = elim (Bool-cases (u.address == a)) [
    | inl e ↦
        let head : find_node a (u ∷ ts) ≡ some u = rw e refl in
        let same : u ≡ t = some-injective u t (sym head ∙ h) in rw (e, ← same) refl
    | inr e ↦
        let behind : find_node a (u ∷ ts) ≡ find_node a ts = rw e refl in
        rw e (ap (λ r. u ∷ r) (set_node-same ts (sym behind ∙ h)))
  ]

  pub current-set_node :
      (id v : ℕ) (ts : List Thread)
      → get_thread_stack_current id (set_node a v ts) ≡ get_thread_stack_current id ts
  current-set_node id v [] = refl
  current-set_node id v (u ∷ ts) = elim (Bool-cases (u.address == a)) [
    | inl e ↦ rw e refl
    | inr e ↦ rw (e, current-set_node id v ts) refl
  ]

  -- A new stack at the end of the chain.
  module _ (id : ℕ) where
    abbrev pub appended : ℕ → List Thread → List Thread
    appended v ts = ts ++ record { address = a; stack = v; id = id } ∷ []

    pub find_node-appended :
        (v : ℕ) (ts : List Thread)
        → find_node a ts ≡ none
        → find_node a (appended v ts) ≡ some (record { address = a; stack = v; id = id })
    find_node-appended v [] h = rw (==-refl a) refl
    find_node-appended v (u ∷ ts) h = elim (Bool-cases (u.address == a)) [
      | inl e ↦ let head : find_node a (u ∷ ts) ≡ some u = rw e refl in cc
      | inr e ↦
          let behind : find_node a (u ∷ ts) ≡ find_node a ts = rw e refl in
          rw e (find_node-appended v ts (sym behind ∙ h))
    ]

    pub set_node-appended :
        (v w : ℕ) (ts : List Thread)
        → find_node a ts ≡ none
        → set_node a w (appended v ts) ≡ appended w ts
    set_node-appended v w [] h = rw (==-refl a) refl
    set_node-appended v w (u ∷ ts) h = elim (Bool-cases (u.address == a)) [
      | inl e ↦ let head : find_node a (u ∷ ts) ≡ some u = rw e refl in cc
      | inr e ↦
          let behind : find_node a (u ∷ ts) ≡ find_node a ts = rw e refl in
          rw e (ap (λ r. u ∷ r) (set_node-appended v w ts (sym behind ∙ h)))
    ]

    pub unlink-appended :
        (v : ℕ) (ts : List Thread) → find_node a ts ≡ none → unlink a (appended v ts) ≡ ts
    unlink-appended v [] h = rw (==-refl a) refl
    unlink-appended v (u ∷ ts) h = elim (Bool-cases (u.address == a)) [
      | inl e ↦ let head : find_node a (u ∷ ts) ≡ some u = rw e refl in cc
      | inr e ↦
          let behind : find_node a (u ∷ ts) ≡ find_node a ts = rw e refl in
          rw e (ap (λ r. u ∷ r) (unlink-appended v ts (sym behind ∙ h)))
    ]

    pub current-appended :
        (v : ℕ) (ts : List Thread)
        → get_thread_stack_current id ts ≡ none
        → get_thread_stack_current id (appended v ts) ≡ some a
    current-appended v [] h = rw (==-refl id) refl
    current-appended v (u ∷ ts) h = elim (Bool-cases (u.id == id)) [
      | inl e ↦ let head : get_thread_stack_current id (u ∷ ts) ≡ some u.address = rw e refl in cc
      | inr e ↦
          let behind : get_thread_stack_current id (u ∷ ts) ≡ get_thread_stack_current id ts =
            rw e refl in
          rw e (current-appended v ts (sym behind ∙ h))
    ]

-- No two stacks stand at one address.
abbrev pub Distinct : List Thread → Type 0
Distinct [] = Unit {0}
Distinct (t ∷ ts) = All (λ u. t.address ≢ u.address) ts × Distinct ts

pub find_node-address :
    (a : ℕ) (ts : List Thread) {t : Thread} → find_node a ts ≡ some t → t.address ≡ a
find_node-address a [] h = cc
find_node-address a (u ∷ ts) {t} h = elim (Bool-cases (u.address == a)) [
  | inl e ↦
      let head : find_node a (u ∷ ts) ≡ some u = rw e refl in
      let same : u ≡ t = some-injective u t (sym head ∙ h) in rw (← same) ((==_iff u.address a).0 e)
  | inr e ↦
      let behind : find_node a (u ∷ ts) ≡ find_node a ts = rw e refl in
      find_node-address a ts (sym behind ∙ h)
]

pub find_node-All {ℓ} :
    (P : Thread → Type ℓ) (a : ℕ) (ts : List Thread) {t : Thread}
    → find_node a ts ≡ some t
    → All P ts
    → P t
find_node-All P a [] h k = cc
find_node-All P a (u ∷ ts) {t} h (k, ks) = elim (Bool-cases (u.address == a)) [
  | inl e ↦
      let head : find_node a (u ∷ ts) ≡ some u = rw e refl in
      subst P (some-injective u t (sym head ∙ h)) k
  | inr e ↦
      let behind : find_node a (u ∷ ts) ≡ find_node a ts = rw e refl in
      find_node-All P a ts (sym behind ∙ h) ks
]

-- The stack that a search by the id gives is the one at the address that it gives.
pub find_node-current :
    (id a : ℕ) (ts : List Thread)
    → Distinct ts
    → get_thread_stack_current id ts ≡ some a
    → (t : Thread) × (find_node a ts ≡ some t) × (t.id ≡ id)
find_node-current id a [] d h = cc
find_node-current id a (u ∷ ts) (du, d) h = elim (Bool-cases (u.id == id)) [
  | inl e ↦
      let head : get_thread_stack_current id (u ∷ ts) ≡ some u.address = rw e refl in
      let same : u.address ≡ a = some-injective u.address a (sym head ∙ h) in
      (u, rw (same, ==-refl a) refl, (==_iff u.id id).0 e)
  | inr e ↦
      let behind : get_thread_stack_current id (u ∷ ts) ≡ get_thread_stack_current id ts =
        rw e refl in
      let (t, found, same) = find_node-current id a ts d (sym behind ∙ h) in
      let other : (u.address == a) ≡ false =
        ==-ne (λ same. find_node-All _ a ts found du (same ∙ sym (find_node-address a ts found))) in
      (t, rw other found, same)
]
