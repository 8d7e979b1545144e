-- ===== src/Mlfq/Exit/Scan.antt =====
-- The scan of wait in xv6-public_project02/proc.c: the first zombie child, or whether there are children.
use operating_system.Common.{
  ℕ, zero, suc, ◌+◌, ◌≡◌, ◌≢◌, ◌⊎◌, inl, inr, refl, subst, Bool, true, false, some, List, [], ◌∷◌,
  get_elem?, arith, Bool-cases,
}
use operating_system.Mlfq.Proc.{
  Proc, Procstate, zombie, unused, embryo, sleeping, runnable, running, eqb_Procstate,
}
use operating_system.Mlfq.Exit.{eqb_ptr, Children, dead, alive, find_dead}
use operating_system.Mlfq.Exit.Orphans.{eqb_ptr_iff, eqb_ptr_self}

zombie_state : (s : Procstate) → eqb_Procstate s zombie ≡ true → s ≡ zombie
zombie_state zombie h = refl
zombie_state unused h = cc
zombie_state embryo h = cc
zombie_state sleeping h = cc
zombie_state runnable h = cc
zombie_state running h = cc

-- What the scan says of a list that starts at index `j`.
abbrev pub Found : ℕ → ℕ → List Proc → Bool → Children → Type 0
Found cur j ps havekids (dead m) =
    (n : ℕ) × (p : Proc) × (m ≡ j + n)
    × (get_elem? ps n ≡ some p)
    × (p.parent ≡ some cur)
    × (p.state ≡ zombie)
Found cur j ps havekids (alive b) =
    ((n : ℕ) (p : Proc) → get_elem? ps n ≡ some p → p.parent ≡ some cur → p.state ≢ zombie)
    × (b ≡ false
        → (havekids ≡ false) × ((n : ℕ) (p : Proc) → get_elem? ps n ≡ some p → p.parent ≢ some cur))
    × (b ≡ true
        → (havekids ≡ true)
          ⊎ ((n : ℕ) × (p : Proc) × (get_elem? ps n ≡ some p) × (p.parent ≡ some cur)))

Found-kid :
    (cur j : ℕ) (havekids : Bool) (p : Proc) (ps : List Proc) (c : Children)
    → p.parent ≡ some cur
    → p.state ≢ zombie
    → Found cur (suc j) ps true c
    → Found cur j (p ∷ ps) havekids c
Found-kid cur j havekids p ps (dead m) k z (n, q, e, g, f, s) = (suc n, q, omega arith, g, f, s)
Found-kid cur j havekids p ps (alive b) k z (none_dead, no_kids, kids) =
    (λ n q g f. below n q g f, λ e. absurd (cc ((no_kids e).0)), λ e. inr (0, p, refl, k))
  where
    below :
        (n : ℕ) (q : Proc) → get_elem? (p ∷ ps) n ≡ some q → q.parent ≡ some cur → q.state ≢ zombie
    below zero q g f = λ t. z (ground arith)
    below (suc n) q g f = none_dead n q g f

Found-skip :
    (cur j : ℕ) (havekids : Bool) (p : Proc) (ps : List Proc) (c : Children)
    → p.parent ≢ some cur
    → Found cur (suc j) ps havekids c
    → Found cur j (p ∷ ps) havekids c
Found-skip cur j havekids p ps (dead m) k (n, q, e, g, f, s) = (suc n, q, omega arith, g, f, s)
Found-skip cur j havekids p ps (alive b) k (none_dead, no_kids, kids) = (
  below,
  λ e. ((no_kids e).0, strangers ((no_kids e).1)),
  λ e. elim (kids e) [ inl h ↦ inl h | inr (n, q, g, f) ↦ inr (suc n, q, g, f) ],
)
  where
    below :
        (n : ℕ) (q : Proc) → get_elem? (p ∷ ps) n ≡ some q → q.parent ≡ some cur → q.state ≢ zombie
    below zero q g f = λ t. k (ground arith)
    below (suc n) q g f = none_dead n q g f

    strangers :
        ((n : ℕ) (q : Proc) → get_elem? ps n ≡ some q → q.parent ≢ some cur)
        → (n : ℕ) (q : Proc) → get_elem? (p ∷ ps) n ≡ some q
        → q.parent ≢ some cur
    strangers h zero q g = λ t. k (ground arith)
    strangers h (suc n) q g = h n q g

pub find_dead-Found :
    (cur j : ℕ) (havekids : Bool) (ps : List Proc)
    → Found cur j ps havekids (find_dead cur j havekids ps)
unfolding find_dead
find_dead-Found cur j havekids [] = (λ n p g. cc, λ e. (e, λ n p g. cc), λ e. inl e)
find_dead-Found cur j havekids (p ∷ ps) = elim (Bool-cases (eqb_ptr p.parent (some cur))) [
  | inl c ↦ elim (Bool-cases (eqb_Procstate p.state zombie)) [
    | inl z ↦
        subst (Found cur j (p ∷ ps) havekids) {x = dead j} (ground arith)
          (0, p, omega arith, refl, eqb_ptr_iff p.parent (some cur) c, zombie_state p.state z)
    | inr z ↦
        subst (Found cur j (p ∷ ps) havekids) {x = find_dead cur (suc j) true ps} (ground arith) (
          Found-kid cur j havekids p ps (find_dead cur (suc j) true ps)
            (eqb_ptr_iff p.parent (some cur) c) (λ t. ground arith)
            (find_dead-Found cur (suc j) true ps))
  ]
  | inr c ↦
      subst (Found cur j (p ∷ ps) havekids) {x = find_dead cur (suc j) havekids ps} (ground arith) (
        Found-skip cur j havekids p ps (find_dead cur (suc j) havekids ps)
          (λ t. ground (arith, eqb_ptr_self cur)) (find_dead-Found cur (suc j) havekids ps))
]
