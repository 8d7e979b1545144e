-- ===== src/Mlfq/Exit/Orphans.antt =====
-- What exit does to the other entries of the table: it wakes sleepers and hands its children to init.
use operating_system.Common.{
  ℕ, zero, suc, ◌+◌, ◌<◌, ◌≡◌, ◌≢◌, ◌⊎◌, inl, inr, refl, sym, ◌∙◌, true, Option, none, some, List,
  ◌==◌, get_elem?, set, count, count-set, count-map, length, length-set, length-map,
  get_elem?-set_self, get_elem?-set_ne, get_elem?-map_inv, arith, Bool-cases, Option-cases,
}
use operating_system.Mlfq.Proc.{Proc, Chan, zombie, eqb_Procstate}
use operating_system.Mlfq.Switch.{wake, wakeup1}
use operating_system.Mlfq.Queue.Count.{in_moq}
use operating_system.Mlfq.Exit.{chan_of, eqb_ptr, pass_child, pass_children}

pub eqb_ptr_iff : (a b : Option ℕ) → eqb_ptr a b ≡ true → a ≡ b
eqb_ptr_iff none none h = refl
eqb_ptr_iff none (some b) h = cc
eqb_ptr_iff (some a) none h = cc
eqb_ptr_iff (some a) (some b) h = ground arith

pub eqb_ptr_self : (a : ℕ) → eqb_ptr (some a) (some a) ≡ true
eqb_ptr_self a = ground arith

pub parent-wake : (c : Chan) (p : Proc) → (wake c p).parent ≡ p.parent
unfolding wake
parent-wake c p = ground arith

pub qlev-wake : (c : Chan) (p : Proc) → (wake c p).qlev ≡ p.qlev
unfolding wake
qlev-wake c p = ground arith

pub length-wakeup1 : (c : Chan) (ps : List Proc) → length (wakeup1 c ps) ≡ length ps
unfolding wakeup1
length-wakeup1 c ps = length-map (wake c) ps

pub count-wakeup1 : (c : Chan) (ps : List Proc) → count in_moq (wakeup1 c ps) ≡ count in_moq ps
unfolding wakeup1
count-wakeup1 c ps = count-map in_moq (wake c) (λ p. ground (arith, qlev-wake c p)) ps

-- An entry has a parent that it had before.
parent-wakeup1 :
    (c : Chan) (ps : List Proc) (i : ℕ) (p : Proc)
    → get_elem? (wakeup1 c ps) i ≡ some p
    → (q : Proc) × (get_elem? ps i ≡ some q) × (p.parent ≡ q.parent)
unfolding wakeup1
parent-wakeup1 c ps i p h =
    let (q, e, f) = get_elem?-map_inv (wake c) ps i h in (q, e, ground (arith, parent-wake c q))

-- Entry `i` behind one turn of the loop at entry `j`: the turn changes a parent only to init, and
-- leaves no child of `cur` at `j`.
abbrev TurnAt : ℕ → Option ℕ → ℕ → List Proc → ℕ → Proc → Type 0
TurnAt cur init j ps i p =
    (q : Proc) × (get_elem? ps i ≡ some q)
    × (((p.parent ≡ q.parent) × ((i ≢ j) ⊎ (q.parent ≢ some cur))) ⊎ (p.parent ≡ init))

set-TurnAt :
    (cur : ℕ) (init : Option ℕ) (j : ℕ) (ps : List Proc) (r : Proc) (i : ℕ) (p : Proc)
    → get_elem? ps j ≡ some r
    → get_elem? (set ps j (record r { parent = init })) i ≡ some p
    → TurnAt cur init j ps i p
set-TurnAt cur init j ps r i p e h = elim (Bool-cases (i == j)) [
  | inl s ↦
      let same : i ≡ j = ground arith in
      (
        r,
        rw same e,
        inr (ground (arith, same, get_elem?-set_self ps j (record r { parent = init }) e)),
      )
  | inr d ↦
      let apart : j ≢ i = ground arith in
      (
        p,
        sym (get_elem?-set_ne ps j i (record r { parent = init }) apart) ∙ h,
        inl (refl, inl (λ t. apart (sym t))),
      )
]

TurnAt-parent :
    (cur : ℕ) (init : Option ℕ) (j : ℕ) (ps : List Proc) (i : ℕ) (p q : Proc)
    → p.parent ≡ q.parent
    → TurnAt cur init j ps i q
    → TurnAt cur init j ps i p
TurnAt-parent cur init j ps i p q e (r, h, inl (f, g)) = (r, h, inl (e ∙ f, g))
TurnAt-parent cur init j ps i p q e (r, h, inr f) = (r, h, inr (e ∙ f))

pass_child-TurnAt :
    (cur : ℕ) (init : Option ℕ) (j : ℕ) (ps : List Proc) (i : ℕ) (p : Proc)
    → get_elem? (pass_child cur init j ps) i ≡ some p
    → TurnAt cur init j ps i p
unfolding pass_child
pass_child-TurnAt cur init j ps i p h = elim (Option-cases (get_elem? ps j)) [
  | inl e ↦ (p, ground arith, inl (refl, inl (λ t. ground (arith, t))))
  | inr (r, e) ↦ elim (Bool-cases (eqb_ptr r.parent (some cur))) [
    | inl c ↦ elim (Bool-cases (eqb_Procstate r.state zombie)) [
      | inl z ↦
          let (q, g, f) =
            parent-wakeup1 (chan_of init) (set ps j (record r { parent = init })) i p
              (ground arith) in
          TurnAt-parent cur init j ps i p q f (set-TurnAt cur init j ps r i q e g)
      | inr z ↦ set-TurnAt cur init j ps r i p e (ground arith)
    ]
    | inr c ↦ (
      p,
      ground arith,
      inl (
        refl,
        elim (Bool-cases (i == j)) [
          | inl s ↦ inr (λ t. ground (arith, eqb_ptr_self cur))
          | inr d ↦ inl (λ t. ground arith)
        ],
      ),
    )
  ]
]

pub length-pass_child :
    (cur : ℕ) (init : Option ℕ) (j : ℕ) (ps : List Proc)
    → length (pass_child cur init j ps) ≡ length ps
unfolding pass_child
length-pass_child cur init j ps = elim (Option-cases (get_elem? ps j)) [
  | inl e ↦ ground arith
  | inr (r, e) ↦ ground (
    arith,
    length-wakeup1 (chan_of init) (set ps j (record r { parent = init })),
    length-set ps j (record r { parent = init }),
  )
]

pub count-pass_child :
    (cur : ℕ) (init : Option ℕ) (j : ℕ) (ps : List Proc)
    → count in_moq (pass_child cur init j ps) ≡ count in_moq ps
unfolding pass_child
count-pass_child cur init j ps = elim (Option-cases (get_elem? ps j)) [
  | inl e ↦ ground arith
  | inr (r, e) ↦ ground (
    arith,
    count-wakeup1 (chan_of init) (set ps j (record r { parent = init })),
    count-set in_moq ps j (record r { parent = init }) r e,
  )
]

pub length-pass_children :
    (cur : ℕ) (init : Option ℕ) (n j : ℕ) (ps : List Proc)
    → length (pass_children cur init n j ps) ≡ length ps
unfolding pass_children
length-pass_children cur init zero j ps = refl
length-pass_children cur init (suc n) j ps =
    length-pass_children cur init n (suc j) (pass_child cur init j ps)
    ∙ length-pass_child cur init j ps

pub count-pass_children :
    (cur : ℕ) (init : Option ℕ) (n j : ℕ) (ps : List Proc)
    → count in_moq (pass_children cur init n j ps) ≡ count in_moq ps
unfolding pass_children
count-pass_children cur init zero j ps = refl
count-pass_children cur init (suc n) j ps =
    count-pass_children cur init n (suc j) (pass_child cur init j ps)
    ∙ count-pass_child cur init j ps

-- No entry below `j` is a child of `cur`.
abbrev pub NoChild : ℕ → ℕ → List Proc → Type 0
NoChild cur j ps = (i : ℕ) (p : Proc) → i < j → get_elem? ps i ≡ some p → p.parent ≢ some cur

pass_child-NoChild :
    (cur : ℕ) (init : Option ℕ) (j : ℕ) (ps : List Proc)
    → init ≢ some cur
    → NoChild cur j ps
    → NoChild cur (suc j) (pass_child cur init j ps)
pass_child-NoChild cur init j ps ne h i p lt g t =
    let (q, e, turn) = pass_child-TurnAt cur init j ps i p g in
    elim turn [
      | inl (f, inl d) ↦ h i q (ground arith) e (sym f ∙ t)
      | inl (f, inr d) ↦ d (sym f ∙ t)
      | inr f ↦ ne (sym f ∙ t)
    ]

-- The loop leaves no child of `cur` among the entries that it has passed, where `cur` is not init.
pub pass_children-NoChild :
    (cur : ℕ) (init : Option ℕ) (n j : ℕ) (ps : List Proc)
    → init ≢ some cur
    → NoChild cur j ps
    → NoChild cur (j + n) (pass_children cur init n j ps)
unfolding pass_children
pass_children-NoChild cur init zero j ps ne h i p lt g = h i p (omega arith) g
pass_children-NoChild cur init (suc n) j ps ne h i p lt g =
    pass_children-NoChild cur init n (suc j) (pass_child cur init j ps) ne
      (pass_child-NoChild cur init j ps ne h) i p (omega arith) g
