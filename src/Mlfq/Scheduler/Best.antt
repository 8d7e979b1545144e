-- ===== src/Mlfq/Scheduler/Best.antt =====
-- The best entry of a list under a strict weak order: what the loop of the scheduler computes.
use operating_system.Common.{
  ℕ, zero, suc, ◌+◌, ◌≡◌, refl, ap, ◌∙◌, subst, ◌⊎◌, inl, inr, Bool, true, false, ◌&&◌, Option,
  none, some, List, [], ◌∷◌, if◌then◌else◌, get_elem?, arith, Bool-cases,
}
use operating_system.Mlfq.Proc.{Proc}
use operating_system.Mlfq.Scheduler.{Cand}

-- `beats b p` means that `p` takes the place of `b`.
pub record StrictWeak (beats : Proc → Proc → Bool) : Type 0 where
  pub irrefl : (a : Proc) → beats a a ≡ false
  pub trans : (a b c : Proc) → beats a b ≡ true → beats b c ≡ true → beats a c ≡ true
  pub fails : (a b c : Proc) → beats a b ≡ false → beats b c ≡ false → beats a c ≡ false

module _ (beats : Proc → Proc → Bool) (sel : Proc → Bool) where
  unfoldable pub advance : ℕ → Proc → Cand → Cand
  advance i p b = if sel p && beats b.proc p then record { slot = i; proc = p } else b

  -- The best of `b` and the selected entries of a list that starts at index `i`.
  unfoldable pub pick : ℕ → List Proc → Cand → Cand
  pick i [] b = b
  pick i (p ∷ ps) b = pick (i + 1) ps (advance i p b)

  unfoldable pub best : ℕ → List Proc → Option Cand
  best i [] = none
  best i (p ∷ ps) =
      if sel p then some (pick (i + 1) ps (record { slot = i; proc = p })) else best (i + 1) ps

  -- `c` is a selected entry of the list from index `i` on, and no selected entry takes its place.
  pub record Best (i : ℕ) (ps : List Proc) (c : Cand) : Type 0 where
    pub place : ℕ
    pub here : c.slot ≡ i + place
    pub there : get_elem? ps place ≡ some c.proc
    pub selected : sel c.proc ≡ true
    pub unbeaten :
        (j : ℕ) (q : Proc) → get_elem? ps j ≡ some q → sel q ≡ true → beats c.proc q ≡ false

module _ (beats : Proc → Proc → Bool) (sel : Proc → Bool) (w : StrictWeak beats) where
  advance-cases :
      (i : ℕ) (p : Proc) (b : Cand)
      → ((advance beats sel i p b ≡ record { slot = i; proc = p })
          × (sel p ≡ true)
          × (beats b.proc p ≡ true))
        ⊎ ((advance beats sel i p b ≡ b) × (sel p ≡ true → beats b.proc p ≡ false))
  unfolding advance
  advance-cases i p b = elim (Bool-cases (sel p)) [
    | inl s ↦ elim (Bool-cases (beats b.proc p)) [
      | inl h ↦ inl (ground arith, s, h)
      | inr h ↦ inr (ground arith, λ _. h)
    ]
    | inr s ↦ inr (ground arith, λ t. cc)
  ]

  pick-start :
      (i : ℕ) (ps : List Proc) (b : Cand) → beats (pick beats sel i ps b).proc b.proc ≡ false
  unfolding pick
  pick-start i [] b = w.irrefl b.proc
  pick-start i (p ∷ ps) b =
      let c : Cand = advance beats sel i p b in
      let r : Cand = pick beats sel (i + 1) ps c in
      let h : beats r.proc c.proc ≡ false = pick-start (i + 1) ps c in
      elim (advance-cases i p b) [
        | inl (e, s, k) ↦ ground (arith, h, w.trans r.proc b.proc p)
        | inr (e, k) ↦ ground (arith, h)
      ]

  pick-unbeaten :
      (i : ℕ) (ps : List Proc) (b : Cand) (j : ℕ) (q : Proc)
      → get_elem? ps j ≡ some q
      → sel q ≡ true
      → beats (pick beats sel i ps b).proc q ≡ false
  unfolding pick
  pick-unbeaten i [] b j q h s = cc
  pick-unbeaten i (p ∷ ps) b zero q g s =
      let c : Cand = advance beats sel i p b in
      let r : Cand = pick beats sel (i + 1) ps c in
      let h : beats r.proc c.proc ≡ false = pick-start (i + 1) ps c in
      elim (advance-cases i p b) [
        | inl (e, t, k) ↦ ground (arith, h)
        | inr (e, k) ↦ ground (arith, h, w.fails r.proc b.proc p)
      ]
  pick-unbeaten i (p ∷ ps) b (suc j) q h s = pick-unbeaten (i + 1) ps _ j q h s

  -- The result is `b`, or stands in the list at its index and is selected.
  abbrev Placed : ℕ → List Proc → Cand → Type 0
  Placed i ps r = (j : ℕ) × (r.slot ≡ i + j) × (get_elem? ps j ≡ some r.proc) × (sel r.proc ≡ true)

  pick-place :
      (i : ℕ) (ps : List Proc) (b : Cand)
      → (pick beats sel i ps b ≡ b) ⊎ Placed i ps (pick beats sel i ps b)
  unfolding pick
  pick-place i [] b = inl refl
  pick-place i (p ∷ ps) b = elim (pick-place (i + 1) ps (advance beats sel i p b)) [
    | inl same ↦ elim (advance-cases i p b) [
      | inl (e, s, k) ↦
          inr (0, omega (arith, ap (λ (c : Cand). c.slot) (same ∙ e)), ground arith, ground arith)
      | inr (e, k) ↦ inl (same ∙ e)
    ]
    | inr (j, s, g, t) ↦ inr (suc j, omega arith, g, t)
  ]

  pick-Best :
      (i : ℕ) (p : Proc) (ps : List Proc)
      → sel p ≡ true
      → Best beats sel i (p ∷ ps) (pick beats sel (i + 1) ps (record { slot = i; proc = p }))
  pick-Best i p ps s =
      let new : Cand = record { slot = i; proc = p } in
      let r : Cand = pick beats sel (i + 1) ps new in
      elim (pick-place (i + 1) ps new) [
        | inl same ↦ record {
          place = 0;
          here = omega (arith, ap (λ (c : Cand). c.slot) same);
          there = ground arith;
          selected = ground arith;
          unbeaten = unbeaten;
        }
        | inr (j, e, g, t) ↦ record {
          place = suc j;
          here = omega arith;
          there = g;
          selected = t;
          unbeaten = unbeaten;
        }
      ]
    where
      unbeaten :
          (j : ℕ) (q : Proc)
          → get_elem? (p ∷ ps) j ≡ some q
          → sel q ≡ true
          → beats (pick beats sel (i + 1) ps (record { slot = i; proc = p })).proc q ≡ false
      unbeaten zero q g t = ground (arith, pick-start (i + 1) ps (record { slot = i; proc = p }))
      unbeaten (suc j) q g t = pick-unbeaten (i + 1) ps _ j q g t

  Best-suc :
      (i : ℕ) (p : Proc) (ps : List Proc) (c : Cand)
      → sel p ≡ false
      → Best beats sel (i + 1) ps c
      → Best beats sel i (p ∷ ps) c
  Best-suc i p ps c s v = record {
    place = suc v.place;
    here = omega (arith, v.here);
    there = v.there;
    selected = v.selected;
    unbeaten = unbeaten;
  }
    where
      unbeaten :
          (j : ℕ) (q : Proc) → get_elem? (p ∷ ps) j ≡ some q → sel q ≡ true → beats c.proc q ≡ false
      unbeaten zero q g t = ground arith
      unbeaten (suc j) q g t = v.unbeaten j q g t

  pub best-Best :
      (i : ℕ) (ps : List Proc) (c : Cand) → best beats sel i ps ≡ some c → Best beats sel i ps c
  unfolding best
  best-Best i [] c h = absurd (cc)
  best-Best i (p ∷ ps) c h = elim (Bool-cases (sel p)) [
    | inl e ↦ subst (Best beats sel i (p ∷ ps)) (ground arith) (pick-Best i p ps e)
    | inr e ↦ Best-suc i p ps c e (best-Best (i + 1) ps c (ground arith))
  ]

  pub best-none :
      (i : ℕ) (ps : List Proc)
      → best beats sel i ps ≡ none
      → (j : ℕ) (q : Proc) → get_elem? ps j ≡ some q
      → sel q ≡ false
  unfolding best
  best-none i [] h j q g = cc
  best-none i (p ∷ ps) h zero q g = ground arith
  best-none i (p ∷ ps) h (suc j) q g = elim (Bool-cases (sel p)) [
    | inl e ↦ ground arith
    | inr e ↦ best-none (i + 1) ps (ground arith) j q g
  ]
