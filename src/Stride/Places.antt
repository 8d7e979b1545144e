-- ===== src/Stride/Places.antt =====
-- The search for a place.
use operating_system.Common.{
  ℕ, zero, suc, ◌+◌, ◌<◌, ◌≤◌, ◌≡◌, ◌≢◌, ◌==◌, Bool, true, false, none, some, arith, Bool-cases,
  inl, inr,
}
use operating_system.Stride.State.{find_place}

-- The place found passes the test, and no place before it does.
pub find_place-some :
    (f : ℕ → Bool) (n i m : ℕ)
    → find_place f n i ≡ some m
    → (i ≤ m) × (m < i + n) × (f m ≡ true) × ((j : ℕ) → i ≤ j → j < m → f j ≡ false)
unfolding find_place
find_place-some f zero i m e = absurd (cc)
find_place-some f (suc n) i m e = elim (Bool-cases (f i)) [
  | inl h ↦
      let same : i ≡ m = ground arith in
      (omega arith, omega arith, ground arith, λ j a b. absurd (omega arith))
  | inr h ↦
      let (lo, hi, t, before) = find_place-some f n (i + 1) m (rw h at e) in
      (
        omega arith,
        omega arith,
        t,
        λ j a b. elim (Bool-cases (f j)) [ inl g ↦ absurd (later j a b g h before) | inr g ↦ g ],
      )
]
  where
    later :
        (j : ℕ)
        → i ≤ j
        → j < m
        → f j ≡ true
        → f i ≡ false
        → ((k : ℕ) → i + 1 ≤ k → k < m → f k ≡ false)
        → ⊥
    later j a b g h before = ground (arith, before j)

pub find_place-none :
    (f : ℕ → Bool) (n i : ℕ) → find_place f n i ≡ none → (j : ℕ) → i ≤ j → j < i + n → f j ≡ false
unfolding find_place
find_place-none f zero i e j a b = absurd (omega arith)
find_place-none f (suc n) i e j a b = elim (Bool-cases (f i)) [
  | inl h ↦ absurd (cc (rw h at e))
  | inr h ↦ elim (Bool-cases (i == j)) [
    | inl same ↦ let here : i ≡ j = ground arith in rw (← here) h
    | inr other ↦
        let later : i ≢ j = ground arith in
        find_place-none f n (i + 1) (rw h at e) j (omega arith) (omega arith)
  ]
]
