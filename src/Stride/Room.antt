-- ===== src/Stride/Room.antt =====
-- There is always room: a level has as many places as there are processes.
use operating_system.Common.{
  ℕ, zero, suc, ◌<◌, ◌≤◌, ◌≡◌, ◌≢◌, refl, sym, ap, ◌∙◌, true, false, Option, none, some, List, [],
  ◌∷◌, ok, length, arith, inl, inr, Absent, Distinct, Below, length-le_of_Below, Option-cases,
}
use operating_system.Stride.State.{Float, nproc, Sched, is_none, find_place}
use operating_system.Stride.Places.{find_place-some, find_place-none}
use operating_system.Stride.Queues.{enqueue, mlfq_append}
use operating_system.Stride.Invariant.{WellFormed, Unqueued}

abbrev with_occupant : Option ℕ → List ℕ → List ℕ
with_occupant none ps = ps
with_occupant (some p) ps = p ∷ ps

-- The processes in the first places of a level.
abbrev occupants : (ℕ → Option ℕ) → ℕ → List ℕ
occupants q zero = []
occupants q (suc n) = with_occupant (q n) (occupants q n)

module _ (fl : Float) (s : Sched fl) (w : WellFormed s) (m : ℕ) where
  occupants-Absent_level :
      (p l i n : ℕ) → s.queue l i ≡ some p → l ≢ m → Absent p (occupants (s.queue m) n)
  occupants-Absent_level p l i zero e d = tt
  occupants-Absent_level p l i (suc n) e d = elim (Option-cases (s.queue m n)) [
    | inl f ↦ rw f (occupants-Absent_level p l i n e d)
    | inr (q, f) ↦ rw f (
      λ same. d (ground (arith, same, w.placed l i p, w.placed m n q)),
      occupants-Absent_level p l i n e d,
    )
  ]

  occupants-Absent_later :
      (p i n : ℕ) → s.queue m i ≡ some p → n ≤ i → Absent p (occupants (s.queue m) n)
  occupants-Absent_later p i zero e d = tt
  occupants-Absent_later p i (suc n) e d = elim (Option-cases (s.queue m n)) [
    | inl f ↦ rw f (occupants-Absent_later p i n e (omega arith))
    | inr (q, f) ↦ rw f (
      λ same. ground (arith, same, w.placed m i p, w.placed m n q),
      occupants-Absent_later p i n e (omega arith),
    )
  ]

  occupants-Distinct : (n : ℕ) → Distinct (occupants (s.queue m) n)
  occupants-Distinct zero = tt
  occupants-Distinct (suc n) = elim (Option-cases (s.queue m n)) [
    | inl f ↦ rw f (occupants-Distinct n)
    | inr (q, f) ↦ rw f (occupants-Absent_later q n n f (omega arith), occupants-Distinct n)
  ]

  occupants-Below : (n : ℕ) → Below nproc (occupants (s.queue m) n)
  occupants-Below zero = tt
  occupants-Below (suc n) = elim (Option-cases (s.queue m n)) [
    | inl f ↦ rw f (occupants-Below n)
    | inr (q, f) ↦ rw f (ground (arith, w.placed m n q), occupants-Below n)
  ]

  length-occupants :
      (n : ℕ)
      → ((j : ℕ) → j < n → is_none (s.queue m j) ≡ false)
      → length (occupants (s.queue m) n) ≡ n
  length-occupants zero h = refl
  length-occupants (suc n) h = elim (Option-cases (s.queue m n)) [
    | inl f ↦ absurd (cc (rw f at (h n (omega arith))))
    | inr (q, f) ↦ rw f (ap suc (length-occupants n (λ j b. h j (omega arith))))
  ]

  -- A level has a free place where a process is not in it.
  crowded :
      (p : ℕ)
      → p < nproc
      → Absent p (occupants (s.queue m) nproc)
      → ¬ ((j : ℕ) → j < nproc → is_none (s.queue m j) ≡ false)
  crowded p b away full =
      let long : length (p ∷ occupants (s.queue m) nproc) ≤ nproc =
        length-le_of_Below nproc (p ∷ occupants (s.queue m) nproc) (away, occupants-Distinct nproc)
          (b, occupants-Below nproc) in
      let size : length (occupants (s.queue m) nproc) ≡ nproc = length-occupants nproc full in
      omega (arith, long, size)

  room :
      (p : ℕ)
      → p < nproc
      → Absent p (occupants (s.queue m) nproc)
      → (j : ℕ) × (j < nproc)
        × (s.queue m j ≡ none)
        × (mlfq_append fl p m s ≡ ok (true, enqueue fl p m j s))
  unfolding mlfq_append
  room p b away = elim (Option-cases (find_place (λ j. is_none (s.queue m j)) nproc 0)) [
    | inl f ↦ absurd (
        crowded p b away (λ j b.
          find_place-none (λ j. is_none (s.queue m j)) nproc 0 f j (omega arith) (omega arith)))
    | inr (j, f) ↦
        let (lo, hi, t, before) = find_place-some (λ j. is_none (s.queue m j)) nproc 0 j f in
        (j, omega arith, ground (arith, t), rw f refl)
  ]

  -- A level other than that of a queued process has a free place.
  pub not_full :
      (p l i : ℕ)
      → s.queue l i ≡ some p
      → l ≢ m
      → ¬ ((j : ℕ) → j < nproc → is_none (s.queue m j) ≡ false)
  not_full p l i e d =
      crowded p (ground (arith, w.placed l i p)) (occupants-Absent_level p l i nproc e d)

  -- mlfq_append of a process that stands in another level finds a place.
  pub append_room :
      (p l i : ℕ)
      → s.queue l i ≡ some p
      → l ≢ m
      → (j : ℕ) × (j < nproc)
        × (s.queue m j ≡ none)
        × (mlfq_append fl p m s ≡ ok (true, enqueue fl p m j s))
  append_room p l i e d =
      room p (ground (arith, w.placed l i p)) (occupants-Absent_level p l i nproc e d)

  occupants-Absent_new : (p n : ℕ) → Unqueued p s → Absent p (occupants (s.queue m) n)
  occupants-Absent_new p zero u = tt
  occupants-Absent_new p (suc n) u = elim (Option-cases (s.queue m n)) [
    | inl f ↦ rw f (occupants-Absent_new p n u)
    | inr (q, f) ↦
        rw f (λ same. u.no_queue m n (f ∙ ap some (sym same)), occupants-Absent_new p n u)
  ]

  -- mlfq_append of a process that is in no place finds one.
  pub append_new :
      (p : ℕ)
      → Unqueued p s
      → p < nproc
      → (j : ℕ) × (j < nproc)
        × (s.queue m j ≡ none)
        × (mlfq_append fl p m s ≡ ok (true, enqueue fl p m j s))
  append_new p u b = room p b (occupants-Absent_new p nproc u)
