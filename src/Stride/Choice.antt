-- ===== src/Stride/Choice.antt =====
-- mlfq_next and stride_next of ex_project3/HYU-ELE3021/xv6-public/mlfq.c: whom they choose.
use operating_system.Common.{
  ℕ, zero, suc, ◌+◌, ◌-◌, ◌%◌, ◌<◌, ◌≤◌, ◌≡◌, ◌⊎◌, inl, inr, refl, ◌∙◌, subst, ◌==◌, Bool, true,
  false, not, ◌||◌, Option, none, some, if◌then◌else◌, ok, update, arith, Bool-cases,
}
use operating_system.Stride.State.{Float, nproc, nmlfq, Sched}
use operating_system.Stride.Queues.{
  Picked, picked, none_ready, out_of_rounds, ready_in, pick_or, scan_level, level_rounds,
  settle_level, next_from, mlfq_next,
}

-- How many places the iterator passes on its way from `from` to `j`.
abbrev pub distance : ℕ → ℕ → ℕ
distance from j = (j + 63 - from) % 64

-- What the loop over a level has found: a process with a runnable thread, before which the iterator
-- passes none; or none in the whole level.
abbrev pub Scanned : {fl : Float} → Sched fl → ℕ → ℕ → Picked → Type 0
Scanned {fl} s l from (picked i p t) =
    (i < nproc)
    × (ready_in fl s (s.queue l i) ≡ some (p, t))
    × ((j : ℕ) → j < nproc → distance from j < distance from i → ready_in fl s (s.queue l j) ≡ none)
Scanned {fl} s l from none_ready = (j : ℕ) → j < nproc → ready_in fl s (s.queue l j) ≡ none
Scanned s l from out_of_rounds = ⊥

module _ (fl : Float) where
  pick_or-Scanned :
      (s : Sched fl) (l from i : ℕ) (e : Option (ℕ × ℕ)) (rest : Picked)
      → i < nproc
      → ready_in fl s (s.queue l i) ≡ e
      → ((j : ℕ)
          → j < nproc
          → distance from j < distance from i
          → ready_in fl s (s.queue l j) ≡ none)
      → (e ≡ none → Scanned s l from rest)
      → Scanned s l from (pick_or i e rest)
  pick_or-Scanned s l from i none rest b f before h = h refl
  pick_or-Scanned s l from i (some (p, t)) rest b f before h = (b, f, before)

  -- One round of the loop, and its end.
  scan_goes :
      (s : Sched fl) (l from n iter i : ℕ) (flag : Bool)
      → (flag || not (iter == from + 1)) ≡ true
      → (if iter == nproc then 0 else iter) ≡ i
      → scan_level fl s l from (suc n) flag iter
        ≡ pick_or i (ready_in fl s (s.queue l i)) (scan_level fl s l from n false (i + 1))
  unfolding scan_level
  scan_goes s l from n iter i flag h e = rw (← e) (rw h refl)

  scan_ends :
      (s : Sched fl) (l from n iter : ℕ)
      → iter ≡ from + 1
      → scan_level fl s l from (suc n) false iter ≡ none_ready
  unfolding scan_level
  scan_ends s l from n iter e = ground arith

  -- The loop behind its first round; `k` places are passed.
  scan_from :
      (s : Sched fl) (l from n k : ℕ)
      → from < nproc
      → 1 ≤ k
      → k ≤ 64
      → 65 ≤ n + k
      → ((j : ℕ) → j < nproc → distance from j < k → ready_in fl s (s.queue l j) ≡ none)
      → Scanned s l from (scan_level fl s l from n false ((from + k) % 64 + 1))
  scan_from s l from zero k a b c d before = absurd (omega arith)
  scan_from s l from (suc n) k a b c d before = elim (Bool-cases (k == 64)) [
    | inl last ↦
        let whole : k ≡ 64 = ground arith in
        rw (scan_ends s l from n ((from + k) % 64 + 1) (omega arith))
          (λ j e. before j e (omega arith))
    | inr more ↦
        let less : k < 64 = ground arith in
        let i : ℕ = (from + (k + 1)) % 64 in
        rw (scan_goes s l from n ((from + k) % 64 + 1) i false (ground arith) (ground arith)) (
          pick_or-Scanned s l from i (ready_in fl s (s.queue l i))
            (scan_level fl s l from n false (i + 1)) (omega arith) refl
            (λ j e f. before j e (omega arith))
            (λ miss.
              scan_from s l from n (k + 1) a (omega arith) (omega arith) (omega arith) (λ j e f.
                elim (Bool-cases (distance from j == k)) [
                  | inl here ↦ let same : j ≡ i = ground arith in rw same miss
                  | inr other ↦ before j e (ground arith)
                ])))
  ]

  scan_level-Scanned :
      (s : Sched fl) (l from : ℕ)
      → from < nproc
      → Scanned s l from (scan_level fl s l from level_rounds true (from + 1))
  scan_level-Scanned s l from a =
      let i : ℕ = (from + 1) % 64 in
      rw (scan_goes s l from 64 (from + 1) i true refl (ground arith)) (
        pick_or-Scanned s l from i (ready_in fl s (s.queue l i))
          (scan_level fl s l from 64 false (i + 1)) (omega arith) refl
          (λ j e f. absurd (omega arith))
          (λ miss.
            scan_from s l from 64 1 a (omega arith) (omega arith) (omega arith)
              (λ j e f. let same : j ≡ i = omega arith in rw same miss)))

  -- What mlfq_next does from level `l` on.
  abbrev pub NextFrom : Sched fl → ℕ → ℕ → Type 0
  NextFrom s n l =
      ((m i p t : ℕ) × (l ≤ m)
        × (m < l + n)
        × (next_from fl n l s ≡ ok (some (p, t), record s { iterstate = update s.iterstate m i }))
        × Scanned s m (s.iterstate m) (picked i p t)
        × ((h j : ℕ) → l ≤ h → h < m → j < nproc → ready_in fl s (s.queue h j) ≡ none))
      ⊎ ((next_from fl n l s ≡ ok (none, s))
          × ((h j : ℕ) → l ≤ h → h < l + n → j < nproc → ready_in fl s (s.queue h j) ≡ none))

  next_none : (s : Sched fl) (l : ℕ) → next_from fl zero l s ≡ ok (none, s)
  unfolding next_from
  next_none s l = refl

  next_goes :
      (s : Sched fl) (n l : ℕ) (r : Picked)
      → scan_level fl s l (s.iterstate l) level_rounds true (s.iterstate l + 1) ≡ r
      → next_from fl (suc n) l s ≡ settle_level fl l r (next_from fl n (l + 1)) s
  unfolding next_from
  next_goes s n l r e = rw e refl

  next_step :
      (s : Sched fl) (n l : ℕ) (r : Picked)
      → scan_level fl s l (s.iterstate l) level_rounds true (s.iterstate l + 1) ≡ r
      → Scanned s l
          (s.iterstate l)
          (scan_level fl s l (s.iterstate l) level_rounds true (s.iterstate l + 1))
      → NextFrom s n (l + 1)
      → NextFrom s (suc n) l
  next_step s n l (picked i p t) e c rest = inl (
    l,
    i,
    p,
    t,
    omega arith,
    omega arith,
    next_goes s n l (picked i p t) e,
    subst (Scanned s l (s.iterstate l)) e c,
    λ h j b d f. absurd (omega arith),
  )
  next_step s n l none_ready e c (inl (m, i, p, t, a, b, f, g, before)) =
      let here : Scanned s l (s.iterstate l) none_ready = subst (Scanned s l (s.iterstate l)) e c in
      inl (
        m,
        i,
        p,
        t,
        omega arith,
        omega arith,
        next_goes s n l none_ready e ∙ f,
        g,
        λ h j x y z. elim (Bool-cases (h == l)) [
          | inl same ↦ let eq : h ≡ l = ground arith in rw eq (here j z)
          | inr other ↦ before h j (ground arith) y z
        ],
      )
  next_step s n l none_ready e c (inr (f, before)) =
      let here : Scanned s l (s.iterstate l) none_ready = subst (Scanned s l (s.iterstate l)) e c in
      inr (
        next_goes s n l none_ready e ∙ f,
        λ h j x y z. elim (Bool-cases (h == l)) [
          | inl same ↦ let eq : h ≡ l = ground arith in rw eq (here j z)
          | inr other ↦ before h j (ground arith) (omega arith) z
        ],
      )
  next_step s n l out_of_rounds e c rest = absurd (subst (Scanned s l (s.iterstate l)) e c)

  NextFrom-outcomes : (s : Sched fl) (n l : ℕ) → ((m : ℕ) → s.iterstate m < nproc) → NextFrom s n l
  NextFrom-outcomes s zero l a = inr (next_none s l, λ h j b c d. absurd (omega arith))
  NextFrom-outcomes s (suc n) l a =
      next_step s n l (scan_level fl s l (s.iterstate l) level_rounds true (s.iterstate l + 1)) refl
        (scan_level-Scanned s l (s.iterstate l) (a l)) (NextFrom-outcomes s n (l + 1) a)

  -- mlfq_next always returns, where each iterator points into its level. It returns the first runnable
  -- thread of a process of the highest level that has one, namely of the process that comes first behind
  -- the iterator of that level, and moves this iterator there; or no process of any level has a runnable
  -- thread, and it returns null.
  pub next_outcomes :
      (s : Sched fl)
      → ((m : ℕ) → s.iterstate m < nproc)
      → ((l i p t : ℕ) × (l < nmlfq)
          × (mlfq_next fl s ≡ ok (some (p, t), record s { iterstate = update s.iterstate l i }))
          × Scanned s l (s.iterstate l) (picked i p t)
          × ((h j : ℕ) → h < l → j < nproc → ready_in fl s (s.queue h j) ≡ none))
        ⊎ ((mlfq_next fl s ≡ ok (none, s))
            × ((h j : ℕ) → h < nmlfq → j < nproc → ready_in fl s (s.queue h j) ≡ none))
  unfolding mlfq_next
  next_outcomes s a = elim (NextFrom-outcomes s 3 0 a) [
    | inl (m, i, p, t, lo, hi, f, g, before) ↦
        inl (m, i, p, t, omega arith, f, g, λ h j b c. before h j (omega arith) b c)
    | inr (f, before) ↦ inr (f, λ h j b c. before h j (omega arith) (omega arith) c)
  ]
