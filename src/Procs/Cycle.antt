-- ===== src/Procs/Cycle.antt =====
-- ex_project3/HYU-ELE3021/xv6-public/proc.c: next_thread goes round the threads of a process.
use operating_system.Common.{
  ℕ, zero, suc, ◌+◌, ◌-◌, ◌<◌, ◌≤◌, ◌≡◌, ◌≢◌, ◌⊎◌, inl, inr, refl, sym, ap, ◌∙◌, subst, ◌==◌, ltb,
  ◌>>◌, Option, none, some, List, set, get_elem?, get_elem?-beyond, length, ok, bind_ok, zoom_ok,
  arith, pure, Bool-cases,
}
use operating_system.Mlfq.Spinlock.{ptable_lock, acquire, release}
use operating_system.Mlfq.Proc.{Procstate, runnable, running, eqb_Procstate}
use operating_system.Stride.State.{Float, Proc}
use operating_system.Procs.State.{Kernel, put_cpu, lock, unlock, in_next_idle}
use operating_system.Procs.Switch.{
  Found, found, no_other, found_or, find_other, Switched, stayed, to_scheduler, to_thread,
  switch_thread, next_thread, sched,
}

-- The threads between `t` and `j` on the way round.
abbrev pub Passed : ℕ → ℕ → ℕ → Type 0
Passed t j i = ((t < i) × (i < j)) ⊎ ((j < t) × ((t < i) ⊎ (i < j)))

abbrev pub Ready : List Procstate → ℕ → Type 0
Ready ts i = get_elem? ts i ≡ some runnable

-- The runnable thread that comes first behind `t`, or that there is none but `t`.
abbrev pub Turned : List Procstate → ℕ → Found → Type 0
Turned ts t f =
    ((j : ℕ) × (f ≡ found j) × (j ≢ t) × Ready ts j × ((i : ℕ) → Passed t j i → ¬ Ready ts i))
    ⊎ ((f ≡ no_other) × ((i : ℕ) → i ≢ t → ¬ Ready ts i))

found_or_cases :
    (i : ℕ) (o : Option Procstate) (rest : Found)
    → ((o ≡ some runnable) × (found_or i o rest ≡ found i))
      ⊎ ((o ≢ some runnable) × (found_or i o rest ≡ rest))
found_or_cases i none rest = inr (λ e. cc e, refl)
found_or_cases i (some x) rest = elim (Bool-cases (eqb_Procstate x runnable)) [
  | inl h ↦ inl (ground (arith, h), rw h refl)
  | inr h ↦ inr (λ e. ground (arith, e, h), rw h refl)
]

find_other_step :
    (ts : List Procstate) (t n i : ℕ)
    → i < length ts
    → i ≢ t
    → find_other ts t (suc n) i ≡ found_or i (get_elem? ts i) (find_other ts t n (i + 1))
unfolding find_other
find_other_step ts t n i lt d = ground arith

find_other_wrap :
    (ts : List Procstate) (t n : ℕ)
    → t < length ts
    → find_other ts t (suc n) (length ts) ≡ find_other ts t (suc n) 0
unfolding find_other
find_other_wrap ts t n lt = ground arith

find_other_end :
    (ts : List Procstate) (t n : ℕ) → t < length ts → find_other ts t (suc n) t ≡ no_other
unfolding find_other
find_other_end ts t n lt = ground arith

-- The way from thread `i` up to thread `t`, where none was runnable so far.
find_other_low :
    (ts : List Procstate) (t n i : ℕ)
    → t < length ts
    → i ≤ t
    → t < i + n
    → ((j : ℕ) → (t < j) ⊎ (j < i) → ¬ Ready ts j)
    → Turned ts t (find_other ts t n i)
find_other_low ts t zero i lt le fuel h = absurd (omega arith)
find_other_low ts t (suc n) i lt le fuel h = elim (Bool-cases (i == t)) [
  | inl e ↦ inr (
    subst (λ z. find_other ts t (suc n) z ≡ no_other) (ground arith) (find_other_end ts t n lt),
    λ j d r. h j (ground arith) r,
  )
  | inr e ↦
      let step = find_other_step ts t n i (omega arith) (ground arith) in
      elim (found_or_cases i (get_elem? ts i) (find_other ts t n (i + 1))) [
        | inl (ready, f) ↦ inl (i, step ∙ f, ground arith, ready, λ j b r. h j (ground arith) r)
        | inr (not_ready, f) ↦ subst (Turned ts t) (sym (step ∙ f)) (
            find_other_low ts t n (i + 1) lt (ground arith) (omega arith) (λ j b r.
              elim (Bool-cases (i == j)) [
                | inl s ↦ not_ready (subst (λ z. Ready ts z) (ground arith) r)
                | inr s ↦ h j (ground arith) r
              ]))
      ]
]

Ready-below : (ts : List Procstate) (j : ℕ) → Ready ts j → j < length ts
Ready-below ts j r = elim (Bool-cases (ltb j (length ts))) [
  | inl b ↦ ground arith
  | inr b ↦ absurd (cc (r, get_elem?-beyond ts j (ground arith)))
]

-- The way from thread `i` up to the last one, and on from the first.
find_other_high :
    (ts : List Procstate) (t m n i : ℕ)
    → t < i
    → i + m ≡ length ts
    → m + t < n
    → ((j : ℕ) → t < j → j < i → ¬ Ready ts j)
    → Turned ts t (find_other ts t n i)
find_other_high ts t m zero i b e fuel h = absurd (omega arith)
find_other_high ts t zero (suc n) i b e fuel h =
    let last : i ≡ length ts = omega arith in
    subst (λ z. Turned ts t (find_other ts t (suc n) z)) (sym last)
      (subst (Turned ts t) (sym (find_other_wrap ts t n (omega arith))) (
        find_other_low ts t (suc n) 0 (omega arith) (omega arith) (omega arith) (λ j d r. elim d [
          | inl above ↦ h j above (omega (arith, Ready-below ts j r)) r
          | inr below ↦ omega arith
        ])))
find_other_high ts t (suc m) (suc n) i b e fuel h =
    let step = find_other_step ts t n i (omega arith) (λ z. omega arith) in
    elim (found_or_cases i (get_elem? ts i) (find_other ts t n (i + 1))) [
      | inl (ready, f) ↦
          inl (i, step ∙ f, (λ z. omega arith), ready, λ j c r. h j (ground arith) (ground arith) r)
      | inr (not_ready, f) ↦ subst (Turned ts t) (sym (step ∙ f)) (
          find_other_high ts t m n (i + 1) (omega arith) (omega arith) (omega arith) (λ j c d r.
            elim (Bool-cases (i == j)) [
              | inl s ↦ not_ready (subst (λ z. Ready ts z) (ground arith) r)
              | inr s ↦ h j c (ground arith) r
            ]))
    ]

-- The search of next_thread.
find_other_outcomes :
    (ts : List Procstate) (t : ℕ)
    → t < length ts
    → Turned ts t (find_other ts t (length ts) (t + 1))
find_other_outcomes ts t lt =
    find_other_high ts t (length ts - (t + 1)) (length ts) (t + 1) (omega arith) (omega arith)
      (omega arith) (λ j b c. absurd (omega arith))

module _ (fl : Float) where
  -- What next_thread has done for a process whose threads and current thread were these.
  abbrev pub Turn : List Procstate → ℕ → Switched → Proc → Type 0
  Turn ts t a q =
      ((j : ℕ) × (a ≡ to_thread j)
        × (j ≢ t)
        × Ready ts j
        × ((i : ℕ) → Passed t j i → ¬ Ready ts i)
        × (q.threads ≡ set (set ts t runnable) j running)
        × (q.tidx ≡ j))
      ⊎ (((i : ℕ) → i ≢ t → ¬ Ready ts i)
          × (((a ≡ stayed) × (get_elem? ts t ≡ some running) × (q.threads ≡ ts))
              ⊎ ((a ≡ to_scheduler) × (get_elem? ts t ≢ some running))))

  stay_cases :
      (k r : Kernel fl) (p t : ℕ) (a : Switched) (o : Option Procstate)
      → get_elem? (k.sched.proc p).threads t ≡ o
      → switch_thread fl p t no_other k ≡ ok (a, r)
      → ((a ≡ stayed) × (o ≡ some running) × (r.sched ≡ k.sched))
        ⊎ ((a ≡ to_scheduler) × (o ≢ some running))
  stay_cases k r p t a none g e = absurd (cc (e, g))
  stay_cases k r p t a (some x) g e = elim (Bool-cases (eqb_Procstate x running)) [
    | inl h ↦
        let f : (unlock fl ptable_lock >> pure stayed) k ≡ ok (a, r) = ground (arith, e, g, h) in
        let (u, s, c, d) = bind_ok (unlock fl ptable_lock) (λ u. pure stayed) k r a f in
        let (cpu, i, j) = zoom_ok (λ k. k.cpu) (put_cpu fl) (release ptable_lock) k s u c in
        let last : s ≡ r = cc d in inl (cc d, ground (arith, h), ap (λ z. z.sched) (sym (j ∙ last)))
    | inr h ↦
        let f : (sched fl in_next_idle >> pure to_scheduler) k ≡ ok (a, r) =
          ground (arith, e, g, h) in
        let (u, s, c, d) = bind_ok (sched fl in_next_idle) (λ u. pure to_scheduler) k r a f in
        inr (cc d, λ z. ground (arith, z, h))
  ]

  switched_lem :
      (k r : Kernel fl) (p t : ℕ) (a : Switched) (f : Found)
      → (k.sched.proc p).tidx ≡ t
      → Turned (k.sched.proc p).threads t f
      → switch_thread fl p t f k ≡ ok (a, r)
      → Turn (k.sched.proc p).threads t a (r.sched.proc p)
  switched_lem k r p t a f now (inl (j, g, d, ready, passed)) e =
      let h : switch_thread fl p t (found j) k ≡ ok (a, r) =
        subst (λ z. switch_thread fl p t z k ≡ ok (a, r)) g e in
      let q : Proc = record (k.sched.proc p) {
        threads = set (set (k.sched.proc p).threads t runnable) j running;
        tidx = j;
      } in
      let entry : r.sched.proc p ≡ q = ground (arith, h) in
      inl
        (j, ground (arith, h), d, ready, passed, ap (λ z. z.threads) entry, ap (λ z. z.tidx) entry)
  switched_lem k r p t a f now (inr (g, others)) e =
      let h : switch_thread fl p t no_other k ≡ ok (a, r) =
        subst (λ z. switch_thread fl p t z k ≡ ok (a, r)) g e in
      inr (
        others,
        elim (stay_cases k r p t a (get_elem? (k.sched.proc p).threads t) refl h) [
          | inl (x, y, z) ↦ inl (x, y, ap (λ s. (s.proc p).threads) z)
          | inr (x, y) ↦ inr (x, y)
        ],
      )

  -- next_thread goes on with the runnable thread that comes first behind the current one, on the way round
  -- the threads of the process: that thread becomes RUNNING and the current one RUNNABLE. Where no other
  -- thread is runnable, it returns to a current thread that is RUNNING, and nothing of the threads changes;
  -- else it switches to the scheduler. This holds whenever next_thread does not panic.
  pub next_thread_outcomes :
      (k r : Kernel fl) (p : ℕ) (a : Switched)
      → (k.sched.proc p).tidx < length (k.sched.proc p).threads
      → next_thread fl p k ≡ ok (a, r)
      → Turn (k.sched.proc p).threads (k.sched.proc p).tidx a (r.sched.proc p)
  unfolding next_thread
  next_thread_outcomes k r p a lt e =
      let q : Proc = k.sched.proc p in
      let f : Found = find_other q.threads q.tidx (length q.threads) (q.tidx + 1) in
      let (u, s, c, d) = bind_ok (lock fl ptable_lock) (λ u. switch_thread fl p q.tidx f) k r a e in
      let (cpu, i, j) = zoom_ok (λ k. k.cpu) (put_cpu fl) (acquire ptable_lock) k s u c in
      let h : switch_thread fl p q.tidx f (put_cpu fl k cpu) ≡ ok (a, r) =
        subst (λ z. switch_thread fl p q.tidx f z ≡ ok (a, r)) (sym j) d in
      switched_lem (put_cpu fl k cpu) r p q.tidx a f refl (find_other_outcomes q.threads q.tidx lt)
        h
