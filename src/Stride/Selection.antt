-- ===== src/Stride/Selection.antt =====
-- mlfq_scheduler of ex_project3/HYU-ELE3021/xv6-public/mlfq.c: the choice of a process by the stride
-- scheduler and the feedback queue together.
use operating_system.Common.{
  ℕ, ◌<◌, ◌≡◌, ◌⊎◌, inl, inr, refl, sym, ap, ◌∙◌, subst, get, true, false, Option, none, some, ok,
  ◌>>=◌, pure, update, arith, Option-cases,
}
use operating_system.Stride.State.{
  Float, nproc, nmlfq, Client, feedback, client, Sched, find_runnable,
}
use operating_system.Stride.Tickets.{Choice, stride_next}
use operating_system.Stride.Queues.{ready_in, with_thread}
use operating_system.Stride.Turns.{resolve, idx_after, choose_anew}
use operating_system.Stride.Invariant.{WellFormed, FloatLaws, Same, Same-WellFormed}
use operating_system.Stride.Choice.{next_outcomes}
use operating_system.Stride.Minimum.{OrderLaws, Ready, Least, stride_next-Least}

-- No process with a runnable thread stands in a level above `l`.
abbrev pub NoneAbove : {fl : Float} → Sched fl → ℕ → Type 0
NoneAbove {fl} s l = (h j : ℕ) → h < l → j < nproc → ready_in fl s (s.queue h j) ≡ none

-- The place `i` of the stride scheduler has a pass that is not larger than that of the feedback queue or
-- of a process with a runnable thread.
abbrev pub Minimal : {fl : Float} → Sched fl → ℕ → Type 0
Minimal {fl} s i =
    (fl.lt (s.stride.pass 0) (s.stride.pass i) ≡ false)
    × ((j t : ℕ)
        → 0 < j
        → j < nproc
        → Ready s j t
        → fl.lt (s.stride.pass j) (s.stride.pass i) ≡ false)

-- The pass at the place is smaller than that of the feedback queue, and than that of each process with a
-- runnable thread at a place in front of it.
abbrev pub First : {fl : Float} → Sched fl → ℕ → Type 0
First {fl} s i =
    (fl.lt (s.stride.pass i) (s.stride.pass 0) ≡ true)
    × ((j t : ℕ) → 0 < j → j < i → Ready s j t → fl.lt (s.stride.pass i) (s.stride.pass j) ≡ true)

-- Where the process stands that is chosen: at the first minimal place of the stride scheduler; or, with the
-- feedback queue's place minimal, in a level above which no thread is runnable.
abbrev pub Chosen : {fl : Float} → Sched fl → ℕ → Type 0
Chosen s p =
    ((i : ℕ) × (s.stride.queue i ≡ client p) × Minimal s i × First s i)
    ⊎ ((l i : ℕ) × (s.queue l i ≡ some p) × Minimal s 0 × NoneAbove s l)

module _ (fl : Float) where
  -- A process is chosen with its first runnable thread; only iterators have moved.
  abbrev pub Picks : Sched fl → ℕ → Type 0
  Picks s idx =
      (r : Sched fl) × (p t : ℕ) × (choose_anew fl idx s ≡ ok ((some (p, t), t), r))
      × (find_runnable 0 (s.proc p).threads ≡ some t)
      × Chosen s p
      × Same s r
      × (r.proc ≡ s.proc)
      × WellFormed r

  -- Nothing is chosen: no process of the queues has a runnable thread, and a process of the stride
  -- scheduler with one has a pass that is not below that of the queues.
  abbrev pub Idles : Sched fl → ℕ → Type 0
  Idles s idx = (choose_anew fl idx s ≡ ok ((none, idx), s)) × NoneAbove s nmlfq × Minimal s 0

  choose_anew_lem :
      (s : Sched fl) (idx : ℕ) (c : Choice) (q : Client)
      → stride_next fl s ≡ ok (c, s)
      → s.stride.queue c.place ≡ q
      → choose_anew fl idx s ≡ (resolve fl idx q c.thread >>= λ r. pure (r, idx_after idx r)) s
  unfolding choose_anew
  choose_anew_lem s idx c q a b = rw (◌>>=◌, get, a, b) refl

  ready_in-find :
      (s : Sched fl) (o : Option ℕ) (p t : ℕ)
      → ready_in fl s o ≡ some (p, t)
      → (o ≡ some p) × (find_runnable 0 (s.proc p).threads ≡ some t)
  ready_in-find s none p t e = absurd (ground (arith, e))
  ready_in-find s (some q) p t e = elim (Option-cases (find_runnable 0 (s.proc q).threads)) [
    | inl f ↦ absurd (ground (arith, e, f))
    | inr (u, f) ↦
        let same : with_thread q (some u) ≡ some (p, t) = ap (with_thread q) (sym f) ∙ e in
        ground (arith, same, f)
  ]

  Chosen-client :
      (s : Sched fl) (c : Choice) (i p : ℕ)
      → Least s nproc c
      → c.place ≡ i
      → 0 < i
      → s.stride.queue i ≡ client p
      → Chosen s p
  Chosen-client s c i p v e z f = inl (
    i,
    f,
    (
      subst (λ k. fl.lt (s.stride.pass 0) (s.stride.pass k) ≡ false) e v.head,
      λ j t a b r.
          subst (λ k. fl.lt (s.stride.pass j) (s.stride.pass k) ≡ false) e (v.least j t a b r),
    ),
    (
      subst (λ k. fl.lt (s.stride.pass k) (s.stride.pass 0) ≡ true) e
          (v.under_head (omega (arith, e))),
      λ j t a b r.
          subst (λ k. fl.lt (s.stride.pass k) (s.stride.pass j) ≡ true) e
            (v.first j t a (omega (arith, e)) r),
    ),
  )

  -- What the choice does where the stride scheduler chose the feedback queue.
  choose_feedback :
      (s : Sched fl) (idx : ℕ) (c : Choice)
      → WellFormed s
      → Least s nproc c
      → stride_next fl s ≡ ok (c, s)
      → c.place ≡ 0
      → Picks s idx ⊎ Idles s idx
  choose_feedback s idx c w v e z =
      let mini : Minimal s 0 = (
        subst (λ k. fl.lt (s.stride.pass 0) (s.stride.pass k) ≡ false) z v.head,
        λ j t a b r.
            subst (λ k. fl.lt (s.stride.pass j) (s.stride.pass k) ≡ false) z (v.least j t a b r),
      ) in
      let whole = choose_anew_lem s idx c feedback e (ap s.stride.queue z ∙ w.head) in
      elim (next_outcomes fl s w.iters) [
        | inl (l, i, p, t, lo, f, (hi, g, before), above) ↦
            let r : Sched fl = record s { iterstate = update s.iterstate l i } in
            let same : Same s r = record {
              queues = λ m j. refl;
              stride = refl;
              level = λ q. refl;
              index = λ q. refl;
            } in
            let (stands, runs) = ready_in-find s (s.queue l i) p t g in
            inl (
              r,
              p,
              t,
              whole ∙ rw (◌>>=◌, f) refl,
              runs,
              inr (l, i, stands, mini, above),
              same,
              refl,
              Same-WellFormed s r w same (λ m. ground (arith, w.iters m)),
            )
        | inr (f, above) ↦ inr (whole ∙ rw (◌>>=◌, f) refl, λ h j a b. above h j a b, mini)
      ]

  -- A new choice of mlfq_scheduler always returns, where the queues are well-formed and the order on the
  -- passes is a strict weak one. Either a process with its first runnable thread is chosen, which stands at
  -- the first place of the stride scheduler with a minimal pass, below that of the feedback queue, or, where the place of the feedback queue has a
  -- minimal pass, in the highest level with a runnable thread; then only an iterator has changed. Or
  -- nothing is chosen and nothing changes: no process of the feedback queue has a runnable thread, and
  -- the place of the feedback queue has a minimal pass.
  pub choose_outcomes :
      (s : Sched fl) (idx : ℕ)
      → FloatLaws fl
      → OrderLaws fl
      → WellFormed s
      → Picks s idx ⊎ Idles s idx
  choose_outcomes s idx laws order w =
      let (c, e, v) = stride_next-Least fl laws order s w in
      elim v.valid [
        | inl (z, q) ↦ choose_feedback s idx c w v e z
        | inr (t, q, r) ↦ inl (
          s,
          r.who,
          t,
          choose_anew_lem s idx c (client r.who) e r.listed ∙ rw q refl,
          r.runs,
          Chosen-client s c c.place r.who v refl (ground (arith, w.enlisted c.place r.who r.listed))
              r.listed,
          record { queues = λ l i. refl; stride = refl; level = λ p. refl; index = λ p. refl },
          refl,
          w,
        )
      ]
