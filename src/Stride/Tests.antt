-- ===== src/Stride/Tests.antt =====
-- The scheduler of ex_project3/HYU-ELE3021/xv6-public/mlfq.c on concrete processes, with numbers of three
-- decimal places in the place of floats.
use operating_system.Common.{
  ℕ, ◌<◌, ◌≤◌, ◌≡◌, ◌≢◌, ◌⊎◌, inl, inr, refl, true, false, none, some, [], ◌∷◌, pos, ok, arith,
  update,
}
use operating_system.Mlfq.Proc.{sleeping, runnable}
use operating_system.Stride.State.{nproc, nmlfq, Proc, client, Sched, find_place}
use operating_system.Stride.Tickets.{enlist, stride_init, stride_append}
use operating_system.Stride.Queues.{
  mlfq_init, enqueue, mlfq_append, mlfq_cpu_share, mlfq_next, mlfq_boost, clear_place, put_queue,
  next, picked, ready_in,
}
use operating_system.Stride.Turns.{Locals, after_switch}
use operating_system.Stride.Invariant.{
  WellFormed, Unqueued, mlfq_init-WellFormed, enqueue-WellFormed,
}
use operating_system.Stride.Shares.{enlist-WellFormed}
use operating_system.Stride.Operations.{Shared, Refusal, cpu_share_outcomes}
use operating_system.Stride.Boost.{boost_outcome}
use operating_system.Stride.Choice.{Scanned, next_outcomes}
use operating_system.Stride.Rounds.{after_switch_outcome}
use operating_system.Stride.Fixed.{fixed, fixed-FloatLaws, fixed-OrderLaws}
use operating_system.Stride.Twice.{Twice}
use operating_system.Stride.Steps.{here, after, created, asked, Sound, Reach-Sound}

-- A process with a sleeping and a runnable thread.
abbrev procs : ℕ → Proc
procs p = record {
  threads = sleeping ∷ runnable ∷ [];
  tidx = 0;
  state = runnable;
  killed = false;
  level = pos 0;
  index = 0;
  elapsed = 0;
  start = 0;
}

abbrev s0 : Sched fixed
s0 = mlfq_init fixed procs

-- The process 5 in the feedback queue.
abbrev s1 : Sched fixed
s1 = enqueue fixed 5 0 0 s0

-- The process 6 beside it.
abbrev s2 : Sched fixed
s2 = enqueue fixed 6 0 1 s1

-- The process 7 with a share of 30.
abbrev s3 : Sched fixed
s3 = enlist fixed 7 (pos 30) 1 s2

s0-Unqueued : (p : ℕ) → Unqueued p s0
unfolding mlfq_init stride_init
s0-Unqueued p = record { no_queue = λ l i e. cc e; no_client = λ i e. ground arith }

s1-Unqueued : (p : ℕ) → p ≢ 5 → Unqueued p s1
unfolding mlfq_init stride_init enqueue
s1-Unqueued p d = record { no_queue = λ l i e. ground arith; no_client = λ i e. ground arith }

s2-Unqueued : Unqueued 7 s2
unfolding mlfq_init stride_init enqueue
s2-Unqueued = record { no_queue = λ l i e. ground arith; no_client = λ i e. ground arith }

s1-WellFormed : WellFormed s1
s1-WellFormed =
    enqueue-WellFormed fixed s0 5 0 0 (mlfq_init-WellFormed fixed procs) (s0-Unqueued 5)
      (omega arith) (omega arith) (omega arith)

s2-WellFormed : WellFormed s2
s2-WellFormed =
    enqueue-WellFormed fixed s1 6 0 1 s1-WellFormed (s1-Unqueued 6 (omega arith)) (omega arith)
      (omega arith) (omega arith)

s3-WellFormed : WellFormed s3
s3-WellFormed =
    enlist-WellFormed fixed s2 7 30 1 s2-WellFormed s2-Unqueued (omega arith) (omega arith)
      (unfold mlfq_init stride_init enqueue in omega arith)
      (unfold mlfq_init stride_init enqueue in refl) (omega arith)

created_5 : mlfq_append fixed 5 0 s0 ≡ ok (true, s1)
unfolding mlfq_append mlfq_init find_place
created_5 = refl

-- The process 5 with a share of 30.
abbrev s4 : Sched fixed
s4 = enlist fixed 5 (pos 30) 1 (put_queue fixed 0 0 none s1)

asked_5 : mlfq_cpu_share fixed 5 (pos 30) s1 ≡ ok (true, s4)
unfolding mlfq_cpu_share mlfq_init enqueue enlist clear_place stride_append find_place
asked_5 = refl

s1-stands : s1.queue 0 0 ≡ some 5
unfolding enqueue
s1-stands = refl

level_5 : (s1.proc 5).level ≡ pos 0
unfolding enqueue
level_5 = refl

s3-listed : s3.stride.queue 1 ≡ client 7
unfolding enlist
s3-listed = refl

abbrev locals : Locals
locals = record { keep_it = next; cur = none; idx = 0; boost = 200; boostunit = 200 }

Reach-Sound_example : Sound s4
Reach-Sound_example = Reach-Sound fixed fixed-FloatLaws fixed-OrderLaws {procs = procs} {s = s4} (
    after (after here (created 5 true (omega arith) (s0-Unqueued 5) created_5)) (
      asked 5 (pos 30) true (inl (0, 0, s1-stands))
        (record { int = λ u e. ground arith; once = λ e. ground (arith, level_5, e) }) asked_5))

after_switch_outcome_example :
    (w : Locals) × (r : Sched fixed) × (after_switch fixed 7 90 300 locals s3 ≡ ok (w, r))
    × WellFormed r
    × (w.cur ≡ some 7)
    × (w.boost ≡ 400)
after_switch_outcome_example =
    after_switch_outcome fixed s3 7 90 300 locals fixed-FloatLaws s3-WellFormed (inr (1, s3-listed))

next_outcomes_example :
    ((l i p t : ℕ) × (l < nmlfq)
      × (mlfq_next fixed s2 ≡ ok (some (p, t), record s2 { iterstate = update s2.iterstate l i }))
      × Scanned s2 l (s2.iterstate l) (picked i p t)
      × ((h j : ℕ) → h < l → j < nproc → ready_in fixed s2 (s2.queue h j) ≡ none))
    ⊎ ((mlfq_next fixed s2 ≡ ok (none, s2))
        × ((h j : ℕ) → h < nmlfq → j < nproc → ready_in fixed s2 (s2.queue h j) ≡ none))
next_outcomes_example = next_outcomes fixed s2 s2-WellFormed.iters

boost_outcome_example :
    (t : Sched fixed) × (mlfq_boost fixed s2 ≡ ok (tt, t))
    × WellFormed t
    × ((m j : ℕ) → 1 ≤ m → t.queue m j ≡ none)
    × ((p a b : ℕ)
        → s2.queue a b ≡ some p
        → (d : ℕ) × (t.queue 0 d ≡ some p) × ((a ≡ 0) → b ≡ d) × ((t.proc p).level ≡ pos 0))
boost_outcome_example = boost_outcome fixed s2 s2-WellFormed

cpu_share_outcomes_example :
    ((r : Sched fixed) × (mlfq_cpu_share fixed 5 (pos 30) s1 ≡ ok (true, r))
      × Shared fixed s1 r 5 30)
    ⊎ ((mlfq_cpu_share fixed 5 (pos 30) s1 ≡ ok (false, s1)) × Refusal fixed s1 30)
cpu_share_outcomes_example =
    cpu_share_outcomes fixed s1 5 0 0 30 s1-WellFormed s1-stands (omega arith)
