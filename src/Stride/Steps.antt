-- ===== src/Stride/Steps.antt =====
-- The calls of ex_project3/HYU-ELE3021/xv6-public/mlfq.c as steps, in any order. A step is a whole call.
use operating_system.Common.{
  ℕ, ◌<◌, ◌≤◌, ◌≡◌, ◌≢◌, inl, inr, subst, Bool, true, false, some, ℤ, ok, same_state, arith,
}
use operating_system.Stride.State.{Float, nproc, Proc, client, Sched}
use operating_system.Stride.Queues.{mlfq_init, mlfq_append, mlfq_cpu_share, mlfq_delete}
use operating_system.Stride.Turns.{Locals, before_switch, after_switch}
use operating_system.Stride.Invariant.{
  WellFormed, Unqueued, FloatLaws, Same, Same-WellFormed, mlfq_init-WellFormed,
}
use operating_system.Stride.Shares.{ticket-le_total}
use operating_system.Stride.Operations.{append_outcomes, delete_outcomes}
use operating_system.Stride.Minimum.{OrderLaws}
use operating_system.Stride.Moves.{InPlace}
use operating_system.Stride.Frames.{Request, cpu_share-Asked}
use operating_system.Stride.Begin.{before_switch-Began}
use operating_system.Stride.Rounds.{after_switch_outcome}

-- allocproc appends a process; a process asks for a share of the time, and gets one once at most; wait
-- deletes one; a scheduler begins a round and ends it; and what runs between changes other parts of the
-- processes.
pub data Step (fl : Float) (s r : Sched fl) : Type 0 where
  created :
      (p : ℕ) (b : Bool) → p < nproc → Unqueued p s → mlfq_append fl p 0 s ≡ ok (b, r) → Step fl s r
  asked :
      (p : ℕ) (usage : ℤ) (b : Bool)
      → InPlace s p
      → Request fl s p usage b
      → mlfq_cpu_share fl p usage s ≡ ok (b, r)
      → Step fl s r
  deleted : (p : ℕ) → InPlace s p → mlfq_delete fl p s ≡ ok (tt, r) → Step fl s r
  begun : (now : ℕ) (v w : Locals) → before_switch fl now v s ≡ ok (w, r) → Step fl s r
  ended :
      (p start end_time : ℕ) (v w : Locals)
      → InPlace s p
      → after_switch fl p start end_time v s ≡ ok (w, r)
      → Step fl s r
  ran : Same s r → ((l : ℕ) → r.iterstate l ≡ s.iterstate l) → Step fl s r

pub data Reach (fl : Float) (procs : ℕ → Proc) : Sched fl → Type 0 where
  here : Reach fl procs (mlfq_init fl procs)
  after : {s r : Sched fl} → Reach fl procs s → Step fl s r → Reach fl procs r

-- What holds at all times of the shares and of the places of the processes.
pub record Sound {fl : Float} (s : Sched fl) : Type 0 where
  pub feedback_share : 20 ≤ s.stride.ticket 0
  pub client_share :
      (i p : ℕ) → s.stride.queue i ≡ client p → (0 < s.stride.ticket i) × (s.stride.ticket i ≤ 80)
  pub one_place : (l i m j p : ℕ) → s.queue l i ≡ some p → s.queue m j ≡ some p → (l ≡ m) × (i ≡ j)
  pub one_client : (i j p : ℕ) → s.stride.queue i ≡ client p → s.stride.queue j ≡ client p → i ≡ j
  pub not_both : (l i j p : ℕ) → s.queue l i ≡ some p → s.stride.queue j ≢ client p

module _ (fl : Float) (laws : FloatLaws fl) (order : OrderLaws fl) where
  Step-WellFormed : (s r : Sched fl) → WellFormed s → Step fl s r → WellFormed r
  Step-WellFormed s r w (created p b a u e) = elim (append_outcomes fl s p 0 w u a (omega arith)) [
    | inl (i, f, g, wr) ↦ subst WellFormed (same_state (mlfq_append fl p 0) true b s _ r g e) wr
    | inr (g, full) ↦ subst WellFormed (same_state (mlfq_append fl p 0) false b s s r g e) w
  ]
  Step-WellFormed s r w (asked p u b a h e) = (cpu_share-Asked fl s r p u b w a h e).wf
  Step-WellFormed s r w (deleted p a e) =
      let (t, f, wt, gone) = delete_outcomes fl s p w a in
      subst WellFormed (same_state (mlfq_delete fl p) tt tt s t r f e) wt
  Step-WellFormed s r w (begun now v u e) = (before_switch-Began fl laws order s r now v u w e).wf
  Step-WellFormed s r w (ended p start end_time v u a e) =
      let (x, t, f, wt, cur, boost) = after_switch_outcome fl s p start end_time v laws w a in
      subst WellFormed (same_state (after_switch fl p start end_time v) x u s t r f e) wt
  Step-WellFormed s r w (ran same its) = Same-WellFormed s r w same (λ l. rw (its l) (w.iters l))

  Reach-WellFormed : {procs : ℕ → Proc} {s : Sched fl} → Reach fl procs s → WellFormed s
  Reach-WellFormed here = mlfq_init-WellFormed fl _
  Reach-WellFormed (after {s} {r} h st) = Step-WellFormed s r (Reach-WellFormed h) st

  pub WellFormed-Sound : {s : Sched fl} → WellFormed s → Sound s
  WellFormed-Sound {s} w = record {
    feedback_share = omega (arith, w.whole, w.limit);
    client_share = λ i p e.
        let (lo, hi, pp, lev, ind, more) = w.enlisted i p e in
        (more, omega (arith, w.limit, ticket-le_total fl s i w lo hi));
    one_place = λ l i m j p e f. ground (arith, w.placed l i p, w.placed m j p);
    one_client = λ i j p e f. ground (arith, w.enlisted i p, w.enlisted j p);
    not_both = λ l i j p e f. ground (arith, w.placed l i p, w.enlisted j p);
  }

  -- In whatever order the calls of the scheduler follow each other from mlfq_init on, as long as
  -- mlfq_cpu_share does not give a process that has a share of the time another one: the feedback
  -- queue has a share of at least 20 and a process of the stride scheduler one between 1 and 80, so
  -- that stride_update never divides by zero; and no process stands in two places, be it of the
  -- queues or of the stride scheduler. No call is interrupted by another one, and each returns. A
  -- process is appended when it is in no place, and the other calls are made for a process that is
  -- in one. The share asked for is an int. Of the floats it is assumed that -1 is equal to itself
  -- and not positive, and that the order on them is a strict weak one.
  pub Reach-Sound : {procs : ℕ → Proc} {s : Sched fl} → Reach fl procs s → Sound s
  Reach-Sound h = WellFormed-Sound (Reach-WellFormed h)
