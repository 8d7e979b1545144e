-- ===== src/Stride/Invariant.antt =====
-- The invariant of the queues and of the tickets, and that the operations keep it.
use operating_system.Common.{
  ℕ, suc, ◌+◌, ◌-◌, ◌<◌, ◌≤◌, ◌≡◌, ◌≢◌, refl, true, false, none, some, pos, negsuc, arith,
  sum_below,
}
use operating_system.Stride.State.{Float, nproc, nmlfq, Proc, feedback, client, Sched, is_empty}
use operating_system.Stride.Tickets.{empty_pass, stride_init, stride_update}
use operating_system.Stride.Queues.{mlfq_init, put_queue, enqueue, charge}

-- What the marks of empty places ask of the type float: -1 is equal to itself and not positive.
pub record FloatLaws (fl : Float) : Type 0 where
  pub neg_eq : fl.eq (fl.of_int (negsuc 0)) (fl.of_int (negsuc 0)) ≡ true
  pub neg_not_pos : fl.lt (fl.of_int (pos 0)) (fl.of_int (negsuc 0)) ≡ false

-- Each process in a place of the queues or of the stride scheduler knows that place. The tickets of the
-- feedback queue and those of the processes are max_ticket together, and those of the processes
-- max_stride at most. An empty place of the stride scheduler has no ticket and the pass -1. The iterators
-- point into their levels.
pub record WellFormed {fl : Float} (s : Sched fl) : Type 0 where
  pub placed :
      (l i p : ℕ)
      → s.queue l i ≡ some p
      → (l < nmlfq)
        × (i < nproc)
        × (p < nproc)
        × ((s.proc p).level ≡ pos l)
        × ((s.proc p).index ≡ i)
  pub enlisted :
      (i p : ℕ)
      → s.stride.queue i ≡ client p
      → (0 < i)
        × (i < nproc)
        × (p < nproc)
        × ((s.proc p).level ≡ negsuc 0)
        × ((s.proc p).index ≡ i)
        × (0 < s.stride.ticket i)
  pub head : s.stride.queue 0 ≡ feedback
  pub only_head : (i : ℕ) → s.stride.queue i ≡ feedback → i ≡ 0
  pub whole : s.stride.total + s.stride.ticket 0 ≡ 100
  pub limit : s.stride.total ≤ 80
  pub shares : s.stride.total ≡ sum_below (nproc - 1) (λ i. s.stride.ticket (suc i))
  pub vacant :
      (i : ℕ)
      → is_empty (s.stride.queue i) ≡ true
      → (s.stride.ticket i ≡ 0) × (s.stride.pass i ≡ empty_pass fl)
  pub iters : (l : ℕ) → s.iterstate l < nproc

-- A process is in no place.
pub record Unqueued {fl : Float} (p : ℕ) (s : Sched fl) : Type 0 where
  pub no_queue : (l i : ℕ) → s.queue l i ≢ some p
  pub no_client : (i : ℕ) → s.stride.queue i ≢ client p

module _ (fl : Float) where
  pub mlfq_init-WellFormed : (procs : ℕ → Proc) → WellFormed (mlfq_init fl procs)
  unfolding mlfq_init stride_init
  mlfq_init-WellFormed procs = record {
    placed = λ l i p e. cc;
    enlisted = λ i p e. ground arith;
    head = refl;
    only_head = λ i e. ground arith;
    whole = refl;
    limit = omega arith;
    shares = refl;
    vacant = λ i e. ground arith;
    iters = λ l. omega arith;
  }

  pub enqueue-WellFormed :
      (s : Sched fl) (p l i : ℕ)
      → WellFormed s
      → Unqueued p s
      → p < nproc
      → l < nmlfq
      → i < nproc
      → WellFormed (enqueue fl p l i s)
  unfolding enqueue
  enqueue-WellFormed s p l i w a b c d = record {
    placed = λ m j q e. ground (arith, w.placed m j q, a.no_queue m j);
    enlisted = λ j q e. ground (arith, w.enlisted j q, a.no_client j);
    head = w.head;
    only_head = λ j e. w.only_head j e;
    whole = w.whole;
    limit = w.limit;
    shares = w.shares;
    vacant = λ j e. w.vacant j e;
    iters = λ m. w.iters m;
  }

  -- A process that is taken out of its place in the queues is in no place.
  pub clear-WellFormed :
      (s : Sched fl) (p l i : ℕ)
      → WellFormed s
      → s.queue l i ≡ some p
      → WellFormed (put_queue fl l i none s) × Unqueued p (put_queue fl l i none s)
  clear-WellFormed s p l i w e = (
    record {
      placed = λ m j q f. ground (arith, w.placed m j q);
      enlisted = λ j q f. w.enlisted j q f;
      head = w.head;
      only_head = λ j f. w.only_head j f;
      whole = w.whole;
      limit = w.limit;
      shares = w.shares;
      vacant = λ j f. w.vacant j f;
      iters = λ m. w.iters m;
    },
    record {
      no_queue = λ m j f. ground (arith, w.placed m j p, w.placed l i p);
      no_client = λ j f. ground (arith, w.enlisted j p, w.placed l i p);
    },
  )

  -- A process that moves to a free place of another level.
  pub move-WellFormed :
      (s : Sched fl) (p l i m j : ℕ)
      → WellFormed s
      → s.queue l i ≡ some p
      → l ≢ m
      → m < nmlfq
      → j < nproc
      → WellFormed (put_queue fl l i none (enqueue fl p m j s))
  unfolding enqueue
  move-WellFormed s p l i m j w e d b c = record {
    placed = λ k x q f. ground (arith, w.placed k x q, w.placed l i p, w.placed l i q);
    enlisted = λ x q f. ground (arith, w.enlisted x q, w.placed l i p);
    head = w.head;
    only_head = λ x f. w.only_head x f;
    whole = w.whole;
    limit = w.limit;
    shares = w.shares;
    vacant = λ x f. w.vacant x f;
    iters = λ k. w.iters k;
  }

  -- A pass changes at a place that is not empty.
  pub charge-WellFormed :
      (s : Sched fl) (i : ℕ)
      → FloatLaws fl
      → WellFormed s
      → is_empty (s.stride.queue i) ≡ false
      → WellFormed (charge fl i s)
  unfolding stride_update
  charge-WellFormed s i l w e = record {
    placed = λ m j q g. w.placed m j q g;
    enlisted = λ j q g. w.enlisted j q g;
    head = w.head;
    only_head = λ j g. w.only_head j g;
    whole = w.whole;
    limit = w.limit;
    shares = w.shares;
    vacant = λ j g. ground (arith, w.vacant j, l.neg_not_pos);
    iters = λ m. w.iters m;
  }

-- The queues, the stride scheduler and the places that the processes know are the same.
pub record Same {fl : Float} (s r : Sched fl) : Type 0 where
  pub queues : (l i : ℕ) → r.queue l i ≡ s.queue l i
  pub stride : r.stride ≡ s.stride
  pub level : (p : ℕ) → (r.proc p).level ≡ (s.proc p).level
  pub index : (p : ℕ) → (r.proc p).index ≡ (s.proc p).index

pub Same-WellFormed :
    {fl : Float} (s r : Sched fl)
    → WellFormed s
    → Same s r
    → ((l : ℕ) → r.iterstate l < nproc)
    → WellFormed r
Same-WellFormed s r w e a = record {
  placed = λ l i p f. ground (arith, w.placed l i p, e.queues l i, e.level p, e.index p);
  enlisted = λ i p f. ground (arith, w.enlisted i p, e.stride, e.level p, e.index p);
  head = rw e.stride w.head;
  only_head = λ i f. ground (arith, w.only_head i, e.stride);
  whole = rw e.stride w.whole;
  limit = rw e.stride w.limit;
  shares = rw e.stride w.shares;
  vacant = λ i f. rw e.stride (w.vacant i (ground (arith, f, e.stride)));
  iters = a;
}
