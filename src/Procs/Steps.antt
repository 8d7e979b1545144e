-- ===== src/Procs/Steps.antt =====
-- ex_project3/HYU-ELE3021/xv6-public/proc.c with mlfq.c: the calls of the processes and the rounds of the
-- scheduler as steps. A function that switches ends a step at the switch.
use operating_system.Common.{
  some, ℕ, ◌<◌, ◌≡◌, ◌==◌, inl, inr, Bool, true, false, Option, none, ℤ, ok, arith,
}
use operating_system.Mlfq.Spinlock.{Lock}
use operating_system.Stride.State.{Float, nproc}
use operating_system.Stride.Queues.{mlfq_init}
use operating_system.Stride.Turns.{Locals}
use operating_system.Stride.Invariant.{FloatLaws, mlfq_init-WellFormed}
use operating_system.Stride.Minimum.{OrderLaws}
use operating_system.Stride.Moves.{InPlace}
use operating_system.Stride.Frames.{Request}
use operating_system.Stride.Steps.{Sound}
use operating_system.Procs.State.{Chan, Kernel}
use operating_system.Procs.Switch.{Switched, next_thread, yield, sleep, resume, wakeup, kill}
use operating_system.Procs.Life.{pinit, userinit, growproc, fork}
use operating_system.Procs.Exit.{exit, wait, wait_turn, set_cpu_share}
use operating_system.Procs.Pool.{Joined, thread_exit, thread_create, join_end, thread_join}
use operating_system.Procs.Alike.{Alike}
use operating_system.Procs.Calls.{
  next_thread-Quiet, yield-Quiet, sleep-Quiet, resume-Quiet, wakeup-Quiet, kill-Quiet,
  growproc-Quiet, thread_exit-Quiet, thread_create-Quiet, join_end-Quiet, thread_join-Quiet,
}
use operating_system.Procs.Invariant.{is_unused, Kept, Alike-Kept}
use operating_system.Procs.Round.{begin_round, end_round}
use operating_system.Procs.Scheduling.{begin_round-Kept, end_round-Kept}
use operating_system.Procs.Forks.{fork-Kept, userinit-Kept}
use operating_system.Procs.Ends.{exit-Kept, set_cpu_share-Kept}
use operating_system.Procs.Waits.{Running, wait-Kept, wait_turn-Kept}

-- A call that takes no entry of the table and gives none back.
pub data Calm (fl : Float) (k r : Kernel fl) : Type 0 where
  resumed : resume fl k ≡ ok (tt, r) → Calm fl k r
  yielded : yield fl k ≡ ok (tt, r) → Calm fl k r
  slept : (c : Chan) (lk : Option Lock) → sleep fl c lk k ≡ ok (tt, r) → Calm fl k r
  woke : (c : Chan) → wakeup fl c k ≡ ok (tt, r) → Calm fl k r
  killed : (pid a : ℤ) → kill fl pid k ≡ ok (a, r) → Calm fl k r
  passed_on : (p : ℕ) (a : Switched) → next_thread fl p k ≡ ok (a, r) → Calm fl k r
  grown :
      (allocuvm deallocuvm : ℕ → ℕ → ℕ) (n a : ℤ)
      → growproc fl allocuvm deallocuvm n k ≡ ok (a, r)
      → Calm fl k r
  created :
      (kstack : ℕ) (allocuvm : ℕ → ℕ → ℕ) (start arg : ℕ) (a : Option ℤ)
      → thread_create fl kstack allocuvm start arg k ≡ ok (a, r)
      → Calm fl k r
  left : (retval : ℕ) → thread_exit fl retval k ≡ ok (tt, r) → Calm fl k r
  joined_one : (tid : ℤ) (a : Joined) → thread_join fl tid k ≡ ok (a, r) → Calm fl k r
  join_done : (p t v : ℕ) → join_end fl p t k ≡ ok (v, r) → Calm fl k r

-- The running process calls, or the scheduler begins or ends a round. kalloc gives a kernel stack, and
-- copyuvm a page directory. The argument of set_cpu_share is an int, and a process that has a share does not
-- get another.
pub data Step (fl : Float) (k : Kernel fl) (v : Locals) (r : Kernel fl) : Locals → Type 0 where
  calm : Calm fl k r → Step fl k v r v
  booted :
      (kstack pgdir : ℕ) (cwd : Option ℕ)
      → (kstack == 0) ≡ false
      → userinit fl kstack pgdir cwd k ≡ ok (tt, r)
      → Step fl k v r v
  forked :
      (kstack pgdir : ℕ) (a : ℤ)
      → (kstack == 0) ≡ false
      → (pgdir == 0) ≡ false
      → fork fl kstack pgdir k ≡ ok (a, r)
      → Step fl k v r v
  exited : exit fl k ≡ ok (tt, r) → Step fl k v r v
  waited : (a : Option ℤ) → Running k → wait fl k ≡ ok (a, r) → Step fl k v r v
  waited_on : (a : Option ℤ) → Running k → wait_turn fl k ≡ ok (a, r) → Step fl k v r v
  asked :
      (percent : ℤ) (b : Bool)
      → ((p : ℕ) → k.cpu.proc ≡ some p → Request fl k.sched p percent b)
      → set_cpu_share fl percent k ≡ ok (b, r)
      → Step fl k v r v
  begun :
      (now : ℕ) (w : Locals)
      → k.cpu.proc ≡ none
      → begin_round fl now v k ≡ ok (w, r)
      → Step fl k v r w
  ended :
      (start end_time : ℕ) (w : Locals)
      → end_round fl start end_time v k ≡ ok (w, r)
      → Step fl k v r w

-- The states that follow pinit.
pub data Reach (fl : Float) (k : Kernel fl) (v : Locals) : Kernel fl → Locals → Type 0 where
  here : Reach fl k v (pinit fl k) v
  after :
      {s : Kernel fl} {u : Locals} {r : Kernel fl} {w : Locals}
      → Reach fl k v s u
      → Step fl s u r w
      → Reach fl k v r w

-- Each process that is not UNUSED stands in exactly one place of the scheduler, and an UNUSED entry in none.
pub record Accounted {fl : Float} (k : Kernel fl) : Type 0 where
  pub busy : (p : ℕ) → p < nproc → is_unused k.sched p ≡ false → InPlace k.sched p
  pub idle : (p : ℕ) → p < nproc → is_unused k.sched p ≡ true → ¬ InPlace k.sched p
  pub sound : Sound k.sched

-- Before pinit: every entry is UNUSED, and no process has run.
pub record Blank {fl : Float} (k : Kernel fl) (v : Locals) : Type 0 where
  pub all_unused : (p : ℕ) → p < nproc → is_unused k.sched p ≡ true
  pub no_proc : k.cpu.proc ≡ none
  pub no_cur : v.cur ≡ none

module _ {fl : Float} where
  Calm-Alike : (k r : Kernel fl) → Calm fl k r → Alike k r
  Calm-Alike k r (resumed e) = resume-Quiet.alike k tt r e
  Calm-Alike k r (yielded e) = yield-Quiet.alike k tt r e
  Calm-Alike k r (slept c lk e) = (sleep-Quiet c lk).alike k tt r e
  Calm-Alike k r (woke c e) = (wakeup-Quiet c).alike k tt r e
  Calm-Alike k r (killed pid a e) = (kill-Quiet pid).alike k a r e
  Calm-Alike k r (passed_on p a e) = (next_thread-Quiet p).alike k a r e
  Calm-Alike k r (grown f g n a e) = (growproc-Quiet f g n).alike k a r e
  Calm-Alike k r (created s f b c a e) = (thread_create-Quiet s f b c).alike k a r e
  Calm-Alike k r (left x e) = (thread_exit-Quiet x).alike k tt r e
  Calm-Alike k r (joined_one tid a e) = (thread_join-Quiet tid).alike k a r e
  Calm-Alike k r (join_done p t a e) = (join_end-Quiet p t).alike k a r e

  pub start-Kept : (k : Kernel fl) (v : Locals) → Blank k v → Kept (pinit fl k) v
  unfolding pinit mlfq_init
  start-Kept k v b = record {
    wf = mlfq_init-WellFormed fl k.sched.proc;
    idle = λ p lt e a. elim a [ inl (l, i, f) ↦ absurd (cc f) | inr (i, f) ↦ ground (arith, f) ];
    busy = λ p lt e. absurd (cc (e, b.all_unused p lt));
    current = λ p e. absurd (cc (e, b.no_proc));
    chosen = λ p e. absurd (cc (e, b.no_cur));
  }

  module _ (laws : FloatLaws fl) (order : OrderLaws fl) where
    Step-Kept : (k r : Kernel fl) (v w : Locals) → Kept k v → Step fl k v r w → Kept r w
    Step-Kept k r v w h (calm c) = Alike-Kept k r v h (Calm-Alike k r c)
    Step-Kept k r v w h (booted s pg cwd a e) = userinit-Kept k r v s pg cwd h a e
    Step-Kept k r v w h (forked s pg a n m e) = fork-Kept k r v s pg a h n m e
    Step-Kept k r v w h (exited e) = exit-Kept k r v h e
    Step-Kept k r v w h (waited a run e) = wait-Kept k r v a h run e
    Step-Kept k r v w h (waited_on a run e) = wait_turn-Kept k r v a h run e
    Step-Kept k r v w h (asked percent b asks e) = set_cpu_share-Kept k r v percent b h asks e
    Step-Kept k r v w h (begun now u idle e) = begin_round-Kept laws order k r v w now h e
    Step-Kept k r v w h (ended start end_time u e) = end_round-Kept laws k r v w start end_time h e

    pub Reach-Kept :
        {k : Kernel fl} {v : Locals} {r : Kernel fl} {w : Locals}
        → Blank k v
        → Reach fl k v r w
        → Kept r w
    Reach-Kept {k} {v} b here = start-Kept k v b
    Reach-Kept {w = w} b (after {s} {u} {r} h st) = Step-Kept s r u w (Reach-Kept b h) st
