-- ===== src/Procs/Alike.antt =====
-- ex_project3/HYU-ELE3021/xv6-public/proc.c: states that agree in the places of the scheduler, in the current
-- process and in which entries of the table are unused.
use operating_system.Common.{ℕ, ◌≡◌, refl, ap, ◌∙◌}
use operating_system.Mlfq.Proc.{unused, eqb_Procstate}
use operating_system.Stride.State.{Float, Proc, Sched}
use operating_system.Stride.Invariant.{Same}
use operating_system.Procs.State.{Kernel}

-- The scheduler's places, the current process and which entries are unused are as before.
pub record Alike {fl : Float} (k r : Kernel fl) : Type 0 where
  pub same : Same k.sched r.sched
  pub iters : (l : ℕ) → r.sched.iterstate l ≡ k.sched.iterstate l
  pub alive :
      (p : ℕ)
      → eqb_Procstate (r.sched.proc p).state unused ≡ eqb_Procstate (k.sched.proc p).state unused
  pub current : r.cpu.proc ≡ k.cpu.proc

Same-refl : {fl : Float} (s : Sched fl) → Same s s
Same-refl s = record { queues = λ l i. refl; stride = refl; level = λ p. refl; index = λ p. refl }

pub Alike-refl : {fl : Float} (k : Kernel fl) → Alike k k
Alike-refl k = record {
  same = Same-refl k.sched;
  iters = λ l. refl;
  alive = λ p. refl;
  current = refl;
}

pub Alike-trans : {fl : Float} {k t r : Kernel fl} → Alike k t → Alike t r → Alike k r
Alike-trans a b = record {
  same = record {
    queues = λ l i. b.same.queues l i ∙ a.same.queues l i;
    stride = b.same.stride ∙ a.same.stride;
    level = λ p. b.same.level p ∙ a.same.level p;
    index = λ p. b.same.index p ∙ a.same.index p;
  };
  iters = λ l. b.iters l ∙ a.iters l;
  alive = λ p. b.alive p ∙ a.alive p;
  current = b.current ∙ a.current;
}

-- Nothing changes but what stands beside the scheduler and the processor.
pub Alike-beside :
    {fl : Float} (k r : Kernel fl) → r.sched ≡ k.sched → r.cpu.proc ≡ k.cpu.proc → Alike k r
Alike-beside k r e f = record {
  same = record {
    queues = λ l i. ap (λ s. s.queue l i) e;
    stride = ap (λ s. s.stride) e;
    level = λ p. ap (λ s. (s.proc p).level) e;
    index = λ p. ap (λ s. (s.proc p).index) e;
  };
  iters = λ l. ap (λ s. s.iterstate l) e;
  alive = λ p. ap (λ s. eqb_Procstate (s.proc p).state unused) e;
  current = f;
}

-- A process is changed elsewhere than in its place.
pub record Edit (f : Proc → Proc) : Type 0 where
  pub level : (q : Proc) → (f q).level ≡ q.level
  pub index : (q : Proc) → (f q).index ≡ q.index
  pub alive : (q : Proc) → eqb_Procstate (f q).state unused ≡ eqb_Procstate q.state unused
