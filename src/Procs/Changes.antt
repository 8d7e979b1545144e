-- ===== src/Procs/Changes.antt =====
-- ex_project3/HYU-ELE3021/xv6-public/proc.c: what a change of the state of one process leaves alone.
use operating_system.Common.{
  ℕ, ◌≡◌, ◌≢◌, inl, inr, refl, ◌∙◌, subst, ◌==◌, arith, update, Bool-cases,
}
use operating_system.Mlfq.Proc.{unused, eqb_Procstate}
use operating_system.Stride.State.{Float, Proc}
use operating_system.Stride.Invariant.{WellFormed, Same, Same-WellFormed}
use operating_system.Procs.State.{Kernel}
use operating_system.Procs.Alike.{Alike}
use operating_system.Stride.Moves.{InPlace}
use operating_system.Procs.Invariant.{is_unused, Same-stays, Same-came}

-- The places, the current process and which entries but `p` are unused are as before.
pub record Changed {fl : Float} (k r : Kernel fl) (p : ℕ) : Type 0 where
  pub same : Same k.sched r.sched
  pub iters : (l : ℕ) → r.sched.iterstate l ≡ k.sched.iterstate l
  pub alive : (q : ℕ) → p ≢ q → is_unused r.sched q ≡ is_unused k.sched q
  pub current : r.cpu.proc ≡ k.cpu.proc

module _ {fl : Float} where
  abbrev pub stored : ℕ → Proc → Kernel fl → Kernel fl
  stored p x k = record k { sched = record (k.sched) { proc = update k.sched.proc p x } }

  pub stored-Changed :
      (p : ℕ) (x : Proc) (k : Kernel fl)
      → x.level ≡ (k.sched.proc p).level
      → x.index ≡ (k.sched.proc p).index
      → Changed k (stored p x k) p
  stored-Changed p x k e f = record {
    same = record {
      queues = λ l i. refl;
      stride = refl;
      level = λ q. ground (arith, e);
      index = λ q. ground (arith, f);
    };
    iters = λ l. refl;
    alive = λ q n. ground arith;
    current = refl;
  }

  pub stored-is_unused :
      (p : ℕ) (x : Proc) (k : Kernel fl)
      → is_unused (stored p x k).sched p ≡ eqb_Procstate x.state unused
  stored-is_unused p x k = ground arith

  pub Changed-Alike : (k t r : Kernel fl) (p : ℕ) → Changed k t p → Alike t r → Changed k r p
  Changed-Alike k t r p a b = record {
    same = record {
      queues = λ l i. b.same.queues l i ∙ a.same.queues l i;
      stride = b.same.stride ∙ a.same.stride;
      level = λ q. b.same.level q ∙ a.same.level q;
      index = λ q. b.same.index q ∙ a.same.index q;
    };
    iters = λ l. b.iters l ∙ a.iters l;
    alive = λ q n. b.alive q ∙ a.alive q n;
    current = b.current ∙ a.current;
  }

  -- Where the entry is unused as before, too, nothing of this has changed.
  pub Changed-alive :
      (k r : Kernel fl) (p : ℕ)
      → Changed k r p
      → is_unused r.sched p ≡ is_unused k.sched p
      → Alike k r
  Changed-alive k r p a e = record {
    same = a.same;
    iters = a.iters;
    alive = λ q. elim (Bool-cases (p == q)) [
      | inl s ↦
          let here : p ≡ q = ground arith in
          subst (λ z. is_unused r.sched z ≡ is_unused k.sched z) here e
      | inr n ↦ a.alive q (ground arith)
    ];
    current = a.current;
  }

  pub stored-Alike :
      (p : ℕ) (x : Proc) (k : Kernel fl)
      → x.level ≡ (k.sched.proc p).level
      → x.index ≡ (k.sched.proc p).index
      → eqb_Procstate x.state unused ≡ is_unused k.sched p
      → Alike k (stored p x k)
  stored-Alike p x k e f g =
      Changed-alive k (stored p x k) p (stored-Changed p x k e f) (stored-is_unused p x k ∙ g)

  pub Changed-WellFormed :
      (k r : Kernel fl) (p : ℕ) → Changed k r p → WellFormed k.sched → WellFormed r.sched
  Changed-WellFormed k r p a w =
      Same-WellFormed k.sched r.sched w a.same (λ l. rw (a.iters l) (w.iters l))

  pub Changed-stays :
      (k r : Kernel fl) (p q : ℕ) → Changed k r p → InPlace k.sched q → InPlace r.sched q
  Changed-stays k r p q a m = Same-stays k.sched r.sched q a.same m

  pub Changed-came :
      (k r : Kernel fl) (p q : ℕ) → Changed k r p → InPlace r.sched q → InPlace k.sched q
  Changed-came k r p q a m = Same-came k.sched r.sched q a.same m
