-- ===== src/Procs/Still.antt =====
-- ex_project3/HYU-ELE3021/xv6-public/proc.c: sched leaves the processes alone, and of the threads it changes
-- the contexts only.
use operating_system.Common.{
  ℕ, ◌≡◌, refl, sym, ap, ◌∙◌, subst, Bool, true, false, M, ok, get, panic_if, ◌>>=◌, bind_ok,
  zoom_ok, update, arith,
}
use Prim.Native.String.{String}
use operating_system.Mlfq.Spinlock.{Cpu}
use operating_system.Stride.State.{Float}
use operating_system.Procs.State.{Caller, Thread, Kernel, Kern, on_cpu, put_cpu, state_of, myproc}
use operating_system.Procs.Switch.{save, sched}
use operating_system.Procs.Quiet.{myproc_ok, state_of_ok}

pub record Steady {fl : Float} (k r : Kernel fl) : Type 0 where
  pub sched : r.sched ≡ k.sched
  pub retval : (p t : ℕ) → ((r.more p).thread t).retval ≡ ((k.more p).thread t).retval
  pub tid : (p t : ℕ) → ((r.more p).thread t).tid ≡ ((k.more p).thread t).tid
  pub chan : (p t : ℕ) → ((r.more p).thread t).chan ≡ ((k.more p).thread t).chan

-- Where the computation returns, no more than the contexts and the processor has changed.
pub record Still (fl : Float) {A : Type 0} (m : Kern fl A) : Type 0 where
  pub steady : (k : Kernel fl) (a : A) (r : Kernel fl) → m k ≡ ok (a, r) → Steady k r

module _ {fl : Float} where
  pub Steady-beside : (k r : Kernel fl) → r.sched ≡ k.sched → r.more ≡ k.more → Steady k r
  Steady-beside k r e f = record {
    sched = e;
    retval = λ p t. ap (λ z. ((z p).thread t).retval) f;
    tid = λ p t. ap (λ z. ((z p).thread t).tid) f;
    chan = λ p t. ap (λ z. ((z p).thread t).chan) f;
  }

  bind-Still :
      {A B : Type 0} {m : Kern fl A} {f : A → Kern fl B}
      → Still fl m
      → ((a : A) → Still fl (f a))
      → Still fl (m >>= f)
  bind-Still {m = m} {f = f} g h = record {
    steady = λ k b r e.
        let (a, t, x, y) = bind_ok m f k r b e in
        let s = g.steady k a t x in
        let u = (h a).steady t b r y in
        record {
          sched = u.sched ∙ s.sched;
          retval = λ p i. u.retval p i ∙ s.retval p i;
          tid = λ p i. u.tid p i ∙ s.tid p i;
          chan = λ p i. u.chan p i ∙ s.chan p i;
        };
  }

  same-Still : (k r : Kernel fl) → k ≡ r → Steady k r
  same-Still k r e = Steady-beside k r (ap (λ z. z.sched) (sym e)) (ap (λ z. z.more) (sym e))

  get-Still : Still fl get
  get-Still = record { steady = λ k a r e. same-Still k r (cc e) }

  on_cpu-Still : {A : Type 0} (m : M Cpu A) → Still fl (on_cpu fl m)
  on_cpu-Still m = record {
    steady = λ k a r e.
        let (c, f, g) = zoom_ok (λ k. k.cpu) (put_cpu fl) m k r a e in
        Steady-beside k r (sym (ap (λ z. z.sched) g)) (sym (ap (λ z. z.more) g));
  }

  panic_if-Still : (b : Bool) (w : String) → Still fl (panic_if b w)
  panic_if-Still true w = record { steady = λ k a r e. absurd (cc e) }
  panic_if-Still false w = record { steady = λ k a r e. same-Still k r (cc e) }

  state_of-Still : (p t : ℕ) → Still fl (state_of fl p t)
  state_of-Still p t = record { steady = λ k a r e. same-Still k r (state_of_ok p t k r a e) }

  myproc-Still : Still fl (myproc fl)
  myproc-Still = record { steady = λ k a r e. same-Still k r (myproc_ok k r a e).0 }

  save-Still : (p t : ℕ) (c : Caller) → Still fl (save fl p t c)
  save-Still p t c = record {
    steady = λ k a r e.
        let th : Thread = record ((k.more p).thread t) {
          context = record { caller = c; saved_intena = k.cpu.intena };
        } in
        let same : record k {
          more = update k.more p (record (k.more p) { thread = update (k.more p).thread t th });
        }
            ≡ r =
          cc e in
        subst (Steady k) same (record {
          sched = refl;
          retval = λ q u. ground arith;
          tid = λ q u. ground arith;
          chan = λ q u. ground arith;
        });
  }

  pub sched-Still : (c : Caller) → Still fl (sched fl c)
  unfolding sched
  sched-Still c =
      search
        (
          bind-Still, get-Still, on_cpu-Still, panic_if-Still, state_of-Still, myproc-Still,
          save-Still,
        )
        depth 24
