-- ===== src/Procs/Quiet.antt =====
-- ex_project3/HYU-ELE3021/xv6-public/proc.c: the functions that leave the places of the scheduler alone, and
-- neither take nor give back an entry of the table.
use operating_system.Common.{
  ℕ, ◌≡◌, refl, sym, ap, ◌∙◌, ◌==◌, Bool, true, false, Option, none, some, List, get_elem?, set, M,
  ok, pure, stop, crash, get, modify, branch, when, panic_if, ◌>>=◌, ◌>>◌, bind_ok, zoom_ok, subst,
  inl, inr, update, arith, Bool-cases,
}
use Prim.Native.String.{String}
use operating_system.Mlfq.Spinlock.{Lock, Cpu, acquire, release, holding, pushcli, popcli}
use operating_system.Mlfq.Proc.{Procstate, Call}
use operating_system.Stride.State.{Float, Proc}
use operating_system.Procs.State.{
  Thread, Rest, Kernel, Kern, put_cpu, on_cpu, lock, unlock, call, proc_of, put_proc, rest_of,
  put_rest, thread_of, put_thread, state_of, put_state, myproc,
}
use operating_system.Procs.Alike.{Alike, Alike-refl, Alike-trans, Alike-beside, Edit}

pub acquire-proc : (lk : Lock) (c d : Cpu) → acquire lk c ≡ ok (tt, d) → d.proc ≡ c.proc
unfolding acquire holding pushcli popcli
acquire-proc lk c d e = ground (arith, e)

release-proc : (lk : Lock) (c d : Cpu) → release lk c ≡ ok (tt, d) → d.proc ≡ c.proc
unfolding release holding pushcli popcli
release-proc lk c d e = ground (arith, e)

holding-proc : (lk : Lock) (b : Bool) (c d : Cpu) → holding lk c ≡ ok (b, d) → d.proc ≡ c.proc
unfolding holding pushcli popcli
holding-proc lk b c d e = ground (arith, e)

-- Where the computation returns, only what may change has changed.
pub record Quiet (fl : Float) {A : Type 0} (m : Kern fl A) : Type 0 where
  pub alike : (k : Kernel fl) (a : A) (r : Kernel fl) → m k ≡ ok (a, r) → Alike k r

threads-Edit : (f : Proc → List Procstate) → Edit (λ q. record q { threads = f q })
threads-Edit f = record { level = λ q. refl; index = λ q. refl; alive = λ q. refl }

module _ {fl : Float} where
  pub bind-Quiet :
      {A B : Type 0} {m : Kern fl A} {f : A → Kern fl B}
      → Quiet fl m
      → ((a : A) → Quiet fl (f a))
      → Quiet fl (m >>= f)
  bind-Quiet {m = m} {f = f} g h = record {
    alike = λ k b r e.
        let (a, t, x, y) = bind_ok m f k r b e in
        Alike-trans (g.alike k a t x) ((h a).alike t b r y);
  }

  pub pure-Quiet : {A : Type 0} (a : A) → Quiet fl (pure a)
  pure-Quiet a = record {
    alike = λ k b r e.
        let same : k ≡ r = cc e in
        Alike-beside k r (sym (ap (λ z. z.sched) same)) (sym (ap (λ z. z.cpu.proc) same));
  }

  pub get-Quiet : Quiet fl get
  get-Quiet = record {
    alike = λ k b r e.
        let same : k ≡ r = cc e in
        Alike-beside k r (sym (ap (λ z. z.sched) same)) (sym (ap (λ z. z.cpu.proc) same));
  }

  on_cpu-Quiet :
      {A : Type 0} (m : M Cpu A)
      → ((c d : Cpu) (a : A) → m c ≡ ok (a, d) → d.proc ≡ c.proc)
      → Quiet fl (on_cpu fl m)
  on_cpu-Quiet m h = record {
    alike = λ k a r e.
        let (c, f, g) = zoom_ok (λ k. k.cpu) (put_cpu fl) m k r a e in
        Alike-beside k r (sym (ap (λ z. z.sched) g)) (sym (ap (λ z. z.cpu.proc) g) ∙ h k.cpu c a f);
  }

  pub lock-Quiet : (lk : Lock) → Quiet fl (lock fl lk)
  lock-Quiet lk = on_cpu-Quiet (acquire lk) (λ c d a e. acquire-proc lk c d e)

  pub unlock-Quiet : (lk : Lock) → Quiet fl (unlock fl lk)
  unlock-Quiet lk = on_cpu-Quiet (release lk) (λ c d a e. release-proc lk c d e)

  pub holding-Quiet : (lk : Lock) → Quiet fl (on_cpu fl (holding lk))
  holding-Quiet lk = on_cpu-Quiet (holding lk) (λ c d a e. holding-proc lk a c d e)

  pub stop-Quiet : {A : Type 0} (w : String) → Quiet fl {A = A} (stop w)
  stop-Quiet w = record { alike = λ k a r e. absurd (cc e) }

  pub crash-Quiet : {A : Type 0} → Quiet fl {A = A} crash
  crash-Quiet = record { alike = λ k a r e. absurd (cc e) }

  pub panic_if-Quiet : (b : Bool) (w : String) → Quiet fl (panic_if b w)
  panic_if-Quiet true w = stop-Quiet w
  panic_if-Quiet false w = pure-Quiet tt

  pub when-Quiet : (b : Bool) (m : Kern fl (Unit {0})) → Quiet fl m → Quiet fl (when b m)
  when-Quiet true m h = h
  when-Quiet false m h = pure-Quiet tt

  pub branch-Quiet :
      {A : Type 0} (b : Bool) (m n : Kern fl A) → Quiet fl m → Quiet fl n → Quiet fl (branch b m n)
  branch-Quiet true m n h g = h
  branch-Quiet false m n h g = g

  -- A change of what stands beside the scheduler and the processor.
  pub modify-Quiet :
      (f : Kernel fl → Kernel fl) → ((k : Kernel fl) → Alike k (f k)) → Quiet fl (modify f)
  modify-Quiet f h = record {
    alike = λ k a r e. let same : f k ≡ r = cc e in subst (Alike k) same (h k);
  }

  pub proc_of-Quiet : (p : ℕ) → Quiet fl (proc_of fl p)
  proc_of-Quiet p = record {
    alike = λ k a r e. let same : k ≡ r = cc e in subst (Alike k) same (Alike-refl k);
  }

  pub rest_of-Quiet : (p : ℕ) → Quiet fl (rest_of fl p)
  rest_of-Quiet p = record {
    alike = λ k a r e. let same : k ≡ r = cc e in subst (Alike k) same (Alike-refl k);
  }

  pub thread_of-Quiet : (p t : ℕ) → Quiet fl (thread_of fl p t)
  thread_of-Quiet p t = record {
    alike = λ k a r e. let same : k ≡ r = cc e in subst (Alike k) same (Alike-refl k);
  }

  pub put_rest-Quiet : (p : ℕ) (x : Rest) → Quiet fl (put_rest fl p x)
  put_rest-Quiet p x = modify-Quiet _ (λ k. Alike-beside k _ refl refl)

  pub put_thread-Quiet : (p t : ℕ) (x : Thread) → Quiet fl (put_thread fl p t x)
  put_thread-Quiet p t x = modify-Quiet _ (λ k. Alike-beside k _ refl refl)

  pub call-Quiet : (c : Call) → Quiet fl (call fl c)
  call-Quiet c = modify-Quiet _ (λ k. Alike-beside k _ refl refl)

  state_cases :
      (p t : ℕ) (k r : Kernel fl) (a : Procstate) (o : Option Procstate)
      → get_elem? (k.sched.proc p).threads t ≡ o
      → state_of fl p t k ≡ ok (a, r)
      → k ≡ r
  state_cases p t k r a none g e = absurd (cc (e, g))
  state_cases p t k r a (some x) g e = cc (e, g)

  pub state_of_ok :
      (p t : ℕ) (k r : Kernel fl) (a : Procstate) → state_of fl p t k ≡ ok (a, r) → k ≡ r
  state_of_ok p t k r a e = state_cases p t k r a (get_elem? (k.sched.proc p).threads t) refl e

  pub state_of-Quiet : (p t : ℕ) → Quiet fl (state_of fl p t)
  state_of-Quiet p t = record {
    alike = λ k a r e. subst (Alike k) (state_of_ok p t k r a e) (Alike-refl k);
  }

  myproc_cases :
      (k r : Kernel fl) (a : ℕ) (o : Option ℕ)
      → k.cpu.proc ≡ o
      → myproc fl k ≡ ok (a, r)
      → (k ≡ r) × (k.cpu.proc ≡ some a)
  unfolding myproc
  myproc_cases k r a none g e = absurd (cc (e, g))
  myproc_cases k r a (some p) g e = (cc (e, g), cc (e, g))

  -- myproc is the current process.
  pub myproc_ok :
      (k r : Kernel fl) (a : ℕ) → myproc fl k ≡ ok (a, r) → (k ≡ r) × (k.cpu.proc ≡ some a)
  myproc_ok k r a e = myproc_cases k r a k.cpu.proc refl e

  pub myproc-Quiet : Quiet fl (myproc fl)
  myproc-Quiet = record { alike = λ k a r e. subst (Alike k) (myproc_ok k r a e).0 (Alike-refl k) }

  -- A process is read and stored, edited.
  pub Edit-Alike :
      (p : ℕ) (f : Proc → Proc) (k : Kernel fl)
      → Edit f
      → Alike k (record k {
        sched = record (k.sched) { proc = update k.sched.proc p (f (k.sched.proc p)) };
      })
  Edit-Alike p f k h = record {
    same = record {
      queues = λ l i. refl;
      stride = refl;
      level = λ q. ground (arith, h.level (k.sched.proc p));
      index = λ q. ground (arith, h.index (k.sched.proc p));
    };
    iters = λ l. refl;
    alive = λ q. elim (Bool-cases (p == q)) [
      | inl e ↦
          let here : p ≡ q = ground arith in
          ground (arith, ap k.sched.proc here, h.alive (k.sched.proc p))
      | inr e ↦ ground arith
    ];
    current = refl;
  }

  -- A process that is read, stored with a change, and what follows.
  pub Edit-Quiet :
      {A : Type 0} (p : ℕ) (f : Proc → Proc) (m : Proc → Kern fl A)
      → Edit f
      → ((q : Proc) → Quiet fl (m q))
      → Quiet fl (proc_of fl p >>= λ q. put_proc fl p (f q) >> m q)
  Edit-Quiet p f m h g = record {
    alike = λ k a r e. Alike-trans (Edit-Alike p f k h) ((g (k.sched.proc p)).alike _ a r e);
  }

  pub put_state-Quiet : (p t : ℕ) (x : Procstate) → Quiet fl (put_state fl p t x)
  put_state-Quiet p t x = record {
    alike = λ k a r e.
        let same : record k {
          sched = record (k.sched) {
            proc =
                update k.sched.proc p
                  (record (k.sched.proc p) { threads = set (k.sched.proc p).threads t x });
          };
        }
            ≡ r =
          cc e in
        subst (Alike k) same (
          Edit-Alike p (λ q. record q { threads = set q.threads t x }) k
            (threads-Edit (λ q. set q.threads t x)));
  }

-- The rules for computations in a do block.
pub ruleset quiet = (
  bind-Quiet, pure-Quiet, get-Quiet, lock-Quiet, unlock-Quiet, holding-Quiet, stop-Quiet,
  crash-Quiet, panic_if-Quiet, when-Quiet, branch-Quiet, proc_of-Quiet, rest_of-Quiet,
  thread_of-Quiet, put_rest-Quiet, put_thread-Quiet, call-Quiet, state_of-Quiet, myproc-Quiet,
  put_state-Quiet,
)
