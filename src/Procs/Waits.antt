-- ===== src/Procs/Waits.antt =====
-- ex_project3/HYU-ELE3021/xv6-public/proc.c: wait frees a zombie child and takes it out of the scheduler.
use operating_system.Common.{
  ℕ, zero, suc, ◌+◌, ◌<◌, ◌≡◌, ◌≢◌, inl, inr, refl, sym, ap, ◌∙◌, subst, ◌>>◌, ◌∷◌, map, Bool, true,
  false, Option, some, ℤ, ok, bind_ok, zoom_ok, same_state, arith, pure, update, Bool-cases,
}
use operating_system.Mlfq.Spinlock.{ptable_lock, acquire}
use operating_system.Mlfq.Proc.{Procstate, unused, zombie, eqb_Procstate, freevm}
use operating_system.Mlfq.Exit.{eqb_ptr}
use operating_system.Stride.State.{Float, nproc, Sched}
use operating_system.Stride.Queues.{mlfq_delete}
use operating_system.Stride.Turns.{Locals}
use operating_system.Stride.Invariant.{WellFormed}
use operating_system.Stride.Moves.{InPlace, Unqueued-not-InPlace}
use operating_system.Stride.Frames.{Others, delete-Others}
use operating_system.Procs.State.{
  Kernel, put_cpu, put_sched, on_sched, lock, unlock, myproc, nthread,
}
use operating_system.Procs.Alike.{Alike}
use operating_system.Procs.Quiet.{Quiet, pure-Quiet, lock-Quiet, myproc_ok, quiet}
use operating_system.Procs.Calls.{sleep-Quiet}
use operating_system.Procs.Invariant.{is_unused, Kept, Alike-Kept, Others-Kept}
use operating_system.Procs.Changes.{
  Changed, stored, Changed-WellFormed, Changed-stays, Changed-came,
}
use operating_system.Procs.Exit.{
  Children, dead, alive, free_stacks, reap, find_dead, bury, wait_on, wait_of, wait_turn, wait,
}

zombie-is_unused : (s : Procstate) → eqb_Procstate s zombie ≡ true → eqb_Procstate s unused ≡ false
zombie-is_unused s e = ground (arith, e)

module _ {fl : Float} where
  -- The child that the scan finds: a zombie whose parent is the caller.
  pub find_dead-dead :
      (k : Kernel fl) (cur : ℕ) (b : Bool) (n p q : ℕ)
      → find_dead fl k cur b n p ≡ dead q
      → (q < p + n)
        × (eqb_Procstate (k.sched.proc q).state zombie ≡ true)
        × (eqb_ptr (k.more q).parent (some cur) ≡ true)
  unfolding find_dead
  find_dead-dead k cur b zero p q e = absurd (cc e)
  find_dead-dead k cur b (suc n) p q e = elim (Bool-cases (eqb_ptr (k.more p).parent (some cur))) [
    | inl h ↦ elim (Bool-cases (eqb_Procstate (k.sched.proc p).state zombie)) [
      | inl z ↦
          let here : p ≡ q = ground (arith, e, h, z) in
          (
            omega arith,
            subst (λ z. eqb_Procstate (k.sched.proc z).state zombie ≡ true) here z,
            subst (λ z. eqb_ptr (k.more z).parent (some cur) ≡ true) here h,
          )
      | inr z ↦
          let (lt, ended, kid) = find_dead-dead k cur true n (p + 1) q (ground (arith, e, h, z)) in
          (omega arith, ended, kid)
    ]
    | inr h ↦
        let (lt, ended, kid) = find_dead-dead k cur b n (p + 1) q (ground (arith, e, h)) in
        (omega arith, ended, kid)
  ]

  -- The state in which bury calls mlfq_delete.
  abbrev reaped : ℕ → Kernel fl → Kernel fl
  reaped p k =
      stored p
        (record (k.sched.proc p) {
          threads = map (λ x. unused) (k.sched.proc p).threads;
          killed = false;
          state = unused;
        })
        (record k {
          calls = freevm (k.more p).pgdir ∷ free_stacks (k.more p).kstacks nthread 0 k.calls;
          more = update k.more p (reap (k.more p));
        })

  reaped-Changed : (p : ℕ) (k : Kernel fl) → Changed k (reaped p k) p
  reaped-Changed p k = record {
    same = record {
      queues = λ l i. refl;
      stride = refl;
      level = λ q. ground arith;
      index = λ q. ground arith;
    };
    iters = λ l. refl;
    alive = λ q n. ground arith;
    current = refl;
  }

  deleted-Kept :
      (k : Kernel fl) (s : Sched fl) (v : Locals) (p : ℕ)
      → Kept k v
      → InPlace k.sched p
      → v.cur ≢ some p
      → mlfq_delete fl p (reaped p k).sched ≡ ok (tt, s)
      → Kept (put_sched fl (reaped p k) s) v × ¬ InPlace s p
  deleted-Kept k s v p h a other e =
      let c : Changed k (reaped p k) p = reaped-Changed p k in
      let wt : WellFormed (reaped p k).sched = Changed-WellFormed k (reaped p k) p c h.wf in
      let (z, f, wz, u, o) =
        delete-Others fl (reaped p k).sched p wt (Changed-stays k (reaped p k) p p c a) in
      let same : z ≡ s = same_state (mlfq_delete fl p) tt tt (reaped p k).sched z s f e in
      let os : Others (reaped p k).sched s p = subst (λ z. Others (reaped p k).sched z p) same o in
      let gone : ¬ InPlace s p = subst (λ z. ¬ InPlace z p) same (Unqueued-not-InPlace u) in
      let state : (q : ℕ) → is_unused s q ≡ is_unused (reaped p k).sched q =
        λ q. ap (λ z. eqb_Procstate z unused) (os.state q) in
      let now : is_unused s p ≡ true = state p ∙ ground arith in
      (
        Others-Kept k (put_sched fl (reaped p k) s) v p h (subst WellFormed same wz)
            (λ q n m. os.stays q n (Changed-stays k (reaped p k) p q c m))
            (λ q n m. Changed-came k (reaped p k) p q c (os.came q n m))
            (λ q n. state q ∙ c.alive q n) (λ z. gone) (λ z. absurd (cc (z, now))) refl other,
        gone,
      )

  -- The zombie is in no place any more.
  bury-Kept :
      (k r : Kernel fl) (v : Locals) (p : ℕ) (a : ℤ)
      → Kept k v
      → InPlace k.sched p
      → v.cur ≢ some p
      → bury fl p k ≡ ok (a, r)
      → Kept r v
  unfolding bury
  bury-Kept k r v p a h m other e =
      let (u, t, f, g) =
        bind_ok (on_sched fl (mlfq_delete fl p)) (λ u. unlock fl ptable_lock >> pure (k.more p).pid)
          (reaped p k) r a e in
      let (s, d, same) =
        zoom_ok (λ k. k.sched) (put_sched fl) (mlfq_delete fl p) (reaped p k) t u f in
      let tail : Quiet fl (unlock fl ptable_lock >> pure (k.more p).pid) = search quiet in
      let (kept, gone) = deleted-Kept k s v p h m other d in
      Alike-Kept t r v (subst (λ z. Kept z v) same kept) (tail.alike t a r g)

  -- The process is not a zombie: it runs, and one that has exited never runs again.
  abbrev pub Running : Kernel fl → Type 0
  Running k = (p : ℕ) → k.cpu.proc ≡ some p → eqb_Procstate (k.sched.proc p).state zombie ≡ false

  wait_on-Kept :
      (k r : Kernel fl) (v : Locals) (p : ℕ) (c : Children) (o : Option ℤ)
      → Kept k v
      → Running k
      → k.cpu.proc ≡ some p
      → find_dead fl k p false nproc 0 ≡ c
      → wait_on fl p c k ≡ ok (o, r)
      → Kept r v
  unfolding wait_on
  wait_on-Kept k r v p (dead q) o h run now found e =
      let (lt, ended, kid) = find_dead-dead k p false nproc 0 q found in
      let (a, t, f, g) = bind_ok (bury fl q) (λ pid. pure (some pid)) k r o e in
      let used : is_unused k.sched q ≡ false = zombie-is_unused (k.sched.proc q).state ended in
      let other : v.cur ≢ some q = λ z.
        let same : p ≡ q = ground (arith, z, h.current p now) in
        absurd
          (cc (run p now, ap (λ z. eqb_Procstate (k.sched.proc z).state zombie) same, ended)) in
      let kept : Kept t v = bury-Kept k t v q a h (h.busy q (omega arith) used) other f in
      Alike-Kept t r v kept ((pure-Quiet (some a)).alike t o r g)
  wait_on-Kept k r v p (alive b) o h run now found e =
      let turn : Quiet fl (wait_on fl p (alive b)) = search (quiet, sleep-Quiet) depth 24 in
      Alike-Kept k r v h (turn.alike k o r e)

  pub wait_turn-Kept :
      (k r : Kernel fl) (v : Locals) (o : Option ℤ)
      → Kept k v
      → Running k
      → wait_turn fl k ≡ ok (o, r)
      → Kept r v
  unfolding wait_turn
  wait_turn-Kept k r v o h run e =
      let (p, t, f, g) = bind_ok (myproc fl) (wait_of fl) k r o e in
      let (same, now) = myproc_ok k t p f in
      let moved : wait_of fl p k ≡ ok (o, r) =
        subst (λ z. wait_of fl p z ≡ ok (o, r)) (sym same) g in
      wait_on-Kept k r v p (find_dead fl k p false nproc 0) o h run now refl moved

  pub wait-Kept :
      (k r : Kernel fl) (v : Locals) (o : Option ℤ)
      → Kept k v
      → Running k
      → wait fl k ≡ ok (o, r)
      → Kept r v
  unfolding wait
  wait-Kept k r v o h run e =
      let (u, t, f, g) = bind_ok (lock fl ptable_lock) (λ u. wait_turn fl) k r o e in
      let same : Alike k t = (lock-Quiet ptable_lock).alike k u t f in
      let (c, i, j) = zoom_ok (λ k. k.cpu) (put_cpu fl) (acquire ptable_lock) k t u f in
      let sched : t.sched ≡ k.sched = sym (ap (λ z. z.sched) j) in
      wait_turn-Kept t r v o (Alike-Kept k t v h same)
        (λ p e.
          ap (λ z. eqb_Procstate (z.proc p).state zombie) sched ∙ run p (sym same.current ∙ e))
        g
