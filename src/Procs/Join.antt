-- ===== src/Procs/Join.antt =====
-- ex_project3/HYU-ELE3021/xv6-public/proc.c: thread_exit and thread_join.
use operating_system.Common.{
  ℕ, ◌<◌, ◌≡◌, ◌≢◌, inl, inr, refl, sym, ap, ◌∙◌, subst, ◌==◌, ◌>>=◌, some, set, get_elem?,
  get_elem?-set_self, get_elem?-set_ne, pos, to_u32, ok, bind_ok, zoom_ok, pure, update, arith,
  Bool-cases,
}
use operating_system.Mlfq.Spinlock.{Cpu, ptable_lock, acquire, release}
use operating_system.Mlfq.Proc.{Procstate, unused, runnable, running, sleeping, zombie}
use operating_system.Stride.State.{Float, nproc}
use operating_system.Procs.State.{
  in_epilogue, pointer, Thread, Kernel, put_cpu, lock, unlock, myproc,
}
use operating_system.Procs.Switch.{wakeup1, sched}
use operating_system.Procs.Pool.{epilogue_of, exit_with, thread_epilogue, thread_exit, join_end}
use operating_system.Procs.Quiet.{acquire-proc, myproc_ok}
use operating_system.Procs.Waking.{wake_process-zombie, wake_process-woken}
use operating_system.Procs.Still.{Steady, Steady-beside, sched-Still}

module _ {fl : Float} where
  -- The states before the switch of thread_exit.
  abbrev valued : ℕ → ℕ → ℕ → Kernel fl → Kernel fl
  valued p t v k = record k {
    more = update k.more p (record (k.more p) {
      thread = update (k.more p).thread t (record ((k.more p).thread t) { retval = v });
    });
  }

  abbrev ended_at : ℕ → ℕ → Kernel fl → Kernel fl
  ended_at p t k = record k {
    sched = record (k.sched) {
      proc =
          update k.sched.proc p
            (record (k.sched.proc p) { threads = set (k.sched.proc p).threads t zombie });
    };
  }

  ended_at-others :
      (k : Kernel fl) (p t q u : ℕ)
      → get_elem? (k.sched.proc p).threads t ≡ some running
      → get_elem? (k.sched.proc q).threads u ≡ some sleeping
      → get_elem? ((ended_at p t k).sched.proc q).threads u ≡ some sleeping
  ended_at-others k p t q u g sleeps = elim (Bool-cases (p == q)) [
    | inl s ↦
        let here : p ≡ q = ground arith in
        let old : get_elem? (k.sched.proc p).threads u ≡ some sleeping =
          subst (λ z. get_elem? (k.sched.proc z).threads u ≡ some sleeping) (sym here) sleeps in
        let away : t ≢ u = λ z. absurd (ground (arith, z, g, old)) in
        rw (sym here)
          (ground (arith, get_elem?-set_ne (k.sched.proc p).threads t u zombie away, old))
    | inr n ↦ ground (arith, sleeps)
  ]

  ended_at-state :
      (k : Kernel fl) (p t q : ℕ) → ((ended_at p t k).sched.proc q).state ≡ (k.sched.proc q).state
  ended_at-state k p t q = ground arith

  valued-chan :
      (k : Kernel fl) (p t v q u : ℕ)
      → (((valued p t v k).more q).thread u).chan ≡ ((k.more q).thread u).chan
  valued-chan k p t v q u = ground arith

  -- join_end frees the thread and returns its value.
  pub join_end_outcomes :
      (k r : Kernel fl) (p t v : ℕ) (x : Procstate)
      → get_elem? (k.sched.proc p).threads t ≡ some x
      → join_end fl p t k ≡ ok (v, r)
      → (v ≡ ((k.more p).thread t).retval)
        × (get_elem? (r.sched.proc p).threads t ≡ some unused)
        × (((r.more p).thread t).tid ≡ pos 0)
  unfolding join_end
  join_end_outcomes k r p t v x g e =
      let th : Thread = record ((k.more p).thread t) { kstack = 0; tid = pos 0; retval = 0 } in
      let s : Kernel fl = record k {
        sched = record (k.sched) {
          proc =
              update k.sched.proc p
                (record (k.sched.proc p) { threads = set (k.sched.proc p).threads t unused });
        };
        more = update k.more p (record (k.more p) { thread = update (k.more p).thread t th });
      } in
      let value : ℕ = ((k.more p).thread t).retval in
      let (u, z, f, h) = bind_ok (unlock fl ptable_lock) (λ u. pure value) s r v e in
      let (c, i, j) = zoom_ok (λ k. k.cpu) (put_cpu fl) (release ptable_lock) s z u f in
      let last : z ≡ r = cc h in
      let scheds : r.sched ≡ s.sched = sym (ap (λ z. z.sched) (j ∙ last)) in
      let mores : r.more ≡ s.more = sym (ap (λ z. z.more) (j ∙ last)) in
      (
        cc h,
        ap (λ z. get_elem? (z.proc p).threads t) scheds
            ∙ ground (arith, get_elem?-set_self (k.sched.proc p).threads t unused g),
        ap (λ z. ((z p).thread t).tid) mores ∙ ground arith,
      )

  -- A thread that has ended, with its value, and the threads that slept until then.
  pub record Ended (k r : Kernel fl) (p t v : ℕ) : Type 0 where
    pub ended : get_elem? (r.sched.proc p).threads t ≡ some zombie
    pub value_kept : ((r.more p).thread t).retval ≡ v
    pub tid_kept : ((r.more p).thread t).tid ≡ ((k.more p).thread t).tid
    pub woken :
        (q u : ℕ)
        → q < nproc
        → (k.sched.proc q).state ≡ runnable
        → get_elem? (k.sched.proc q).threads u ≡ some sleeping
        → ((k.more q).thread u).chan ≡ pointer (to_u32 ((k.more p).thread t).tid)
        → get_elem? (r.sched.proc q).threads u ≡ some runnable

  Ended-before :
      (k : Kernel fl) (p t v : ℕ)
      → get_elem? (k.sched.proc p).threads t ≡ some running
      → Ended k
          (wakeup1 fl (pointer (to_u32 ((k.more p).thread t).tid)) (ended_at p t (valued p t v k)))
          p
          t
          v
  unfolding wakeup1
  Ended-before k p t v g = record {
    ended =
        wake_process-zombie fl (pointer (to_u32 ((k.more p).thread t).tid)) (valued p t v k).more p
          t ((ended_at p t k).sched.proc p)
          (ground (arith, get_elem?-set_self (k.sched.proc p).threads t zombie g));
    value_kept = ground arith;
    tid_kept = ground arith;
    woken = λ q u lt state sleeps on.
        wake_process-woken fl (pointer (to_u32 ((k.more p).thread t).tid)) (valued p t v k).more q u
          ((ended_at p t k).sched.proc q) lt (ended_at-state k p t q ∙ state)
          (ended_at-others k p t q u g sleeps) (valued-chan k p t v q u ∙ on);
  }

  epilogue_end : (k s r : Kernel fl) (p t v : ℕ) → Ended k s p t v → Steady s r → Ended k r p t v
  epilogue_end k s r p t v h st = record {
    ended = ap (λ z. get_elem? (z.proc p).threads t) st.sched ∙ h.ended;
    value_kept = st.retval p t ∙ h.value_kept;
    tid_kept = st.tid p t ∙ h.tid_kept;
    woken = λ q u lt state sleeps on.
        ap (λ z. get_elem? (z.proc q).threads u) st.sched ∙ h.woken q u lt state sleeps on;
  }

  valued-tid :
      (k : Kernel fl) (p t v q u : ℕ)
      → (((valued p t v k).more q).thread u).tid ≡ ((k.more q).thread u).tid
  valued-tid k p t v q u = ground arith

  -- The state in which thread_epilogue calls sched.
  abbrev last_state : ℕ → ℕ → ℕ → Cpu → Kernel fl → Kernel fl
  last_state p t v c k =
      wakeup1 fl (pointer (to_u32 (((valued p t v k).more p).thread t).tid))
        (put_cpu fl (ended_at p t (valued p t v k)) c)

  Ended-last :
      (k : Kernel fl) (p t v : ℕ) (c : Cpu)
      → get_elem? (k.sched.proc p).threads t ≡ some running
      → Ended k (last_state p t v c k) p t v
  unfolding wakeup1
  Ended-last k p t v c g =
      subst
        (λ z.
          Ended k (wakeup1 fl (pointer (to_u32 z)) (put_cpu fl (ended_at p t (valued p t v k)) c)) p
            t v)
        (sym (valued-tid k p t v p t))
        (epilogue_end k
          (wakeup1 fl (pointer (to_u32 ((k.more p).thread t).tid)) (ended_at p t (valued p t v k)))
          (wakeup1 fl (pointer (to_u32 ((k.more p).thread t).tid))
            (put_cpu fl (ended_at p t (valued p t v k)) c))
          p t v (Ended-before k p t v g) (Steady-beside _ _ refl refl))

  epilogue_lem :
      (k r : Kernel fl) (p t v : ℕ)
      → k.cpu.proc ≡ some p
      → (k.sched.proc p).tidx ≡ t
      → get_elem? (k.sched.proc p).threads t ≡ some running
      → thread_epilogue fl (valued p t v k) ≡ ok (tt, r)
      → Ended k r p t v
  unfolding thread_epilogue
  epilogue_lem k r p t v now idx g e =
      let (u, s, f, rest) =
        bind_ok (lock fl ptable_lock) (λ u. myproc fl >>= epilogue_of fl) (valued p t v k) r tt e in
      let (c, x, y) =
        zoom_ok (λ k. k.cpu) (put_cpu fl) (acquire ptable_lock) (valued p t v k) s u f in
      let rest1 : (myproc fl >>= epilogue_of fl) (put_cpu fl (valued p t v k) c) ≡ ok (tt, r) =
        subst (λ z. (myproc fl >>= epilogue_of fl) z ≡ ok (tt, r)) (sym y) rest in
      let (a, z, f2, rest2) =
        bind_ok (myproc fl) (epilogue_of fl) (put_cpu fl (valued p t v k) c) r tt rest1 in
      let (same, cur) = myproc_ok (put_cpu fl (valued p t v k) c) z a f2 in
      let who : a ≡ p = cc (cur, acquire-proc ptable_lock k.cpu c x, now) in
      let e1 : epilogue_of fl p (put_cpu fl (valued p t v k) c) ≡ ok (tt, r) =
        subst (λ w. epilogue_of fl w (put_cpu fl (valued p t v k) c) ≡ ok (tt, r)) who
          (subst (λ w. epilogue_of fl a w ≡ ok (tt, r)) (sym same) rest2) in
      let at_tidx : ℕ → Kernel fl = λ i.
        wakeup1 fl (pointer (to_u32 (((valued p t v k).more p).thread i).tid))
          (put_cpu fl (ended_at p i (valued p t v k)) c) in
      let e2 : sched fl in_epilogue (at_tidx (k.sched.proc p).tidx) ≡ ok (tt, r) = e1 in
      let e3 : sched fl in_epilogue (last_state p t v c k) ≡ ok (tt, r) =
        subst (λ i. sched fl in_epilogue (at_tidx i) ≡ ok (tt, r)) idx e2 in
      epilogue_end k (last_state p t v c k) r p t v (Ended-last k p t v c g)
        ((sched-Still in_epilogue).steady (last_state p t v c k) tt r e3)

  -- thread_exit, whenever it gets to its switch, in the running thread `t` of a process: the thread is a zombie with the value
  -- and keeps its id, and every thread of a RUNNABLE process that was sleeps on that id is RUNNABLE.
  pub thread_exit_outcomes :
      (k r : Kernel fl) (p t v : ℕ)
      → k.cpu.proc ≡ some p
      → (k.sched.proc p).tidx ≡ t
      → get_elem? (k.sched.proc p).threads t ≡ some running
      → thread_exit fl v k ≡ ok (tt, r)
      → Ended k r p t v
  unfolding thread_exit thread_epilogue
  thread_exit_outcomes k r p t v now idx g e =
      let (a, s, f, rest) = bind_ok (myproc fl) (exit_with fl v) k r tt e in
      let (same, cur) = myproc_ok k s a f in
      let who : a ≡ p = cc (cur, now) in
      let e1 : thread_epilogue fl (valued p (k.sched.proc p).tidx v k) ≡ ok (tt, r) =
        subst (λ z. exit_with fl v z k ≡ ok (tt, r)) who
          (subst (λ z. exit_with fl v a z ≡ ok (tt, r)) (sym same) rest) in
      let e2 : thread_epilogue fl (valued p t v k) ≡ ok (tt, r) =
        subst (λ z. thread_epilogue fl (valued p z v k) ≡ ok (tt, r)) idx e1 in
      epilogue_lem k r p t v now idx g e2
