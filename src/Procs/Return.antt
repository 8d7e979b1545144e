-- ===== src/Procs/Return.antt =====
-- ex_project3/HYU-ELE3021/xv6-public/proc.c: the value of thread_exit reaches thread_join.
use operating_system.Common.{
  ℕ, zero, suc, ◌+◌, ◌≡◌, ◌≢◌, ◌⊎◌, inl, inr, refl, sym, ap, ◌∙◌, subst, ◌>>=◌, ◌>>◌, some,
  get_elem?, ℤ, pos, to_u32, ok, bind_ok, zoom_ok, pure, arith, Bool-cases,
}
use operating_system.Mlfq.Spinlock.{Cpu, ptable_lock, acquire}
use operating_system.Mlfq.Proc.{Procstate, unused, running, zombie, eqb_Procstate}
use operating_system.Stride.State.{Float, nproc}
use operating_system.Procs.State.{pointer, Kernel, put_cpu, lock}
use operating_system.Procs.Switch.{sleep}
use operating_system.Procs.Pool.{
  Joined, joined, asleep, thread_exit, find_tid, join_end, join_at, thread_join,
}
use operating_system.Procs.Join.{join_end_outcomes, Ended, thread_exit_outcomes}

module _ {fl : Float} where
  find_tid_cpu :
      (k : Kernel fl) (c : Cpu) (tid : ℤ) (n p : ℕ)
      → find_tid fl (put_cpu fl k c) tid n p ≡ find_tid fl k tid n p
  unfolding find_tid
  find_tid_cpu k c tid zero p = refl
  find_tid_cpu k c tid (suc n) p = rw (find_tid_cpu k c tid n (p + 1)) refl

  -- The thread is free again.
  abbrev pub Freed : Kernel fl → ℕ → ℕ → Type 0
  Freed r p t =
      (get_elem? (r.sched.proc p).threads t ≡ some unused) × (((r.more p).thread t).tid ≡ pos 0)

  join_at_outcomes :
      (k r : Kernel fl) (tid : ℤ) (p t : ℕ) (x : Procstate) (a : Joined)
      → get_elem? (k.sched.proc p).threads t ≡ some x
      → join_at fl tid (some (p, t)) k ≡ ok (a, r)
      → ((x ≡ zombie) × (a ≡ joined ((k.more p).thread t).retval) × Freed r p t)
        ⊎ ((x ≢ zombie) × (a ≡ asleep p t))
  join_at_outcomes k r tid p t x a g e = elim (Bool-cases (eqb_Procstate x zombie)) [
    | inl z ↦
        let f : (join_end fl p t >>= λ v. pure (joined v)) k ≡ ok (a, r) =
          ground (arith, e, g, z) in
        let (v, s, h, i) = bind_ok (join_end fl p t) (λ v. pure (joined v)) k r a f in
        let (value, state, tid) = join_end_outcomes k s p t v x g h in
        let last : s ≡ r = cc i in
        let result : joined v ≡ a = cc i in
        inl (
          ground (arith, z),
          sym result ∙ ap joined value,
          (
            ap (λ z. get_elem? (z.sched.proc p).threads t) (sym last) ∙ state,
            ap (λ z. ((z.more p).thread t).tid) (sym last) ∙ tid,
          ),
        )
    | inr z ↦
        let f : (sleep fl (pointer (to_u32 tid)) (some ptable_lock) >> pure (asleep p t)) k
            ≡ ok (a, r) =
          ground (arith, e, g, z) in
        let (u, s, h, i) =
          bind_ok (sleep fl (pointer (to_u32 tid)) (some ptable_lock)) (λ u. pure (asleep p t)) k r
            a f in
        inr (λ s. ground (arith, s, z), cc i)
  ]

  -- thread_join for a thread that it finds: where the thread is a ZOMBIE it returns the thread's value
  -- and frees the thread, and else it falls asleep. This holds whenever it does not panic.
  pub thread_join_outcomes :
      (k r : Kernel fl) (tid : ℤ) (p t : ℕ) (x : Procstate) (a : Joined)
      → find_tid fl k tid nproc 0 ≡ some (p, t)
      → get_elem? (k.sched.proc p).threads t ≡ some x
      → thread_join fl tid k ≡ ok (a, r)
      → ((x ≡ zombie) × (a ≡ joined ((k.more p).thread t).retval) × Freed r p t)
        ⊎ ((x ≢ zombie) × (a ≡ asleep p t))
  unfolding thread_join
  thread_join_outcomes k r tid p t x a found g e =
      let (u, s, f, rest) =
        bind_ok (lock fl ptable_lock) (λ u k. join_at fl tid (find_tid fl k tid nproc 0) k) k r a
          e in
      let (c, i, j) = zoom_ok (λ k. k.cpu) (put_cpu fl) (acquire ptable_lock) k s u f in
      let moved : join_at fl tid (find_tid fl (put_cpu fl k c) tid nproc 0) (put_cpu fl k c)
          ≡ ok (a, r) =
        subst (λ z. join_at fl tid (find_tid fl z tid nproc 0) z ≡ ok (a, r)) (sym j) rest in
      join_at_outcomes (put_cpu fl k c) r tid p t x a g (
        subst (λ z. join_at fl tid z (put_cpu fl k c) ≡ ok (a, r))
          (find_tid_cpu k c tid nproc 0 ∙ found) moved)

  -- What a running thread hands to thread_exit is what thread_join returns for it, when the process table
  -- is as thread_exit has left it and the search by thread id finds that thread; the
  -- thread is UNUSED then, with the id 0. This holds whenever the two do not panic.
  pub thread_join-thread_exit :
      (k r s w : Kernel fl) (p t v : ℕ) (tid : ℤ) (a : Joined)
      → k.cpu.proc ≡ some p
      → (k.sched.proc p).tidx ≡ t
      → get_elem? (k.sched.proc p).threads t ≡ some running
      → thread_exit fl v k ≡ ok (tt, r)
      → s.sched ≡ r.sched
      → s.more ≡ r.more
      → find_tid fl s tid nproc 0 ≡ some (p, t)
      → thread_join fl tid s ≡ ok (a, w)
      → (a ≡ joined v) × Freed w p t
  thread_join-thread_exit k r s w p t v tid a now idx g e procs rests found f =
      let h : Ended k r p t v = thread_exit_outcomes k r p t v now idx g e in
      let ended : get_elem? (s.sched.proc p).threads t ≡ some zombie =
        ap (λ z. get_elem? (z.proc p).threads t) procs ∙ h.ended in
      elim (thread_join_outcomes s w tid p t zombie a found ended f) [
        | inl (z, value, freed) ↦
            (value ∙ ap joined (ap (λ z. ((z p).thread t).retval) rests ∙ h.value_kept), freed)
        | inr (z, other) ↦ absurd (z refl)
      ]
