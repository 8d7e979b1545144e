-- ===== src/Procs/Failures.antt =====
-- ex_project3/HYU-ELE3021/xv6-public/proc.c: allocproc and fork, where kalloc or copyuvm fails.
use operating_system.Common.{
  ℕ, zero, suc, ◌+◌, ◌<◌, ◌≡◌, ◌≢◌, inl, inr, refl, sym, ap, ◌∙◌, subst, ◌==◌, ◌>>◌, Bool, true,
  Option, none, some, ok, bind_ok, zoom_ok, arith, Bool-cases, Option-cases,
}
use operating_system.Mlfq.Spinlock.{ptable_lock, acquire, release}
use operating_system.Stride.State.{Float, nproc, find_place, Sched, is_none}
use operating_system.Stride.Places.{find_place-some, find_place-none}
use operating_system.Stride.Queues.{enqueue, mlfq_append}
use operating_system.Stride.Turns.{Locals}
use operating_system.Procs.State.{Kernel, lock, unlock, put_sched, put_cpu}
use operating_system.Procs.Alike.{Alike}
use operating_system.Procs.Quiet.{lock-Quiet, unlock-Quiet}
use operating_system.Procs.Invariant.{is_unused, Kept, Alike-Kept}
use operating_system.Procs.Life.{give_kstack, init_proc, alloc_at, allocproc}
use operating_system.Procs.Births.{Born, init_proc_parts, enqueued-Kept}

find_place-same :
    (f g : ℕ → Bool) (n i : ℕ) → ((j : ℕ) → f j ≡ g j) → find_place f n i ≡ find_place g n i
unfolding find_place
find_place-same f g zero i h = refl
find_place-same f g (suc n) i h = rw (h i, find_place-same f g n (i + 1) h) refl

module _ {fl : Float} where
  -- Without a kernel stack the process is given up, but not its place.
  give_kstack_failed :
      (p : ℕ) (o : Option ℕ) (k r : Kernel fl)
      → give_kstack fl 0 p k ≡ ok (o, r)
      → (o ≡ none)
        × (is_unused r.sched p ≡ true)
        × ((q : ℕ) → p ≢ q → is_unused r.sched q ≡ is_unused k.sched q)
  unfolding give_kstack
  give_kstack_failed p o k r e = (ground (arith, e), ground (arith, e), λ q n. ground (arith, e, n))

  give_kstack-queue :
      (kstack p : ℕ) (o : Option ℕ) (k r : Kernel fl)
      → give_kstack fl kstack p k ≡ ok (o, r)
      → r.sched.queue ≡ k.sched.queue
  unfolding give_kstack
  give_kstack-queue kstack p o k r e = ground (arith, e)

  append-is_unused :
      (s r : Sched fl) (p q : ℕ) (b : Bool)
      → mlfq_append fl p 0 s ≡ ok (b, r)
      → is_unused r q ≡ is_unused s q
  unfolding mlfq_append enqueue
  append-is_unused s r p q b e =
      elim (Option-cases (find_place (λ i. is_none (s.queue 0 i)) nproc 0)) [
        | inl f ↦ ground (arith, rw f at e)
        | inr (i, f) ↦ ground (arith, rw f at e)
      ]

  -- Where level 0 has a free place, a process that stands in it already gets a second place.
  appended :
      (s r : Sched fl) (p : ℕ) (b : Bool) (j i : ℕ)
      → mlfq_append fl p 0 s ≡ ok (b, r)
      → j < nproc
      → s.queue 0 j ≡ none
      → s.queue 0 i ≡ some p
      → (m : ℕ) × (m ≢ i) × (r.queue 0 m ≡ some p) × (r.queue 0 i ≡ some p)
  unfolding mlfq_append enqueue
  appended s r p b j i e lt free here =
      elim (Option-cases (find_place (λ i. is_none (s.queue 0 i)) nproc 0)) [
        | inl f ↦
            let taken =
              find_place-none (λ i. is_none (s.queue 0 i)) nproc 0 f j (omega arith)
                (omega arith) in
            absurd (ground (arith, taken, free))
        | inr (m, f) ↦
            let (lo, hi, t, before) = find_place-some (λ i. is_none (s.queue 0 i)) nproc 0 m f in
            let new : m ≢ i = λ z. ground (arith, z, t, here) in
            (m, new, ground (arith, rw f at e), ground (arith, rw f at e, here, new))
      ]

  tail-queue :
      (kstack p : ℕ) (o : Option ℕ) (k r : Kernel fl)
      → (unlock fl ptable_lock >> give_kstack fl kstack p) k ≡ ok (o, r)
      → r.sched.queue ≡ k.sched.queue
  tail-queue kstack p o k r e =
      let (u, t, f, g) = bind_ok (unlock fl ptable_lock) (λ u. give_kstack fl kstack p) k r o e in
      let (c, i, j) = zoom_ok (λ k. k.cpu) (put_cpu fl) (release ptable_lock) k t u f in
      give_kstack-queue kstack p o t r g ∙ ap (λ z. z.sched.queue) (sym j)

  tail_failed :
      (p : ℕ) (o : Option ℕ) (k r : Kernel fl)
      → (unlock fl ptable_lock >> give_kstack fl 0 p) k ≡ ok (o, r)
      → (o ≡ none)
        × (is_unused r.sched p ≡ true)
        × ((q : ℕ) → p ≢ q → is_unused r.sched q ≡ is_unused k.sched q)
  tail_failed p o k r e =
      let (u, t, f, g) = bind_ok (unlock fl ptable_lock) (λ u. give_kstack fl 0 p) k r o e in
      let (null, free, others) = give_kstack_failed p o t r g in
      (null, free, λ q n. others q n ∙ ((unlock-Quiet ptable_lock).alike k u t f).alive q)

  -- allocproc goes on with the first UNUSED entry.
  allocproc_found :
      (k r : Kernel fl) (kstack p : ℕ) (o : Option ℕ)
      → find_place (is_unused k.sched) nproc 0 ≡ some p
      → allocproc fl kstack k ≡ ok (o, r)
      → (t : Kernel fl) × (t.sched ≡ k.sched) × Alike k t × (init_proc fl kstack p t ≡ ok (o, r))
  unfolding allocproc
  allocproc_found k r kstack p o h e =
      let (u, t, f, g) =
        bind_ok (lock fl ptable_lock)
          (λ u k. alloc_at fl kstack (find_place (is_unused k.sched) nproc 0) k) k r o e in
      let (c, i, j) = zoom_ok (λ k. k.cpu) (put_cpu fl) (acquire ptable_lock) k t u f in
      let same : t.sched ≡ k.sched = sym (ap (λ z. z.sched) j) in
      let first : find_place (is_unused t.sched) nproc 0 ≡ some p =
        ap (λ s. find_place (is_unused s) nproc 0) same ∙ h in
      (
        t,
        same,
        (lock-Quiet ptable_lock).alike k u t f,
        subst (λ z. alloc_at fl kstack z t ≡ ok (o, r)) first g,
      )

  -- The entry is UNUSED, and stands in level 0 all the same.
  pub record Lost (k r : Kernel fl) (p : ℕ) : Type 0 where
    pub alive : (q : ℕ) → is_unused r.sched q ≡ is_unused k.sched q
    pub free : is_unused r.sched p ≡ true
    pub place : ℕ
    pub queued : r.sched.queue 0 place ≡ some p

  -- A defect: where kalloc fails, allocproc returns null and gives the entry back as UNUSED, but leaves it in
  -- level 0 of the queues. Here the entry is the first UNUSED one, and the places and the entries of
  -- the table agreed before.
  pub allocproc_failed :
      (k r : Kernel fl) (v : Locals) (p : ℕ) (o : Option ℕ)
      → Kept k v
      → find_place (is_unused k.sched) nproc 0 ≡ some p
      → allocproc fl 0 k ≡ ok (o, r)
      → (o ≡ none) × Lost k r p
  allocproc_failed k r v p o h first e =
      let (s, procs, quick, f) = allocproc_found k r 0 p o first e in
      let (lo, hi, was, before) = find_place-some (is_unused k.sched) nproc 0 p first in
      let (t, b, n, c, used, d, i) = init_proc_parts s r 0 p o f in
      let born : Born s (put_sched fl t n) v p =
        enqueued-Kept s t (put_sched fl t n) v p b (Alike-Kept k s v h quick) (omega arith)
          (quick.alive p ∙ was) c used d refl in
      let (null, free, others) = tail_failed p o (put_sched fl t n) r i in
      (
        null,
        record {
          alive = λ q. elim (Bool-cases (p == q)) [
            | inl here ↦
                subst (λ z. is_unused r.sched z ≡ is_unused k.sched z) (ground arith)
                  (free ∙ sym was)
            | inr away ↦
                others q (ground arith)
                ∙ append-is_unused t.sched n p q b d
                ∙ c.alive q (ground arith)
                ∙ quick.alive q
          ];
          free = free;
          place = born.place;
          queued = ap (λ z. z 0 born.place) (tail-queue 0 p o (put_sched fl t n) r i) ∙ born.queued;
        },
      )

  -- A defect. Where the places and the entries of the table agree, an entry is free, and a call of
  -- allocproc returns that gets no kernel stack from kalloc, the next call, if it returns, takes the same
  -- entry again and, as long as level 0 has a free place, queues it a second time: the process then
  -- stands in two places of level 0.
  pub allocproc_twice :
      (k r t : Kernel fl) (v : Locals) (p j kstack : ℕ) (o a : Option ℕ)
      → Kept k v
      → find_place (is_unused k.sched) nproc 0 ≡ some p
      → allocproc fl 0 k ≡ ok (o, r)
      → j < nproc
      → r.sched.queue 0 j ≡ none
      → allocproc fl kstack r ≡ ok (a, t)
      → (m n : ℕ) × (m ≢ n) × (t.sched.queue 0 m ≡ some p) × (t.sched.queue 0 n ≡ some p)
  allocproc_twice k r t v p j kstack o a h first e lt room f =
      let (null, lost) = allocproc_failed k r v p o h first e in
      let again : find_place (is_unused r.sched) nproc 0 ≡ some p =
        find_place-same (is_unused r.sched) (is_unused k.sched) nproc 0 lost.alive ∙ first in
      let (s, procs, quick, g) = allocproc_found r t kstack p a again f in
      let (u, b, n, c, used, d, i) = init_proc_parts s t kstack p a g in
      let queues : t.sched.queue ≡ n.queue = tail-queue kstack p a (put_sched fl u n) t i in
      let kept : u.sched.queue 0 lost.place ≡ some p =
        c.same.queues 0 lost.place ∙ quick.same.queues 0 lost.place ∙ lost.queued in
      let free : u.sched.queue 0 j ≡ none = c.same.queues 0 j ∙ quick.same.queues 0 j ∙ room in
      let (m, d1, d2, d3) = appended u.sched n p b j lost.place d lt free kept in
      (m, lost.place, d1, ap (λ z. z 0 m) queues ∙ d2, ap (λ z. z 0 lost.place) queues ∙ d3)
