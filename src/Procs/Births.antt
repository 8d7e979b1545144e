-- ===== src/Procs/Births.antt =====
-- ex_project3/HYU-ELE3021/xv6-public/proc.c: allocproc, userinit and fork, where kalloc, setupkvm and copyuvm
-- do not fail.
use operating_system.Common.{
  ℕ, ◌<◌, ◌≡◌, ◌⊎◌, inl, inr, refl, sym, ap, ◌∙◌, subst, ◌==◌, ◌>>=◌, ◌>>◌, Bool, true, false,
  Option, none, some, ok, zoom_ok, bind_ok, same_state, arith, modify, inc_int,
}
use operating_system.Mlfq.Spinlock.{ptable_lock}
use operating_system.Mlfq.Proc.{unused, embryo, eqb_Procstate}
use operating_system.Stride.State.{Float, nproc, find_place, Sched}
use operating_system.Stride.Places.{find_place-some, find_place-none}
use operating_system.Stride.Queues.{enqueue, mlfq_append}
use operating_system.Stride.Turns.{Locals}
use operating_system.Stride.Invariant.{WellFormed, Unqueued, enqueue-WellFormed}
use operating_system.Stride.Moves.{InPlace, Unqueued-of}
use operating_system.Stride.Room.{append_new}
use operating_system.Stride.Frames.{Others, enqueue-Others, enqueue-queue}
use operating_system.Procs.State.{Kernel, lock, unlock, put_sched, on_sched}
use operating_system.Procs.Alike.{Alike, Alike-trans, Alike-beside}
use operating_system.Procs.Quiet.{Quiet, modify-Quiet, unlock-Quiet, lock-Quiet, quiet}
use operating_system.Procs.Invariant.{is_unused, Kept, Alike-Kept, Others-Kept}
use operating_system.Procs.Changes.{
  Changed, stored, stored-Changed, stored-is_unused, Changed-Alike, Changed-WellFormed,
  Changed-stays, Changed-came,
}
use operating_system.Procs.Life.{give_kstack, number_proc, init_proc, alloc_at, allocproc}

module _ {fl : Float} where
  ids-Quiet :
      Quiet fl
        (modify (λ k. record k { next_pid = inc_int k.next_pid; next_tid = inc_int k.next_tid }))
  ids-Quiet = modify-Quiet _ (λ k. Alike-beside k _ refl refl)

  number_proc-Quiet : (p : ℕ) → Quiet fl (number_proc fl p)
  unfolding number_proc
  number_proc-Quiet p = search (quiet, ids-Quiet) depth 24

  -- With a kernel stack, the process stays.
  give_kstack-Quiet : (kstack p : ℕ) → (kstack == 0) ≡ false → Quiet fl (give_kstack fl kstack p)
  unfolding give_kstack
  give_kstack-Quiet kstack p h = rw h (search quiet depth 24)

  give_kstack_result :
      (kstack p : ℕ) (o : Option ℕ) (k r : Kernel fl)
      → (kstack == 0) ≡ false
      → give_kstack fl kstack p k ≡ ok (o, r)
      → o ≡ some p
  unfolding give_kstack
  give_kstack_result kstack p o k r h e = ground (arith, rw h at e)

  -- The process that allocproc has taken.
  pub record Born (k r : Kernel fl) (v : Locals) (p : ℕ) : Type 0 where
    pub bound : p < nproc
    pub was : is_unused k.sched p ≡ true
    pub now : is_unused r.sched p ≡ false
    pub kept : Kept r v
    pub place : ℕ
    pub queued : r.sched.queue 0 place ≡ some p

  pub enqueued-Kept :
      (k t r : Kernel fl) (v : Locals) (p : ℕ) (b : Bool)
      → Kept k v
      → p < nproc
      → is_unused k.sched p ≡ true
      → Changed k t p
      → is_unused t.sched p ≡ false
      → mlfq_append fl p 0 t.sched ≡ ok (b, r.sched)
      → r.cpu.proc ≡ t.cpu.proc
      → Born k r v p
  enqueued-Kept k t r v p b h lt e c f g cpu =
      let no : ¬ InPlace k.sched p = h.idle p lt e in
      let wt : WellFormed t.sched = Changed-WellFormed k t p c h.wf in
      let u : Unqueued p t.sched = Unqueued-of (λ a. no (Changed-came k t p p c a)) in
      let (j, jlt, free, a) = append_new fl t.sched wt 0 p u lt in
      let same : enqueue fl p 0 j t.sched ≡ r.sched =
        same_state (mlfq_append fl p 0) true b t.sched _ r.sched a g in
      let o : Others t.sched r.sched p =
        subst (λ z. Others t.sched z p) same (enqueue-Others fl t.sched p 0 j free) in
      let here : InPlace r.sched p =
        subst (λ z. InPlace z p) same (inl (0, j, enqueue-queue fl t.sched p 0 j)) in
      let state : (q : ℕ) → is_unused r.sched q ≡ is_unused t.sched q =
        λ q. ap (λ z. eqb_Procstate z unused) (o.state q) in
      record {
        bound = lt;
        was = e;
        now = state p ∙ f;
        kept =
            Others-Kept k r v p h
              (subst WellFormed same
                (enqueue-WellFormed fl t.sched p 0 j wt u lt (omega arith) jlt))
              (λ q n m. o.stays q n (Changed-stays k t p q c m))
              (λ q n m. Changed-came k t p q c (o.came q n m)) (λ q n. state q ∙ c.alive q n)
              (λ z. absurd (cc (z, state p, f))) (λ z. here) (cpu ∙ c.current)
              (λ z. no (h.chosen p z));
        place = j;
        queued = subst (λ z. z.queue 0 j ≡ some p) same (enqueue-queue fl t.sched p 0 j);
      }

  Born-Alike : (k t r : Kernel fl) (v : Locals) (p : ℕ) → Born k t v p → Alike t r → Born k r v p
  Born-Alike k t r v p b a = record {
    bound = b.bound;
    was = b.was;
    now = a.alive p ∙ b.now;
    kept = Alike-Kept t r v b.kept a;
    place = b.place;
    queued = a.same.queues 0 b.place ∙ b.queued;
  }

  -- init_proc, cut at its call of mlfq_append.
  pub init_proc_parts :
      (k r : Kernel fl) (kstack p : ℕ) (o : Option ℕ)
      → init_proc fl kstack p k ≡ ok (o, r)
      → (t : Kernel fl) × (b : Bool) × (n : Sched fl) × Changed k t p
        × (is_unused t.sched p ≡ false)
        × (mlfq_append fl p 0 t.sched ≡ ok (b, n))
        × ((unlock fl ptable_lock >> give_kstack fl kstack p) (put_sched fl t n) ≡ ok (o, r))
  unfolding init_proc
  init_proc_parts k r kstack p o f =
      let x = record (k.sched.proc p) { state = embryo; tidx = 0 } in
      let (u, t, a, g) =
        bind_ok (number_proc fl p)
          (λ u. on_sched fl (mlfq_append fl p 0) >>= λ b.
            unlock fl ptable_lock >> give_kstack fl kstack p)
          (stored p x k) r o f in
      let (b, s, c, i) =
        bind_ok (on_sched fl (mlfq_append fl p 0))
          (λ b. unlock fl ptable_lock >> give_kstack fl kstack p) t r o g in
      let (n, d, same) = zoom_ok (λ k. k.sched) (put_sched fl) (mlfq_append fl p 0) t s b c in
      let quick : Alike (stored p x k) t = (number_proc-Quiet p).alike (stored p x k) u t a in
      (
        t,
        b,
        n,
        Changed-Alike k (stored p x k) t p (stored-Changed p x k refl refl) quick,
        quick.alive p ∙ stored-is_unused p x k,
        d,
        subst (λ z. (unlock fl ptable_lock >> give_kstack fl kstack p) z ≡ ok (o, r)) (sym same) i,
      )

  init_proc-Born :
      (k r : Kernel fl) (v : Locals) (kstack p : ℕ) (o : Option ℕ)
      → Kept k v
      → (kstack == 0) ≡ false
      → p < nproc
      → is_unused k.sched p ≡ true
      → init_proc fl kstack p k ≡ ok (o, r)
      → (o ≡ some p) × Born k r v p
  init_proc-Born k r v kstack p o h stack lt e f =
      let (t, b, n, c, used, d, i) = init_proc_parts k r kstack p o f in
      let born : Born k (put_sched fl t n) v p =
        enqueued-Kept k t (put_sched fl t n) v p b h lt e c used d refl in
      let tail : Quiet fl (unlock fl ptable_lock >> give_kstack fl kstack p) =
        search (quiet, give_kstack-Quiet, stack) in
      let (u, m, j, l) =
        bind_ok (unlock fl ptable_lock) (λ u. give_kstack fl kstack p) (put_sched fl t n) r o i in
      (
        give_kstack_result kstack p o m r stack l,
        Born-Alike k (put_sched fl t n) r v p born (tail.alike (put_sched fl t n) o r i),
      )

  Kept-Born : (k t r : Kernel fl) (v : Locals) (p : ℕ) → Alike k t → Born t r v p → Born k r v p
  Kept-Born k t r v p a b = record {
    bound = b.bound;
    was = sym (a.alive p) ∙ b.was;
    now = b.now;
    kept = b.kept;
    place = b.place;
    queued = b.queued;
  }

  -- What allocproc returns: null, where nothing has changed, or the process that it has taken.
  abbrev pub AllUsed : Kernel fl → Type 0
  AllUsed k = (q : ℕ) → q < nproc → is_unused k.sched q ≡ false

  abbrev pub Allocated : Kernel fl → Kernel fl → Locals → Option ℕ → Type 0
  Allocated k r v o = ((o ≡ none) × Alike k r × AllUsed k) ⊎ ((p : ℕ) × (o ≡ some p) × Born k r v p)

  alloc_at-Allocated :
      (k r : Kernel fl) (v : Locals) (kstack : ℕ) (c o : Option ℕ)
      → Kept k v
      → (kstack == 0) ≡ false
      → find_place (is_unused k.sched) nproc 0 ≡ c
      → alloc_at fl kstack c k ≡ ok (o, r)
      → Allocated k r v o
  alloc_at-Allocated k r v kstack none o h stack f e =
      let (u, t, a, g) = bind_ok (unlock fl ptable_lock) (λ u k. ok (none, k)) k r o e in
      inl (
        ground (arith, g),
        subst (Alike k) (ground (arith, g)) ((unlock-Quiet ptable_lock).alike k u t a),
        λ q b. find_place-none (is_unused k.sched) nproc 0 f q (omega arith) (omega arith),
      )
  alloc_at-Allocated k r v kstack (some p) o h stack f e =
      let (lo, hi, t, before) = find_place-some (is_unused k.sched) nproc 0 p f in
      let (x, b) = init_proc-Born k r v kstack p o h stack (omega arith) t e in inr (p, x, b)

  pub allocproc-Allocated :
      (k r : Kernel fl) (v : Locals) (kstack : ℕ) (o : Option ℕ)
      → Kept k v
      → (kstack == 0) ≡ false
      → allocproc fl kstack k ≡ ok (o, r)
      → Allocated k r v o
  unfolding allocproc
  allocproc-Allocated k r v kstack o h stack e =
      let (u, t, a, g) =
        bind_ok (lock fl ptable_lock)
          (λ u k. alloc_at fl kstack (find_place (is_unused k.sched) nproc 0) k) k r o e in
      let same : Alike k t = (lock-Quiet ptable_lock).alike k u t a in
      elim (alloc_at-Allocated t r v kstack (find_place (is_unused t.sched) nproc 0) o
        (Alike-Kept k t v h same) stack refl g) [
          | inl (n, b, full) ↦ inl (n, Alike-trans same b, λ q lt. sym (same.alive q) ∙ full q lt)
          | inr (p, x, b) ↦ inr (p, x, Kept-Born k t r v p same b)
        ]
