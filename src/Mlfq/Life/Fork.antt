-- ===== src/Mlfq/Life/Fork.antt =====
-- allocproc and fork of xv6-public_project02/proc.c.
use operating_system.Common.{
  ℕ, zero, suc, ◌+◌, ◌≡◌, ◌≢◌, ◌⊎◌, inl, inr, refl, ◌∙◌, true, false, none, some, List, [], ◌∷◌,
  ◌==◌, get_elem?, get_elem?-set_self, get_elem?-set_ne, set-set, set, pos, negsuc, inc_int, ok,
  arith, Bool-cases, Option-cases,
}
use operating_system.Mlfq.Spinlock.{ptable_lock, is_held}
use operating_system.Mlfq.Spinlock.Laws.{acquired, released, acquire-free, release-held}
use operating_system.Mlfq.Level
use operating_system.Mlfq.Proc.{
  Proc, Procstate, Kernel, unused, embryo, sleeping, runnable, running, zombie, eqb_Procstate,
  in_forkret, idup, filedup,
}
use operating_system.Mlfq.Switch.Laws.{Outside}
use operating_system.Mlfq.Life.{
  find_unused, embryonic, allocproc, file_calls, child_of, fork_into, fork,
}

unused_state : (s : Procstate) → eqb_Procstate s unused ≡ true → s ≡ unused
unused_state unused h = refl
unused_state zombie h = cc
unused_state embryo h = cc
unused_state sleeping h = cc
unused_state runnable h = cc
unused_state running h = cc

pub find_unused-some :
    (i : ℕ) (ps : List Proc) (m : ℕ)
    → find_unused i ps ≡ some m
    → (n : ℕ) × (p : Proc) × (m ≡ i + n) × (get_elem? ps n ≡ some p) × (p.state ≡ unused)
unfolding find_unused
find_unused-some i [] m e = absurd (cc)
find_unused-some i (p ∷ ps) m e = elim (Bool-cases (eqb_Procstate p.state unused)) [
  | inl h ↦ (0, p, ground arith, refl, unused_state p.state h)
  | inr h ↦
      let (n, q, f, g, t) = find_unused-some (suc i) ps m (rw h at e) in
      (suc n, q, omega arith, g, t)
]

pub find_unused-none :
    (i : ℕ) (ps : List Proc)
    → find_unused i ps ≡ none
    → (n : ℕ) (p : Proc) → get_elem? ps n ≡ some p
    → p.state ≢ unused
unfolding find_unused
find_unused-none i [] e n p g = cc
find_unused-none i (r ∷ ps) e zero p g = λ t. ground arith
find_unused-none i (r ∷ ps) e (suc n) p g = elim (Bool-cases (eqb_Procstate r.state unused)) [
  | inl h ↦ absurd (cc (rw h at e))
  | inr h ↦ find_unused-none (suc i) ps (rw h at e) n p g
]

abbrev pub unlocked : Kernel → Kernel
unlocked k = record k { cpu = released ptable_lock (acquired ptable_lock k.cpu) }

-- The slot that allocproc fills, and the kernel with it.
abbrev pub allotted : Kernel → ℕ → Proc → Proc
allotted k kstack np = record (embryonic np k.nextpid k.queues.l0_cnt) {
  kstack = kstack;
  context = record { caller = in_forkret; saved_intena = false };
}

abbrev pub allocated : Kernel → ℕ → ℕ → Proc → Kernel
allocated k kstack n np = record (unlocked k) {
  procs = set k.procs n (allotted k kstack np);
  nextpid = inc_int k.nextpid;
  queues = record (k.queues) { l0_cnt = inc_int k.queues.l0_cnt };
}

pub allocproc_lem :
    (k : Kernel) (kstack n : ℕ) (np : Proc)
    → is_held ptable_lock k.cpu.held ≡ false
    → find_unused 0 k.procs ≡ some n
    → get_elem? k.procs n ≡ some np
    → (kstack == 0) ≡ false
    → allocproc kstack k ≡ ok (some n, allocated k kstack n np)
unfolding allocproc
allocproc_lem k kstack n np h f e s = ground (
  arith,
  acquire-free ptable_lock k.cpu,
  release-held ptable_lock (acquired ptable_lock k.cpu),
  get_elem?-set_self k.procs n (embryonic np k.nextpid k.queues.l0_cnt) e,
  set-set k.procs n (embryonic np k.nextpid k.queues.l0_cnt) (allotted k kstack np),
)

abbrev pub forked : Kernel → ℕ → Proc → ℕ → ℕ → ℕ → Proc → Kernel
forked k i cur kstack pgdir n np = record (allocated k kstack n np) {
  cpu =
      released ptable_lock
        (acquired ptable_lock (released ptable_lock (acquired ptable_lock k.cpu)));
  procs = set k.procs n (record (child_of i cur pgdir (allotted k kstack np)) { state = runnable });
  calls = idup cur.cwd ∷ file_calls filedup cur.ofile k.calls;
}

fork_into_lem :
    (k : Kernel) (i : ℕ) (cur : Proc) (kstack pgdir n : ℕ) (np : Proc)
    → k.cpu.held ≡ []
    → get_elem? k.procs i ≡ some cur
    → get_elem? k.procs n ≡ some np
    → n ≢ i
    → (pgdir == 0) ≡ false
    → fork_into pgdir i (some n) (allocated k kstack n np)
      ≡ ok ((child_of i cur pgdir (allotted k kstack np)).pid, forked k i cur kstack pgdir n np)
unfolding fork_into
fork_into_lem k i cur kstack pgdir n np h e f d g =
    let c : Proc = child_of i cur pgdir (allotted k kstack np) in
    ground (
      arith,
      get_elem?-set_self k.procs n (allotted k kstack np) f,
      get_elem?-set_ne k.procs n i (allotted k kstack np) d,
      set-set k.procs n (allotted k kstack np) c,
      set-set k.procs n (allotted k kstack np) (record c { state = runnable }),
      set-set k.procs n c (record c { state = runnable }),
      get_elem?-set_self k.procs n c f,
      acquire-free ptable_lock (released ptable_lock (acquired ptable_lock k.cpu)),
      release-held ptable_lock
          (acquired ptable_lock (released ptable_lock (acquired ptable_lock k.cpu))),
    )

allocproc_full :
    (k : Kernel) (kstack : ℕ)
    → is_held ptable_lock k.cpu.held ≡ false
    → find_unused 0 k.procs ≡ none
    → allocproc kstack k ≡ ok (none, unlocked k)
unfolding allocproc
allocproc_full k kstack h f =
    ground
      (arith, acquire-free ptable_lock k.cpu, release-held ptable_lock (acquired ptable_lock k.cpu))

fork_full :
    (k : Kernel) (i : ℕ) (cur : Proc) (kstack pgdir : ℕ)
    → Outside k i cur
    → find_unused 0 k.procs ≡ none
    → fork kstack pgdir k ≡ ok (negsuc 0, unlocked k)
unfolding fork fork_into
fork_full k i cur kstack pgdir o f = ground (arith, o.current, o.free, allocproc_full k kstack)

fork_lem :
    (k : Kernel) (i : ℕ) (cur : Proc) (kstack pgdir n : ℕ) (np : Proc)
    → Outside k i cur
    → find_unused 0 k.procs ≡ some n
    → get_elem? k.procs n ≡ some np
    → n ≢ i
    → (kstack == 0) ≡ false
    → (pgdir == 0) ≡ false
    → fork kstack pgdir k ≡ ok (k.nextpid, forked k i cur kstack pgdir n np)
unfolding fork child_of embryonic
fork_lem k i cur kstack pgdir n np o f e d a b = ground (
  arith,
  o.current,
  o.free,
  o.entry,
  allocproc_lem k kstack n np (rw o.free refl) f e a,
  fork_into_lem k i cur kstack pgdir n np o.free o.entry e d b,
)

-- fork, called by a process that runs outside every critical section, where kalloc gives a kernel
-- stack and copyuvm a page directory. Either it returns the next pid, and an entry that was unused is
-- a runnable child with this pid, in L0 with a fresh slice and priority 0: its parent is the caller,
-- its size and trap frame are the caller's but for eax, which is 0, and the caller's own entry is
-- unchanged; no lock is held. Or no entry is unused, and it returns -1 with the table unchanged.
pub fork_outcomes :
    (k : Kernel) (i : ℕ) (cur : Proc) (kstack pgdir : ℕ)
    → Outside k i cur
    → cur.state ≢ unused
    → kstack ≢ 0
    → pgdir ≢ 0
    → ((n : ℕ) × (c np : Proc) × (r : Kernel) × (fork kstack pgdir k ≡ ok (k.nextpid, r))
        × (get_elem? k.procs n ≡ some np)
        × (np.state ≡ unused)
        × (r.procs ≡ set k.procs n c)
        × (get_elem? r.procs n ≡ some c)
        × (c.state ≡ runnable)
        × (c.pid ≡ k.nextpid)
        × (c.qlev ≡ Level.l0)
        × (c.tick ≡ pos 0)
        × (c.priority ≡ pos 0)
        × (c.parent ≡ some i)
        × (c.sz ≡ cur.sz)
        × (c.tf ≡ record (cur.tf) { eax = 0 })
        × (get_elem? r.procs i ≡ some cur)
        × (r.nextpid ≡ inc_int k.nextpid)
        × (r.cpu.held ≡ []))
      ⊎ ((fork kstack pgdir k ≡ ok (negsuc 0, unlocked k))
          × ((j : ℕ) (p : Proc) → get_elem? k.procs j ≡ some p → p.state ≢ unused))
unfolding child_of embryonic
fork_outcomes k i cur kstack pgdir o s a b = elim (Option-cases (find_unused 0 k.procs)) [
  | inl e ↦ inr (fork_full k i cur kstack pgdir o e, find_unused-none 0 k.procs e)
  | inr (m, e) ↦
      let (n, np, f, g, t) = find_unused-some 0 k.procs m e in
      let found : find_unused 0 k.procs ≡ some n = ground (arith, e, f) in
      let d : n ≢ i = λ same. s (ground (arith, same, g, t, o.entry)) in
      let c : Proc = record (child_of i cur pgdir (allotted k kstack np)) { state = runnable } in
      inl (
        n,
        c,
        np,
        forked k i cur kstack pgdir n np,
        fork_lem k i cur kstack pgdir n np o found g d (ground arith) (ground arith),
        g,
        t,
        refl,
        get_elem?-set_self k.procs n c g,
        refl,
        refl,
        refl,
        refl,
        refl,
        refl,
        refl,
        refl,
        get_elem?-set_ne k.procs n i c d ∙ o.entry,
        refl,
        ground (arith, o.free),
      )
]
