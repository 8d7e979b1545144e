-- ===== src/Threads/Create/Started.antt =====
-- thread_create of xv6-public_project03/proc.c, where a thread is unused.
use operating_system.Common.{
  ℕ, ◌≡◌, ◌≢◌, ◌+◌, ◌-◌, ◌%◌, ◌^◌, ◌==◌, true, false, some, List, ◌∷◌, if◌then◌else◌, get_elem?,
  get_elem?-set_self, get_elem?-set_ne, set, set-set, inc_int, ok, arith, inl, inr, Bool-cases,
}
use operating_system.Mlfq.Spinlock.{ptable_lock}
use operating_system.Mlfq.Spinlock.Laws.{acquired, acquire-free, release-held}
use operating_system.Mlfq.Proc.{embryo, runnable, in_forkret}
use operating_system.Threads.State.{Pthread, Process, Kernel, mypth, value, thread_exit_entry}
use operating_system.Threads.Create.{
  find_thread, fill_thread, allocpth, alloc_ustack, round_up, start_thread, create_in,
  thread_create,
}
use operating_system.Threads.Join.Laws.{Active, locked, left}

-- The new thread behind allocpth, and its process.
abbrev pub born : Kernel → ℕ → ℕ → Pthread → Pthread
born k kstack t th = record th {
  state = embryo;
  tid = k.next_tid;
  tidx = t;
  kstack = kstack;
  context = record { caller = in_forkret; saved_intena = false };
}

abbrev pub housed : Kernel → Process → ℕ → ℕ → Pthread → Process
housed k p kstack t th = record p {
  kstacks = set p.kstacks t kstack;
  pth = set p.pth t (born k kstack t th);
}

allocpth_lem :
    (k : Kernel) (i : ℕ) (p : Process) (kstack t : ℕ) (th : Pthread)
    → get_elem? k.procs i ≡ some p
    → find_thread 0 p.pth ≡ some t
    → get_elem? p.pth t ≡ some th
    → kstack ≢ 0
    → allocpth kstack i k
      ≡ ok (
        some t,
        record k { procs = set k.procs i (housed k p kstack t th); next_tid = inc_int k.next_tid },
      )
unfolding allocpth fill_thread
allocpth_lem k i p kstack t th e f g n =
    let x : Pthread = record th { state = embryo; tid = k.next_tid; tidx = t } in
    let q : Process = record p { pth = set p.pth t x } in
    ground (
      arith,
      e,
      f,
      g,
      get_elem?-set_self k.procs i q e,
      get_elem?-set_self p.pth t x g,
      set-set k.procs i q (housed k p kstack t th),
      set-set p.pth t x (born k kstack t th),
    )

-- The stack of the new thread: the one that an earlier thread has left, or a new one.
abbrev pub stack_of : (ℕ → ℕ → ℕ) → Process → ℕ → ℕ
stack_of grow p u = if u == 0 then grow (round_up p.sz) ((round_up p.sz + 4096) % 2 ^ 32) else u

abbrev pub stacks_of : (ℕ → ℕ → ℕ) → Process → ℕ → ℕ → List ℕ
stacks_of grow p t u = if u == 0 then set p.ustacks t (stack_of grow p u) else p.ustacks

-- The thread that thread_create starts, and its process.
abbrev pub started : Kernel → Pthread → ℕ → ℕ → ℕ → ℕ → Pthread → Pthread
started k me kstack start top t th = record (born k kstack t th) {
  tf = record (me.tf) { esp = (top + 2 ^ 32 - 8) % 2 ^ 32; eip = start };
  state = runnable;
  retval = 0;
}

abbrev pub started_in : Kernel → Process → Pthread → ℕ → (ℕ → ℕ → ℕ) → ℕ → ℕ → Pthread → ℕ → Process
started_in k p me kstack grow start t th u = record (housed k p kstack t th) {
  pth = set p.pth t (started k me kstack start (stack_of grow p u) t th);
  ustacks = stacks_of grow p t u;
  sz = stack_of grow p u;
}

-- The kernel behind thread_create; the stack holds the argument, above the return address.
abbrev pub created :
    Kernel → ℕ → Process → Pthread → ℕ → (ℕ → ℕ → ℕ) → ℕ → ℕ → ℕ → Pthread → ℕ → Kernel
created k i p me kstack grow start arg t th u = record (left k) {
  procs = set k.procs i (started_in k p me kstack grow start t th u);
  next_tid = inc_int k.next_tid;
  writes =
      ((stack_of grow p u + 2 ^ 32 - 8) % 2 ^ 32, thread_exit_entry)
      ∷ ((stack_of grow p u + 2 ^ 32 - 4) % 2 ^ 32, value arg)
      ∷ k.writes;
}

ustack_lem :
    (k : Kernel) (i : ℕ) (p : Process) (t u : ℕ) (grow : ℕ → ℕ → ℕ)
    → get_elem? k.procs i ≡ some p
    → get_elem? p.ustacks t ≡ some u
    → (u == 0) ≡ true
    → stack_of grow p u ≢ 0
    → alloc_ustack grow i t k
      ≡ ok (
        true,
        record k {
          procs =
              set k.procs i (record p { ustacks = stacks_of grow p t u; sz = stack_of grow p u });
        },
      )
unfolding alloc_ustack
ustack_lem k i p t u grow e f z n = ground (arith, e, f, z)

ustack_again :
    (k : Kernel) (i : ℕ) (p : Process) (t u : ℕ) (grow : ℕ → ℕ → ℕ)
    → get_elem? k.procs i ≡ some p
    → get_elem? p.ustacks t ≡ some u
    → (u == 0) ≡ false
    → alloc_ustack grow i t k ≡ ok (true, k)
unfolding alloc_ustack
ustack_again k i p t u grow e f z = ground (arith, e, f, z)

start_lem :
    (k : Kernel) (i : ℕ) (p : Process) (x : Pthread) (start arg t u : ℕ)
    → get_elem? k.procs i ≡ some p
    → get_elem? p.pth t ≡ some x
    → get_elem? p.ustacks t ≡ some u
    → start_thread start arg i t (locked k)
      ≡ ok (
        some x.tid,
        record (left k) {
          procs = set k.procs i (record p {
            sz = u;
            pth = set p.pth t (record x {
              tf = record (x.tf) { esp = (u + 2 ^ 32 - 8) % 2 ^ 32; eip = start };
              state = runnable;
              retval = 0;
            });
          });
          writes =
              ((u + 2 ^ 32 - 8) % 2 ^ 32, thread_exit_entry)
              ∷ ((u + 2 ^ 32 - 4) % 2 ^ 32, value arg)
              ∷ k.writes;
        },
      )
unfolding start_thread
start_lem k i p x start arg t u e f g =
    let q : Process = record p { sz = u } in
    let y : Pthread = record x {
      tf = record (x.tf) { esp = (u + 2 ^ 32 - 8) % 2 ^ 32; eip = start };
      state = runnable;
      retval = 0;
    } in
    ground (
      arith,
      e,
      f,
      g,
      get_elem?-set_self k.procs i q e,
      set-set k.procs i q (record q { pth = set p.pth t y }),
      release-held ptable_lock (acquired ptable_lock k.cpu),
    )

create_lem :
    (k : Kernel) (i : ℕ) (p : Process) (me : Pthread) (kstack : ℕ) (grow : ℕ → ℕ → ℕ)
    (start arg t : ℕ) (th : Pthread) (u : ℕ)
    → Active k i p me
    → get_elem? p.pth t ≡ some th
    → t ≢ p.on_tidx
    → get_elem? p.ustacks t ≡ some u
    → stack_of grow p u ≢ 0
    → create_in grow start arg i p.on_tidx (some t) (record (locked k) {
      procs = set k.procs i (housed k p kstack t th);
      next_tid = inc_int k.next_tid;
    })
      ≡ ok (some k.next_tid, created k i p me kstack grow start arg t th u)
unfolding create_in
create_lem k i p me kstack grow start arg t th u a g d f n =
    let h : Process = housed k p kstack t th in
    let x : Pthread = record (born k kstack t th) { tf = me.tf } in
    let q : Process = record h { pth = set p.pth t x } in
    let b : Kernel = record k { procs = set k.procs i q; next_tid = inc_int k.next_tid } in
    let v : Process = record q { ustacks = stacks_of grow p t u; sz = stack_of grow p u } in
    let w : Kernel = record b { procs = set k.procs i v } in
    let y : Process = started_in k p me kstack grow start t th u in
    let there : get_elem? (set k.procs i q) i ≡ some q = get_elem?-set_self k.procs i q a.entry in
    elim (Bool-cases (u == 0)) [
      | inl z ↦ ground (
        arith,
        z,
        a.thread,
        get_elem?-set_self k.procs i h a.entry,
        get_elem?-set_ne p.pth t p.on_tidx (born k kstack t th) d,
        get_elem?-set_self p.pth t (born k kstack t th) g,
        set-set k.procs i h q,
        set-set p.pth t (born k kstack t th) x,
        ustack_lem (locked b) i q t u grow there f z n,
        set-set k.procs i q v,
        start_lem w i v x start arg t (stack_of grow p u) (get_elem?-set_self k.procs i v a.entry)
            (get_elem?-set_self p.pth t x g)
            (ground (arith, z, get_elem?-set_self p.ustacks t (stack_of grow p u) f)),
        set-set k.procs i v y,
        set-set p.pth t x (started k me kstack start (stack_of grow p u) t th),
      )
      | inr z ↦ ground (
        arith,
        z,
        a.thread,
        get_elem?-set_self k.procs i h a.entry,
        get_elem?-set_ne p.pth t p.on_tidx (born k kstack t th) d,
        get_elem?-set_self p.pth t (born k kstack t th) g,
        set-set k.procs i h q,
        set-set p.pth t (born k kstack t th) x,
        ustack_again (locked b) i q t u grow there f z,
        start_lem b i q x start arg t u there (get_elem?-set_self p.pth t x g) f,
        set-set k.procs i q y,
        set-set p.pth t x (started k me kstack start (stack_of grow p u) t th),
      )
    ]

-- thread_create, called by a thread outside every critical section, where thread `t` of the process is
-- the first that is unused, the caller is another one, and kalloc and allocuvm succeed. It returns the
-- next thread id and makes `t` a runnable thread with this id and the caller's registers, which starts
-- at the given routine on the stack that an earlier thread `t` has left, or on a new one; the stack
-- holds the argument, and thread_exit as return address. No other thread changes, the size of the
-- process becomes the top of that stack, and ptable.lock is given back.
pub thread_create-started :
    (k : Kernel) (i : ℕ) (p : Process) (me : Pthread) (kstack : ℕ) (grow : ℕ → ℕ → ℕ)
    (start arg t : ℕ) (th : Pthread) (u : ℕ)
    → Active k i p me
    → find_thread 0 p.pth ≡ some t
    → get_elem? p.pth t ≡ some th
    → t ≢ p.on_tidx
    → get_elem? p.ustacks t ≡ some u
    → kstack ≢ 0
    → stack_of grow p u ≢ 0
    → thread_create kstack grow start arg k
      ≡ ok (some k.next_tid, created k i p me kstack grow start arg t th u)
unfolding thread_create mypth
thread_create-started k i p me kstack grow start arg t th u a e g d f s n = ground (
  arith,
  a.current,
  a.entry,
  a.free,
  acquire-free ptable_lock k.cpu,
  allocpth_lem (locked k) i p kstack t th a.entry e g s,
  create_lem k i p me kstack grow start arg t th u a g d f n,
)
