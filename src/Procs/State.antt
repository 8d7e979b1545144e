-- ===== src/Procs/State.antt =====
-- ex_project3/HYU-ELE3021/xv6-public/proc.h and the variables of proc.c. Stride.State has the parts of a
-- process that the scheduler uses, with the states of its threads; the other parts stand here. A struct
-- proc* is an index of the table, a struct thread* that and the index of the thread.
use operating_system.Common.{
  ℕ, ◌==◌, Bool, false, Option, none, some, List, ◌∷◌, get_elem?, set, ℤ, M, ok, fault, ◌>>=◌, zoom,
  modify, update,
}
use operating_system.Mlfq.Spinlock.{Lock, Cpu, acquire, release}
use operating_system.Mlfq.Proc.{Procstate, Trapframe, Call}
use operating_system.Stride.State.{Float, Proc, Sched}

-- A channel: an address or a thread id, with 0 for null, or the address of a process.
pub data Chan : Type 0 where
  pointer : ℕ → Chan
  proc_chan : ℕ → Chan

abbrev pub eqb_Chan : Chan → Chan → Bool
eqb_Chan (pointer a) (pointer b) = a == b
eqb_Chan (proc_chan a) (proc_chan b) = a == b
eqb_Chan (pointer a) (proc_chan b) = false
eqb_Chan (proc_chan a) (pointer b) = false

abbrev pub chan_of : Option ℕ → Chan
chan_of none = pointer 0
chan_of (some p) = proc_chan p

-- Where a thread goes on when it is switched to: the start of forkret, or behind a switch.
pub data Caller : Type 0 where
  in_forkret in_yield in_exit in_epilogue : Caller
  in_next in_next_idle : Caller
  in_sleep : Lock → Caller

-- The saved kernel context, with the local variable `intena` behind the switch.
pub record Context : Type 0 where
  pub caller : Caller
  pub saved_intena : Bool

-- A struct thread without its state.
pub record Thread : Type 0 where
  pub tid : ℤ
  pub chan : Chan
  pub kstack : ℕ
  pub tf : Trapframe
  pub context : Context
  pub retval : ℕ

-- The rest of a struct proc.
pub record Rest : Type 0 where
  pub sz : ℕ
  pub pgdir : ℕ
  pub pid : ℤ
  pub parent : Option ℕ
  pub ofile : List (Option ℕ)
  pub cwd : Option ℕ
  pub name : List ℕ
  pub thread : ℕ → Thread
  pub kstacks : ℕ → ℕ
  pub ustacks : ℕ → ℕ

-- A word on a user stack: a number, or the address of the function thread_epilogue.
pub data Word : Type 0 where
  value : ℕ → Word
  epilogue_entry : Word

pub record Kernel (fl : Float) : Type 0 where
  pub sched : Sched fl
  pub more : ℕ → Rest
  pub next_pid : ℤ
  pub next_tid : ℤ
  pub initproc : Option ℕ
  pub cpu : Cpu
  pub calls : List Call  -- the calls of other parts of the kernel, latest first
  pub writes : List (ℕ × Word)  -- the words stored in user memory, latest first

abbrev pub nthread : ℕ
nthread = 16

module _ (fl : Float) where
  abbrev pub Kern : Type 0 → Type 0
  Kern = M (Kernel fl)

  abbrev pub put_cpu : Kernel fl → Cpu → Kernel fl
  put_cpu k c = record k { cpu = c }

  abbrev pub put_sched : Kernel fl → Sched fl → Kernel fl
  put_sched k s = record k { sched = s }

  abbrev pub on_cpu : {A : Type 0} → M Cpu A → Kern A
  on_cpu m = zoom (λ k. k.cpu) put_cpu m

  -- A call of the scheduler.
  abbrev pub on_sched : {A : Type 0} → M (Sched fl) A → Kern A
  on_sched m = zoom (λ k. k.sched) put_sched m

  abbrev pub lock : Lock → Kern (Unit {0})
  lock lk = on_cpu (acquire lk)

  abbrev pub unlock : Lock → Kern (Unit {0})
  unlock lk = on_cpu (release lk)

  abbrev pub call : Call → Kern (Unit {0})
  call e = modify (λ k. record k { calls = e ∷ k.calls })

  abbrev pub proc_of : ℕ → Kern Proc
  proc_of p k = ok (k.sched.proc p, k)

  abbrev pub put_proc : ℕ → Proc → Kern (Unit {0})
  put_proc p x =
      modify (λ k. record k { sched = record (k.sched) { proc = update k.sched.proc p x } })

  abbrev pub rest_of : ℕ → Kern Rest
  rest_of p k = ok (k.more p, k)

  abbrev pub put_rest : ℕ → Rest → Kern (Unit {0})
  put_rest p x = modify (λ k. record k { more = update k.more p x })

  abbrev pub thread_of : ℕ → ℕ → Kern Thread
  thread_of p t k = ok ((k.more p).thread t, k)

  abbrev pub put_thread : ℕ → ℕ → Thread → Kern (Unit {0})
  put_thread p t x = modify (λ k. record k {
    more = update k.more p (record (k.more p) { thread = update (k.more p).thread t x });
  })

  -- The state of a thread, where the process has one with that index.
  abbrev pub state_of : ℕ → ℕ → Kern Procstate
  state_of p t k = elim (get_elem? (k.sched.proc p).threads t) [ none ↦ fault | some x ↦ ok (x, k) ]

  abbrev pub put_state : ℕ → ℕ → Procstate → Kern (Unit {0})
  put_state p t x = do q ← proc_of p; put_proc p (record q { threads = set q.threads t x })

  -- The process of this processor, where the code follows the pointer.
  unfoldable pub myproc : Kern ℕ
  myproc k = elim k.cpu.proc [ none ↦ fault | some p ↦ ok (p, k) ]
