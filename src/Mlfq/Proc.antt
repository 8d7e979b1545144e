-- ===== src/Mlfq/Proc.antt =====
-- xv6-public_project02/proc.h and the variables of proc.c and trap.c: a process, the process table
-- with the counters of its queues, and the kernel's state. A struct proc* is an index of the table.
use operating_system.Common.{
  ℕ, Bool, true, false, Option, none, some, List, ◌∷◌, ◌==◌, get_elem?, set, ℤ, M, ok, fault, panic,
  modify,
}
use operating_system.Mlfq.Spinlock.{Lock, Cpu, acquire, release}

pub data Procstate : Type 0 where
  unused embryo sleeping runnable running zombie : Procstate

abbrev pub eqb_Procstate : Procstate → Procstate → Bool
eqb_Procstate unused unused = true
eqb_Procstate embryo embryo = true
eqb_Procstate sleeping sleeping = true
eqb_Procstate runnable runnable = true
eqb_Procstate running running = true
eqb_Procstate zombie zombie = true
eqb_Procstate _ _ = false

-- What a process sleeps on: nothing, a struct proc, the variable `ticks`, another address.
pub data Chan : Type 0 where
  null ticks_chan : Chan
  proc_chan : ℕ → Chan
  other_chan : ℕ → Chan

abbrev pub eqb_Chan : Chan → Chan → Bool
eqb_Chan null null = true
eqb_Chan ticks_chan ticks_chan = true
eqb_Chan (proc_chan a) (proc_chan b) = a == b
eqb_Chan (other_chan a) (other_chan b) = a == b
eqb_Chan _ _ = false

-- Where a process goes on when the scheduler switches to it: the start of forkret, or behind the
-- call of `sched` in yield, sleep or exit.
pub data Caller : Type 0 where
  in_forkret in_yield in_exit : Caller
  in_sleep : Lock → Caller

-- The saved kernel context, with the local variable `intena` of `sched`.
pub record Context : Type 0 where
  pub caller : Caller
  pub saved_intena : Bool

pub record Trapframe : Type 0 where
  pub eax : ℕ
  pub eip : ℕ
  pub esp : ℕ
  pub eflags : ℕ
  pub cs : ℕ
  pub ss : ℕ
  pub ds : ℕ
  pub es : ℕ
  pub trapno : ℕ
  pub rest : List ℕ  -- the other registers, in their order

pub record Proc : Type 0 where
  pub sz : ℕ
  pub pgdir : ℕ
  pub kstack : ℕ
  pub state : Procstate
  pub pid : ℤ
  pub parent : Option ℕ
  pub tf : Trapframe
  pub context : Context
  pub chan : Chan
  pub killed : Bool
  pub ofile : List (Option ℕ)
  pub cwd : Option ℕ
  pub name : List ℕ
  pub qlev : ℕ
  pub seq : ℤ
  pub tick : ℤ
  pub priority : ℤ

-- The counters of struct ptable.
pub record Queues : Type 0 where
  pub l0_cnt : ℤ
  pub l1_cnt : ℤ
  pub l2_cnt : ℤ
  pub l3_cnt : ℤ
  pub moq_active : Bool
  pub moq_sz : ℤ
  pub moq_cnt : ℤ

-- Calls into the other parts of the kernel that return nothing that proc.c reads.
pub data Call : Type 0 where
  kfree : ℕ → Call
  freevm : ℕ → Call
  filedup : ℕ → Call
  fileclose : ℕ → Call
  idup : Option ℕ → Call
  iput : Option ℕ → Call
  switchuvm : ℕ → Call
  begin_op end_op switchkvm iinit initlog : Call

pub record Kernel : Type 0 where
  pub procs : List Proc
  pub queues : Queues
  pub initproc : Option ℕ
  pub nextpid : ℤ
  pub ticks : ℕ
  pub global_tick : ℕ
  pub cpu : Cpu
  pub first : Bool  -- the static variable of forkret
  pub calls : List Call  -- the calls made so far, latest first

abbrev pub Kern : Type 0 → Type 0
Kern = M Kernel

-- A computation on the processor's own state.
abbrev pub on_cpu : {A : Type 0} → M Cpu A → Kern A
on_cpu m k = elim (m k.cpu) [
  | ok (a, c) ↦ ok (a, record k { cpu = c })
  | panic e ↦ panic e
  | fault ↦ fault
]

abbrev pub call : Call → Kern (Unit {0})
call e = modify (λ k. record k { calls = e ∷ k.calls })

abbrev pub proc_at : ℕ → Kern Proc
proc_at i k = elim (get_elem? k.procs i) [ none ↦ fault | some p ↦ ok (p, k) ]

abbrev pub put_proc : ℕ → Proc → Kern (Unit {0})
put_proc i p = modify (λ k. record k { procs = set k.procs i p })

abbrev pub set_queues : Queues → Kern (Unit {0})
set_queues q = modify (λ k. record k { queues = q })

abbrev pub lock : Lock → Kern (Unit {0})
lock lk = on_cpu (acquire lk)

abbrev pub unlock : Lock → Kern (Unit {0})
unlock lk = on_cpu (release lk)

-- The process of this processor, where the code follows the pointer.
unfoldable pub myproc : Kern ℕ
myproc k = elim k.cpu.proc [ none ↦ fault | some i ↦ ok (i, k) ]
