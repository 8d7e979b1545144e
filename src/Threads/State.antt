-- ===== src/Threads/State.antt =====
-- xv6-public_project03/proc.h and the variables of proc.c: threads, processes, the kernel's state. The
-- locks are those of spinlock.c, which is the same file in xv6-public_project02. A struct proc* is an
-- index of the table, a struct pthread* an index of the table and one of the list of threads.
use operating_system.Common.{
  ℕ, Bool, Option, none, some, List, get_elem?, set, ℤ, M, ok, fault, panic, ◌>>=◌, modify, pure,
}
use operating_system.Mlfq.Spinlock.{Lock, Cpu, acquire, release}
use operating_system.Mlfq.Proc.{Procstate, Context}

-- `esp` and `eip` of a trap frame, and the other registers in their order.
pub record Frame : Type 0 where
  pub esp : ℕ
  pub eip : ℕ
  pub rest : List ℕ

pub record Pthread : Type 0 where
  pub kstack : ℕ
  pub state : Procstate
  pub tid : ℤ
  pub tf : Frame
  pub context : Context
  pub chan : ℕ
  pub retval : ℕ
  pub tidx : ℕ

pub record Process : Type 0 where
  pub sz : ℕ
  pub pgdir : ℕ
  pub state : Procstate
  pub pid : ℤ
  pub parent : Option ℕ
  pub killed : Bool
  pub ofile : List (Option ℕ)
  pub cwd : Option ℕ
  pub name : List ℕ
  pub on_tidx : ℕ
  pub pth : List Pthread
  pub kstacks : List ℕ
  pub ustacks : List ℕ

-- A word on the stack of a thread: a number, or the address of the function thread_exit.
pub data Word : Type 0 where
  value : ℕ → Word
  thread_exit_entry : Word

pub record Kernel : Type 0 where
  pub procs : List Process
  pub next_tid : ℤ
  pub cpu : Cpu
  pub writes : List (ℕ × Word)  -- the words stored in user memory, latest first

abbrev pub Kern : Type 0 → Type 0
Kern = M Kernel

abbrev pub on_cpu : {A : Type 0} → M Cpu A → Kern A
on_cpu m k = elim (m k.cpu) [
  | ok (a, c) ↦ ok (a, record k { cpu = c })
  | panic e ↦ panic e
  | fault ↦ fault
]

abbrev pub lock : Lock → Kern (Unit {0})
lock lk = on_cpu (acquire lk)

abbrev pub unlock : Lock → Kern (Unit {0})
unlock lk = on_cpu (release lk)

abbrev pub elem_at : {A : Type 0} → List A → ℕ → Kern A
elem_at xs i k = elim (get_elem? xs i) [ none ↦ fault | some x ↦ ok (x, k) ]

abbrev pub process_at : ℕ → Kern Process
process_at i k = elem_at k.procs i k

abbrev pub put_process : ℕ → Process → Kern (Unit {0})
put_process i p = modify (λ k. record k { procs = set k.procs i p })

abbrev pub thread_at : ℕ → ℕ → Kern Pthread
thread_at i t = do p ← process_at i; elem_at p.pth t

abbrev pub put_thread : ℕ → ℕ → Pthread → Kern (Unit {0})
put_thread i t th = do p ← process_at i; put_process i (record p { pth = set p.pth t th })

-- myproc and mypth: the running process and the index of its active thread.
unfoldable pub mypth : Kern (ℕ × ℕ)
mypth k = elim k.cpu.proc [ none ↦ fault | some i ↦ (do p ← process_at i; pure (i, p.on_tidx)) k ]
