-- ===== src/FilterLock.antt =====
-- project03/pthread_lock_linux.c: a lock for n threads (NUM_THREADS of the source) on shared variables,
-- and the threads that count under it. Each step of a thread makes at most one access to a variable that
-- other threads write; the accesses of all threads come in one order, which a list of thread numbers
-- chooses.
pub mod Invariant
pub mod Exclusion
pub mod Counter
pub mod Progress
mod Tests
use operating_system.Common.{
  ℕ, zero, suc, ◌+◌, ◌-◌, ◌==◌, ltb, leb, Bool, true, false, not, List, [], ◌∷◌, if◌then◌else◌,
  update,
}

-- Where a thread stands: in `lock` before the stores to flag[tid] and turn[i], in the loop over `other`
-- before the reads of flag[other] and of turn[i], then in the loop over shared_resource before the load
-- and before the store of the loaded value, before the store of `unlock`, and behind it. The number of
-- `critical` and `store` is the count of the rounds done.
pub data Pc : Type 0 where
  set_flag set_turn : ℕ → Pc
  wait wait_turn : ℕ → ℕ → Pc
  critical : ℕ → Pc
  store : ℕ → ℕ → Pc
  unlocking done : Pc

pub record State : Type 0 where
  pub flag : ℕ → ℕ
  pub turn : ℕ → ℕ
  pub shared : ℕ
  pub pc : ℕ → Pc

-- NUM_THREADS and NUM_ITERS.
abbrev pub num_threads : ℕ
num_threads = 100

abbrev pub num_iters : ℕ
num_iters = 1000

-- The head of the loop over the levels.
abbrev pub enter_level : ℕ → ℕ → Pc
enter_level n i = if ltb (i + 1) n then set_flag i else critical 0

abbrev pub go : ℕ → Pc → State → State
go tid p s = record s { pc = update s.pc tid p }

-- One step of thread `tid`, which stands at that place.
unfoldable pub act : ℕ → ℕ → ℕ → Pc → State → State
act n iters tid (set_flag i) s = go tid (set_turn i) (record s { flag = update s.flag tid (i + 1) })
act n iters tid (set_turn i) s = go tid (wait i 0) (record s { turn = update s.turn i tid })
act n iters tid (wait i other) s =
    go tid
      (if leb n other
        then enter_level n (i + 1)
        else if other == tid
        then wait i (other + 1)
        else if ltb (s.flag other) (s.flag tid)
        then wait i (other + 1)
        else wait_turn i other)
      s
act n iters tid (wait_turn i other) s =
    go tid (if s.turn i == tid then wait i other else wait i (other + 1)) s
act n iters tid (critical j) s = go tid (if ltb j iters then store j s.shared else unlocking) s
act n iters tid (store j r) s = go tid (critical (j + 1)) (record s { shared = r + 1 })
act n iters tid unlocking s = go tid done (record s { flag = update s.flag tid 0 })
act n iters tid done s = s

-- The start of n threads, with the variables zero; no other thread ever runs.
abbrev pub start : ℕ → State
start n = record {
  flag = λ t. 0;
  turn = λ i. 0;
  shared = 0;
  pc = λ t. if ltb t n then enter_level n 0 else done;
}

-- The run that a schedule gives.
unfoldable pub run : ℕ → ℕ → List ℕ → State → State
run n iters [] s = s
run n iters (tid ∷ tids) s = run n iters tids (act n iters tid (s.pc tid) s)

abbrev pub in_critical : Pc → Bool
in_critical (critical j) = true
in_critical (store j r) = true
in_critical unlocking = true
in_critical (set_flag i) = false
in_critical (set_turn i) = false
in_critical (wait i o) = false
in_critical (wait_turn i o) = false
in_critical done = false
