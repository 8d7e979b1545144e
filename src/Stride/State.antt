-- ===== src/Stride/State.antt =====
-- ex_project3/HYU-ELE3021/xv6-public/mlfq.h, and the parts of struct proc that mlfq.c uses. A struct proc*
-- is a number; the tables are functions from places below their length.
use operating_system.Common.{
  ℕ, zero, suc, ◌+◌, Bool, true, false, Option, none, some, List, [], ◌∷◌, if◌then◌else◌, ℤ,
}
use operating_system.Mlfq.Proc.{Procstate, runnable, eqb_Procstate}

-- The type float of C, of which the code uses these operations. `of_int` is the conversion from an int,
-- also of an unsigned number of tickets.
pub record Float : Type 1 where
  pub Num : Type 0
  pub of_int : ℤ → Num
  pub lt : Num → Num → Bool
  pub eq : Num → Num → Bool
  pub add : Num → Num → Num
  pub sub : Num → Num → Num
  pub div : Num → Num → Num

abbrev pub nproc : ℕ
nproc = 64

abbrev pub nmlfq : ℕ
nmlfq = 3

abbrev pub max_ticket : ℕ
max_ticket = 100

abbrev pub max_stride : ℕ
max_stride = 80

abbrev pub max_pass : ℕ
max_pass = 10000000

abbrev pub scale_pass : ℕ
scale_pass = 100000

-- `level` is -1 for a process of the stride scheduler.
pub record Proc : Type 0 where
  pub threads : List Procstate
  pub tidx : ℕ
  pub state : Procstate
  pub killed : Bool
  pub level : ℤ
  pub index : ℕ
  pub elapsed : ℕ
  pub start : ℕ

-- An entry of the stride scheduler's queue: null, MLFQ_PROC, or a process.
pub data Client : Type 0 where
  nobody feedback : Client
  client : ℕ → Client

pub record Stride (fl : Float) : Type 0 where
  pub quantum : ℕ
  pub total : ℕ
  pub pass : ℕ → fl.Num
  pub ticket : ℕ → ℕ
  pub queue : ℕ → Client

-- `iterstate i` is the place in level i that the iterator points to.
pub record Sched (fl : Float) : Type 0 where
  pub proc : ℕ → Proc
  pub quantum : ℕ → ℕ
  pub expire : ℕ → ℕ
  pub queue : ℕ → ℕ → Option ℕ
  pub iterstate : ℕ → ℕ
  pub stride : Stride fl

abbrev pub is_empty : Client → Bool
is_empty nobody = true
is_empty feedback = false
is_empty (client p) = false

abbrev pub is_none : Option ℕ → Bool
is_none none = true
is_none (some p) = false

-- The first place from `i` on, within so many, that passes a test.
unfoldable pub find_place : (ℕ → Bool) → ℕ → ℕ → Option ℕ
find_place f zero i = none
find_place f (suc n) i = let rest = find_place f n (i + 1) in if f i then some i else rest

-- The function `runnable`: the first thread that is runnable.
unfoldable pub find_runnable : ℕ → List Procstate → Option ℕ
find_runnable i [] = none
find_runnable i (s ∷ ss) =
    let rest = find_runnable (i + 1) ss in if eqb_Procstate s runnable then some i else rest
