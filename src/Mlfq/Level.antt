-- ===== src/Mlfq/Level.antt =====
-- enum procQueue of xv6-public_project02/proc.h. A queue level is the word that the field qlev holds:
-- `exit` stores -1 there.
use operating_system.Common.{ℕ, ◌^◌, ◌-◌}

abbrev pub l0 : ℕ
l0 = 0

abbrev pub l1 : ℕ
l1 = 1

abbrev pub l2 : ℕ
l2 = 2

abbrev pub l3 : ℕ
l3 = 3

abbrev pub moq : ℕ
moq = 4

abbrev pub minus_one : ℕ
minus_one = 2 ^ 32 - 1
