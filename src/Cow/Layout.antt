-- ===== src/Cow/Layout.antt =====
-- xv6-public_project04/memlayout.h and mmu.h: the constants, and the address arithmetic of 32 bits.
use operating_system.Common.{ℕ, ◌+◌, ◌-◌, ◌*◌, ◌/◌, ◌%◌, ◌^◌, ◌==◌, Bool, if◌then◌else◌}

abbrev pub kernbase : ℕ
kernbase = 0x80000000

abbrev pub phystop : ℕ
phystop = 0xE000000

abbrev pub pgsize : ℕ
pgsize = 4096

-- V2P, P2V, and P2PG of kalloc.c.
abbrev pub v2p : ℕ → ℕ
v2p v = (v + 2 ^ 32 - kernbase) % 2 ^ 32

abbrev pub p2v : ℕ → ℕ
p2v a = (a + kernbase) % 2 ^ 32

abbrev pub p2pg : ℕ → ℕ
p2pg a = a / 2 ^ 12

abbrev pub pg_round_up : ℕ → ℕ
pg_round_up a = (a + pgsize - 1) % 2 ^ 32 / pgsize * pgsize

abbrev pub pg_round_down : ℕ → ℕ
pg_round_down a = a / pgsize * pgsize

abbrev pub pdx : ℕ → ℕ
pdx va = va / 2 ^ 22 % 1024

abbrev pub ptx : ℕ → ℕ
ptx va = va / 2 ^ 12 % 1024

abbrev pub pte_addr : ℕ → ℕ
pte_addr e = e / pgsize * pgsize

abbrev pub pte_flags : ℕ → ℕ
pte_flags e = e % pgsize

-- The flags PTE_P, PTE_W and PTE_U of an entry.
abbrev pub has_p : ℕ → Bool
has_p e = e % 2 == 1

abbrev pub has_w : ℕ → Bool
has_w e = e / 2 % 2 == 1

abbrev pub has_u : ℕ → Bool
has_u e = e / 4 % 2 == 1

-- `e | PTE_P`, `e | PTE_W`, `e & ~PTE_W` and `e & ~PTE_U`.
abbrev pub set_p : ℕ → ℕ
set_p e = if has_p e then e else e + 1

abbrev pub set_w : ℕ → ℕ
set_w e = if has_w e then e else e + 2

abbrev pub clear_w : ℕ → ℕ
clear_w e = if has_w e then e - 2 else e

abbrev pub clear_u : ℕ → ℕ
clear_u e = if has_u e then e - 4 else e
