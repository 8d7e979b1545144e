-- ===== src/Cow/Counters.antt =====
-- xv6-public_project04/vm.c: countpp and countptp.
use operating_system.Common.{ℕ, zero, suc, ◌+◌, ◌&&◌, if◌then◌else◌, ok}
use operating_system.Cow.Layout.{p2v, pte_addr, has_p, has_u}
use operating_system.Cow.Memory.{Machine, Mach, page_of}

-- The inner loop of countpp over a page table, from entry `j` on.
unfoldable pub count_entries : (ℕ → ℕ) → ℕ → ℕ → ℕ
count_entries pgtab zero j = 0
count_entries pgtab (suc n) j =
    (if has_p (pgtab j) && has_u (pgtab j) then 1 else 0) + count_entries pgtab n (j + 1)

unfoldable pub count_tables : Machine → ℕ → ℕ → ℕ → ℕ
count_tables s pgdir zero i = 0
count_tables s pgdir (suc n) i =
    (if has_p (s.mem (page_of pgdir) i)
      then count_entries (s.mem (page_of (p2v (pte_addr (s.mem (page_of pgdir) i))))) 1024 0
      else 0)
    + count_tables s pgdir n (i + 1)

unfoldable pub countpp : ℕ → Mach ℕ
countpp pgdir s = ok (count_tables s pgdir 1024 0 + 1, s)

unfoldable pub count_present : (ℕ → ℕ) → ℕ → ℕ → ℕ
count_present pgdir zero i = 0
count_present pgdir (suc n) i = (if has_p (pgdir i) then 1 else 0) + count_present pgdir n (i + 1)

unfoldable pub countptp : ℕ → Mach ℕ
countptp pgdir s = ok (1 + count_present (s.mem (page_of pgdir)) 1024 0, s)
