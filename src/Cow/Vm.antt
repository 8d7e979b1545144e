-- ===== src/Cow/Vm.antt =====
-- xv6-public_project04/vm.c: page tables of two levels in physical memory, and copy-on-write. A pde_t*
-- is the kernel's address of a page directory, a pte_t* a page and a word in it. The address
-- translation of the processor is not modelled, so lcr3, which flushes it, does nothing here.
use operating_system.Common.{
  ℕ, zero, suc, ◌+◌, ◌-◌, ◌*◌, ◌/◌, ◌%◌, ◌^◌, ◌==◌, ltb, leb, Bool, true, false, ◌&&◌, Option, none,
  some, if◌then◌else◌, pure, ok, fault, ◌>>=◌, ◌>>◌, get, modify, branch, when, panic_if, stop,
  crash, skip,
}
use operating_system.Cow.Layout.{
  kernbase, pgsize, v2p, p2v, pg_round_up, pg_round_down, pdx, ptx, pte_addr, has_p, has_u, set_p,
  clear_u,
}
use operating_system.Cow.Memory.{Machine, Mach, page_of, write_word, fill_page}
use operating_system.Cow.Kalloc.{kalloc, kfree}

-- The place of an entry: a physical page and the index of a word.
pub record Slot : Type 0 where
  pub page : ℕ
  pub index : ℕ

abbrev pub load : Slot → Machine → ℕ
load e s = s.mem e.page e.index

abbrev pub store : Slot → ℕ → Mach (Unit {0})
store e w = modify (write_word e.page e.index w)

-- The entry of the page directory for `va`.
abbrev pub pde_slot : ℕ → ℕ → Slot
pde_slot pgdir va = record { page = page_of pgdir; index = pdx va }

-- A new page table under a directory entry.
unfoldable pub add_table : Slot → ℕ → Mach (Option Slot)
add_table pde va = do
  pgtab ← kalloc
  branch (pgtab == 0) (pure none) (do
    modify (fill_page (page_of pgtab) 0)
    store pde (v2p pgtab + 7)
    pure (some (record { page = page_of pgtab; index = ptx va })))

unfoldable pub walkpgdir : ℕ → ℕ → Bool → Mach (Option Slot)
walkpgdir pgdir va alloc = do
  s ← get
  let pde = load (pde_slot pgdir va) s
  branch (has_p pde) (pure (some (record { page = page_of (p2v (pte_addr pde)); index = ptx va })))
      (branch alloc (add_table (pde_slot pgdir va) va) (pure none))

-- `*pte = pa | perm | PTE_P`, for a page-aligned `pa` and a `perm` of flags.
abbrev pub make_pte : ℕ → ℕ → ℕ
make_pte pa perm = pa + set_p perm

-- mappages for one page, at an aligned address.
unfoldable pub map_slot : Option Slot → ℕ → ℕ → Mach Bool
map_slot none pa perm = pure false
map_slot (some pte) pa perm = do
  s ← get
  panic_if (has_p (load pte s)) "remap"
  store pte (make_pte pa perm)
  pure true

-- The loop of mappages; the first argument is the number of rounds behind this one. The result tells
-- whether mappages returns 0.
unfoldable pub map_from : ℕ → ℕ → ℕ → ℕ → ℕ → Mach Bool
map_from zero pgdir a pa perm = do pte ← walkpgdir pgdir a true; map_slot pte pa perm
map_from (suc n) pgdir a pa perm = do
  pte ← walkpgdir pgdir a true
  done ← map_slot pte pa perm
  branch done (map_from n pgdir ((a + pgsize) % 2 ^ 32) ((pa + pgsize) % 2 ^ 32) perm) (pure false)

unfoldable pub mappages : ℕ → ℕ → ℕ → ℕ → ℕ → Mach Bool
mappages pgdir va size pa perm =
    let a = pg_round_down va in
    let last = pg_round_down ((va + size + 2 ^ 32 - 1) % 2 ^ 32) in
    map_from ((last + 2 ^ 32 - a) % 2 ^ 32 / pgsize) pgdir a pa perm

-- deallocuvm at an address with a page table.
unfoldable pub unmap_slot : Slot → Mach (Unit {0})
unmap_slot pte = do
  s ← get
  when (has_p (load pte s)) (do
    panic_if (pte_addr (load pte s) == 0) "kfree"
    kfree (p2v (pte_addr (load pte s)))
    store pte 0)

unfoldable pub unmap_or_skip : Option Slot → ℕ → Mach ℕ
unmap_or_skip none a = pure (((pdx a + 1) * 2 ^ 22 + 2 ^ 32 - pgsize) % 2 ^ 32)
unmap_or_skip (some pte) a = do unmap_slot pte; pure a

-- The loop of deallocuvm, with a bound on its rounds.
unfoldable pub dealloc_from : ℕ → ℕ → ℕ → ℕ → Mach (Unit {0})
dealloc_from zero pgdir a oldsz = crash
dealloc_from (suc n) pgdir a oldsz =
    branch (ltb a oldsz)
      (do
        pte ← walkpgdir pgdir a false
        b ← unmap_or_skip pte a
        dealloc_from n pgdir ((b + pgsize) % 2 ^ 32) oldsz)
      skip

-- More rounds than there are pages below the largest address.
abbrev pub all_rounds : ℕ
all_rounds = 2 ^ 20 + 1

unfoldable pub deallocuvm : ℕ → ℕ → ℕ → Mach ℕ
deallocuvm pgdir oldsz newsz =
    branch (leb oldsz newsz) (pure oldsz)
      (do dealloc_from all_rounds pgdir (pg_round_up newsz) oldsz; pure newsz)

-- The loop of freevm over the page tables, from entry `i` on.
unfoldable pub free_tables : ℕ → ℕ → ℕ → Mach (Unit {0})
free_tables zero pgdir i = skip
free_tables (suc n) pgdir i = do
  s ← get
  let pde = s.mem (page_of pgdir) i
  when (has_p pde) (kfree (p2v (pte_addr pde)))
  free_tables n pgdir (i + 1)

unfoldable pub freevm : ℕ → Mach (Unit {0})
freevm pgdir = do
  panic_if (pgdir == 0) "freevm: no pgdir"
  n ← deallocuvm pgdir kernbase 0
  free_tables 1024 pgdir 0
  kfree pgdir

unfoldable pub clear_slot : Option Slot → Mach (Unit {0})
clear_slot none = stop "clearpteu"
clear_slot (some pte) = do s ← get; store pte (clear_u (load pte s))

unfoldable pub clearpteu : ℕ → ℕ → Mach (Unit {0})
clearpteu pgdir uva = do pte ← walkpgdir pgdir uva false; clear_slot pte

-- The null pointer that walkpgdir may return is followed.
unfoldable pub slot_address : Option Slot → Mach ℕ
slot_address none s = fault
slot_address (some pte) s =
    ok (if has_p (load pte s) && has_u (load pte s) then p2v (pte_addr (load pte s)) else 0, s)

unfoldable pub uva2ka : ℕ → ℕ → Mach ℕ
uva2ka pgdir uva = do pte ← walkpgdir pgdir uva false; slot_address pte
