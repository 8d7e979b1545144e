-- ===== src/Cow/Share.antt =====
-- xv6-public_project04/vm.c: allocuvm, setupkvm, copyuvm, which shares the pages of the parent, the
-- handler of page faults, and the counters of pages.
pub mod Handler
pub mod Sharing
pub mod Separate
pub mod First
use operating_system.Common.{
  ℕ, zero, suc, ◌+◌, ◌-◌, ◌*◌, ◌/◌, ◌%◌, ◌^◌, ◌==◌, ltb, leb, Bool, true, false, not, ◌&&◌, ◌||◌,
  Option, none, some, List, [], ◌∷◌, if◌then◌else◌, M, pure, ok, fault, ◌>>=◌, ◌>>◌, get, modify,
  branch, when, panic_if, stop, crash, skip,
}
use operating_system.Cow.Layout.{
  kernbase, phystop, pgsize, v2p, p2v, p2pg, pg_round_up, pte_addr, pte_flags, has_p, has_u, set_w,
  clear_w,
}
use operating_system.Cow.Memory.{Machine, Mach, page_of, fill_page, copy_page}
use operating_system.Cow.Kalloc.{kalloc, kfree, incr_refc, decr_refc, get_refc}
use operating_system.Cow.Vm.{Slot, load, store, walkpgdir, mappages, deallocuvm, freevm}

-- One page of allocuvm; the result tells whether the loop goes on.
unfoldable pub grow_page : ℕ → ℕ → ℕ → ℕ → Mach Bool
grow_page pgdir oldsz newsz a = do
  mem ← kalloc
  branch (mem == 0) (do n ← deallocuvm pgdir newsz oldsz; pure false)
      (do
        modify (fill_page (page_of mem) 0)
        done ← mappages pgdir a pgsize (v2p mem) 6
        branch done (pure true) (do n ← deallocuvm pgdir newsz oldsz; kfree mem; pure false))

-- The loop of allocuvm, with a bound on its rounds.
unfoldable pub grow_from : ℕ → ℕ → ℕ → ℕ → ℕ → Mach ℕ
grow_from zero pgdir oldsz newsz a = crash
grow_from (suc n) pgdir oldsz newsz a =
    branch (ltb a newsz)
      (do
        done ← grow_page pgdir oldsz newsz a
        branch done (grow_from n pgdir oldsz newsz (a + pgsize)) (pure 0))
      (pure newsz)

unfoldable pub allocuvm : ℕ → ℕ → ℕ → Mach ℕ
allocuvm pgdir oldsz newsz = branch (leb kernbase newsz) (pure 0) (
    branch (ltb newsz oldsz) (pure oldsz)
      (grow_from (2 ^ 20 + 1) pgdir oldsz newsz (pg_round_up oldsz)))

-- An entry of kmap.
pub record Kmap : Type 0 where
  pub virt : ℕ
  pub phys_start : ℕ
  pub phys_end : ℕ
  pub perm : ℕ

-- `data` of the source, the address behind the kernel's text, is the argument.
abbrev pub kmap : ℕ → List Kmap
kmap text_end =
    record { virt = kernbase; phys_start = 0; phys_end = 0x100000; perm = 2 }
    ∷ record {
      virt = kernbase + 0x100000;
      phys_start = 0x100000;
      phys_end = v2p text_end;
      perm = 0;
    }
    ∷ record { virt = text_end; phys_start = v2p text_end; phys_end = phystop; perm = 2 }
    ∷ record { virt = 0xFE000000; phys_start = 0xFE000000; phys_end = 0; perm = 2 }
    ∷ []

unfoldable pub map_kernel : ℕ → List Kmap → Mach ℕ
map_kernel pgdir [] = pure pgdir
map_kernel pgdir (k ∷ ks) = do
  done ← mappages pgdir k.virt ((k.phys_end + 2 ^ 32 - k.phys_start) % 2 ^ 32) k.phys_start k.perm
  branch done (map_kernel pgdir ks) (do freevm pgdir; pure 0)

-- The test that PHYSTOP lies below the devices compares two constants and holds.
unfoldable pub setupkvm : ℕ → Mach ℕ
setupkvm text_end = do
  pgdir ← kalloc
  branch (pgdir == 0) (pure 0)
      (do modify (fill_page (page_of pgdir) 0); map_kernel pgdir (kmap text_end))

-- One page of copyuvm: both processes map the page without PTE_W, and its count goes up.
unfoldable pub share_slot : Option Slot → ℕ → ℕ → Mach Bool
share_slot none d i = stop "copyuvm: pte should exist"
share_slot (some pte) d i = do
  s ← get
  let e = load pte s
  panic_if (not (has_p e)) "copyuvm: page not present"
  store pte (clear_w e)
  done ← mappages d i pgsize (pte_addr (clear_w e)) (pte_flags (clear_w e))
  branch done (do incr_refc (pte_addr (clear_w e)); pure true) (pure false)

-- The loop of copyuvm, with a bound on its rounds.
unfoldable pub share_from : ℕ → ℕ → ℕ → ℕ → ℕ → Mach Bool
share_from zero pgdir d sz i = crash
share_from (suc n) pgdir d sz i =
    branch (ltb i sz)
      (do
        pte ← walkpgdir pgdir i false
        done ← share_slot pte d i
        branch done (share_from n pgdir d sz (i + pgsize)) (pure false))
      (pure true)

unfoldable pub copyuvm : ℕ → ℕ → ℕ → Mach ℕ
copyuvm text_end pgdir sz = do
  d ← setupkvm text_end
  branch (d == 0) (pure 0)
      (do done ← share_from (2 ^ 20 + 1) pgdir d sz 0; branch done (pure d) (do freevm d; pure 0))

-- `refc > 1` on a word that holds an int.
abbrev pub is_shared : ℕ → Bool
is_shared r = leb 2 r && ltb r (2 ^ 31)

-- The handler at an entry that is present.
unfoldable pub make_private : Slot → ℕ → Mach (Unit {0})
make_private pte pa = do
  mem ← kalloc
  panic_if (mem == 0) "CoW_handler: kalloc"
  modify (copy_page (page_of mem) (p2pg pa))
  store pte (v2p mem + 7)
  decr_refc pa

unfoldable pub handle_slot : Option Slot → Mach (Unit {0})
handle_slot none = stop "CoW_handler: pte should exist"
handle_slot (some pte) = do
  s ← get
  let e = load pte s
  panic_if (not (has_p e)) "CoW_handler: page not present"
  refc ← get_refc (pte_addr e)
  branch (is_shared refc) (make_private pte (pte_addr e)) (when (refc == 1) (store pte (set_w e)))

-- CoW_handler, for the fault address and the page directory of the process.
unfoldable pub cow_handler : ℕ → ℕ → Mach (Unit {0})
cow_handler va pgdir = do pte ← walkpgdir pgdir va false; handle_slot pte
