-- ===== src/Cow/User.antt =====
-- xv6-public_project04/vm.c: inituvm, loaduvm, copyout and countvp, which go through the pages of a
-- process. The words of memory hold their bytes with the lowest first.
use operating_system.Common.{
  ℕ, zero, suc, ◌+◌, ◌-◌, ◌*◌, ◌/◌, ◌%◌, ◌^◌, ◌≤◌, ◌≡◌, refl, ◌==◌, ltb, leb, Bool, true, false,
  not, Option, none, some, List, [], ◌∷◌, if◌then◌else◌, length, take, drop, length-drop, pure,
  ◌>>=◌, ◌>>◌, get, modify, branch, panic_if, stop, crash, arith,
}
use operating_system.Cow.Layout.{pgsize, v2p, p2v, pg_round_down, pte_addr, has_p}
use operating_system.Cow.Memory.{Machine, Mach, page_of, write_word, fill_page}
use operating_system.Cow.Kalloc.{kalloc}
use operating_system.Cow.Vm.{Slot, load, walkpgdir, mappages, uva2ka}

-- A store of one byte at a kernel address.
unfoldable pub write_byte : ℕ → ℕ → Machine → Machine
write_byte a b s =
    let i = a % 4096 / 4 in
    let unit = 256 ^ (a % 4) in
    let w = s.mem (page_of a) i in write_word (page_of a) i (w - w / unit % 256 * unit + b * unit) s

-- memmove of bytes to a kernel address.
unfoldable pub move_bytes : ℕ → List ℕ → Machine → Machine
move_bytes a [] s = s
move_bytes a (b ∷ bs) s = move_bytes (a + 1) bs (write_byte a b s)

-- The results of memset and memmove go to the page of kalloc, which is null where it has none.
unfoldable pub inituvm : ℕ → List ℕ → Mach (Unit {0})
inituvm pgdir init = do
  panic_if (leb pgsize (length init)) "inituvm: more than a page"
  mem ← kalloc
  branch (mem == 0) crash (do
    modify (fill_page (page_of mem) 0)
    done ← mappages pgdir 0 pgsize (v2p mem) 6
    modify (move_bytes mem init))

abbrev pub chunk : ℕ → ℕ → ℕ
chunk i sz = if ltb (sz - i) pgsize then sz - i else pgsize

-- A page of loaduvm. `bytes` is what readi stores, as many as it returns.
unfoldable pub load_page : Option Slot → List ℕ → ℕ → Mach Bool
load_page none bytes n = stop "loaduvm: address should exist"
load_page (some pte) bytes n = do
  s ← get
  modify (move_bytes (p2v (pte_addr (load pte s))) bytes)
  pure (length bytes == n)

-- The loop of loaduvm, with a bound on its rounds. `readi` gives the bytes of the file at an offset, for
-- a number of bytes.
unfoldable pub load_from : (ℕ → ℕ → List ℕ) → ℕ → ℕ → ℕ → ℕ → ℕ → ℕ → Mach Bool
load_from readi zero pgdir addr offset sz i = crash
load_from readi (suc n) pgdir addr offset sz i =
    branch (ltb i sz)
      (do
        pte ← walkpgdir pgdir ((addr + i) % 2 ^ 32) false
        done ← load_page pte (readi ((offset + i) % 2 ^ 32) (chunk i sz)) (chunk i sz)
        branch done (load_from readi n pgdir addr offset sz ((i + pgsize) % 2 ^ 32)) (pure false))
      (pure true)

-- `true` stands for the result 0, `false` for -1.
unfoldable pub loaduvm : (ℕ → ℕ → List ℕ) → ℕ → ℕ → ℕ → ℕ → Mach Bool
loaduvm readi pgdir addr offset sz = do
  panic_if (not (addr % pgsize == 0)) "loaduvm: addr must be page aligned"
  load_from readi (2 ^ 20 + 1) pgdir addr offset sz 0

-- The bytes that copyout moves to the page of `va`.
abbrev pub fitting : ℕ → List ℕ → ℕ
fitting va bytes =
    let n = pgsize - (va - pg_round_down va) in if ltb (length bytes) n then length bytes else n

-- The loop of copyout; each round moves at least one byte.
unfoldable pub copy_from : ℕ → ℕ → ℕ → List ℕ → Mach Bool
copy_from n pgdir va [] = pure true
copy_from zero pgdir va (b ∷ bs) = crash
copy_from (suc n) pgdir va (b ∷ bs) = do
  pa ← uva2ka pgdir (pg_round_down va)
  branch (pa == 0) (pure false) (do
    modify (move_bytes (pa + (va - pg_round_down va)) (take (fitting va (b ∷ bs)) (b ∷ bs)))
    copy_from n pgdir ((pg_round_down va + pgsize) % 2 ^ 32) (drop (fitting va (b ∷ bs)) (b ∷ bs)))

unfoldable pub copyout : ℕ → ℕ → List ℕ → Mach Bool
copyout pgdir va bytes = copy_from (length bytes) pgdir va bytes

unfoldable pub count_slot : Option Slot → Mach ℕ
count_slot none = stop "copyuvm: pte should exist"
count_slot (some pte) = do s ← get; pure (if has_p (load pte s) then 1 else 0)

-- The loop of countvp over so many pages from address `i` on.
unfoldable pub count_pages : ℕ → ℕ → ℕ → Mach ℕ
count_pages zero pgdir i = pure 0
count_pages (suc n) pgdir i = do
  pte ← walkpgdir pgdir i false
  here ← count_slot pte
  rest ← count_pages n pgdir (i + pgsize)
  pure (here + rest)

-- The size is an int, negative where its top bit is set. Behind the last page below 2 ^ 31 the variable
-- `i` would overflow.
unfoldable pub countvp : ℕ → ℕ → Mach ℕ
countvp pgdir sz =
    branch (leb (2 ^ 31) sz) (pure 0)
      (branch (ltb (2 ^ 31 - pgsize) sz) crash (count_pages ((sz + pgsize - 1) / pgsize) pgdir 0))

-- The bound on the rounds of copyout is no restriction: more rounds give the same.
pub copy_from-rounds :
    (n m pgdir va : ℕ) (bytes : List ℕ)
    → length bytes ≤ n
    → length bytes ≤ m
    → copy_from n pgdir va bytes ≡ copy_from m pgdir va bytes
unfolding copy_from
copy_from-rounds n m pgdir va [] a b = refl
copy_from-rounds zero m pgdir va (x ∷ xs) a b = absurd (omega arith)
copy_from-rounds (suc n) zero pgdir va (x ∷ xs) a b = absurd (omega arith)
copy_from-rounds (suc n) (suc m) pgdir va (x ∷ xs) a b =
    let k : ℕ = fitting va (x ∷ xs) in
    let some_byte : 1 ≤ k = ground arith in
    let shorter : length (drop k (x ∷ xs)) ≡ length (x ∷ xs) - k = length-drop k (x ∷ xs) in
    let rest =
      copy_from-rounds n m pgdir ((pg_round_down va + pgsize) % 2 ^ 32) (drop k (x ∷ xs))
        (omega (arith, a)) (omega (arith, b)) in
    rw rest refl
