-- ===== src/Cow/Kalloc.antt =====
-- xv6-public_project04/kalloc.c: the page allocator with reference counts. One processor: each pair of
-- acquire and release of kmem.lock and pgRef.lock encloses one step of the model. An access outside
-- the array pgRef.pgRef is a fault.
pub mod FreeList
pub mod Free
use operating_system.Common.{
  ℕ, zero, suc, ◌+◌, ◌-◌, ◌*◌, ◌/◌, ◌%◌, ◌^◌, ◌==◌, ltb, leb, Bool, true, false, not, ◌||◌,
  if◌then◌else◌, M, pure, ok, fault, ◌>>=◌, ◌>>◌, get, modify, branch, when, panic_if, stop, crash,
  skip,
}
use operating_system.Cow.Layout.{pgsize, phystop, v2p, p2pg, pg_round_up}
use operating_system.Cow.Memory.{Machine, Mach, n_refs, page_of, update, write_word, fill_page}

unfoldable pub get_refc : ℕ → Mach ℕ
get_refc pa s = branch (ltb (p2pg pa) n_refs) (pure (s.refs (p2pg pa))) crash s

unfoldable pub incr_refc : ℕ → Mach (Unit {0})
unfolding get_refc
incr_refc pa = do
  r ← get_refc pa
  modify (λ s. record s { refs = update s.refs (p2pg pa) ((r + 1) % 2 ^ 32) })

unfoldable pub decr_refc : ℕ → Mach (Unit {0})
unfolding get_refc
decr_refc pa = do
  r ← get_refc pa
  panic_if (r == 0) "can't decrease pgRef"
  modify (λ s. record s { refs = update s.refs (p2pg pa) (r - 1) })

-- The test `< 0` on a word that holds an int.
abbrev pub is_negative : ℕ → Bool
is_negative w = leb (2 ^ 31) w

-- `v` becomes the head of the free list, its first word the link.
unfoldable pub push_free : ℕ → Mach (Unit {0})
push_free v = do
  modify (fill_page (page_of v) 0x01010101)
  modify (λ s. write_word (page_of v) 0 s.freelist s)
  modify (λ s. record s { freelist = v })

unfoldable pub kfree : ℕ → Mach (Unit {0})
unfolding get_refc decr_refc push_free
kfree v = do
  s ← get
  panic_if (not (v % pgsize == 0) || (ltb v s.end || leb phystop (v2p v))) "kfree"
  r ← get_refc (v2p v)
  panic_if (is_negative r) "kfree: page reference"
  when (not (r == 0)) (decr_refc (v2p v))
  r ← get_refc (v2p v)
  when (r == 0) (push_free v)

unfoldable pub kalloc : Mach ℕ
unfolding get_refc incr_refc
kalloc = do
  s ← get
  let r = s.freelist
  when (not (r == 0)) (modify (λ s. record s { freelist = s.mem (page_of r) 0 }))
  c ← get_refc (v2p r)
  branch (c == 0) (incr_refc (v2p r)) (stop "kalloc: not freelist")
  pure r

-- The loop of countfp, with the number of list nodes that it may visit.
unfoldable pub count_from : ℕ → ℕ → ℕ → Mach ℕ
count_from zero r cnt s = fault
count_from (suc n) r cnt s =
    let rest = count_from n (s.mem (page_of r) 0) (cnt + 1) s in
    if r == 0 then ok (cnt, s) else rest

unfoldable pub countfp : ℕ → Mach ℕ
unfolding count_from
countfp nodes s = count_from nodes s.freelist 0 s

-- The loop of freerange, for the rounds that it makes.
unfoldable pub free_pages : ℕ → ℕ → Mach (Unit {0})
free_pages zero p = skip
free_pages (suc n) p = do
  branch (ltb (p2pg p) n_refs) (modify (λ s. record s { refs = update s.refs (p2pg p) 0 })) crash
  kfree p
  free_pages n (p + pgsize)

unfoldable pub freerange : ℕ → ℕ → Mach (Unit {0})
unfolding free_pages
freerange vstart vend = free_pages ((vend - pg_round_up vstart) / pgsize) (pg_round_up vstart)
