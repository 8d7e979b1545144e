-- ===== src/Cow/Kalloc/Free.antt =====
-- kfree by reference counts, countfp and freerange of xv6-public_project04/kalloc.c.
use operating_system.Common.{
  ℕ, zero, suc, ◌+◌, ◌-◌, ◌*◌, ◌/◌, ◌^◌, ◌<◌, ◌≤◌, ◌≡◌, refl, ◌∙◌, List, [], ◌∷◌, length, ok, fault,
  arith,
}
use operating_system.Cow.Layout.{kernbase, pgsize, p2pg, pg_round_up}
use operating_system.Cow.Memory.{Machine, n_refs, page_of, update}
use operating_system.Cow.Kalloc.{kfree, count_from, countfp, free_pages, freerange}
use operating_system.Cow.Kalloc.FreeList.{
  IsPage, page_of-IsPage, Chain, Apart, FreeList, Chain-frame, referenced-Apart,
}

-- The machine behind a kfree that drops one of several references.
abbrev pub dropped : Machine → ℕ → Machine
dropped s v = record s { refs = update s.refs (page_of v) (s.refs (page_of v) - 1) }

-- The machine behind a kfree that gives page `v` back.
abbrev pub given_back : Machine → ℕ → Machine
given_back s v = record s {
  freelist = v;
  refs = update s.refs (page_of v) 0;
  mem =
      update (update s.mem (page_of v) (λ i. 0x01010101)) (page_of v)
        (update (λ i. 0x01010101) 0 s.freelist);
}

kfree_last :
    (s : Machine) (v : ℕ)
    → IsPage s v
    → s.refs (page_of v) ≡ 1
    → kfree v s ≡ ok (tt, given_back s v)
unfolding kfree
kfree_last s v p r = ground (arith, p.aligned, p.high, p.low, p.behind, page_of-IsPage s v p)

-- kfree of a page with exactly one reference gives the page back: it becomes the head of the free
-- list, and the rest of the list is the list from before.
pub kfree-FreeList :
    (s : Machine) (v : ℕ) (ps : List ℕ)
    → FreeList s ps
    → IsPage s v
    → s.refs (page_of v) ≡ 1
    → (t : Machine) × (kfree v s ≡ ok (tt, t)) × FreeList t (v ∷ ps)
kfree-FreeList s v ps f p r =
    let t : Machine = given_back s v in
    let apart : Apart (page_of v) ps =
      referenced-Apart s (page_of v) ps s.freelist (λ e. omega arith) f.chain in
    let link : t.mem (page_of v) 0 ≡ s.freelist = ground arith in
    (
      t,
      kfree_last s v p r,
      record {
        chain = (
          refl,
          record { aligned = p.aligned; high = p.high; low = p.low; behind = p.behind },
          ground arith,
          rw link (
              Chain-frame s t (page_of v) ps s.freelist refl (λ q n. ground arith)
                (λ q n. ground arith) apart f.chain),
        );
        distinct = (apart, f.distinct);
      },
    )

-- kfree of a page with several references drops one of them, and changes neither memory nor the free
-- list: the other owners keep the page. Counts stay below 2 ^ 31, the range of an int.
pub kfree_shared :
    (s : Machine) (v n : ℕ) (ps : List ℕ)
    → FreeList s ps
    → IsPage s v
    → s.refs (page_of v) ≡ n + 2
    → n + 2 < 2 ^ 31
    → (kfree v s ≡ ok (tt, dropped s v))
      × FreeList (dropped s v) ps
      × ((dropped s v).refs (page_of v) ≡ n + 1)
unfolding kfree
kfree_shared s v n ps f p r b = (
  ground (arith, p.aligned, p.high, p.low, p.behind, page_of-IsPage s v p),
  record {
    chain =
        Chain-frame s (dropped s v) (page_of v) ps s.freelist refl (λ q n. refl)
          (λ q n. ground arith)
          (referenced-Apart s (page_of v) ps s.freelist (λ e. omega arith) f.chain) f.chain;
    distinct = f.distinct;
  },
  ground arith,
)

count_from_lem :
    (s : Machine) (n : ℕ) (ps : List ℕ) (h cnt : ℕ)
    → Chain s ps h
    → length ps < n
    → count_from n h cnt s ≡ ok (cnt + length ps, s)
unfolding count_from
count_from_lem s zero ps h cnt c l = absurd (omega arith)
count_from_lem s (suc n) [] h cnt c l = ground (arith, c)
count_from_lem s (suc n) (p ∷ ps) h cnt (here, page, free, rest) l =
    ground (arith, here, page.high, count_from_lem s n ps (s.mem (page_of p) 0) (cnt + 1) rest)

-- countfp returns the length of the free list and changes nothing, where it may visit more nodes than
-- there are.
pub countfp-length :
    (s : Machine) (ps : List ℕ) (nodes : ℕ)
    → FreeList s ps
    → length ps < nodes
    → countfp nodes s ≡ ok (length ps, s)
unfolding countfp
countfp-length s ps nodes f l = count_from_lem s nodes ps s.freelist 0 f.chain l ∙ ground arith

free_pages_fault : (s : Machine) (n p : ℕ) → 0 < n → n_refs ≤ p2pg p → free_pages n p s ≡ fault
unfolding free_pages
free_pages_fault s zero p h l = elim h [ ]
free_pages_fault s (suc n) p h l = ground arith

-- A defect: freerange over addresses of the kernel stores outside the array of reference counts in its
-- first round, since it takes the page number of the virtual address in place of the physical one.
pub freerange_faults :
    (s : Machine) (vstart vend : ℕ)
    → kernbase ≤ vstart
    → vstart + 2 * pgsize ≤ vend
    → vend < 2 ^ 32
    → freerange vstart vend s ≡ fault
unfolding freerange
freerange_faults s vstart vend h l u =
    free_pages_fault s ((vend - pg_round_up vstart) / pgsize) (pg_round_up vstart) (omega arith)
      (omega arith)
