-- ===== src/Cow/Kalloc/FreeList.antt =====
-- The free list in memory as a list of pages, and the allocator as a stack of free pages.
use operating_system.Common.{
  ℕ, ◌+◌, ◌%◌, ◌<◌, ◌≤◌, ◌≡◌, ◌≢◌, refl, ap, ◌∙◌, List, [], ◌∷◌, ok, fault, arith,
}
use operating_system.Cow.Layout.{kernbase, phystop, p2pg}
use operating_system.Cow.Memory.{Machine, n_refs, page_of, update}
use operating_system.Cow.Kalloc.{get_refc, kalloc}

-- `v` is the address of a page that the allocator hands out.
pub record IsPage (s : Machine) (v : ℕ) : Type 0 where
  pub aligned : v % 4096 ≡ 0
  pub high : kernbase ≤ v
  pub low : v < kernbase + phystop
  pub behind : s.end ≤ v

pub page_of-IsPage : (s : Machine) (v : ℕ) → IsPage s v → page_of v < n_refs
page_of-IsPage s v h = omega (arith, h.high, h.low)

-- The nodes from pointer `h` on are the pages of the list.
abbrev pub Chain : Machine → List ℕ → ℕ → Type 0
Chain s [] h = h ≡ 0
Chain s (p ∷ ps) h =
    (h ≡ p) × IsPage s p × (s.refs (page_of p) ≡ 0) × Chain s ps (s.mem (page_of p) 0)

-- No page of the list has number `q`.
abbrev pub Apart : ℕ → List ℕ → Type 0
Apart q [] = Unit {0}
Apart q (p ∷ ps) = (q ≢ page_of p) × Apart q ps

abbrev pub Distinct : List ℕ → Type 0
Distinct [] = Unit {0}
Distinct (p ∷ ps) = Apart (page_of p) ps × Distinct ps

-- The free list of the machine is `ps`: a chain of distinct pages with no references.
pub record FreeList (s : Machine) (ps : List ℕ) : Type 0 where
  pub chain : Chain s ps s.freelist
  pub distinct : Distinct ps

-- What happens to other pages does not touch a chain.
pub Chain-frame :
    (s t : Machine) (q : ℕ) (ps : List ℕ) (h : ℕ)
    → t.end ≡ s.end
    → ((p : ℕ) → q ≢ p → t.mem p 0 ≡ s.mem p 0)
    → ((p : ℕ) → q ≢ p → t.refs p ≡ s.refs p)
    → Apart q ps
    → Chain s ps h
    → Chain t ps h
Chain-frame s t q [] h e m r a c = c
Chain-frame s t q (p ∷ ps) h e m r (n, a) (here, page, free, rest) = (
  here,
  record { aligned = page.aligned; high = page.high; low = page.low; behind = rw e page.behind },
  r (page_of p) n ∙ free,
  rw (m (page_of p) n) (Chain-frame s t q ps (s.mem (page_of p) 0) e m r a rest),
)

-- A page that is referenced is not on the list.
pub referenced-Apart :
    (s : Machine) (q : ℕ) (ps : List ℕ) (h : ℕ) → s.refs q ≢ 0 → Chain s ps h → Apart q ps
referenced-Apart s q [] h n c = tt
referenced-Apart s q (p ∷ ps) h n (here, page, free, rest) =
    (λ e. n (ap s.refs e ∙ free), referenced-Apart s q ps (s.mem (page_of p) 0) n rest)

pub get_refc_lem :
    (s : Machine) (pa : ℕ) → p2pg pa < n_refs → get_refc pa s ≡ ok (s.refs (p2pg pa), s)
unfolding get_refc
get_refc_lem s pa h = ground arith

-- The machine behind a kalloc that takes page `p` from the head of the list.
abbrev pub taken : Machine → ℕ → Machine
taken s p = record s { freelist = s.mem (page_of p) 0; refs = update s.refs (page_of p) 1 }

-- kalloc on a free list that is not empty takes its first page, which then has one reference; the
-- rest is the free list, and no word of memory changes.
pub kalloc-FreeList :
    (s : Machine) (p : ℕ) (ps : List ℕ)
    → FreeList s (p ∷ ps)
    → (kalloc s ≡ ok (p, taken s p)) × FreeList (taken s p) ps × ((taken s p).refs (page_of p) ≡ 1)
unfolding kalloc
kalloc-FreeList s p ps f =
    let (here, page, free, rest) = f.chain in
    (
      ground (arith, here, free, page.high, page_of-IsPage s p page),
      record {
        chain =
            Chain-frame s (taken s p) (page_of p) ps (s.mem (page_of p) 0) refl (λ q n. refl)
              (λ q n. ground arith) f.distinct.0 rest;
        distinct = f.distinct.1;
      },
      ground arith,
    )

-- A defect: kalloc on the empty free list does not return 0. It looks up the reference count of the
-- null pointer's physical address, which lies outside the array.
pub kalloc_empty : (s : Machine) → FreeList s [] → kalloc s ≡ fault
unfolding kalloc
kalloc_empty s f = ground (arith, f.chain)
