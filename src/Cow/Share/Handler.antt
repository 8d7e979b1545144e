-- ===== src/Cow/Share/Handler.antt =====
-- CoW_handler of xv6-public_project04/vm.c, on each state of the faulting entry.
use operating_system.Common.{
  ℕ, ◌+◌, ◌-◌, ◌^◌, ◌<◌, ◌≡◌, ◌≢◌, refl, sym, ap, ◌∙◌, subst, Bool, true, false, some, List, ◌∷◌,
  branch, ok, arith,
}
use operating_system.Cow.Layout.{v2p, p2v, p2pg, ptx, pte_addr, has_p, has_w, set_w}
use operating_system.Cow.Memory.{Machine, n_refs, page_of, update, copy_page, write_word}
use operating_system.Cow.Kalloc.{decr_refc}
use operating_system.Cow.Kalloc.FreeList.{
  Chain, FreeList, Chain-frame, referenced-Apart, kalloc-FreeList, get_refc_lem, taken,
}
use operating_system.Cow.Vm.{Slot, load, walkpgdir, pde_slot}
use operating_system.Cow.Share.{make_private, handle_slot, cow_handler}

-- The entry that walkpgdir finds for `va`, where the directory has a page table there.
abbrev pub pte_slot : Machine → ℕ → ℕ → Slot
pte_slot s pgdir va = record {
  page = page_of (p2v (pte_addr (load (pde_slot pgdir va) s)));
  index = ptx va;
}

pub walkpgdir_present :
    (s : Machine) (pgdir va : ℕ) (alloc : Bool)
    → has_p (load (pde_slot pgdir va) s) ≡ true
    → walkpgdir pgdir va alloc s ≡ ok (some (pte_slot s pgdir va), s)
unfolding walkpgdir
walkpgdir_present s pgdir va alloc h = rw (h, branch) refl

-- The machine in which the faulting entry maps the new page `m`.
abbrev pub copied : Machine → Slot → ℕ → Machine
copied s pte m =
    let pa = pte_addr (load pte s) in
    let t =
      write_word pte.page pte.index (v2p m + 7) (copy_page (page_of m) (p2pg pa) (taken s m)) in
    record t { refs = update t.refs (p2pg pa) (t.refs (p2pg pa) - 1) }

-- A fault on an entry: it is present, and its page and the page table that holds it are two
-- physical pages with references.
pub record Mapped (s : Machine) (pte : Slot) : Type 0 where
  pub present : has_p (load pte s) ≡ true
  pub inside : p2pg (pte_addr (load pte s)) < n_refs
  pub table : s.refs pte.page ≢ 0
  pub apart : pte.page ≢ p2pg (pte_addr (load pte s))

make_private_lem :
    (s : Machine) (pte : Slot) (m : ℕ) (ps : List ℕ)
    → FreeList s (m ∷ ps)
    → Mapped s pte
    → s.refs (p2pg (pte_addr (load pte s))) ≢ 0
    → make_private pte (pte_addr (load pte s)) s ≡ ok (tt, copied s pte m)
unfolding make_private decr_refc
make_private_lem s pte m ps f e r =
    let (here, page, free, rest) = f.chain in
    let other : page_of m ≢ p2pg (pte_addr (load pte s)) = λ t. r (ap s.refs (sym t) ∙ free) in
    ground (arith, (kalloc-FreeList s m ps f).0, page.high, e.inside)

handle_shared :
    (s : Machine) (pte : Slot) (m n : ℕ) (ps : List ℕ)
    → FreeList s (m ∷ ps)
    → Mapped s pte
    → s.refs (p2pg (pte_addr (load pte s))) ≡ n + 2
    → n + 2 < 2 ^ 31
    → handle_slot (some pte) s ≡ ok (tt, copied s pte m)
unfolding handle_slot
handle_shared s pte m n ps f e r b = ground (
  arith,
  e.present,
  get_refc_lem s (pte_addr (load pte s)) e.inside,
  make_private_lem s pte m ps f e (λ t. omega arith),
)

-- A write fault on a page that several processes map. CoW_handler, called for an address whose page
-- table exists, takes the first free page, maps it writable at the address, and fills it with the
-- words of the shared page. The shared page keeps its words and loses one reference, the new page has
-- one, and the rest of the free list stays free. Counts stay below 2 ^ 31.
pub cow_handler_copies :
    (s : Machine) (va pgdir m n : ℕ) (ps : List ℕ)
    → has_p (load (pde_slot pgdir va) s) ≡ true
    → FreeList s (m ∷ ps)
    → Mapped s (pte_slot s pgdir va)
    → s.refs (p2pg (pte_addr (load (pte_slot s pgdir va) s))) ≡ n + 2
    → n + 2 < 2 ^ 31
    → (t : Machine) × (cow_handler va pgdir s ≡ ok (tt, t))
      × (load (pte_slot s pgdir va) t ≡ v2p m + 7)
      × ((i : ℕ) → t.mem (page_of m) i ≡ s.mem (p2pg (pte_addr (load (pte_slot s pgdir va) s))) i)
      × ((i : ℕ)
          → t.mem (p2pg (pte_addr (load (pte_slot s pgdir va) s))) i
            ≡ s.mem (p2pg (pte_addr (load (pte_slot s pgdir va) s))) i)
      × (t.refs (p2pg (pte_addr (load (pte_slot s pgdir va) s))) ≡ n + 1)
      × (t.refs (page_of m) ≡ 1)
      × FreeList t ps
unfolding cow_handler
cow_handler_copies s va pgdir m n ps h f e r b =
    let pte : Slot = pte_slot s pgdir va in
    let pg : ℕ = p2pg (pte_addr (load pte s)) in
    let t : Machine = copied s pte m in
    let (here, page, free, rest) = f.chain in
    let (took, list, once) = kalloc-FreeList s m ps f in
    let other : page_of m ≢ pg = λ q. omega (arith, ap s.refs q, free, r) in
    let table : page_of m ≢ pte.page = λ q. e.table (sym (ap s.refs q) ∙ free) in
    let c : Machine = copy_page (page_of m) pg (taken s m) in
    let listed : Chain c ps c.freelist =
      Chain-frame (taken s m) c (page_of m) ps c.freelist refl (λ q d. ground arith) (λ q d. refl)
        f.distinct.0 list.chain in
    let w : Machine = write_word pte.page pte.index (v2p m + 7) c in
    let written : Chain w ps w.freelist =
      Chain-frame c w pte.page ps w.freelist refl (λ q d. ground arith) (λ q d. refl)
        (referenced-Apart c pte.page ps c.freelist (λ z. e.table (ground arith)) listed) listed in
    (
      t,
      ground (arith, walkpgdir_present s pgdir va false h, handle_shared s pte m n ps f e r b),
      ground arith,
      λ i. ground arith,
      λ i. ground arith,
      ground (arith, r),
      ground arith,
      record {
        chain =
            Chain-frame w t pg ps t.freelist refl (λ q d. refl) (λ q d. ground arith)
              (referenced-Apart w pg ps w.freelist (λ z. ground (arith, z, r, other)) written)
              written;
        distinct = f.distinct.1;
      },
    )

-- The same fault with the machine behind it written out, at the entry `c`.
pub cow_handler_at :
    (s : Machine) (va pgdir m n : ℕ) (ps : List ℕ) (c : Slot)
    → pte_slot s pgdir va ≡ c
    → has_p (load (pde_slot pgdir va) s) ≡ true
    → FreeList s (m ∷ ps)
    → Mapped s c
    → s.refs (p2pg (pte_addr (load c s))) ≡ n + 2
    → n + 2 < 2 ^ 31
    → (cow_handler va pgdir s ≡ ok (tt, copied s c m)) × FreeList (copied s c m) ps
unfolding cow_handler
cow_handler_at s va pgdir m n ps c same h f e r b =
    let k : Mapped s (pte_slot s pgdir va) = subst (Mapped s) (sym same) e in
    let q : s.refs (p2pg (pte_addr (load (pte_slot s pgdir va) s))) ≡ n + 2 =
      ap (λ x. s.refs (p2pg (pte_addr (load x s)))) same ∙ r in
    let (t, goes, entry, fresh, old, count, once, list) =
      cow_handler_copies s va pgdir m n ps h f k q b in
    let whole : cow_handler va pgdir s ≡ ok (tt, copied s (pte_slot s pgdir va) m) = ground (
      arith,
      walkpgdir_present s pgdir va false h,
      handle_shared s (pte_slot s pgdir va) m n ps f k q b,
    ) in
    let eq : t ≡ copied s (pte_slot s pgdir va) m = cc (goes, whole) in
    subst (λ x. (cow_handler va pgdir s ≡ ok (tt, copied s x m)) × FreeList (copied s x m) ps) same
      (whole, subst (λ x. FreeList x ps) eq list)

-- A write fault on a page that one process alone maps: CoW_handler sets PTE_W in the entry and changes
-- nothing else.
pub cow_handler_unshares :
    (s : Machine) (va pgdir : ℕ)
    → has_p (load (pde_slot pgdir va) s) ≡ true
    → Mapped s (pte_slot s pgdir va)
    → s.refs (p2pg (pte_addr (load (pte_slot s pgdir va) s))) ≡ 1
    → (cow_handler va pgdir s
        ≡ ok (
          tt,
          write_word (pte_slot s pgdir va).page (ptx va) (set_w (load (pte_slot s pgdir va) s)) s,
        ))
      × (has_w (set_w (load (pte_slot s pgdir va) s)) ≡ true)
unfolding cow_handler handle_slot
cow_handler_unshares s va pgdir h e r = (
  ground (
    arith,
    walkpgdir_present s pgdir va false h,
    e.present,
    get_refc_lem s (pte_addr (load (pte_slot s pgdir va) s)) e.inside,
  ),
  ground arith,
)
