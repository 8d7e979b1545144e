-- ===== src/Cow/Share/Separate.antt =====
-- CoW_handler of xv6-public_project04/vm.c on a page that copyuvm has shared.
use operating_system.Common.{
  ℕ, ◌+◌, ◌<◌, ◌≡◌, ◌≢◌, inl, sym, ap, ◌∙◌, subst, true, some, List, ◌∷◌, ok, arith,
}
use operating_system.Cow.Layout.{v2p, p2v, p2pg, ptx, pte_addr, has_p, clear_w}
use operating_system.Cow.Memory.{Machine, n_refs, page_of, copy_page, write_word}
use operating_system.Cow.Kalloc.FreeList.{FreeList, taken}
use operating_system.Cow.Vm.{Slot, load, pde_slot}
use operating_system.Cow.Share.{share_slot, cow_handler}
use operating_system.Cow.Share.Handler.{pte_slot, Mapped, copied, cow_handler_at}
use operating_system.Cow.Share.Sharing.{
  shared, Shareable, Both, shared-Both, shared-FreeList, share_slot_lem, write_word-other,
  clear_w-facts,
}

-- What the child's write makes of a page that parent and child shared, with `m` the child's new page.
pub record Split (s r : Machine) (pte child : Slot) (m : ℕ) : Type 0 where
  pub child_entry : load child r ≡ v2p m + 7
  pub parent_entry : load pte r ≡ clear_w (load pte s)
  pub fresh : (j : ℕ) → r.mem (page_of m) j ≡ s.mem (p2pg (pte_addr (load pte s))) j
  pub old :
      (j : ℕ) → r.mem (p2pg (pte_addr (load pte s))) j ≡ s.mem (p2pg (pte_addr (load pte s))) j
  pub count : r.refs (p2pg (pte_addr (load pte s))) ≡ s.refs (p2pg (pte_addr (load pte s)))

-- The table of the child as it is found after the round.
pte_slot-shared :
    (s : Machine) (pte : Slot) (d i : ℕ)
    → Shareable s pte d i
    → load (pde_slot d i) (shared s pte (pte_slot s d i)) ≡ load (pde_slot d i) s
pte_slot-shared s pte d i h =
    let e : ℕ = clear_w (load pte s) in
    let c : Slot = pte_slot s d i in
    write_word-other (write_word pte.page pte.index e s) c.page c.index e (page_of d)
      (pde_slot d i).index (inl h.child_directory)
    ∙ write_word-other s pte.page pte.index e (page_of d) (pde_slot d i).index (inl h.directory)

shared-Mapped :
    (s : Machine) (pte : Slot) (d i : ℕ)
    → Shareable s pte d i
    → Mapped (shared s pte (pte_slot s d i)) (pte_slot s d i)
shared-Mapped s pte d i h =
    let c : Slot = pte_slot s d i in
    let t : Machine = shared s pte c in
    let b : Both s t pte c = shared-Both s pte d i h in
    let (p, w, a, whole) = clear_w-facts (load pte s) h.present in
    let same : p2pg (pte_addr (load c t)) ≡ p2pg (pte_addr (load pte s)) =
      ap (λ x. p2pg (pte_addr x)) b.child_entry ∙ ap p2pg a in
    let refs : t.refs c.page ≡ s.refs c.page = ground (arith, h.data_child, ap p2pg a) in
    record {
      present = ap has_p b.child_entry ∙ p;
      inside = subst (λ x. x < n_refs) (sym same) h.inside;
      table = λ z. h.child_table (sym refs ∙ z);
      apart = λ z. h.data_child (z ∙ same);
    }

copied-Split :
    (s t : Machine) (pte c : Slot) (m : ℕ)
    → Both s t pte c
    → c.page ≢ pte.page
    → pte.page ≢ p2pg (pte_addr (load pte s))
    → c.page ≢ p2pg (pte_addr (load pte s))
    → page_of m ≢ pte.page
    → page_of m ≢ c.page
    → page_of m ≢ p2pg (pte_addr (load pte s))
    → Split s (copied t c m) pte c m
copied-Split s t pte c m b own x y mp mc mg =
    let pg : ℕ = p2pg (pte_addr (load pte s)) in
    let same : p2pg (pte_addr (load c t)) ≡ pg =
      ap (λ z. p2pg (pte_addr z)) b.child_entry ∙ ap p2pg b.same_page in
    let kept : (j : ℕ) → t.mem pg j ≡ s.mem pg j =
      λ j. b.words pg j (inl (λ z. x (sym z))) (inl (λ z. y (sym z))) in
    let k : Machine = copy_page (page_of m) (p2pg (pte_addr (load c t))) (taken t m) in
    let past : (q j : ℕ) → q ≢ c.page → (copied t c m).mem q j ≡ k.mem q j =
      λ q j z. write_word-other k c.page c.index (v2p m + 7) q j (inl z) in
    record {
      child_entry = ground arith;
      parent_entry =
          past pte.page pte.index (λ z. own (sym z)) ∙ ground (arith, mp) ∙ b.parent_entry;
      fresh = λ j. past (page_of m) j mc ∙ (ground arith ∙ (ap (λ z. t.mem z j) same ∙ kept j));
      old = λ j. past pg j (λ z. y (sym z)) ∙ (ground (arith, mg) ∙ kept j);
      count = ground (arith, same, mg, b.counted);
    }

-- fork and then a write, for a page at whose address the child's directory has a page table
-- already, but no entry: not the first page that copyuvm shares in a range of 4 MB, for which
-- walkpgdir takes a page for the table. Where such a round of copyuvm shares the page with the
-- child, and the child then writes to the page, CoW_handler gives the child the first free page:
-- its entry maps it writable, with the words that the page had before the fork. The parent still
-- maps the old page, without PTE_W, with its words as they were and as many references as before
-- the fork; the rest of the free list stays free. The address is aligned and the page does not
-- reach 2 ^ 32; the page has an entry in the array of counts, a count from 1 to 2 ^ 31 - 2, and is
-- none of the tables; the tables of the parent and of the child are apart from each other and from
-- the child's directory, and have references.
pub share_then_write :
    (s : Machine) (pte : Slot) (d i m n : ℕ) (ps : List ℕ)
    → FreeList s (m ∷ ps)
    → Shareable s pte d i
    → s.refs (p2pg (pte_addr (load pte s))) ≡ n + 1
    → (t r : Machine) × (share_slot (some pte) d i s ≡ ok (true, t))
      × (cow_handler i d t ≡ ok (tt, r))
      × Split s r pte (pte_slot s d i) m
      × FreeList r ps
share_then_write s pte d i m n ps f h e =
    let c : Slot = pte_slot s d i in
    let t : Machine = shared s pte c in
    let b : Both s t pte c = shared-Both s pte d i h in
    let directory = pte_slot-shared s pte d i h in
    let at : pte_slot t d i ≡ c =
      ap (λ x. record { page = page_of (p2v (pte_addr x)); index = ptx i }) directory in
    let refs : t.refs (p2pg (pte_addr (load c t))) ≡ n + 2 =
      ap t.refs (ap (λ x. p2pg (pte_addr x)) b.child_entry ∙ ap p2pg b.same_page)
      ∙ (b.counted ∙ omega (arith, e)) in
    let (goes, list) =
      cow_handler_at t i d m n ps c at (ap has_p directory ∙ h.table)
        (shared-FreeList s pte d i (m ∷ ps) f h) (shared-Mapped s pte d i h) refs
        (omega (arith, e, h.counted)) in
    let (here, page, free, rest) = f.chain in
    (
      t,
      copied t c m,
      share_slot_lem s pte d i h,
      goes,
      copied-Split s t pte c m b h.own h.data_parent h.data_child
          (λ z. h.parent_table (ap s.refs (sym z) ∙ free))
          (λ z. h.child_table (ap s.refs (sym z) ∙ free)) (λ z. h.held (ap s.refs (sym z) ∙ free)),
      list,
    )
