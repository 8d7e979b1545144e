-- ===== src/Cow/Share/First.antt =====
-- copyuvm of xv6-public_project04/vm.c: a round at an address for which the child's directory has no page
-- table yet, as the first one of each fork.
use operating_system.Common.{
  ℕ, ◌+◌, ◌%◌, ◌^◌, ◌<◌, ◌≡◌, ◌≢◌, ◌⊎◌, inl, refl, sym, ap, ◌∙◌, subst, true, false, not, Bool,
  some, List, ◌∷◌, branch, panic_if, pure, ◌>>=◌, ◌>>◌, ok, arith, ◌==◌,
}
use operating_system.Cow.Layout.{
  pgsize, v2p, p2v, p2pg, pdx, ptx, pte_addr, pte_flags, has_p, clear_w,
}
use operating_system.Cow.Memory.{Machine, Mach, n_refs, page_of, fill_page, write_word}
use operating_system.Cow.Kalloc.{incr_refc}
use operating_system.Cow.Kalloc.FreeList.{
  Chain, FreeList, IsPage, Chain-frame, referenced-Apart, taken, kalloc-FreeList,
}
use operating_system.Cow.Vm.{Slot, load, store, add_table, walkpgdir, pde_slot, mappages}
use operating_system.Cow.Share.{share_slot, cow_handler}
use operating_system.Cow.Share.Handler.{pte_slot}
use operating_system.Cow.Share.Sharing.{Shareable, mappages_page, write_word-other, walk_child}
use operating_system.Cow.Share.Separate.{Split, share_then_write}

-- The machine in which the free page `m` is the page table of the directory `d` for the address `i`.
abbrev pub with_table : Machine → ℕ → ℕ → ℕ → Machine
with_table s m d i =
    write_word (page_of d) (pdx i) (v2p m + 7) (fill_page (page_of m) 0 (taken s m))

abbrev pub new_slot : ℕ → ℕ → Slot
new_slot m i = record { page = page_of m; index = ptx i }

-- The parent's entry `pte` is present and may be shared with a child whose directory `d` has no page table
-- for the address `i`.
pub record Firstly (s : Machine) (pte : Slot) (d i : ℕ) : Type 0 where
  pub aligned : i % 4096 ≡ 0
  pub low : i + 4096 < 2 ^ 32
  pub present : has_p (load pte s) ≡ true
  pub inside : p2pg (pte_addr (load pte s)) < n_refs
  pub counted : s.refs (p2pg (pte_addr (load pte s))) + 1 < 2 ^ 31
  pub held : s.refs (p2pg (pte_addr (load pte s))) ≢ 0
  pub no_table : has_p (load (pde_slot d i) s) ≡ false
  pub parent_table : s.refs pte.page ≢ 0
  pub child_directory : s.refs (page_of d) ≢ 0
  pub directory : page_of d ≢ pte.page
  pub data_parent : pte.page ≢ p2pg (pte_addr (load pte s))
  pub data_directory : p2pg (pte_addr (load pte s)) ≢ page_of d

table_entry :
    (s : Machine) (m : ℕ)
    → IsPage s m
    → (has_p (v2p m + 7) ≡ true) × (p2v (pte_addr (v2p m + 7)) ≡ m) × ((m == 0) ≡ false)
table_entry s m g = (
  ground (arith, g.aligned, g.high, g.low),
  omega (arith, g.aligned, g.high, g.low),
  ground (arith, g.high),
)

-- walkpgdir takes the first free page for the table.
walk_new :
    (s : Machine) (d i m : ℕ) (ps : List ℕ)
    → FreeList s (m ∷ ps)
    → has_p (load (pde_slot d i) s) ≡ false
    → walkpgdir d i true s ≡ ok (some (new_slot m i), with_table s m d i)
unfolding walkpgdir add_table
walk_new s d i m ps f h =
    let (here, page, free, rest) = f.chain in
    let (p, back, z) = table_entry s m page in
    let (got, list, one) = kalloc-FreeList s m ps f in rw (h, ◌>>=◌, ◌>>◌, branch, got, z) refl

pub with_table-FreeList :
    (s : Machine) (d i m : ℕ) (ps : List ℕ)
    → FreeList s (m ∷ ps)
    → s.refs (page_of d) ≢ 0
    → FreeList (with_table s m d i) ps
with_table-FreeList s d i m ps f h =
    let (got, list, one) = kalloc-FreeList s m ps f in
    let t : Machine = taken s m in
    let u : Machine = fill_page (page_of m) 0 t in
    let c : Chain u ps u.freelist =
      Chain-frame t u (page_of m) ps t.freelist refl (λ q n. ground arith) (λ q n. refl)
        f.distinct.0 list.chain in
    record {
      chain =
          Chain-frame u (with_table s m d i) (page_of d) ps u.freelist refl (λ q n. ground arith)
            (λ q n. refl)
            (referenced-Apart u (page_of d) ps u.freelist (λ e. ground (arith, e, h)) c) c;
      distinct = list.distinct;
    }

-- The words that the new table leaves alone.
table_words :
    (s : Machine) (d i m q j : ℕ)
    → q ≢ page_of m
    → (q ≢ page_of d) ⊎ (j ≢ pdx i)
    → (with_table s m d i).mem q j ≡ s.mem q j
table_words s d i m q j a b = ground arith

with_table-Shareable :
    (s : Machine) (pte : Slot) (d i m : ℕ) (ps : List ℕ)
    → FreeList s (m ∷ ps)
    → Firstly s pte d i
    → (Shareable (with_table s m d i) pte d i)
      × (pte_slot (with_table s m d i) d i ≡ new_slot m i)
      × (load pte (with_table s m d i) ≡ load pte s)
      × ((with_table s m d i).refs (p2pg (pte_addr (load pte s)))
          ≡ s.refs (p2pg (pte_addr (load pte s))))
      × (p2pg (pte_addr (load pte s)) ≢ page_of m)
with_table-Shareable s pte d i m ps f h =
    let (here, page, free, rest) = f.chain in
    let (p, back, z) = table_entry s m page in
    let t : Machine = with_table s m d i in
    let at : load (pde_slot d i) t ≡ v2p m + 7 = ground arith in
    let slot : pte_slot t d i ≡ new_slot m i =
      ap (λ x. record { page = page_of x; index = ptx i }) (ap (λ x. p2v (pte_addr x)) at ∙ back) in
    let parent : pte.page ≢ page_of m = λ e. h.parent_table (ap s.refs e ∙ free) in
    let entry : load pte t ≡ load pte s =
      table_words s d i m pte.page pte.index parent (inl (λ e. h.directory (sym e))) in
    let dir : page_of d ≢ page_of m = λ e. h.child_directory (ap s.refs e ∙ free) in
    let pg : ℕ = p2pg (pte_addr (load pte s)) in
    let whole : pg ≢ page_of m = λ e. h.held (ap s.refs e ∙ free) in
    let same : p2pg (pte_addr (load pte t)) ≡ pg = ap (λ x. p2pg (pte_addr x)) entry in
    let refs : t.refs (p2pg (pte_addr (load pte t))) ≡ s.refs pg =
      ap t.refs same ∙ ground (arith, whole) in
    let blank : load (new_slot m i) t ≡ 0 = ground (arith, dir) in
    let kept : t.refs pte.page ≡ s.refs pte.page = ground (arith, parent) in
    let one : t.refs (page_of m) ≢ 0 = λ e. ground (arith, e) in
    let child : (pte_slot t d i).page ≡ page_of m = ap (λ x. x.page) slot in
    (
      record {
        aligned = h.aligned;
        low = h.low;
        present = ap has_p entry ∙ h.present;
        inside = subst (λ x. x < n_refs) (sym same) h.inside;
        counted = omega (arith, refs, h.counted);
        held = λ e. h.held (sym refs ∙ e);
        table = ap has_p at ∙ p;
        empty = ap has_p (ap (λ c. load c t) slot ∙ blank) ∙ refl;
        own = λ e. parent (sym e ∙ child);
        parent_table = λ e. h.parent_table (sym (kept) ∙ e);
        child_table = λ e. one (sym (ap t.refs child) ∙ e);
        directory = h.directory;
        child_directory = λ e. dir (e ∙ child);
        data_parent = λ e. h.data_parent (e ∙ same);
        data_child = λ e. whole (sym same ∙ (sym e ∙ child));
      },
      slot,
      entry,
      ground (arith, whole),
      whole,
    )

-- The store to the parent's entry and the new table do not meet.
table_commutes :
    (s : Machine) (pte : Slot) (d i m w : ℕ)
    → pte.page ≢ page_of m
    → page_of d ≢ pte.page
    → with_table (write_word pte.page pte.index w s) m d i
      ≡ write_word pte.page pte.index w (with_table s m d i)
table_commutes s pte d i m w a b =
    let u : Machine = with_table (write_word pte.page pte.index w s) m d i in
    let v : Machine = write_word pte.page pte.index w (with_table s m d i) in
    let words : (q j : ℕ) → u.mem q j ≡ v.mem q j = λ q j. ground (arith, a, b) in
    let next : u.freelist ≡ v.freelist = ground (arith, a) in
    λ x. record u { mem = λ q j. words q j x; freelist = next x }

stored-FreeList :
    (s : Machine) (pte : Slot) (w : ℕ) (ps : List ℕ)
    → FreeList s ps
    → s.refs pte.page ≢ 0
    → FreeList (write_word pte.page pte.index w s) ps
stored-FreeList s pte w ps f h = record {
  chain =
      Chain-frame s (write_word pte.page pte.index w s) pte.page ps s.freelist refl
        (λ q n. ground arith) (λ q n. refl) (referenced-Apart s pte.page ps s.freelist h f.chain)
        f.chain;
  distinct = f.distinct;
}

-- A round on a page takes the new table first, and goes on as with a table that is there.
mappages_new :
    (s : Machine) (pte : Slot) (d i m pa perm : ℕ) (ps : List ℕ)
    → FreeList s (m ∷ ps)
    → Firstly s pte d i
    → (w : ℕ)
    → mappages d i pgsize pa perm (write_word pte.page pte.index w s)
      ≡ mappages d i pgsize pa perm (write_word pte.page pte.index w (with_table s m d i))
mappages_new s pte d i m pa perm ps f h w =
    let (here, page, free, rest) = f.chain in
    let u : Machine = write_word pte.page pte.index w s in
    let v : Machine = write_word pte.page pte.index w (with_table s m d i) in
    let (again, slot, entry, refs, apart) = with_table-Shareable s pte d i m ps f h in
    let none_there : has_p (load (pde_slot d i) u) ≡ false =
      ap has_p (write_word-other s pte.page pte.index w (page_of d) (pdx i) (inl h.directory))
      ∙ h.no_table in
    let first : walkpgdir d i true u ≡ ok (some (new_slot m i), v) =
      walk_new u d i m ps (stored-FreeList s pte w (m ∷ ps) f h.parent_table) none_there
      ∙ ap (λ x. ok (some (new_slot m i), x))
          (table_commutes s pte d i m w (λ e. h.parent_table (ap s.refs e ∙ free)) h.directory) in
    let second : walkpgdir d i true v ≡ ok (some (new_slot m i), v) =
      walk_child (with_table s m d i) pte d i w again ∙ ap (λ x. ok (some x, v)) slot in
    mappages_page u d i pa perm h.aligned h.low
    ∙ (rw (◌>>=◌, first, second) refl ∙ sym (mappages_page v d i pa perm h.aligned h.low))

-- share_slot behind its read of the entry.
abbrev share_entry : Slot → ℕ → ℕ → ℕ → Mach Bool
share_entry pte d i e = do
  panic_if (not (has_p e)) "copyuvm: page not present"
  store pte (clear_w e)
  done ← mappages d i pgsize (pte_addr (clear_w e)) (pte_flags (clear_w e))
  branch done (do incr_refc (pte_addr (clear_w e)); pure true) (pure false)

share_slot_new :
    (s : Machine) (pte : Slot) (d i m : ℕ) (ps : List ℕ)
    → FreeList s (m ∷ ps)
    → Firstly s pte d i
    → share_slot (some pte) d i s ≡ share_slot (some pte) d i (with_table s m d i)
unfolding share_slot
share_slot_new s pte d i m ps f h =
    let (again, slot, entry, refs, apart) = with_table-Shareable s pte d i m ps f h in
    let e : ℕ = clear_w (load pte s) in
    let same = mappages_new s pte d i m (pte_addr e) (pte_flags e) ps f h e in
    rw (h.present, ◌>>=◌, ◌>>◌, panic_if, not, same) refl
    ∙ ap (λ x. share_entry pte d i x (with_table s m d i)) (sym entry)

-- Memory that is the same at the page, at the entry and in the count gives the same result.
Split-back :
    (s w r : Machine) (pte c b : Slot) (m : ℕ)
    → c ≡ b
    → load pte w ≡ load pte s
    → ((j : ℕ) → w.mem (p2pg (pte_addr (load pte s))) j ≡ s.mem (p2pg (pte_addr (load pte s))) j)
    → w.refs (p2pg (pte_addr (load pte s))) ≡ s.refs (p2pg (pte_addr (load pte s)))
    → Split w r pte c m
    → Split s r pte b m
Split-back s w r pte c b m slot entry words refs x =
    let page : p2pg (pte_addr (load pte w)) ≡ p2pg (pte_addr (load pte s)) =
      ap (λ z. p2pg (pte_addr z)) entry in
    record {
      child_entry = subst (λ z. load z r ≡ v2p m + 7) slot x.child_entry;
      parent_entry = x.parent_entry ∙ ap clear_w entry;
      fresh = λ j. x.fresh j ∙ (ap (λ z. w.mem z j) page ∙ words j);
      old = λ j. ap (λ z. r.mem z j) (sym page) ∙ (x.old j ∙ (ap (λ z. w.mem z j) page ∙ words j));
      count = ap r.refs (sym page) ∙ (x.count ∙ (ap w.refs page ∙ refs));
    }

-- fork and then a write, for a page at whose address the child's directory has no page table yet, as the
-- first page that copyuvm shares, and the first one of each range of 4 MB. The round of copyuvm
-- takes the first free page for the page table and shares the page with the child; and where the child then
-- writes to the page, CoW_handler gives it the next free page: its entry, in the new table, maps it
-- writable, with the words that the page had before the fork. The parent still maps the old page, without
-- PTE_W, with its words as they were and as many references as before the fork; the rest of the free list stays free.
-- The address is aligned and the page does not reach 2 ^ 32; the page has an entry in the array of counts, a
-- count from 1 to 2 ^ 31 - 2, and is neither the table of the parent nor the child's directory; that
-- table is not that directory, and both have references.
pub share_first_then_write :
    (s : Machine) (pte : Slot) (d i q m n : ℕ) (ps : List ℕ)
    → FreeList s (q ∷ m ∷ ps)
    → Firstly s pte d i
    → s.refs (p2pg (pte_addr (load pte s))) ≡ n + 1
    → (t r : Machine) × (share_slot (some pte) d i s ≡ ok (true, t))
      × (cow_handler i d t ≡ ok (tt, r))
      × Split s r pte (new_slot q i) m
      × FreeList r ps
share_first_then_write s pte d i q m n ps f h e =
    let w : Machine = with_table s q d i in
    let (again, slot, entry, refs, apart) = with_table-Shareable s pte d i q (m ∷ ps) f h in
    let (t, r, shares, copies, split, list) =
      share_then_write w pte d i m n ps (with_table-FreeList s d i q (m ∷ ps) f h.child_directory)
        again (ap (λ x. w.refs (p2pg (pte_addr x))) entry ∙ (refs ∙ e)) in
    (
      t,
      r,
      share_slot_new s pte d i q (m ∷ ps) f h ∙ shares,
      copies,
      Split-back s w r pte (pte_slot w d i) (new_slot q i) m slot entry
          (λ j. table_words s d i q (p2pg (pte_addr (load pte s))) j apart (inl h.data_directory))
          refs split,
      list,
    )
