-- ===== src/Cow/Share/Sharing.antt =====
-- copyuvm of xv6-public_project04/vm.c: what one round of its loop does to the entries of the parent
-- and of the child.
use operating_system.Common.{
  ℕ, ◌+◌, ◌-◌, ◌/◌, ◌%◌, ◌^◌, ◌<◌, ◌≡◌, ◌≢◌, ◌⊎◌, inl, refl, sym, ap, ◌∙◌, true, false, not, some,
  List, branch, panic_if, ◌>>=◌, ◌>>◌, ok, arith,
}
use operating_system.Cow.Layout.{
  pgsize, p2v, p2pg, ptx, pg_round_down, pte_addr, pte_flags, has_p, has_w, clear_w,
}
use operating_system.Cow.Memory.{Machine, n_refs, page_of, update, write_word}
use operating_system.Cow.Kalloc.{incr_refc, get_refc}
use operating_system.Cow.Kalloc.FreeList.{
  Chain, FreeList, Chain-frame, referenced-Apart, get_refc_lem,
}
use operating_system.Cow.Vm.{
  Slot, load, walkpgdir, pde_slot, map_slot, map_from, mappages, make_pte,
}
use operating_system.Cow.Share.{share_slot}
use operating_system.Cow.Share.Handler.{pte_slot, walkpgdir_present}

-- The machine in which the parent's entry and the child's entry map one page without PTE_W.
abbrev pub shared : Machine → Slot → Slot → Machine
shared s pte child =
    let e = clear_w (load pte s) in
    let t = write_word child.page child.index e (write_word pte.page pte.index e s) in
    record t {
      refs = update t.refs (p2pg (pte_addr e)) ((t.refs (p2pg (pte_addr e)) + 1) % 2 ^ 32);
    }

-- The parent's entry `pte` is present and may be shared with a child whose directory `d` has a page table
-- for the address `i`, with the child's entry empty. The tables are pages of their own, with references.
pub record Shareable (s : Machine) (pte : Slot) (d i : ℕ) : Type 0 where
  pub aligned : i % 4096 ≡ 0
  pub low : i + 4096 < 2 ^ 32
  pub present : has_p (load pte s) ≡ true
  pub inside : p2pg (pte_addr (load pte s)) < n_refs
  pub counted : s.refs (p2pg (pte_addr (load pte s))) + 1 < 2 ^ 31
  pub held : s.refs (p2pg (pte_addr (load pte s))) ≢ 0
  pub table : has_p (load (pde_slot d i) s) ≡ true
  pub empty : has_p (load (pte_slot s d i) s) ≡ false
  pub own : (pte_slot s d i).page ≢ pte.page
  pub parent_table : s.refs pte.page ≢ 0
  pub child_table : s.refs (pte_slot s d i).page ≢ 0
  pub directory : page_of d ≢ pte.page
  pub child_directory : page_of d ≢ (pte_slot s d i).page
  pub data_parent : pte.page ≢ p2pg (pte_addr (load pte s))
  pub data_child : (pte_slot s d i).page ≢ p2pg (pte_addr (load pte s))

pub mappages_page :
    (s : Machine) (d a pa perm : ℕ)
    → a % 4096 ≡ 0
    → a + 4096 < 2 ^ 32
    → mappages d a pgsize pa perm s ≡ (walkpgdir d a true >>= λ pte. map_slot pte pa perm) s
unfolding mappages map_from
mappages_page s d a pa perm h b =
    let down : pg_round_down a ≡ a = omega arith in
    let rounds : (pg_round_down ((a + pgsize + 2 ^ 32 - 1) % 2 ^ 32) + 2 ^ 32 - a) % 2 ^ 32 / pgsize
        ≡ 0 =
      omega arith in
    rw (down, rounds) refl

pub clear_w-facts :
    (e : ℕ)
    → has_p e ≡ true
    → (has_p (clear_w e) ≡ true)
      × (has_w (clear_w e) ≡ false)
      × (pte_addr (clear_w e) ≡ pte_addr e)
      × (make_pte (pte_addr (clear_w e)) (pte_flags (clear_w e)) ≡ clear_w e)
clear_w-facts e h = (ground arith, ground arith, ground arith, ground arith)

-- What the store to the parent's entry leaves as it was.
pub walk_child :
    (s : Machine) (pte : Slot) (d i w : ℕ)
    → Shareable s pte d i
    → walkpgdir d i true (write_word pte.page pte.index w s)
      ≡ ok (some (pte_slot s d i), write_word pte.page pte.index w s)
walk_child s pte d i w h =
    let t : Machine = write_word pte.page pte.index w s in
    let same : load (pde_slot d i) t ≡ load (pde_slot d i) s = ground (arith, h.directory) in
    walkpgdir_present t d i true (ap has_p same ∙ h.table)
    ∙ ap (λ x. ok (some (record { page = page_of (p2v (pte_addr x)); index = ptx i }), t)) same

map_child :
    (s : Machine) (pte : Slot) (d i w pa perm : ℕ)
    → Shareable s pte d i
    → map_slot (some (pte_slot s d i)) pa perm (write_word pte.page pte.index w s)
      ≡ ok (
        true,
        write_word
            (pte_slot s d i).page
            (pte_slot s d i).index
            (make_pte pa perm)
            (write_word pte.page pte.index w s),
      )
unfolding map_slot
map_child s pte d i w pa perm h =
    let same : load (pte_slot s d i) (write_word pte.page pte.index w s) ≡ load (pte_slot s d i) s =
      ground (arith, h.own) in
    ground (arith, same, h.empty)

mappages_child :
    (s : Machine) (pte : Slot) (d i w pa perm : ℕ)
    → Shareable s pte d i
    → mappages d i pgsize pa perm (write_word pte.page pte.index w s)
      ≡ ok (
        true,
        write_word
            (pte_slot s d i).page
            (pte_slot s d i).index
            (make_pte pa perm)
            (write_word pte.page pte.index w s),
      )
mappages_child s pte d i w pa perm h =
    let t : Machine = write_word pte.page pte.index w s in
    mappages_page t d i pa perm h.aligned h.low
    ∙ rw (◌>>=◌, walk_child s pte d i w h) (map_child s pte d i w pa perm h)

pub share_slot_lem :
    (s : Machine) (pte : Slot) (d i : ℕ)
    → Shareable s pte d i
    → share_slot (some pte) d i s ≡ ok (true, shared s pte (pte_slot s d i))
unfolding share_slot incr_refc
share_slot_lem s pte d i h =
    let e : ℕ = clear_w (load pte s) in
    let (p, w, a, whole) = clear_w-facts (load pte s) h.present in
    let mapped = mappages_child s pte d i e (pte_addr e) (pte_flags e) h in
    let put : write_word (pte_slot s d i).page (pte_slot s d i).index
          (make_pte (pte_addr e) (pte_flags e)) (write_word pte.page pte.index e s)
        ≡ write_word (pte_slot s d i).page (pte_slot s d i).index e
            (write_word pte.page pte.index e s) =
      ap
        (λ x.
          write_word (pte_slot s d i).page (pte_slot s d i).index x
            (write_word pte.page pte.index e s))
        whole in
    let counted : get_refc (pte_addr e) (
          write_word (pte_slot s d i).page (pte_slot s d i).index e
            (write_word pte.page pte.index e s))
        ≡ ok (
          s.refs (p2pg (pte_addr e)),
          write_word (pte_slot s d i).page (pte_slot s d i).index e
              (write_word pte.page pte.index e s),
        ) =
      get_refc_lem
        (write_word (pte_slot s d i).page (pte_slot s d i).index e
          (write_word pte.page pte.index e s))
        (pte_addr e) (rw a h.inside) in
    rw (h.present, ◌>>=◌, ◌>>◌, panic_if, not, mapped, branch, put, counted) refl

-- The free list is untouched: a store to a page table with references, and one more reference for a page.
pub shared-FreeList :
    (s : Machine) (pte : Slot) (d i : ℕ) (ps : List ℕ)
    → FreeList s ps
    → Shareable s pte d i
    → FreeList (shared s pte (pte_slot s d i)) ps
shared-FreeList s pte d i ps f h =
    let e : ℕ = clear_w (load pte s) in
    let c : Slot = pte_slot s d i in
    let (p, w, a, whole) = clear_w-facts (load pte s) h.present in
    let t : Machine = write_word pte.page pte.index e s in
    let u : Machine = write_word c.page c.index e t in
    let one : Chain t ps t.freelist =
      Chain-frame s t pte.page ps t.freelist refl (λ q n. ground arith) (λ q n. refl)
        (referenced-Apart s pte.page ps s.freelist h.parent_table f.chain) f.chain in
    let two : Chain u ps u.freelist =
      Chain-frame t u c.page ps u.freelist refl (λ q n. ground arith) (λ q n. refl)
        (referenced-Apart t c.page ps t.freelist h.child_table one) one in
    record {
      chain =
          Chain-frame u (shared s pte c) (p2pg (pte_addr e)) ps u.freelist refl (λ q n. refl)
            (λ q n. ground arith)
            (referenced-Apart u (p2pg (pte_addr e)) ps u.freelist (rw a h.held) two) two;
      distinct = f.distinct;
    }

-- What sharing the page of entry `pte` with the child makes of the machine.
pub record Both (s t : Machine) (pte child : Slot) : Type 0 where
  pub parent_entry : load pte t ≡ clear_w (load pte s)
  pub child_entry : load child t ≡ clear_w (load pte s)
  pub read_only : has_w (clear_w (load pte s)) ≡ false
  pub same_page : pte_addr (clear_w (load pte s)) ≡ pte_addr (load pte s)
  pub counted : t.refs (p2pg (pte_addr (load pte s))) ≡ s.refs (p2pg (pte_addr (load pte s))) + 1
  pub words :
      (q j : ℕ)
      → (q ≢ pte.page) ⊎ (j ≢ pte.index)
      → (q ≢ child.page) ⊎ (j ≢ child.index)
      → t.mem q j ≡ s.mem q j

pub write_word-other :
    (s : Machine) (p i w q j : ℕ) → (q ≢ p) ⊎ (j ≢ i) → (write_word p i w s).mem q j ≡ s.mem q j
write_word-other s p i w q j h = ground arith

update-count :
    (r : ℕ → ℕ) (q p : ℕ) → q ≡ p → r p + 1 < 2 ^ 31 → update r q ((r q + 1) % 2 ^ 32) p ≡ r p + 1
update-count r q p e b = rw e (ground arith)

pub shared-Both :
    (s : Machine) (pte : Slot) (d i : ℕ)
    → Shareable s pte d i
    → Both s (shared s pte (pte_slot s d i)) pte (pte_slot s d i)
shared-Both s pte d i h =
    let (p, w, a, whole) = clear_w-facts (load pte s) h.present in
    let e : ℕ = clear_w (load pte s) in
    let c : Slot = pte_slot s d i in
    record {
      parent_entry =
          write_word-other (write_word pte.page pte.index e s) c.page c.index e pte.page pte.index
            (inl (λ z. h.own (sym z)))
          ∙ ground arith;
      child_entry = ground arith;
      read_only = w;
      same_page = a;
      counted = update-count s.refs _ _ (ap p2pg a) h.counted;
      words = λ q j m n.
          write_word-other (write_word pte.page pte.index e s) c.page c.index e q j n
          ∙ write_word-other s pte.page pte.index e q j m;
    }

-- A round of copyuvm, for a page of the parent that is present, where the child has a page table for its
-- address: afterwards both processes map the same page, without PTE_W; the page has one reference more;
-- every other word of memory keeps its value, and the free list is the same.
pub share_slot_outcome :
    (s : Machine) (pte : Slot) (d i : ℕ) (ps : List ℕ)
    → FreeList s ps
    → Shareable s pte d i
    → (t : Machine) × (share_slot (some pte) d i s ≡ ok (true, t))
      × Both s t pte (pte_slot s d i)
      × FreeList t ps
share_slot_outcome s pte d i ps f h = (
  shared s pte (pte_slot s d i),
  share_slot_lem s pte d i h,
  shared-Both s pte d i h,
  shared-FreeList s pte d i ps f h,
)
