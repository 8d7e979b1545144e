-- ===== src/Cow/Tests.antt =====
-- A concrete machine, with a page that two processes share, and the theorems on it.
use operating_system.Common.{
  ℕ, List, [], ◌∷◌, refl, arith, ◌+◌, ◌≡◌, true, false, ok, fault, some, leb, ◌&&◌, if◌then◌else◌,
}
use operating_system.Cow.Kalloc.{kalloc, kfree, freerange}
use operating_system.Cow.Kalloc.Free.{dropped, kfree-FreeList, kfree_shared, freerange_faults}
use operating_system.Cow.Kalloc.FreeList.{FreeList, kalloc-FreeList, taken}
use operating_system.Cow.Layout.{v2p, p2pg, pte_addr}
use operating_system.Cow.Memory.{update, Machine, page_of}
use operating_system.Cow.Share.{cow_handler, share_slot}
use operating_system.Cow.Share.Handler.{pte_slot, cow_handler_copies}
use operating_system.Cow.Share.Sharing.{Shareable}
use operating_system.Cow.Share.First.{new_slot, Firstly, share_first_then_write}
use operating_system.Cow.Share.Separate.{Split, share_then_write}
use operating_system.Cow.User.{countvp, count_pages, count_slot, copyout, copy_from}
use operating_system.Cow.Vm.{walkpgdir, uva2ka, slot_address, Slot, load}

abbrev directory : ℕ
directory = 0x80300000

abbrev machine : Machine
machine = record {
  mem =
      update
        (update (update (λ p i. 0) 768 (update (λ i. 0) 0 0x301007)) 769
          (update (λ i. 0) 1 0x302005))
        1024 (update (λ i. 0) 0 0x80401000);
  freelist = 0x80400000;
  refs = update (update (update (λ p. 0) 768 1) 769 1) 770 2;
  end = 0x80300000;
}

-- The same machine after one of the two processes has gone.
abbrev alone : Machine
alone = record machine { refs = update machine.refs 770 1 }

abbrev free : List ℕ
free = 0x80400000 ∷ 0x80401000 ∷ []

machine-FreeList : FreeList machine free
machine-FreeList = record {
  chain = (
    refl,
    record { aligned = refl; high = ground arith; low = ground arith; behind = ground arith },
    refl,
    (
      refl,
      record { aligned = refl; high = ground arith; low = ground arith; behind = ground arith },
      refl,
      refl,
    ),
  );
  distinct = ((λ e. ground arith, tt), (tt, tt));
}

alone-FreeList : FreeList alone free
alone-FreeList = record {
  chain = (
    refl,
    record { aligned = refl; high = ground arith; low = ground arith; behind = ground arith },
    refl,
    (
      refl,
      record { aligned = refl; high = ground arith; low = ground arith; behind = ground arith },
      refl,
      refl,
    ),
  );
  distinct = ((λ e. ground arith, tt), (tt, tt));
}

cow_handler_copies_example :
    (t : Machine) × (cow_handler 0x1000 directory machine ≡ ok (tt, t))
    × (load (pte_slot machine directory 0x1000) t ≡ v2p 0x80400000 + 7)
    × ((i : ℕ)
        → t.mem (page_of 0x80400000) i
          ≡ machine.mem (p2pg (pte_addr (load (pte_slot machine directory 0x1000) machine))) i)
    × ((i : ℕ)
        → t.mem (p2pg (pte_addr (load (pte_slot machine directory 0x1000) machine))) i
          ≡ machine.mem (p2pg (pte_addr (load (pte_slot machine directory 0x1000) machine))) i)
    × (t.refs (p2pg (pte_addr (load (pte_slot machine directory 0x1000) machine))) ≡ 0 + 1)
    × (t.refs (page_of 0x80400000) ≡ 1)
    × FreeList t (0x80401000 ∷ [])
cow_handler_copies_example =
    cow_handler_copies machine 0x1000 directory 0x80400000 0 (0x80401000 ∷ []) refl machine-FreeList
      (record {
        present = refl;
        inside = ground arith;
        table = λ e. ground arith;
        apart = λ e. ground arith;
      })
      refl (ground arith)

-- The first process maps page 770 at 0x1000, and the second one has a page table there.
abbrev forking : Machine
forking = record {
  mem =
      update
        (update
          (update (update (λ p i. 0) 768 (update (λ i. 0) 0 0x301007)) 769
            (update (λ i. 0) 1 0x302007))
          771 (update (λ i. 0) 0 0x304007))
        1024 (update (λ i. 0) 0 0x80401000);
  freelist = 0x80400000;
  refs = λ p. if leb 768 p && leb p 772 then 1 else 0;
  end = 0x80300000;
}

forking-FreeList : FreeList forking free
forking-FreeList = record {
  chain = (
    refl,
    record { aligned = refl; high = ground arith; low = ground arith; behind = ground arith },
    refl,
    (
      refl,
      record { aligned = refl; high = ground arith; low = ground arith; behind = ground arith },
      refl,
      refl,
    ),
  );
  distinct = ((λ e. ground arith, tt), (tt, tt));
}

abbrev entry : Slot
entry = record { page = 769; index = 1 }

forking-Shareable : Shareable forking entry 0x80303000 0x1000
forking-Shareable = record {
  aligned = refl;
  low = ground arith;
  present = refl;
  inside = ground arith;
  counted = ground arith;
  held = λ e. ground arith;
  table = refl;
  empty = refl;
  own = λ e. ground arith;
  parent_table = λ e. ground arith;
  child_table = λ e. ground arith;
  directory = λ e. ground arith;
  child_directory = λ e. ground arith;
  data_parent = λ e. ground arith;
  data_child = λ e. ground arith;
}

share_then_write_example :
    (t r : Machine) × (share_slot (some entry) 0x80303000 0x1000 forking ≡ ok (true, t))
    × (cow_handler 0x1000 0x80303000 t ≡ ok (tt, r))
    × Split forking r entry (pte_slot forking 0x80303000 0x1000) 0x80400000
    × FreeList r (0x80401000 ∷ [])
share_then_write_example =
    share_then_write forking entry 0x80303000 0x1000 0x80400000 0 (0x80401000 ∷ []) forking-FreeList
      forking-Shareable refl

-- The child has no page table for the addresses from 0x400000 on.
forking-Firstly : Firstly forking entry 0x80303000 0x400000
forking-Firstly = record {
  aligned = refl;
  low = ground arith;
  present = refl;
  inside = ground arith;
  counted = ground arith;
  held = λ e. ground arith;
  no_table = refl;
  parent_table = λ e. ground arith;
  child_directory = λ e. ground arith;
  directory = λ e. ground arith;
  data_parent = λ e. ground arith;
  data_directory = λ e. ground arith;
}

share_first_then_write_example :
    (t r : Machine) × (share_slot (some entry) 0x80303000 0x400000 forking ≡ ok (true, t))
    × (cow_handler 0x400000 0x80303000 t ≡ ok (tt, r))
    × Split forking r entry (new_slot 0x80400000 0x400000) 0x80401000
    × FreeList r []
share_first_then_write_example =
    share_first_then_write forking entry 0x80303000 0x400000 0x80400000 0x80401000 0 []
      forking-FreeList forking-Firstly refl

kalloc-FreeList_example :
    (kalloc machine ≡ ok (0x80400000, taken machine 0x80400000))
    × FreeList (taken machine 0x80400000) (0x80401000 ∷ [])
    × ((taken machine 0x80400000).refs (page_of 0x80400000) ≡ 1)
kalloc-FreeList_example = kalloc-FreeList machine 0x80400000 (0x80401000 ∷ []) machine-FreeList

kfree-FreeList_example :
    (t : Machine) × (kfree 0x80302000 alone ≡ ok (tt, t)) × FreeList t (0x80302000 ∷ free)
kfree-FreeList_example =
    kfree-FreeList alone 0x80302000 free alone-FreeList
      (record { aligned = refl; high = ground arith; low = ground arith; behind = ground arith })
      refl

kfree_shared_example :
    (kfree 0x80302000 machine ≡ ok (tt, dropped machine 0x80302000))
    × FreeList (dropped machine 0x80302000) free
    × ((dropped machine 0x80302000).refs (page_of 0x80302000) ≡ 0 + 1)
kfree_shared_example =
    kfree_shared machine 0x80302000 0 free machine-FreeList
      (record { aligned = refl; high = ground arith; low = ground arith; behind = ground arith })
      refl (ground arith)

freerange_faults_example : freerange 0x80300000 0x80400000 machine ≡ fault
freerange_faults_example =
    freerange_faults machine 0x80300000 0x80400000 (ground arith) (ground arith) (ground arith)

-- Of the two pages from address 0 on, the second one is mapped.
countvp_two : countvp directory 0x2000 machine ≡ ok (1, machine)
unfolding countvp count_pages count_slot walkpgdir
countvp_two = refl

copyout_unmapped : copyout directory 0x0 (7 ∷ []) machine ≡ ok (false, machine)
unfolding copyout copy_from uva2ka slot_address walkpgdir
copyout_unmapped = refl
