-- ===== src/Cow/Memory.antt =====
-- The physical memory of the machine under xv6-public_project04, in pages of 1024 words, and the
-- variables of kalloc.c. A pointer of the kernel is its virtual address, and 0 is null.
use operating_system.Common.{ℕ, M}
use operating_system.Cow.Layout.{v2p, p2pg, phystop}
pub use operating_system.Common.{update}

-- `mem p i` is word `i` of physical page `p`; `refs p` is the word pgRef.pgRef[p]; `end` is the
-- address that the linker script puts behind the kernel.
pub record Machine : Type 0 where
  pub mem : ℕ → ℕ → ℕ
  pub freelist : ℕ
  pub refs : ℕ → ℕ
  pub end : ℕ

abbrev pub Mach : Type 0 → Type 0
Mach = M Machine

-- The number of entries of pgRef.pgRef.
abbrev pub n_refs : ℕ
n_refs = p2pg phystop

-- The physical page behind a pointer of the kernel.
abbrev pub page_of : ℕ → ℕ
page_of v = p2pg (v2p v)

abbrev pub write_word : ℕ → ℕ → ℕ → Machine → Machine
write_word p i w s = record s { mem = update s.mem p (update (s.mem p) i w) }

-- memset of a whole page, with each word `w`.
abbrev pub fill_page : ℕ → ℕ → Machine → Machine
fill_page p w s = record s { mem = update s.mem p (λ i. w) }

-- memmove of a whole page.
abbrev pub copy_page : ℕ → ℕ → Machine → Machine
copy_page p q s = record s { mem = update s.mem p (s.mem q) }
