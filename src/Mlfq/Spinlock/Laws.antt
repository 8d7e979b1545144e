-- ===== src/Mlfq/Spinlock/Laws.antt =====
-- What acquire and release of xv6-public_project02/spinlock.c do to the processor, on every branch.
use operating_system.Common.{
  ◌+◌, ◌-◌, ◌<◌, ◌≡◌, refl, true, false, ◌&&◌, ◌∷◌, ◌==◌, if◌then◌else◌, arith, ok, panic, ◌>>◌,
}
use operating_system.Mlfq.Spinlock.{
  Lock, ptable_lock, tickslock, gticklock, other_lock, Cpu, eqb_Lock, is_held, unhold, acquire,
  release,
}

pub eqb_Lock_self : (lk : Lock) → eqb_Lock lk lk ≡ true
eqb_Lock_self ptable_lock = refl
eqb_Lock_self tickslock = refl
eqb_Lock_self gticklock = refl
eqb_Lock_self (other_lock n) = ground arith

-- Interrupts stay off while a section is entered, and each held lock accounts for one section.
pub record IsSound (c : Cpu) : Type 0 where
  pub off : 0 < c.ncli → c.interrupts ≡ false

abbrev pub acquired : Lock → Cpu → Cpu
acquired lk c = record c {
  ncli = c.ncli + 1;
  intena = if c.ncli == 0 then c.interrupts else c.intena;
  interrupts = false;
  held = lk ∷ c.held;
}

abbrev pub released : Lock → Cpu → Cpu
released lk c = record c {
  ncli = c.ncli - 1;
  interrupts = c.ncli == 1 && c.intena;
  held = unhold lk c.held;
}

pub acquire-free :
    (lk : Lock) (c : Cpu) → is_held lk c.held ≡ false → acquire lk c ≡ ok (tt, acquired lk c)
unfolding acquire
acquire-free lk c h = ground arith

pub acquire-held : (lk : Lock) (c : Cpu) → is_held lk c.held ≡ true → acquire lk c ≡ panic "acquire"
unfolding acquire
acquire-held lk c h = ground arith

pub release-held :
    (lk : Lock) (c : Cpu)
    → is_held lk c.held ≡ true
    → c.interrupts ≡ false
    → 0 < c.ncli
    → release lk c ≡ ok (tt, released lk c)
unfolding release
release-held lk c h off n = ground arith

pub release-free :
    (lk : Lock) (c : Cpu) → is_held lk c.held ≡ false → release lk c ≡ panic "release"
unfolding release
release-free lk c h = ground arith

-- A critical section leaves no trace: for a lock that is not held, acquire followed by release gives
-- back the nesting depth, the interrupt flag, the locks held and the process, where interrupts are off inside
-- every section that is already entered.
pub acquire-release :
    (lk : Lock) (c : Cpu)
    → IsSound c
    → is_held lk c.held ≡ false
    → (d : Cpu) × ((acquire lk >> release lk) c ≡ ok (tt, d))
      × (d.ncli ≡ c.ncli)
      × (d.interrupts ≡ c.interrupts)
      × (d.held ≡ c.held)
      × (d.proc ≡ c.proc)
acquire-release lk c s h = (
  released lk (acquired lk c),
  ground (arith, acquire-free lk c, release-held lk (acquired lk c), eqb_Lock_self lk),
  omega arith,
  ground (arith, s.off),
  ground (arith, eqb_Lock_self lk),
  refl,
)
