-- ===== src/Mlfq/Spinlock.antt =====
-- xv6-public_project02/spinlock.c, and the part of struct cpu (proc.h) that locks and the scheduler use.
-- One processor. The spin of `acquire` does not turn there: a lock that is taken is held by this
-- processor, and `acquire` panics before the loop.
pub mod Laws
use operating_system.Common.{
  ℕ, ◌+◌, ◌-◌, ◌≡◌, Bool, true, false, not, ◌&&◌, ◌||◌, Option, List, [], ◌∷◌, ◌==◌, if◌then◌else◌,
  M, pure, ◌>>=◌, ◌>>◌, get, modify, panic_if, when,
}

pub data Lock : Type 0 where
  ptable_lock tickslock gticklock : Lock
  other_lock : ℕ → Lock

abbrev pub eqb_Lock : Lock → Lock → Bool
eqb_Lock ptable_lock ptable_lock = true
eqb_Lock tickslock tickslock = true
eqb_Lock gticklock gticklock = true
eqb_Lock (other_lock a) (other_lock b) = a == b
eqb_Lock _ _ = false

-- `held` lists the locks whose `locked` is set, `interrupts` is the flag FL_IF, `proc` is an index of
-- the process table.
pub record Cpu : Type 0 where
  pub ncli : ℕ
  pub intena : Bool
  pub interrupts : Bool
  pub held : List Lock
  pub proc : Option ℕ

abbrev pub is_held : Lock → List Lock → Bool
is_held lk [] = false
is_held lk (l ∷ ls) = eqb_Lock l lk || is_held lk ls

abbrev pub unhold : Lock → List Lock → List Lock
unhold lk [] = []
unhold lk (l ∷ ls) = if eqb_Lock l lk then ls else l ∷ unhold lk ls

abbrev pub cli : Cpu → Cpu
cli c = record c { interrupts = false }

abbrev pub sti : Cpu → Cpu
sti c = record c { interrupts = true }

unfoldable pub pushcli : M Cpu (Unit {0})
pushcli = do
  modify (λ c. record c {
    interrupts = false;
    intena = if c.ncli == 0 then c.interrupts else c.intena;
    ncli = c.ncli + 1;
  })

unfoldable pub popcli : M Cpu (Unit {0})
popcli = do
  c ← get
  panic_if c.interrupts "popcli - interruptible"
  panic_if (c.ncli == 0) "popcli"
  modify (λ c. record c { ncli = c.ncli - 1 })
  when (c.ncli == 1 && c.intena) (modify sti)

unfoldable pub holding : Lock → M Cpu Bool
unfolding pushcli popcli
holding lk = do pushcli; c ← get; popcli; pure (is_held lk c.held)

unfoldable pub acquire : Lock → M Cpu (Unit {0})
unfolding pushcli holding
acquire lk = do
  pushcli
  h ← holding lk
  panic_if h "acquire"
  modify (λ c. record c { held = lk ∷ c.held })

unfoldable pub release : Lock → M Cpu (Unit {0})
unfolding popcli holding
release lk = do
  h ← holding lk
  panic_if (not h) "release"
  modify (λ c. record c { held = unhold lk c.held })
  popcli
