-- ===== src/Mlfq/Scheduler/Order.antt =====
-- The order in which the feedback queues serve processes, and the test of the scheduler's loop.
use operating_system.Common.{◌<◌, ◌≡◌, ◌≢◌, ◌⊎◌, ◌↔◌, true, false, ◌<ℤ◌, eqb_ℤ_iff, inl, inr, arith}
use operating_system.Mlfq.Level
use operating_system.Mlfq.Proc.{Proc}
use operating_system.Mlfq.Scheduler.{replaces}

-- `p` is served before `q`: its level is lower; or both stand in L3 and its priority is higher, or
-- that is equal and its sequence number smaller; or both stand in one other level and its sequence
-- number is smaller.
pub data Precedes (p q : Proc) : Type 0 where
  by_level : p.qlev < q.qlev → Precedes p q
  by_priority : p.qlev ≡ q.qlev → p.qlev ≡ Level.l3 → q.priority <ℤ p.priority → Precedes p q
  by_turn_l3 :
      p.qlev ≡ q.qlev → p.qlev ≡ Level.l3 → p.priority ≡ q.priority → p.seq <ℤ q.seq → Precedes p q
  by_turn : p.qlev ≡ q.qlev → p.qlev ≢ Level.l3 → p.seq <ℤ q.seq → Precedes p q

replaces_of_Precedes : (b p : Proc) → Precedes p b → replaces b p ≡ true
unfolding replaces
replaces_of_Precedes b p (by_level h) = ground arith
replaces_of_Precedes b p (by_priority e l h) = ground arith
replaces_of_Precedes b p (by_turn_l3 e l f h) = ground (arith, eqb_ℤ_iff b.priority p.priority)
replaces_of_Precedes b p (by_turn e l h) = ground arith

abbrev Reasons : Proc → Proc → Type 0
Reasons p q =
    (p.qlev < q.qlev)
    ⊎ ((p.qlev ≡ q.qlev) × (p.qlev ≡ Level.l3) × (q.priority <ℤ p.priority))
    ⊎ ((p.qlev ≡ q.qlev) × (p.qlev ≡ Level.l3) × (p.priority ≡ q.priority) × (p.seq <ℤ q.seq))
    ⊎ ((p.qlev ≡ q.qlev) × (p.qlev ≢ Level.l3) × (p.seq <ℤ q.seq))

replaces-Reasons : (b p : Proc) → replaces b p ≡ true → Reasons p b
unfolding replaces
replaces-Reasons b p h = ground (arith, eqb_ℤ_iff b.priority p.priority)

-- The test by which the scheduler's loop replaces its candidate `b` by `p` decides the order of the
-- feedback queues: `p` stands at a lower level; or both stand in L3 and `p` has the higher priority, or
-- the same priority and the smaller sequence number; or both stand in the same other level and `p` has
-- the smaller sequence number.
pub replaces_iff : (b p : Proc) → (replaces b p ≡ true) ↔ Precedes p b
replaces_iff b p = (
  λ h. elim (replaces-Reasons b p h) [
    | inl l ↦ by_level l
    | inr (inl (e, l, h)) ↦ by_priority e l h
    | inr (inr (inl (e, l, f, h))) ↦ by_turn_l3 e l f h
    | inr (inr (inr (e, l, h))) ↦ by_turn e l h
  ],
  replaces_of_Precedes b p,
)

-- The test is transitive, and so is its failure: it is a strict weak order.
pub replaces_trans :
    (a b c : Proc) → replaces a b ≡ true → replaces b c ≡ true → replaces a c ≡ true
unfolding replaces
replaces_trans a b c h k = ground arith

pub replaces_fails :
    (a b c : Proc) → replaces a b ≡ false → replaces b c ≡ false → replaces a c ≡ false
unfolding replaces
replaces_fails a b c h k = ground arith

pub replaces_irrefl : (p : Proc) → replaces p p ≡ false
unfolding replaces
replaces_irrefl p = ground arith
