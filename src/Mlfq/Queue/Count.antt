-- ===== src/Mlfq/Queue/Count.antt =====
-- The counter MoQ_sz against the number of processes that stand in the monopoly queue.
use operating_system.Common.{
  ℕ, ◌+◌, ◌^◌, ◌<◌, ◌≡◌, refl, Bool, true, List, [], ◌∷◌, ◌==◌, if◌then◌else◌, count, count-le,
  length, ℤ, pos, inc_int, arith,
}
use operating_system.Mlfq.Level
use operating_system.Mlfq.Proc.{Proc, Queues}
use operating_system.Mlfq.Queue.{Claim, refused, passed, claim, claimed, claim_in, prepend}

abbrev pub in_moq : Proc → Bool
in_moq p = p.qlev == Level.moq

-- MoQ_sz is the number of table entries in the monopoly queue.
abbrev pub Counted : List Proc → Queues → Type 0
Counted ps q = q.moq_sz ≡ pos (count in_moq ps)

abbrev pub table_of : Claim → List Proc
table_of (refused r ps q) = ps
table_of (passed b ps q) = ps

abbrev pub queues_of : Claim → Queues
queues_of (refused r ps q) = q
queues_of (passed b ps q) = q

pub prepend-table_of : (p : Proc) (c : Claim) → table_of (prepend p c) ≡ p ∷ table_of c
prepend-table_of p (refused r ps q) = refl
prepend-table_of p (passed b ps q) = refl

pub prepend-queues_of : (p : Proc) (c : Claim) → queues_of (prepend p c) ≡ queues_of c
prepend-queues_of p (refused r ps q) = refl
prepend-queues_of p (passed b ps q) = refl

-- The loop of setmonopoly keeps the difference between MoQ_sz and the number of entries in the queue,
-- also where it stops early.
pub claim_in-Counted :
    (mine pid : ℤ) (found : Bool) (ps : List Proc) (q : Queues) (n : ℕ)
    → q.moq_sz ≡ pos (n + count in_moq ps)
    → n + length ps < 2 ^ 31
    → (queues_of (claim_in mine pid found ps q)).moq_sz
      ≡ pos (n + count in_moq (table_of (claim_in mine pid found ps q)))
unfolding claim_in inc_int
claim_in-Counted mine pid found [] q n e h = e
claim_in-Counted mine pid found (p ∷ ps) q n e h = ground (
  arith,
  count-le in_moq ps,
  claim_in-Counted mine pid true ps (claimed q) (n + 1),
  claim_in-Counted mine pid found ps q (n + (if in_moq p then 1 else 0)),
  prepend-table_of (claim p q) (claim_in mine pid true ps (claimed q)),
  prepend-queues_of (claim p q) (claim_in mine pid true ps (claimed q)),
  prepend-table_of p (claim_in mine pid found ps q),
  prepend-queues_of p (claim_in mine pid found ps q),
)
