-- ===== src/Mlfq/Queue/Monopoly.antt =====
-- setmonopoly of xv6-public_project02/proc.c.
use operating_system.Common.{
  ℕ, zero, suc, ◌^◌, ◌<◌, ◌≡◌, ◌⊎◌, inl, inr, refl, sym, ap, Bool, true, false, not, Option, none,
  some, List, [], ◌∷◌, ◌==◌, if◌then◌else◌, set, length, ℤ, negsuc, eqb_ℤ, eqb_ℤ_iff, subst,
  some-injective, branch, inc_int, ok, panic, arith, Bool-cases,
}
use operating_system.Mlfq.Spinlock.{ptable_lock, acquire}
use operating_system.Mlfq.Spinlock.Laws.{
  acquired, released, acquire-free, acquire-held, release-held,
}
use operating_system.Mlfq.Level
use operating_system.Mlfq.Proc.{Proc, Kernel, Queues}
use operating_system.Mlfq.Switch.Laws.{Outside}
use operating_system.Mlfq.Queue.{
  Claim, refused, passed, claim, claimed, prepend, claim_in, finish_claim, setmonopoly,
  student_number,
}
use operating_system.Mlfq.Queue.Count.{in_moq, Counted, table_of, queues_of, claim_in-Counted}

-- The first entry with that pid.
abbrev pub first_match : ℤ → List Proc → Option Proc
first_match pid [] = none
first_match pid (p ∷ ps) = if eqb_ℤ p.pid pid then some p else first_match pid ps

-- No entry has that pid.
abbrev pub NoPid : ℤ → List Proc → Type 0
NoPid pid [] = Unit {0}
NoPid pid (p ∷ ps) = (eqb_ℤ p.pid pid ≡ false) × NoPid pid ps

claim_in_queued :
    (mine pid : ℤ) (found : Bool) (ps : List Proc) (q : Queues) (p : Proc)
    → first_match pid ps ≡ some p
    → p.qlev ≡ Level.moq
    → claim_in mine pid found ps q ≡ refused (negsuc 2) ps q
unfolding claim_in
claim_in_queued mine pid found [] q p e l = cc
claim_in_queued mine pid found (r ∷ ps) q p e l =
    ground (arith, claim_in_queued mine pid found ps q p)

self_here :
    (mine pid : ℤ) (found : Bool) (r : Proc) (ps : List Proc) (q : Queues)
    → eqb_ℤ r.pid pid ≡ true
    → in_moq r ≡ false
    → eqb_ℤ mine r.pid ≡ true
    → claim_in mine pid found (r ∷ ps) q ≡ refused (negsuc 3) (r ∷ ps) q
unfolding claim_in
self_here mine pid found r ps q hit l m = rw (hit, l, m) refl

claim_in_self :
    (mine pid : ℤ) (found : Bool) (ps : List Proc) (q : Queues) (p : Proc)
    → first_match pid ps ≡ some p
    → in_moq p ≡ false
    → eqb_ℤ mine p.pid ≡ true
    → claim_in mine pid found ps q ≡ refused (negsuc 3) ps q
unfolding claim_in
claim_in_self mine pid found [] q p e l m = cc
claim_in_self mine pid found (r ∷ ps) q p e l m = elim (Bool-cases (eqb_ℤ r.pid pid)) [
  | inl hit ↦
      let same : p ≡ r = sym (some-injective r p (rw hit at e)) in
      self_here mine pid found r ps q hit (subst (λ x. in_moq x ≡ false) same l)
        (subst (λ (x : Proc). eqb_ℤ mine x.pid ≡ true) same m)
  | inr miss ↦ rw miss (ap (prepend r) (claim_in_self mine pid found ps q p (rw miss at e) l m))
]

first_match-pid : (pid : ℤ) (ps : List Proc) (p : Proc) → first_match pid ps ≡ some p → p.pid ≡ pid
first_match-pid pid [] p e = cc
first_match-pid pid (r ∷ ps) p e = ground (arith, eqb_ℤ_iff r.pid pid, first_match-pid pid ps p)

claim_in-NoPid :
    (mine pid : ℤ) (found : Bool) (ps : List Proc) (q : Queues)
    → NoPid pid ps
    → claim_in mine pid found ps q ≡ passed found ps q
unfolding claim_in
claim_in-NoPid mine pid found [] q h = refl
claim_in-NoPid mine pid found (r ∷ ps) q h = ground (arith, claim_in-NoPid mine pid found ps q h.1)

abbrev pub locked : Kernel → Kernel
locked k = record k { cpu = acquired ptable_lock k.cpu }

setmonopoly_lem :
    (k : Kernel) (i : ℕ) (me : Proc) (pid : ℤ)
    → Outside k i me
    → setmonopoly pid student_number k
      ≡ finish_claim (claim_in me.pid pid false k.procs k.queues) (locked k)
unfolding setmonopoly
setmonopoly_lem k i me pid o = ground (arith, o.current, o.entry, acquire-free ptable_lock k.cpu)

-- A defect: setmonopoly, called with the right password outside every critical section for a process
-- that is already in the monopoly queue, or for the calling process, returns -3 or -4 with
-- ptable.lock still held and nothing else changed. The next acquire of that lock panics.
pub setmonopoly_keeps_lock :
    (k : Kernel) (i : ℕ) (me p : Proc) (pid : ℤ)
    → Outside k i me
    → first_match pid k.procs ≡ some p
    → (p.qlev ≡ Level.moq) ⊎ (pid ≡ me.pid)
    → (setmonopoly pid student_number k
        ≡ ok (if p.qlev == Level.moq then negsuc 2 else negsuc 3, locked k))
      × (acquire ptable_lock (locked k).cpu ≡ panic "acquire")
unfolding finish_claim
setmonopoly_keeps_lock k i me p pid o e h = elim (Bool-cases (in_moq p)) [
  | inl l ↦ (
    rw
        (
          setmonopoly_lem k i me pid o,
          claim_in_queued me.pid pid false k.procs k.queues p e (ground arith),
          l,
        )
        refl,
    acquire-held ptable_lock (acquired ptable_lock k.cpu) refl,
  )
  | inr l ↦
      let mine : eqb_ℤ me.pid p.pid ≡ true =
        ground (arith, eqb_ℤ_iff me.pid p.pid, first_match-pid pid k.procs p) in
      (
        rw
            (
              setmonopoly_lem k i me pid o,
              claim_in_self me.pid pid false k.procs k.queues p e l mine,
              l,
            )
            refl,
        acquire-held ptable_lock (acquired ptable_lock k.cpu) refl,
      )
]

-- The end of setmonopoly keeps the counts that the loop has made.
finish_claim-Counted :
    (k : Kernel) (s : Claim)
    → Counted (table_of s) (queues_of s)
    → (n : ℤ) × (r : Kernel) × (finish_claim s (locked k) ≡ ok (n, r)) × Counted r.procs r.queues
unfolding finish_claim
finish_claim-Counted k (refused n ps q) c =
    (n, record (locked k) { procs = ps; queues = q }, refl, c)
finish_claim-Counted k (passed found ps q) c = (
  if found then q.moq_sz else negsuc 0,
  record k { cpu = released ptable_lock (acquired ptable_lock k.cpu); procs = ps; queues = q },
  ground (arith, release-held ptable_lock (acquired ptable_lock k.cpu)),
  c,
)

setmonopoly_password :
    (k : Kernel) (pid password : ℤ)
    → eqb_ℤ password student_number ≡ false
    → setmonopoly pid password k ≡ ok (negsuc 1, k)
unfolding setmonopoly
setmonopoly_password k pid password h = rw (h, branch, not) refl

-- setmonopoly keeps MoQ_sz equal to the number of table entries in the monopoly queue, on each of its
-- returns, where it is called outside every critical section and the table has fewer than 2 ^ 31
-- entries. It always returns.
pub setmonopoly-Counted :
    (k : Kernel) (i : ℕ) (me : Proc) (pid password : ℤ)
    → Outside k i me
    → Counted k.procs k.queues
    → length k.procs < 2 ^ 31
    → (n : ℤ) × (r : Kernel) × (setmonopoly pid password k ≡ ok (n, r)) × Counted r.procs r.queues
setmonopoly-Counted k i me pid password o c h = elim (Bool-cases (eqb_ℤ password student_number)) [
  | inl right ↦
      let same : password ≡ student_number = (eqb_ℤ_iff password student_number).0 right in
      let s : Claim = claim_in me.pid pid false k.procs k.queues in
      let counted : Counted (table_of s) (queues_of s) =
        ground (arith, c, claim_in-Counted me.pid pid false k.procs k.queues 0) in
      rw (same, setmonopoly_lem k i me pid o) (finish_claim-Counted k s counted)
  | inr wrong ↦ (negsuc 1, k, setmonopoly_password k pid password wrong, c)
]

-- `p` at index `j` is the only entry with that pid.
abbrev pub OnlyAt : ℤ → List Proc → ℕ → Proc → Type 0
OnlyAt pid [] j p = ⊥
OnlyAt pid (r ∷ ps) zero p = (r ≡ p) × (eqb_ℤ p.pid pid ≡ true) × NoPid pid ps
OnlyAt pid (r ∷ ps) (suc j) p = (eqb_ℤ r.pid pid ≡ false) × OnlyAt pid ps j p

claim_in-OnlyAt :
    (mine pid : ℤ) (ps : List Proc) (q : Queues) (j : ℕ) (p : Proc)
    → OnlyAt pid ps j p
    → in_moq p ≡ false
    → eqb_ℤ mine p.pid ≡ false
    → claim_in mine pid false ps q ≡ passed true (set ps j (claim p q)) (claimed q)
unfolding claim_in
claim_in-OnlyAt mine pid [] q j p h l m = absurd h
claim_in-OnlyAt mine pid (r ∷ ps) q zero p (e, hit, rest) l m =
    rw (e, hit, l, m) (ap (prepend (claim p q)) (claim_in-NoPid mine pid true ps (claimed q) rest))
claim_in-OnlyAt mine pid (r ∷ ps) q (suc j) p (miss, rest) l m =
    rw miss (ap (prepend r) (claim_in-OnlyAt mine pid ps q j p rest l m))

-- setmonopoly, called with the right password outside every critical section for a process other
-- than the caller, whose pid no other entry has and which is not in the monopoly queue, moves it
-- there under the next number of that queue, whatever its state, raises MoQ_sz and MoQ_cnt by one,
-- gives ptable.lock back and returns the new MoQ_sz. No other entry changes.
pub setmonopoly_moves :
    (k : Kernel) (i : ℕ) (me : Proc) (pid : ℤ) (j : ℕ) (p : Proc)
    → Outside k i me
    → OnlyAt pid k.procs j p
    → in_moq p ≡ false
    → eqb_ℤ me.pid p.pid ≡ false
    → setmonopoly pid student_number k
      ≡ ok (
        inc_int k.queues.moq_sz,
        record k {
          cpu = released ptable_lock (acquired ptable_lock k.cpu);
          procs = set k.procs j (record p { qlev = Level.moq; seq = k.queues.moq_cnt });
          queues = record (k.queues) {
            moq_cnt = inc_int k.queues.moq_cnt;
            moq_sz = inc_int k.queues.moq_sz;
          };
        },
      )
unfolding finish_claim claim claimed
setmonopoly_moves k i me pid j p o h l m = ground (
  arith,
  setmonopoly_lem k i me pid o,
  claim_in-OnlyAt me.pid pid k.procs k.queues j p h l m,
  release-held ptable_lock (acquired ptable_lock k.cpu),
)
