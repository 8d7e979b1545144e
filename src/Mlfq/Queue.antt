-- ===== src/Mlfq/Queue.antt =====
-- xv6-public_project02/proc.c, from priority_boost on: the system calls and helpers of the queues.
pub mod Count
pub mod Monopoly
pub mod Boost
use operating_system.Common.{
  ℕ, suc, Bool, true, false, not, Option, none, some, List, [], ◌∷◌, ◌==◌, if◌then◌else◌, map, ℤ,
  pos, negsuc, eqb_ℤ, ltb_ℤ, inc_int, ◌||◌, pure, ok, ◌>>=◌, ◌>>◌, get, modify, branch,
}
use operating_system.Mlfq.Spinlock.{ptable_lock}
use operating_system.Mlfq.Level
use operating_system.Mlfq.Proc.{Proc, Kern, Queues, proc_at, put_proc, lock, unlock, myproc}

unfoldable pub boost_proc : Proc → Proc
boost_proc p = if p.qlev == Level.moq then p else record p { qlev = Level.l0; tick = pos 0 }

-- The loop's effect on ptable.L0_cnt.
unfoldable pub boost_count : List Proc → ℤ → ℤ
unfolding inc_int
boost_count [] n = n
boost_count (p ∷ ps) n = boost_count ps (if p.qlev == Level.moq then n else inc_int n)

unfoldable pub priority_boost : Kern (Unit {0})
unfolding boost_proc boost_count
priority_boost = do
  lock ptable_lock
  modify (λ k. record k {
    procs = map boost_proc k.procs;
    queues = record (k.queues) { l0_cnt = boost_count k.procs k.queues.l0_cnt };
  })
  unlock ptable_lock

unfoldable pub getlev : Kern ℕ
unfolding myproc
getlev = do i ← myproc; p ← proc_at i; pure (if p.qlev == Level.moq then 99 else p.qlev)

-- The index of the first process with that pid, from index `i` on.
unfoldable pub find_pid : ℤ → ℕ → List Proc → Option ℕ
find_pid pid i [] = none
find_pid pid i (p ∷ ps) = if eqb_ℤ p.pid pid then some i else find_pid pid (suc i) ps

unfoldable pub store_priority : ℤ → Option ℕ → Kern ℤ
store_priority n none = pure (negsuc 0)
store_priority n (some i) = do p ← proc_at i; put_proc i (record p { priority = n }); pure (pos 0)

unfoldable pub setpriority : ℤ → ℤ → Kern ℤ
unfolding find_pid store_priority
setpriority pid priority =
    branch (ltb_ℤ priority (pos 0) || ltb_ℤ (pos 10) priority) (pure (negsuc 1)) (do
      lock ptable_lock
      k ← get
      unlock ptable_lock
      store_priority priority (find_pid pid 0 k.procs))

abbrev pub student_number : ℤ
student_number = pos 2021042842

-- How the loop of setmonopoly ends: by one of its returns, which keep ptable.lock, or behind the
-- last process, with what `target_proc` tells.
pub data Claim : Type 0 where
  refused : ℤ → List Proc → Queues → Claim
  passed : Bool → List Proc → Queues → Claim

unfoldable pub claim : Proc → Queues → Proc
claim p q = record p { qlev = Level.moq; seq = q.moq_cnt }

unfoldable pub claimed : Queues → Queues
unfolding inc_int
claimed q = record q { moq_cnt = inc_int q.moq_cnt; moq_sz = inc_int q.moq_sz }

abbrev pub prepend : Proc → Claim → Claim
prepend p (refused r ps q) = refused r (p ∷ ps) q
prepend p (passed b ps q) = passed b (p ∷ ps) q

-- The loop, over the rest of the table; `mine` is the pid of the caller.
unfoldable pub claim_in : ℤ → ℤ → Bool → List Proc → Queues → Claim
unfolding claim claimed
claim_in mine pid found [] q = passed found [] q
claim_in mine pid found (p ∷ ps) q =
    let hit = prepend (claim p q) (claim_in mine pid true ps (claimed q)) in
    let miss = prepend p (claim_in mine pid found ps q) in
    if eqb_ℤ p.pid pid
    then (if p.qlev == Level.moq
        then refused (negsuc 2) (p ∷ ps) q
        else if eqb_ℤ mine p.pid
        then refused (negsuc 3) (p ∷ ps) q
        else hit)
    else miss

unfoldable pub finish_claim : Claim → Kern ℤ
finish_claim (refused r ps q) = do modify (λ k. record k { procs = ps; queues = q }); pure r
finish_claim (passed found ps q) = do
  modify (λ k. record k { procs = ps; queues = q })
  unlock ptable_lock
  pure (if found then q.moq_sz else negsuc 0)

-- The code reads the caller's pid only where it compares it; the table's entry of the caller does not
-- change before.
unfoldable pub setmonopoly : ℤ → ℤ → Kern ℤ
unfolding claim_in finish_claim myproc
setmonopoly pid password = branch (not (eqb_ℤ password student_number)) (pure (negsuc 1)) (do
  lock ptable_lock
  i ← myproc
  p ← proc_at i
  k ← get
  finish_claim (claim_in p.pid pid false k.procs k.queues))

unfoldable pub inc_levcnt : ℤ → Queues → Queues
unfolding inc_int
inc_levcnt lev q =
    if eqb_ℤ lev (pos 0)
    then record q { l0_cnt = inc_int q.l0_cnt }
    else if eqb_ℤ lev (pos 1)
    then record q { l1_cnt = inc_int q.l1_cnt }
    else if eqb_ℤ lev (pos 2)
    then record q { l2_cnt = inc_int q.l2_cnt }
    else if eqb_ℤ lev (pos 3)
    then record q { l3_cnt = inc_int q.l3_cnt }
    else if eqb_ℤ lev (pos 4)
    then record q { moq_cnt = inc_int q.moq_cnt }
    else q

unfoldable pub get_levcnt : ℤ → Queues → ℤ
get_levcnt lev q =
    if eqb_ℤ lev (pos 0)
    then q.l0_cnt
    else if eqb_ℤ lev (pos 1)
    then q.l1_cnt
    else if eqb_ℤ lev (pos 2)
    then q.l2_cnt
    else if eqb_ℤ lev (pos 3)
    then q.l3_cnt
    else if eqb_ℤ lev (pos 4)
    then q.moq_cnt
    else negsuc 0

unfoldable pub get_moq_active : Kern Bool
get_moq_active k = ok (k.queues.moq_active, k)
