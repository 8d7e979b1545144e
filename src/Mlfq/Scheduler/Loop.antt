-- ===== src/Mlfq/Scheduler/Loop.antt =====
-- The scheduler's loop over the table computes the best runnable process of the mode in force.
use operating_system.Common.{
  ℕ, ◌+◌, ◌≡◌, refl, Bool, true, false, ◌&&◌, Option, none, some, List, [], ◌∷◌, ◌==◌, ℤ, pos,
  ltb_ℤ, eqb_ℤ, arith,
}
use operating_system.Mlfq.Level
use operating_system.Mlfq.Proc.{
  Proc, Procstate, unused, embryo, sleeping, runnable, running, zombie, eqb_Procstate,
}
use operating_system.Mlfq.Scheduler.{Cand, replaces, scan, no_scan}
use operating_system.Mlfq.Scheduler.Order.{replaces_trans, replaces_fails, replaces_irrefl}
use operating_system.Mlfq.Scheduler.Best.{StrictWeak, advance, pick, best}

abbrev pub is_ready : Proc → Bool
is_ready p = eqb_Procstate p.state runnable

-- A runnable process of the monopoly queue.
abbrev pub is_monopolist : Proc → Bool
is_monopolist p = is_ready p && (p.qlev == Level.moq)

abbrev pub later_turn : Proc → Proc → Bool
later_turn b p = ltb_ℤ p.seq b.seq

pub ready_state : (s : Procstate) → eqb_Procstate s runnable ≡ true → s ≡ runnable
ready_state runnable h = refl
ready_state unused h = cc
ready_state embryo h = cc
ready_state sleeping h = cc
ready_state running h = cc
ready_state zombie h = cc

pub replaces-StrictWeak : StrictWeak replaces
replaces-StrictWeak = record {
  irrefl = replaces_irrefl;
  trans = replaces_trans;
  fails = replaces_fails;
}

pub later_turn-StrictWeak : StrictWeak later_turn
later_turn-StrictWeak = record {
  irrefl = λ a. ground arith;
  trans = λ a b c h k. ground arith;
  fails = λ a b c h k. ground arith;
}

-- With the monopoly mode off the loop visits every process.
scan_feedback_some :
    (sz : ℤ) (i : ℕ) (ps : List Proc) (b : Cand) (m : Option Cand)
    → scan false sz i ps (record { scheduled = some b; monopolist = m })
      ≡ record { scheduled = some (pick replaces is_ready i ps b); monopolist = m }
unfolding scan pick advance
scan_feedback_some sz i [] b m = refl
scan_feedback_some sz i (p ∷ ps) b m = ground (
  arith,
  scan_feedback_some sz (i + 1) ps b m,
  scan_feedback_some sz (i + 1) ps (record { slot = i; proc = p }) m,
)

pub scan_feedback :
    (sz : ℤ) (i : ℕ) (ps : List Proc)
    → scan false sz i ps no_scan
      ≡ record { scheduled = best replaces is_ready i ps; monopolist = none }
unfolding scan best
scan_feedback sz i [] = refl
scan_feedback sz i (p ∷ ps) = ground (
  arith,
  scan_feedback sz (i + 1) ps,
  scan_feedback_some sz (i + 1) ps (record { slot = i; proc = p }) none,
)

-- With the mode on and its queue not empty the loop visits every process too.
scan_monopoly_some :
    (sz : ℤ) (i : ℕ) (ps : List Proc) (b : Cand) (s : Option Cand)
    → eqb_ℤ sz (pos 0) ≡ false
    → scan true sz i ps (record { scheduled = s; monopolist = some b })
      ≡ record { scheduled = s; monopolist = some (pick later_turn is_monopolist i ps b) }
unfolding scan pick advance
scan_monopoly_some sz i [] b s z = refl
scan_monopoly_some sz i (p ∷ ps) b s z = ground (
  arith,
  scan_monopoly_some sz (i + 1) ps b s z,
  scan_monopoly_some sz (i + 1) ps (record { slot = i; proc = p }) s z,
)

pub scan_monopoly :
    (sz : ℤ) (i : ℕ) (ps : List Proc)
    → eqb_ℤ sz (pos 0) ≡ false
    → scan true sz i ps no_scan
      ≡ record { scheduled = none; monopolist = best later_turn is_monopolist i ps }
unfolding scan best
scan_monopoly sz i [] z = refl
scan_monopoly sz i (p ∷ ps) z = ground (
  arith,
  scan_monopoly sz (i + 1) ps z,
  scan_monopoly_some sz (i + 1) ps (record { slot = i; proc = p }) none z,
)

-- With the mode on and an empty queue the loop finds nobody: it breaks off at the first runnable
-- process.
pub scan_empty : (i : ℕ) (ps : List Proc) → scan true (pos 0) i ps no_scan ≡ no_scan
unfolding scan
scan_empty i [] = refl
scan_empty i (p ∷ ps) = ground (arith, scan_empty (i + 1) ps)
