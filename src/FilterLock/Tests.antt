-- ===== src/FilterLock/Tests.antt =====
-- Two threads that increment once each, in one schedule, and the theorems on it.
use operating_system.Common.{
  ℕ, zero, suc, ◌*◌, ◌≡◌, inl, refl, true, false, List, [], ◌∷◌, ◌++◌, replicate, arith,
}
use operating_system.FilterLock.{done, run, start, act, in_critical}
use operating_system.FilterLock.Invariant.{start-Inv, run-Inv}
use operating_system.FilterLock.Exclusion.{exclusion}
use operating_system.FilterLock.Counter.{shared_total}
use operating_system.FilterLock.Progress.{no_deadlock}

-- The threads take turns up to the test of the second, which then waits for the first.
abbrev schedule : List ℕ
schedule = 0 ∷ 1 ∷ 0 ∷ 1 ∷ 1 ∷ 1 ∷ 1 ∷ 0 ∷ 0 ∷ 0 ∷ 0 ∷ []

abbrev whole_schedule : List ℕ
whole_schedule = schedule ++ (replicate 9 0 ++ replicate 12 1)

first_inside : in_critical ((run 2 1 schedule (start 2)).pc 0) ≡ true
unfolding run act
first_inside = refl

whole_done : (t : ℕ) → (run 2 1 whole_schedule (start 2)).pc t ≡ done
unfolding run act
whole_done zero = refl
whole_done (suc zero) = refl
whole_done (suc (suc t)) =
    (run-Inv 2 1 whole_schedule (start 2) (start-Inv 2)).absent (suc (suc t)) (omega arith)

exclusion_example : in_critical ((run 2 1 schedule (start 2)).pc 1) ≡ false
exclusion_example = exclusion 2 1 schedule 0 1 (λ e. omega arith) first_inside

shared_total_example : (run 2 1 whole_schedule (start 2)).shared ≡ 2 * 1
shared_total_example = shared_total 2 1 whole_schedule (λ t l. whole_done t)

no_deadlock_example : (run 2 1 whole_schedule (start 2)).pc 1 ≡ done
no_deadlock_example = no_deadlock 2 1 whole_schedule (λ t. inl (whole_done t)) 1
