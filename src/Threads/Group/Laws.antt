-- ===== src/Threads/Group/Laws.antt =====
-- set_proc_state of xv6-public_project03/proc.c against the states of the threads.
use operating_system.Common.{
  ◌+◌, ◌≡◌, refl, Bool, true, false, not, ◌||◌, List, [], ◌∷◌, ◌==◌, if◌then◌else◌, inl, inr, arith,
  Bool-cases,
}
use operating_system.Mlfq.Proc.{
  Procstate, unused, embryo, sleeping, runnable, running, zombie, eqb_Procstate,
}
use operating_system.Threads.State.{Pthread, Process}
use operating_system.Threads.Group.{Tally, no_tally, count_state, tally, decide, set_proc_state}

-- Some thread has that state.
abbrev pub has : Procstate → List Pthread → Bool
has s [] = false
has s (th ∷ ths) = eqb_Procstate th.state s || has s ths

-- The state of a process, from the states of its threads.
abbrev pub group_state : List Pthread → Procstate
group_state ths =
    if has running ths
    then running
    else if has runnable ths
    then runnable
    else if has sleeping ths
    then sleeping
    else if has zombie ths
    then zombie
    else unused

tally_running :
    (ths : List Pthread) (c : Tally) → has running ths ≡ true → (tally ths c).has_running ≡ true
unfolding tally
tally_running [] c h = absurd (cc)
tally_running (th ∷ ths) c h = ground (arith, tally_running ths (count_state th.state c))

-- The counters of states behind one more thread, which does not run.
count_state_lem :
    (s : Procstate) (c : Tally)
    → ((count_state s c).has_running ≡ c.has_running)
      × ((count_state s c).n_runnable ≡ c.n_runnable + (if eqb_Procstate s runnable then 1 else 0))
      × ((count_state s c).n_sleeping ≡ c.n_sleeping + (if eqb_Procstate s sleeping then 1 else 0))
      × ((count_state s c).n_zombie ≡ c.n_zombie + (if eqb_Procstate s zombie then 1 else 0))
count_state_lem unused c = ground arith
count_state_lem embryo c = ground arith
count_state_lem sleeping c = ground arith
count_state_lem runnable c = ground arith
count_state_lem running c = ground arith
count_state_lem zombie c = ground arith

tally_others :
    (ths : List Pthread) (c : Tally)
    → has running ths ≡ false
    → ((tally ths c).has_running ≡ c.has_running)
      × (((tally ths c).n_runnable == 0) ≡ not (not (c.n_runnable == 0) || has runnable ths))
      × (((tally ths c).n_sleeping == 0) ≡ not (not (c.n_sleeping == 0) || has sleeping ths))
      × (((tally ths c).n_zombie == 0) ≡ not (not (c.n_zombie == 0) || has zombie ths))
unfolding tally
tally_others [] c h = ground arith
tally_others (th ∷ ths) c h =
    ground (arith, tally_others ths (count_state th.state c), count_state_lem th.state c)

decide-tally : (ths : List Pthread) → decide (tally ths no_tally) ≡ group_state ths
decide-tally ths = elim (Bool-cases (has running ths)) [
  | inl h ↦ ground (arith, tally_running ths no_tally h)
  | inr h ↦ ground (arith, tally_others ths no_tally h)
]

-- set_proc_state gives a process the state running if one of its threads runs, else runnable if one is
-- runnable, else sleeping if one sleeps, else zombie if one is a zombie, else unused; it changes
-- nothing else of the process.
pub set_proc_state-group_state :
    (p : Process) → set_proc_state p ≡ record p { state = group_state p.pth }
unfolding set_proc_state
set_proc_state-group_state p = rw (decide-tally p.pth) refl
