-- ===== src/FilterLock/Progress.antt =====
-- The lock does not deadlock.
use operating_system.Common.{
  ℕ, zero, suc, ◌+◌, ◌<◌, ◌≤◌, ◌≡◌, ◌≢◌, ◌⊎◌, inl, inr, refl, sym, ap, ◌∙◌, Bool, true, false, not,
  ◌&&◌, List, ◌==◌, ltb, leb, arith, Bool-cases,
}
use operating_system.FilterLock.{
  Pc, set_flag, set_turn, wait, wait_turn, critical, store, unlocking, done, State, act, start, run,
}
use operating_system.FilterLock.Invariant.{flag_of, Inv, start-Inv, run-Inv}

-- The test of another thread fails: its flag is not below the thread's own, and `turn` is still the
-- thread's own.
abbrev pub fails : ℕ → ℕ → ℕ → ℕ → State → Bool
fails n tid i o s =
    not (leb n o) && (not (o == tid) && (not (ltb (s.flag o) (s.flag tid)) && s.turn i == tid))

abbrev pub spins_at : ℕ → ℕ → Pc → State → Bool
spins_at n tid (wait i o) s = fails n tid i o s
spins_at n tid (wait_turn i o) s = fails n tid i o s
spins_at n tid (set_flag i) s = false
spins_at n tid (set_turn i) s = false
spins_at n tid (critical j) s = false
spins_at n tid (store j r) s = false
spins_at n tid unlocking s = false
spins_at n tid done s = false

-- The thread spins: as long as the others stand still, it makes the same test again and again.
abbrev pub spins : ℕ → ℕ → State → Bool
spins n tid s = spins_at n tid (s.pc tid) s

-- A thread that spins and makes a step spins on.
pub spins-act :
    (n iters tid : ℕ) (s : State) (c : Pc)
    → s.pc tid ≡ c
    → spins_at n tid c s ≡ true
    → spins n tid (act n iters tid c s) ≡ true
unfolding act
spins-act n iters tid s (wait i o) e h = ground arith
spins-act n iters tid s (wait_turn i o) e h = ground arith
spins-act n iters tid s (set_flag i) e h = cc
spins-act n iters tid s (set_turn i) e h = cc
spins-act n iters tid s (critical j) e h = cc
spins-act n iters tid s (store j r) e h = cc
spins-act n iters tid s unlocking e h = cc
spins-act n iters tid s done e h = cc

-- What a spinning thread shows: it spins at level `i` on a thread `o` that has come as far.
abbrev Caught : ℕ → ℕ → State → Type 0
Caught n tid s =
    (i o : ℕ) × (s.flag tid ≡ i + 1)
    × (i + 1 < n)
    × (o ≢ tid)
    × (s.flag tid ≤ s.flag o)
    × (s.turn i ≡ tid)

Caught-at :
    (n tid : ℕ) (s : State) (i o : ℕ)
    → s.flag tid ≡ i + 1
    → i + 1 < n
    → fails n tid i o s ≡ true
    → Caught n tid s
Caught-at n tid s i o f r h = (i, o, f, r, ground arith, ground arith, ground arith)

spins-Caught :
    (n tid : ℕ) (s : State) (c : Pc)
    → Inv n s
    → s.pc tid ≡ c
    → spins_at n tid c s ≡ true
    → Caught n tid s
spins-Caught n tid s (wait i o) v e h =
    Caught-at n tid s i o (ground (arith, v.flags tid)) (ground (arith, v.range tid)) h
spins-Caught n tid s (wait_turn i o) v e h =
    Caught-at n tid s i o (ground (arith, v.flags tid)) (ground (arith, v.range tid)) h
spins-Caught n tid s (set_flag i) v e h = cc
spins-Caught n tid s (set_turn i) v e h = cc
spins-Caught n tid s (critical j) v e h = cc
spins-Caught n tid s (store j r) v e h = cc
spins-Caught n tid s unlocking v e h = cc
spins-Caught n tid s done v e h = cc

-- Of the spinning threads take one at the highest level: the thread that it waits for would spin there
-- too, and `turn` would name both.
no_spin :
    (n : ℕ) (s : State)
    → Inv n s
    → ((t : ℕ) → (s.pc t ≡ done) ⊎ (spins n t s ≡ true))
    → (k tid : ℕ) → n ≤ s.flag tid + k
    → ¬ (spins n tid s ≡ true)
no_spin n s v all zero tid b h =
    let (i, o, f, r, d, u, t) = spins-Caught n tid s (s.pc tid) v refl h in omega arith
no_spin n s v all (suc k) tid b h =
    let (i, o, f, r, d, u, t) = spins-Caught n tid s (s.pc tid) v refl h in
    elim (all o) [
      | inl e ↦ let down : s.flag o ≡ 0 = v.flags o ∙ ap (flag_of n) e in absurd (omega arith)
      | inr g ↦
          let (j, q, f', r', d', u', t') = spins-Caught n o s (s.pc o) v refl g in
          elim (Bool-cases (i == j)) [
            | inl same ↦ let level : i ≡ j = ground arith in d (sym t' ∙ ap s.turn (sym level) ∙ t)
            | inr other ↦ let level : i ≢ j = ground arith in no_spin n s v all k o (omega arith) g
          ]
    ]

-- No deadlock: in whatever order the accesses of n threads came so far, if each thread is done or
-- spins, then all are done. So as long as some thread is not done, some thread gets on.
pub no_deadlock :
    (n iters : ℕ) (tids : List ℕ)
    → ((t : ℕ)
        → ((run n iters tids (start n)).pc t ≡ done)
          ⊎ (spins n t (run n iters tids (start n)) ≡ true))
    → (t : ℕ) → (run n iters tids (start n)).pc t ≡ done
no_deadlock n iters tids all t = elim (all t) [
  | inl e ↦ e
  | inr g ↦ absurd (
      no_spin n (run n iters tids (start n)) (run-Inv n iters tids (start n) (start-Inv n)) all n t
        (omega arith) g)
]
