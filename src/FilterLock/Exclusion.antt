-- ===== src/FilterLock/Exclusion.antt =====
-- Mutual exclusion of the lock.
use operating_system.Common.{
  ℕ, zero, suc, ◌+◌, ◌-◌, ◌<◌, ◌≤◌, ◌≡◌, ◌≢◌, refl, sym, ap, true, false, List, [], ◌∷◌, ◌==◌, leb,
  length, arith, inl, inr, Bool-cases, Absent, Distinct, Below, length-le_of_Below,
}
use operating_system.FilterLock.{
  Pc, set_flag, set_turn, wait, wait_turn, critical, store, unlocking, done, State, start, run,
  in_critical,
}
use operating_system.FilterLock.Invariant.{entered, cleared, InRange, Inv, start-Inv, run-Inv}

-- turn[k - 1], ..., turn[0].
abbrev turns : State → ℕ → List ℕ
turns s zero = []
turns s (suc k) = s.turn k ∷ turns s k

length-turns : (s : State) (k : ℕ) → length (turns s k) ≡ k
length-turns s zero = refl
length-turns s (suc k) = ground (arith, length-turns s k)

-- A thread that has entered a level has cleared every thread at the levels below.
cleared_below : (n i q : ℕ) (c : Pc) → InRange n c → i + 1 < entered n c → cleared n i q c ≡ true
cleared_below n i q (set_flag l) r h = ground arith
cleared_below n i q (set_turn l) r h = ground arith
cleared_below n i q (wait l o) r h = ground arith
cleared_below n i q (wait_turn l o) r h = ground arith
cleared_below n i q (critical j) r h = ground arith
cleared_below n i q (store j t) r h = ground arith
cleared_below n i q unlocking r h = ground arith
cleared_below n i q done r h = elim h [ ]

critical_entered : (n : ℕ) (c : Pc) → in_critical c ≡ true → entered n c ≡ n - 1
critical_entered n (set_flag l) h = cc
critical_entered n (set_turn l) h = cc
critical_entered n (wait l o) h = cc
critical_entered n (wait_turn l o) h = cc
critical_entered n (critical j) h = refl
critical_entered n (store j t) h = refl
critical_entered n unlocking h = refl
critical_entered n done h = cc

critical_cleared : (n i q : ℕ) (c : Pc) → in_critical c ≡ true → i < n - 1 → cleared n i q c ≡ true
critical_cleared n i q (set_flag l) h b = cc
critical_cleared n i q (set_turn l) h b = cc
critical_cleared n i q (wait l o) h b = cc
critical_cleared n i q (wait_turn l o) h b = cc
critical_cleared n i q (critical j) h b = ground arith
critical_cleared n i q (store j t) h b = ground arith
critical_cleared n i q unlocking h b = ground arith
critical_cleared n i q done h b = cc

-- Two threads in their critical sections: then at each level the thread that entered it last waits
-- there.
module _ (n : ℕ) (s : State) (v : Inv n s) (p q : ℕ) (d : p ≢ q) (cp : in_critical (s.pc p) ≡ true)
    (cq : in_critical (s.pc q) ≡ true) where
  in_range : (t : ℕ) → 0 < entered n (s.pc t) → t < n
  in_range t h = ground (arith, v.absent t)

  turn_waits :
      (i : ℕ) → i < n - 1 → (entered n (s.pc (s.turn i)) ≡ i + 1) × (s.turn i ≢ p) × (s.turn i ≢ q)
  turn_waits i b =
      let ep : entered n (s.pc p) ≡ n - 1 = critical_entered n (s.pc p) cp in
      let eq : entered n (s.pc q) ≡ n - 1 = critical_entered n (s.pc q) cq in
      let lp : p < n = in_range p (omega arith) in
      let lq : q < n = in_range q (omega arith) in
      let np : s.turn i ≢ p =
        v.behind p q i d lq (critical_cleared n i q (s.pc p) cp b) (omega arith) in
      let nq : s.turn i ≢ q =
        v.behind q p i (λ e. d (sym e)) lp (critical_cleared n i p (s.pc q) cq b) (omega arith) in
      let t : ℕ = s.turn i in
      let up : i < entered n (s.pc t) = v.last p i (omega arith) in
      let low : entered n (s.pc t) ≤ i + 1 =
        ground (arith, cleared_below n i p (s.pc t) (v.range t), v.behind t p i np lp) in
      (omega arith, np, nq)

  turns-Below : (k : ℕ) → k ≤ n - 1 → Below n (turns s k)
  turns-Below zero b = tt
  turns-Below (suc k) b =
      let (e, np, nq) = turn_waits k (omega arith) in
      (in_range (s.turn k) (omega arith), turns-Below k (omega arith))

  turns-Absent_both : (k : ℕ) → k ≤ n - 1 → Absent p (turns s k) × Absent q (turns s k)
  turns-Absent_both zero b = (tt, tt)
  turns-Absent_both (suc k) b =
      let (e, np, nq) = turn_waits k (omega arith) in
      let (hp, hq) = turns-Absent_both k (omega arith) in
      ((λ t. np (sym t), hp), (λ t. nq (sym t), hq))

  turns-Absent : (t k : ℕ) → k ≤ n - 1 → k < entered n (s.pc t) → Absent t (turns s k)
  turns-Absent t zero b h = tt
  turns-Absent t (suc k) b h =
      let (e, np, nq) = turn_waits k (omega arith) in
      (
        λ same. omega (arith, ap (λ x. entered n (s.pc x)) same, e, h),
        turns-Absent t k (omega arith) (omega arith),
      )

  turns-Distinct : (k : ℕ) → k ≤ n - 1 → Distinct (turns s k)
  turns-Distinct zero b = tt
  turns-Distinct (suc k) b =
      let (e, np, nq) = turn_waits k (omega arith) in
      (turns-Absent (s.turn k) k (omega arith) (omega arith), turns-Distinct k (omega arith))

  crowded : 2 ≤ n → ⊥
  crowded two =
      let (hp, hq) = turns-Absent_both (n - 1) (omega arith) in
      let lp : p < n = in_range p (omega (arith, critical_entered n (s.pc p) cp)) in
      let lq : q < n = in_range q (omega (arith, critical_entered n (s.pc q) cq)) in
      omega (
        arith,
        length-turns s (n - 1),
        length-le_of_Below n (p ∷ q ∷ turns s (n - 1))
            ((d, hp), (hq, turns-Distinct (n - 1) (omega arith)))
            (lp, (lq, turns-Below (n - 1) (omega arith))),
      )

  alone : n ≤ 1 → ⊥
  alone few = ground (arith, v.absent p, v.absent q)

-- Two threads that satisfy the invariant are never in their critical sections together.
pub Inv-exclusion :
    (n : ℕ) (s : State) (p q : ℕ)
    → Inv n s
    → in_critical (s.pc p) ≡ true
    → in_critical (s.pc q) ≡ true
    → p ≡ q
Inv-exclusion n s p q v cp cq = elim (Bool-cases (p == q)) [
  | inl e ↦ ground arith
  | inr e ↦
      let d : p ≢ q = ground arith in
      elim (Bool-cases (leb 2 n)) [
        | inl two ↦ absurd (crowded n s v p q d cp cq (ground arith))
        | inr few ↦ absurd (alone n s v p q d cp cq (ground arith))
      ]
]

-- Mutual exclusion: however many threads there are, however often each increments, and in whatever order
-- their accesses to the shared variables come, while one thread is between the end of `lock` and the
-- store of `unlock`, no other thread is.
pub exclusion :
    (n iters : ℕ) (tids : List ℕ) (p q : ℕ)
    → p ≢ q
    → in_critical ((run n iters tids (start n)).pc p) ≡ true
    → in_critical ((run n iters tids (start n)).pc q) ≡ false
exclusion n iters tids p q d h =
    elim (Bool-cases (in_critical ((run n iters tids (start n)).pc q))) [
      | inl g ↦ absurd (
          d (
            Inv-exclusion n (run n iters tids (start n)) p q
              (run-Inv n iters tids (start n) (start-Inv n)) h g))
      | inr g ↦ g
    ]
