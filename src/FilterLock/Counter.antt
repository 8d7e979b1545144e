-- ===== src/FilterLock/Counter.antt =====
-- The counter under the lock: no increment is lost.
use operating_system.Common.{
  ℕ, ◌+◌, ◌*◌, ◌<◌, ◌≤◌, ◌≡◌, ◌≢◌, refl, sym, ap, ◌∙◌, subst, false, List, [], ◌∷◌, ◌==◌, update,
  arith, sum_below, sum_below-ext, sum_below-update, sum_below-const, inl, inr, Bool-cases,
}
use operating_system.FilterLock.{
  Pc, set_flag, set_turn, wait, wait_turn, critical, store, unlocking, done, State, go, act, start,
  run, in_critical,
}
use operating_system.FilterLock.Invariant.{Inv, start-Inv, act-Inv}
use operating_system.FilterLock.Exclusion.{Inv-exclusion}

-- The increments that a thread has made.
abbrev pub rounds : ℕ → Pc → ℕ
rounds iters (set_flag i) = 0
rounds iters (set_turn i) = 0
rounds iters (wait i o) = 0
rounds iters (wait_turn i o) = 0
rounds iters (critical j) = j
rounds iters (store j r) = j
rounds iters unlocking = iters
rounds iters done = iters

-- What a thread knows of the counter at its place.
abbrev pub Holds : ℕ → ℕ → Pc → Type 0
Holds iters m (critical j) = j ≤ iters
Holds iters m (store j r) = (j < iters) × (r ≡ m)
Holds iters m (set_flag i) = Unit {0}
Holds iters m (set_turn i) = Unit {0}
Holds iters m (wait i o) = Unit {0}
Holds iters m (wait_turn i o) = Unit {0}
Holds iters m unlocking = Unit {0}
Holds iters m done = Unit {0}

pub record Counted (n iters : ℕ) (s : State) : Type 0 where
  pub total : s.shared ≡ sum_below n (λ t. rounds iters (s.pc t))
  pub holds : (t : ℕ) → Holds iters s.shared (s.pc t)

pub start-Counted : (n iters : ℕ) → Counted n iters (start n)
start-Counted n iters = record {
  total = sym (
      sum_below-const n 0 (λ t. rounds iters ((start n).pc t)) (λ t l. ground arith) ∙ omega arith);
  holds = λ t. ground arith;
}

-- A step that leaves the counter and the thread's number of rounds alone.
quiet-Counted :
    (n iters : ℕ) (s r : State) (tid : ℕ) (c : Pc)
    → Counted n iters s
    → r.shared ≡ s.shared
    → r.pc ≡ update s.pc tid c
    → rounds iters c ≡ rounds iters (s.pc tid)
    → Holds iters s.shared c
    → Counted n iters r
quiet-Counted n iters s r tid c v e f g h = record {
  total =
      e
      ∙ v.total
      ∙ sum_below-ext n (λ t. rounds iters (s.pc t)) (λ t. rounds iters (r.pc t))
          (λ t l. rw f (ground arith));
  holds = λ t. rw (e, f) (ground (arith, v.holds t));
}

outside-Holds : (iters m : ℕ) (c : Pc) → in_critical c ≡ false → Holds iters m c
outside-Holds iters m (critical j) h = cc
outside-Holds iters m (store j r) h = cc
outside-Holds iters m (set_flag i) h = tt
outside-Holds iters m (set_turn i) h = tt
outside-Holds iters m (wait i o) h = tt
outside-Holds iters m (wait_turn i o) h = tt
outside-Holds iters m unlocking h = cc
outside-Holds iters m done h = tt

-- The store of an increment: no other thread holds a loaded value.
store-Counted :
    (n iters : ℕ) (s : State) (tid j r : ℕ)
    → Inv n s
    → Counted n iters s
    → s.pc tid ≡ store j r
    → Counted n iters (act n iters tid (store j r) s)
unfolding act
store-Counted n iters s tid j r i v e =
    let b : tid < n = ground (arith, i.absent tid) in
    let h : (j < iters) × (r ≡ s.shared) = subst (λ c. Holds iters s.shared c) e (v.holds tid) in
    let w : State = go tid (critical (j + 1)) (record s { shared = r + 1 }) in
    let moved : sum_below n (λ t. rounds iters (w.pc t)) + rounds iters (s.pc tid)
        ≡ sum_below n (λ t. rounds iters (s.pc t)) + rounds iters (w.pc tid) =
      sum_below-update n tid (λ t. rounds iters (s.pc t)) (λ t. rounds iters (w.pc t)) b
        (λ t d. ground arith) in
    let before : rounds iters (s.pc tid) ≡ j = ap (rounds iters) e in
    let after : rounds iters (w.pc tid) ≡ j + 1 = ground arith in
    let others : (t : ℕ) → tid ≢ t → in_critical (s.pc t) ≡ false = λ t d.
      elim (Bool-cases (in_critical (s.pc t))) [
        | inl c ↦ absurd (d (Inv-exclusion n s tid t i (ap in_critical e) c))
        | inr c ↦ c
      ] in
    record {
      total = omega (arith, moved, before, after, v.total, h.1);
      holds = λ t. elim (Bool-cases (tid == t)) [
        | inl same ↦ rw same (omega (arith, h.0))
        | inr other ↦ rw other (outside-Holds iters (r + 1) (s.pc t) (others t (ground arith)))
      ];
    }

act-Counted :
    (n iters : ℕ) (s : State) (tid : ℕ) (c : Pc)
    → Inv n s
    → Counted n iters s
    → s.pc tid ≡ c
    → Counted n iters (act n iters tid c s)
unfolding act
act-Counted n iters s tid (set_flag i) v k e =
    quiet-Counted n iters s _ tid (set_turn i) k refl refl (rw e refl) tt
act-Counted n iters s tid (set_turn i) v k e =
    quiet-Counted n iters s _ tid (wait i 0) k refl refl (rw e refl) tt
act-Counted n iters s tid (wait i o) v k e =
    quiet-Counted n iters s (act n iters tid (wait i o) s) tid _ k refl refl (rw e (ground arith))
      (ground arith)
act-Counted n iters s tid (wait_turn i o) v k e =
    quiet-Counted n iters s (act n iters tid (wait_turn i o) s) tid _ k refl refl
      (rw e (ground arith)) (ground arith)
act-Counted n iters s tid (critical j) v k e =
    quiet-Counted n iters s (act n iters tid (critical j) s) tid _ k refl refl
      (ground (arith, k.holds tid)) (ground (arith, k.holds tid))
act-Counted n iters s tid (store j r) v k e = store-Counted n iters s tid j r v k e
act-Counted n iters s tid unlocking v k e =
    quiet-Counted n iters s _ tid done k refl refl (rw e refl) tt
act-Counted n iters s tid done v k e = k

run-Counted :
    (n iters : ℕ) (tids : List ℕ) (s : State)
    → Inv n s
    → Counted n iters s
    → Counted n iters (run n iters tids s)
unfolding run
run-Counted n iters [] s v k = k
run-Counted n iters (tid ∷ tids) s v k =
    run-Counted n iters tids (act n iters tid (s.pc tid) s)
      (act-Inv n iters s tid (s.pc tid) v refl) (act-Counted n iters s tid (s.pc tid) v k refl)

-- No increment is lost: in whatever order the accesses of n threads come, when all of them are done,
-- shared_resource is n times the number of increments of a thread.
pub shared_total :
    (n iters : ℕ) (tids : List ℕ)
    → ((t : ℕ) → t < n → (run n iters tids (start n)).pc t ≡ done)
    → (run n iters tids (start n)).shared ≡ n * iters
shared_total n iters tids h =
    (run-Counted n iters tids (start n) (start-Inv n) (start-Counted n iters)).total
    ∙ sum_below-const n iters (λ t. rounds iters ((run n iters tids (start n)).pc t))
        (λ t l. rw (h t l) refl)
