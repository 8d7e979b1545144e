-- ===== src/FilterLock/Invariant.antt =====
-- The invariant of the lock, and that every step keeps it.
use operating_system.Common.{
  ℕ, ◌+◌, ◌-◌, ◌<◌, ◌≤◌, ◌≡◌, ◌≢◌, refl, Bool, true, false, ◌&&◌, ◌||◌, List, [], ◌∷◌, ◌==◌, ltb,
  arith,
}
use operating_system.FilterLock.{
  Pc, set_flag, set_turn, wait, wait_turn, critical, store, unlocking, done, State, go, act, start,
  run,
}

-- How many levels a thread has entered: the stores to `turn` since it began to lock.
abbrev pub entered : ℕ → Pc → ℕ
entered n (set_flag i) = i
entered n (set_turn i) = i
entered n (wait i o) = i + 1
entered n (wait_turn i o) = i + 1
entered n (critical j) = n - 1
entered n (store j r) = n - 1
entered n unlocking = n - 1
entered n done = 0

-- The value of flag[tid].
abbrev pub flag_of : ℕ → Pc → ℕ
flag_of n (set_flag i) = i
flag_of n (set_turn i) = i + 1
flag_of n (wait i o) = i + 1
flag_of n (wait_turn i o) = i + 1
flag_of n (critical j) = n - 1
flag_of n (store j r) = n - 1
flag_of n unlocking = n - 1
flag_of n done = 0

-- A thread there has passed its test of thread `q` at level `i`.
abbrev pub cleared : ℕ → ℕ → ℕ → Pc → Bool
cleared n i q (set_flag l) = ltb i l
cleared n i q (set_turn l) = ltb i l
cleared n i q (wait l o) = ltb i l || (i == l && ltb q o)
cleared n i q (wait_turn l o) = ltb i l || (i == l && ltb q o)
cleared n i q (critical j) = ltb i (n - 1)
cleared n i q (store j r) = ltb i (n - 1)
cleared n i q unlocking = ltb i (n - 1)
cleared n i q done = false

-- The level at which a thread stands exists.
abbrev pub InRange : ℕ → Pc → Type 0
InRange n (set_flag i) = i + 1 < n
InRange n (set_turn i) = i + 1 < n
InRange n (wait i o) = i + 1 < n
InRange n (wait_turn i o) = i + 1 < n
InRange n (critical j) = Unit {0}
InRange n (store j r) = Unit {0}
InRange n unlocking = Unit {0}
InRange n done = Unit {0}

pub record Inv (n : ℕ) (s : State) : Type 0 where
  pub range : (p : ℕ) → InRange n (s.pc p)
  pub absent : (p : ℕ) → n ≤ p → s.pc p ≡ done
  pub flags : (p : ℕ) → s.flag p ≡ flag_of n (s.pc p)
  pub behind :
      (p q i : ℕ)
      → p ≢ q
      → q < n
      → cleared n i q (s.pc p) ≡ true
      → i < entered n (s.pc q)
      → s.turn i ≢ p
  pub last : (q i : ℕ) → i < entered n (s.pc q) → i < entered n (s.pc (s.turn i))

pub start-Inv : (n : ℕ) → Inv n (start n)
start-Inv n = record {
  range = λ p. ground arith;
  absent = λ p l. ground arith;
  flags = λ p. ground arith;
  behind = λ p q i d b c e. ground arith;
  last = λ q i e. ground arith;
}

-- A thread moves on, with the same flag and the same levels entered, and may clear a thread.
move-Inv :
    (n : ℕ) (s : State) (tid m : ℕ) (c : Pc)
    → Inv n s
    → tid < n
    → InRange n c
    → flag_of n c ≡ flag_of n (s.pc tid)
    → entered n c ≡ entered n (s.pc tid)
    → ((q i : ℕ)
        → q < n
        → tid ≢ q
        → cleared n i q c ≡ true
        → i < entered n (s.pc q)
        → s.turn i ≢ tid)
    → Inv n (go tid c (record s { shared = m }))
move-Inv n s tid m c v b r f e cl = record {
  range = λ p. ground (arith, v.range p);
  absent = λ p l. ground (arith, v.absent p l);
  flags = λ p. ground (arith, v.flags p);
  behind = λ p q i d l x h. ground (arith, v.behind p q i d l, cl q i l);
  last = λ q i h. ground (arith, v.last q i);
}

set_flag-Inv :
    (n iters : ℕ) (s : State) (tid i : ℕ)
    → Inv n s
    → s.pc tid ≡ set_flag i
    → Inv n (act n iters tid (set_flag i) s)
unfolding act
set_flag-Inv n iters s tid i v e = record {
  range = λ p. ground (arith, v.range p);
  absent = λ p l. ground (arith, v.absent p l);
  flags = λ p. ground (arith, v.flags p);
  behind = λ p q j d l x h. ground (arith, v.behind p q j d l);
  last = λ q j h. ground (arith, v.last q j);
}

set_turn-Inv :
    (n iters : ℕ) (s : State) (tid i : ℕ)
    → Inv n s
    → s.pc tid ≡ set_turn i
    → Inv n (act n iters tid (set_turn i) s)
unfolding act
set_turn-Inv n iters s tid i v e = record {
  range = λ p. ground (arith, v.range p);
  absent = λ p l. ground (arith, v.absent p l);
  flags = λ p. ground (arith, v.flags p);
  behind = λ p q j d l x h. ground (arith, v.behind p q j d l);
  last = λ q j h. ground (arith, v.last q j);
}

unlocking-Inv :
    (n iters : ℕ) (s : State) (tid : ℕ)
    → Inv n s
    → s.pc tid ≡ unlocking
    → Inv n (act n iters tid unlocking s)
unfolding act
unlocking-Inv n iters s tid v e = record {
  range = λ p. ground (arith, v.range p);
  absent = λ p l. ground (arith, v.absent p l);
  flags = λ p. ground (arith, v.flags p);
  behind = λ p q j d l x h. ground (arith, v.behind p q j d l);
  last = λ q j h. ground (arith, v.last q j, v.behind tid q j, v.absent q);
}

-- The loop over the other threads: at its end, at the thread itself, and at the read of flag[other].
wait-Inv :
    (n iters : ℕ) (s : State) (tid i o : ℕ)
    → Inv n s
    → s.pc tid ≡ wait i o
    → Inv n (act n iters tid (wait i o) s)
unfolding act
wait-Inv n iters s tid i o v e =
    let b : tid < n = ground (arith, v.absent tid) in
    let r : i + 1 < n = ground (arith, v.range tid) in
    move-Inv n s tid s.shared _ v b (ground arith) (ground arith) (ground arith)
      (λ q j l d x h. ground (arith, v.behind tid q j d l, v.flags tid, v.flags q, v.range q))

wait_turn-Inv :
    (n iters : ℕ) (s : State) (tid i o : ℕ)
    → Inv n s
    → s.pc tid ≡ wait_turn i o
    → Inv n (act n iters tid (wait_turn i o) s)
unfolding act
wait_turn-Inv n iters s tid i o v e =
    let b : tid < n = ground (arith, v.absent tid) in
    let r : i + 1 < n = ground (arith, v.range tid) in
    move-Inv n s tid s.shared _ v b (ground arith) (ground arith) (ground arith)
      (λ q j l d x h. ground (arith, v.behind tid q j d l))

critical-Inv :
    (n iters : ℕ) (s : State) (tid j : ℕ)
    → Inv n s
    → s.pc tid ≡ critical j
    → Inv n (act n iters tid (critical j) s)
unfolding act
critical-Inv n iters s tid j v e =
    let b : tid < n = ground (arith, v.absent tid) in
    move-Inv n s tid s.shared _ v b (ground arith) (ground arith) (ground arith)
      (λ q i l d x h. ground (arith, v.behind tid q i d l))

store-Inv :
    (n iters : ℕ) (s : State) (tid j r : ℕ)
    → Inv n s
    → s.pc tid ≡ store j r
    → Inv n (act n iters tid (store j r) s)
unfolding act
store-Inv n iters s tid j r v e =
    let b : tid < n = ground (arith, v.absent tid) in
    move-Inv n s tid (r + 1) _ v b tt (ground arith) (ground arith)
      (λ q i l d x h. ground (arith, v.behind tid q i d l))

pub act-Inv :
    (n iters : ℕ) (s : State) (tid : ℕ) (c : Pc)
    → Inv n s
    → s.pc tid ≡ c
    → Inv n (act n iters tid c s)
act-Inv n iters s tid (set_flag i) v e = set_flag-Inv n iters s tid i v e
act-Inv n iters s tid (set_turn i) v e = set_turn-Inv n iters s tid i v e
act-Inv n iters s tid (wait i o) v e = wait-Inv n iters s tid i o v e
act-Inv n iters s tid (wait_turn i o) v e = wait_turn-Inv n iters s tid i o v e
act-Inv n iters s tid (critical j) v e = critical-Inv n iters s tid j v e
act-Inv n iters s tid (store j r) v e = store-Inv n iters s tid j r v e
act-Inv n iters s tid unlocking v e = unlocking-Inv n iters s tid v e
act-Inv n iters s tid done v e = unfold act in v

pub run-Inv : (n iters : ℕ) (tids : List ℕ) (s : State) → Inv n s → Inv n (run n iters tids s)
unfolding run
run-Inv n iters [] s v = v
run-Inv n iters (tid ∷ tids) s v =
    run-Inv n iters tids (act n iters tid (s.pc tid) s) (act-Inv n iters s tid (s.pc tid) v refl)
