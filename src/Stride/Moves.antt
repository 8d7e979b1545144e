-- ===== src/Stride/Moves.antt =====
-- Processes that move between the places of mlfq.c in ex_project3/HYU-ELE3021/xv6-public.
use operating_system.Common.{
  ℕ, ◌≡◌, ◌≢◌, ◌⊎◌, inl, inr, refl, sym, ◌∙◌, ◌==◌, ◌&&◌, true, none, some, pos, arith, Bool-cases,
}
use operating_system.Stride.State.{Float, client, Sched, is_empty}
use operating_system.Stride.Tickets.{enlist, stride_update}
use operating_system.Stride.Queues.{put_queue, enqueue, charge}
use operating_system.Stride.Invariant.{WellFormed, Unqueued}

-- The process is in the queues or in the stride scheduler.
abbrev pub InPlace : {fl : Float} → Sched fl → ℕ → Type 0
InPlace s p = ((l i : ℕ) × (s.queue l i ≡ some p)) ⊎ ((i : ℕ) × (s.stride.queue i ≡ client p))

-- The same processes are in a place, and no process has changed its state.
pub record Moved {fl : Float} (s r : Sched fl) : Type 0 where
  pub stays : (q : ℕ) → InPlace s q → InPlace r q
  pub came : (q : ℕ) → InPlace r q → InPlace s q
  pub state : (q : ℕ) → (r.proc q).state ≡ (s.proc q).state

pub Moved-refl : {fl : Float} (s : Sched fl) → Moved s s
Moved-refl s = record { stays = λ q a. a; came = λ q a. a; state = λ q. refl }

pub Moved-trans : {fl : Float} {s t r : Sched fl} → Moved s t → Moved t r → Moved s r
Moved-trans a b = record {
  stays = λ q c. b.stays q (a.stays q c);
  came = λ q c. a.came q (b.came q c);
  state = λ q. b.state q ∙ a.state q;
}

pub Moved-same :
    {fl : Float} (s r : Sched fl)
    → ((l i : ℕ) → r.queue l i ≡ s.queue l i)
    → ((i : ℕ) → r.stride.queue i ≡ s.stride.queue i)
    → ((q : ℕ) → (r.proc q).state ≡ (s.proc q).state)
    → Moved s r
Moved-same s r a b c = record {
  stays = λ q p. elim p [ inl (l, i, e) ↦ inl (l, i, a l i ∙ e) | inr (i, e) ↦ inr (i, b i ∙ e) ];
  came = λ q p. elim p [
    | inl (l, i, e) ↦ inl (l, i, sym (a l i) ∙ e)
    | inr (i, e) ↦ inr (i, sym (b i) ∙ e)
  ];
  state = c;
}

pub Unqueued-not-InPlace : {fl : Float} {s : Sched fl} {p : ℕ} → Unqueued p s → ¬ InPlace s p
Unqueued-not-InPlace u (inl (l, i, e)) = u.no_queue l i e
Unqueued-not-InPlace u (inr (i, e)) = u.no_client i e

pub Unqueued-of : {fl : Float} {s : Sched fl} {p : ℕ} → ¬ InPlace s p → Unqueued p s
Unqueued-of n = record { no_queue = λ l i e. n (inl (l, i, e)); no_client = λ i e. n (inr (i, e)) }

module _ (fl : Float) where
  pub charge-Moved : (s : Sched fl) (i : ℕ) → Moved s (charge fl i s)
  unfolding stride_update
  charge-Moved s i = Moved-same s (charge fl i s) (λ l j. refl) (λ j. refl) (λ q. refl)

  -- A process moves from one place of the queues to a free one.
  pub raise-Moved :
      (s : Sched fl) (p l i m j : ℕ)
      → WellFormed s
      → s.queue l i ≡ some p
      → s.queue m j ≡ none
      → l ≢ m
      → Moved s (put_queue fl l i none (enqueue fl p m j s))
  unfolding enqueue
  raise-Moved s p l i m j w e f d = record {
    stays = λ q a. elim a [
      | inl (h, k, g) ↦ elim (Bool-cases (h == l && k == i)) [
        | inl here ↦ inl (m, j, ground (arith, e, g))
        | inr other ↦ inl (h, k, ground (arith, f, g))
      ]
      | inr (k, g) ↦ inr (k, g)
    ];
    came = λ q a. elim a [
      | inl (h, k, g) ↦ elim (Bool-cases (h == m && k == j)) [
        | inl here ↦ inl (l, i, ground (arith, e, g))
        | inr other ↦ inl (h, k, ground (arith, g))
      ]
      | inr (k, g) ↦ inr (k, g)
    ];
    state = λ q. ground arith;
  }

  -- A process moves from the queues to a free place of the stride scheduler.
  pub share-Moved :
      (s : Sched fl) (p l i u k : ℕ)
      → WellFormed s
      → s.queue l i ≡ some p
      → is_empty (s.stride.queue k) ≡ true
      → Moved s (enlist fl p (pos u) k (put_queue fl l i none s))
  unfolding enlist
  share-Moved s p l i u k w e f = record {
    stays = λ q a. elim a [
      | inl (h, x, g) ↦ elim (Bool-cases (h == l && x == i)) [
        | inl here ↦ inr (k, ground (arith, e, g))
        | inr other ↦ inl (h, x, ground (arith, g))
      ]
      | inr (x, g) ↦ inr (x, ground (arith, f, g))
    ];
    came = λ q a. elim a [
      | inl (h, x, g) ↦ inl (h, x, ground (arith, g))
      | inr (x, g) ↦ elim (Bool-cases (x == k)) [
        | inl here ↦ inl (l, i, ground (arith, e, g))
        | inr other ↦ inr (x, ground (arith, g))
      ]
    ];
    state = λ q. ground arith;
  }
