-- ===== src/Stride/Rounds.antt =====
-- mlfq_scheduler of ex_project3/HYU-ELE3021/xv6-public/mlfq.c: a round of its loop returns.
use operating_system.Common.{
  ℕ, ◌+◌, ◌%◌, ◌^◌, ◌≡◌, inl, inr, refl, ap, ◌∙◌, ltb, some, get_elem?, if◌then◌else◌, ok, ◌>>=◌,
  ◌>>◌, modify, arith, Bool-cases,
}
use operating_system.Mlfq.Proc.{running}
use operating_system.Stride.State.{Float, client, Sched}
use operating_system.Stride.Queues.{Verdict, next, charge, mlfq_update, mlfq_boost}
use operating_system.Stride.Turns.{Locals, dispatch, add_elapsed, after_switch}
use operating_system.Stride.Invariant.{
  WellFormed, FloatLaws, Same, Same-WellFormed, charge-WellFormed,
}
use operating_system.Stride.Moves.{
  InPlace, Moved, Moved-refl, Moved-trans, Moved-same, charge-Moved,
}
use operating_system.Stride.Demotion.{is_over, update_outcomes}
use operating_system.Stride.Boost.{boost-Moved}

-- The current thread of the process is RUNNING.
abbrev pub IsRunning : {fl : Float} → Sched fl → ℕ → Type 0
IsRunning s p = get_elem? (s.proc p).threads (s.proc p).tidx ≡ some running

module _ (fl : Float) where
  dispatch-Same : (s : Sched fl) (now p t : ℕ) → Same s (dispatch fl now p t s)
  unfolding dispatch
  dispatch-Same s now p t = record {
    queues = λ l i. refl;
    stride = refl;
    level = λ q. ground arith;
    index = λ q. ground arith;
  }

  add_elapsed-Same : (s : Sched fl) (p start e : ℕ) → Same s (add_elapsed fl p start e s)
  unfolding add_elapsed
  add_elapsed-Same s p start e = record {
    queues = λ l i. refl;
    stride = refl;
    level = λ q. ground arith;
    index = λ q. ground arith;
  }

  pub dispatch-WellFormed :
      (s : Sched fl) (now p t : ℕ) → WellFormed s → WellFormed (dispatch fl now p t s)
  unfolding dispatch
  dispatch-WellFormed s now p t w =
      Same-WellFormed s (dispatch fl now p t s) w (dispatch-Same s now p t) w.iters

  -- mlfq_update of a process of the stride scheduler, unless it is over.
  update_client :
      (s : Sched fl) (p i e : ℕ)
      → FloatLaws fl
      → WellFormed s
      → s.stride.queue i ≡ client p
      → (k : Verdict) × (r : Sched fl) × (mlfq_update fl p e s ≡ ok (k, r))
        × WellFormed r
        × Moved s r
  unfolding mlfq_update
  update_client s p i e laws w q = elim (Bool-cases (is_over s p)) [
    | inl over ↦ (next, s, ground arith, w, Moved-refl s)
    | inr alive ↦ (
      next,
      charge fl (s.proc p).index s,
      ground (arith, w.enlisted i p),
      charge-WellFormed fl s (s.proc p).index laws w (ground (arith, w.enlisted i p)),
      charge-Moved fl s (s.proc p).index,
    )
  ]

  update_any :
      (s : Sched fl) (p e : ℕ)
      → FloatLaws fl
      → WellFormed s
      → InPlace s p
      → (k : Verdict) × (r : Sched fl) × (mlfq_update fl p e s ≡ ok (k, r))
        × WellFormed r
        × Moved s r
  update_any s p e laws w (inl (l, i, q)) =
      let (r, f, u) = update_outcomes fl s p l i e laws w q in (_, r, f, u.wf, u.moved)
  update_any s p e laws w (inr (i, q)) = update_client s p i e laws w q

  after_lem :
      (s t r : Sched fl) (p start e : ℕ) (v : Locals) (k : Verdict)
      → mlfq_update fl p e (add_elapsed fl p start e s) ≡ ok (k, t)
      → mlfq_boost fl t ≡ ok (tt, r)
      → after_switch fl p start e v s ≡ (
          if ltb v.boost e
          then ok
              (record v { keep_it = k; cur = some p; boost = (v.boost + v.boostunit) % 2 ^ 32 }, r)
          else ok (record v { keep_it = k; cur = some p }, t))
  unfolding after_switch
  after_lem s t r p start e v k a b = elim (Bool-cases (ltb v.boost e)) [
    | inl h ↦ rw (◌>>=◌, ◌>>◌, modify, a, h, b) refl
    | inr h ↦ rw (◌>>=◌, ◌>>◌, modify, a, h) refl
  ]

  -- That part of a round, with the processes that are in a place.
  pub after_switch-Moved :
      (s : Sched fl) (p start e : ℕ) (v : Locals)
      → FloatLaws fl
      → WellFormed s
      → InPlace s p
      → (w : Locals) × (r : Sched fl) × (after_switch fl p start e v s ≡ ok (w, r))
        × WellFormed r
        × (w.cur ≡ some p)
        × (w.boost ≡ (if ltb v.boost e then (v.boost + v.boostunit) % 2 ^ 32 else v.boost))
        × Moved s r
  after_switch-Moved s p start e v laws w a =
      let c : Sched fl = add_elapsed fl p start e s in
      let same : Same s c = add_elapsed-Same s p start e in
      let wa : WellFormed c = Same-WellFormed s c w same (unfold add_elapsed in w.iters) in
      let m : Moved s c =
        Moved-same s c same.queues (λ i. ap (λ z. z.queue i) same.stride)
          (λ q. unfold add_elapsed in ground arith) in
      let (k, t, f, wt, mt) = update_any c p e laws wa (m.stays p a) in
      let (r, g, wr, mr) = boost-Moved fl t wt in
      let whole = after_lem s t r p start e v k f g in
      elim (Bool-cases (ltb v.boost e)) [
        | inl h ↦ (
          record v { keep_it = k; cur = some p; boost = (v.boost + v.boostunit) % 2 ^ 32 },
          r,
          whole ∙ rw h refl,
          wr,
          refl,
          rw h refl,
          Moved-trans m (Moved-trans mt mr),
        )
        | inr h ↦ (
          record v { keep_it = k; cur = some p },
          t,
          whole ∙ rw h refl,
          wt,
          refl,
          rw h refl,
          Moved-trans m mt,
        )
      ]

  -- The part of a round behind swtch always returns, for a process in the queues or in the stride
  -- scheduler: neither the move to a lower level nor the boost panics. The process is the current one for
  -- the next round, the next boost is put off exactly if it was due, and the queues are well-formed.
  pub after_switch_outcome :
      (s : Sched fl) (p start e : ℕ) (v : Locals)
      → FloatLaws fl
      → WellFormed s
      → InPlace s p
      → (w : Locals) × (r : Sched fl) × (after_switch fl p start e v s ≡ ok (w, r))
        × WellFormed r
        × (w.cur ≡ some p)
        × (w.boost ≡ (if ltb v.boost e then (v.boost + v.boostunit) % 2 ^ 32 else v.boost))
  after_switch_outcome s p start e v laws w a =
      let (u, r, f, wr, c, b, m) = after_switch-Moved s p start e v laws w a in (u, r, f, wr, c, b)
