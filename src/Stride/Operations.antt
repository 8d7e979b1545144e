-- ===== src/Stride/Operations.antt =====
-- The operations on the queues and the stride scheduler: their outcomes, with the invariant kept.
use operating_system.Common.{
  ℕ, ◌+◌, ◌^◌, ◌<◌, ◌≤◌, ◌≡◌, ◌≢◌, ◌⊎◌, inl, inr, refl, ap, ◌∙◌, ◌==◌, ltb, true, false, ◌||◌, none,
  some, pos, ok, arith, Bool-cases, Option-cases,
}
use operating_system.Stride.State.{
  Float, nproc, nmlfq, client, Sched, is_none, is_empty, find_place,
}
use operating_system.Stride.Places.{find_place-some, find_place-none}
use operating_system.Stride.Tickets.{stride_append, enlist, enlist_at, stride_delete}
use operating_system.Stride.Queues.{
  put_queue, enqueue, mlfq_append, clear_place, mlfq_cpu_share, mlfq_delete,
}
use operating_system.Stride.Invariant.{WellFormed, Unqueued, enqueue-WellFormed, clear-WellFormed}
use operating_system.Stride.Shares.{enlist-WellFormed, stride_delete-WellFormed}

module _ (fl : Float) where
  -- mlfq_append of a process that is in no place.
  pub append_outcomes :
      (s : Sched fl) (p l : ℕ)
      → WellFormed s
      → Unqueued p s
      → p < nproc
      → l < nmlfq
      → ((i : ℕ) × (s.queue l i ≡ none)
          × (mlfq_append fl p l s ≡ ok (true, enqueue fl p l i s))
          × WellFormed (enqueue fl p l i s))
        ⊎ ((mlfq_append fl p l s ≡ ok (false, s))
            × ((i : ℕ) → i < nproc → is_none (s.queue l i) ≡ false))
  unfolding mlfq_append
  append_outcomes s p l w a b c =
      elim (Option-cases (find_place (λ i. is_none (s.queue l i)) nproc 0)) [
        | inl e ↦ inr (
          rw e refl,
          λ i d.
              find_place-none (λ i. is_none (s.queue l i)) nproc 0 e i (omega arith) (omega arith),
        )
        | inr (i, e) ↦
            let (lo, hi, t, before) = find_place-some (λ i. is_none (s.queue l i)) nproc 0 i e in
            inl
              (i, ground (arith, t), rw e refl, enqueue-WellFormed fl s p l i w a b c (omega arith))
      ]

  pub append_refused :
      (s : Sched fl) (p u : ℕ)
      → WellFormed s
      → u < 2 ^ 31
      → (u ≡ 0) ⊎ (80 < s.stride.total + u)
      → stride_append fl p (pos u) s ≡ ok (false, s)
  unfolding stride_append
  append_refused s p u w b h = ground (arith, w.limit)

  pub append_searched :
      (s : Sched fl) (p u : ℕ)
      → 0 < u
      → s.stride.total + u ≤ 80
      → stride_append fl p (pos u) s
        ≡ enlist_at fl p (pos u) (find_place (λ j. is_empty (s.stride.queue j)) nproc 0) s
  unfolding stride_append
  append_searched s p u a b = ground arith

  -- The share that fits, at the place that was found.
  pub cpu_share_found :
      (s : Sched fl) (p l i u idx : ℕ)
      → WellFormed s
      → s.queue l i ≡ some p
      → stride_append fl p (pos u) s ≡ ok (true, enlist fl p (pos u) idx s)
      → mlfq_cpu_share fl p (pos u) s ≡ ok (true, enlist fl p (pos u) idx (put_queue fl l i none s))
  unfolding mlfq_cpu_share clear_place enlist
  cpu_share_found s p l i u idx w e f = ground (arith, w.placed l i p)

  pub cpu_share_refused :
      (s : Sched fl) (p u : ℕ)
      → stride_append fl p (pos u) s ≡ ok (false, s)
      → mlfq_cpu_share fl p (pos u) s ≡ ok (false, s)
  unfolding mlfq_cpu_share
  cpu_share_refused s p u f = ground arith

  -- Why a share is refused: it is zero, does not fit, or every place is taken.
  abbrev pub Refusal : Sched fl → ℕ → Type 0
  Refusal s u =
      (u ≡ 0)
      ⊎ (80 < s.stride.total + u)
      ⊎ ((j : ℕ) → j < nproc → is_empty (s.stride.queue j) ≡ false)

  -- A process with a share: it has that many tickets, the feedback queue as many fewer, and it is out of
  -- the queues.
  pub record Shared (s r : Sched fl) (p u : ℕ) : Type 0 where
    pub wf : WellFormed r
    pub listed : r.stride.queue (r.proc p).index ≡ client p
    pub tickets : r.stride.ticket (r.proc p).index ≡ u
    pub total_up : r.stride.total ≡ s.stride.total + u
    pub head_down : r.stride.ticket 0 + u ≡ s.stride.ticket 0
    pub gone : (m j : ℕ) → r.queue m j ≢ some p

  pub Shared-found :
      (s : Sched fl) (p l i u idx : ℕ)
      → WellFormed s
      → s.queue l i ≡ some p
      → 0 < u
      → s.stride.total + u ≤ 80
      → is_empty (s.stride.queue idx) ≡ true
      → idx < nproc
      → Shared s (enlist fl p (pos u) idx (put_queue fl l i none s)) p u
  unfolding enlist
  Shared-found s p l i u idx w e a b t d =
      let (wc, ac) = clear-WellFormed fl s p l i w e in
      let (ll, li, lp, lev, ind) = w.placed l i p e in
      let ne : idx ≢ 0 = λ z. ground (arith, ap s.stride.queue z, w.head) in
      record {
        wf = enlist-WellFormed fl (put_queue fl l i none s) p u idx wc ac lp a b t d;
        listed = ground arith;
        tickets = ground arith;
        total_up = ground arith;
        head_down = ground (arith, w.whole);
        gone = λ m j f. ac.no_queue m j f;
      }

  -- mlfq_cpu_share for a process of the feedback queue and an int u ≥ 0. It succeeds: the process leaves
  -- the queues for a place of the stride scheduler with u tickets, the feedback queue has u tickets
  -- fewer, and the invariant holds. Or it returns -1 and nothing changes, because the share is 0, or the
  -- shares would exceed max_stride, or no place is free.
  pub cpu_share_outcomes :
      (s : Sched fl) (p l i u : ℕ)
      → WellFormed s
      → s.queue l i ≡ some p
      → u < 2 ^ 31
      → ((r : Sched fl) × (mlfq_cpu_share fl p (pos u) s ≡ ok (true, r)) × Shared s r p u)
        ⊎ ((mlfq_cpu_share fl p (pos u) s ≡ ok (false, s)) × Refusal s u)
  cpu_share_outcomes s p l i u w e b = elim (Bool-cases (u == 0 || ltb 80 (s.stride.total + u))) [
    | inl over ↦
        let why : (u ≡ 0) ⊎ (80 < s.stride.total + u) = ground arith in
        inr (
          cpu_share_refused s p u (append_refused s p u w b why),
          elim why [ inl z ↦ inl z | inr z ↦ inr (inl z) ],
        )
    | inr under ↦
        let a : 0 < u = ground arith in
        let fits : s.stride.total + u ≤ 80 = ground arith in
        elim (Option-cases (find_place (λ j. is_empty (s.stride.queue j)) nproc 0)) [
          | inl f ↦ inr (
            cpu_share_refused s p u (append_searched s p u a fits ∙ rw f refl),
            inr (
                inr (λ j d.
                  find_place-none (λ j. is_empty (s.stride.queue j)) nproc 0 f j (omega arith)
                    (omega arith))),
          )
          | inr (idx, f) ↦
              let (lo, hi, t, before) =
                find_place-some (λ j. is_empty (s.stride.queue j)) nproc 0 idx f in
              inl (
                enlist fl p (pos u) idx (put_queue fl l i none s),
                cpu_share_found s p l i u idx w e (append_searched s p u a fits ∙ rw f refl),
                Shared-found s p l i u idx w e a fits t (omega arith),
              )
        ]
  ]

  -- mlfq_delete takes a process out of its place, be it in the queues or in the stride scheduler.
  pub delete_outcomes :
      (s : Sched fl) (p : ℕ)
      → WellFormed s
      → ((l i : ℕ) × (s.queue l i ≡ some p)) ⊎ ((i : ℕ) × (s.stride.queue i ≡ client p))
      → (r : Sched fl) × (mlfq_delete fl p s ≡ ok (tt, r)) × WellFormed r × Unqueued p r
  unfolding mlfq_delete clear_place
  delete_outcomes s p w (inl (l, i, e)) =
      let (wc, ac) = clear-WellFormed fl s p l i w e in
      (put_queue fl l i none s, ground (arith, w.placed l i p), wc, ac)
  delete_outcomes s p w (inr (i, e)) =
      let (lo, hi, lp, lev, ind, more) = w.enlisted i p e in
      let (wd, ad) = stride_delete-WellFormed fl s p w (ap s.stride.queue ind ∙ e) in
      (stride_delete fl p s, ground (arith, lev), wd, ad)
