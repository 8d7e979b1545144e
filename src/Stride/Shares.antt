-- ===== src/Stride/Shares.antt =====
-- The tickets of ex_project3/HYU-ELE3021/xv6-public/mlfq.c: stride_append and stride_delete keep the
-- invariant.
use operating_system.Common.{
  ℕ, zero, suc, ◌+◌, ◌-◌, ◌%◌, ◌^◌, ◌<◌, ◌≤◌, ◌≡◌, ◌≢◌, ap, true, pos, update, arith, sum_below,
  sum_below-update,
}
use operating_system.Stride.State.{Float, nproc, client, Sched, is_empty}
use operating_system.Stride.Tickets.{enlist, stride_delete}
use operating_system.Stride.Invariant.{WellFormed, Unqueued}

module _ (fl : Float) where
  -- The sum of the tickets where one place changes.
  shares_update :
      (t : ℕ → ℕ) (i v z : ℕ)
      → 0 < i
      → i < nproc
      → sum_below (nproc - 1) (λ j. update (update t 0 z) i v (suc j)) + t i
        ≡ sum_below (nproc - 1) (λ j. t (suc j)) + v
  shares_update t zero v z a b = elim a [ ]
  shares_update t (suc k) v z a b =
      let moved : sum_below (nproc - 1) (λ j. update (update t 0 z) (suc k) v (suc j)) + t (suc k)
          ≡ sum_below (nproc - 1) (λ j. t (suc j)) + update (update t 0 z) (suc k) v (suc k) =
        sum_below-update (nproc - 1) k (λ j. t (suc j))
          (λ j. update (update t 0 z) (suc k) v (suc j)) (omega arith) (λ j d. ground arith) in
      let here : update (update t 0 z) (suc k) v (suc k) ≡ v = ground arith in
      omega (arith, moved, here)

  pub enlist-WellFormed :
      (s : Sched fl) (p u i : ℕ)
      → WellFormed s
      → Unqueued p s
      → p < nproc
      → 0 < u
      → s.stride.total + u ≤ 80
      → is_empty (s.stride.queue i) ≡ true
      → i < nproc
      → WellFormed (enlist fl p (pos u) i s)
  unfolding enlist
  enlist-WellFormed s p u i w a b c d e f =
      let ne : i ≢ 0 = λ z. ground (arith, ap s.stride.queue z, w.head) in
      record {
        placed = λ m j q g. ground (arith, w.placed m j q, a.no_queue m j);
        enlisted = λ j q g. ground (arith, w.enlisted j q, a.no_client j);
        head = ground (arith, w.head);
        only_head = λ j g. ground (arith, w.only_head j);
        whole = ground (arith, w.whole);
        limit = ground (arith, w.limit);
        shares = omega (
          arith,
          w.limit,
          w.shares,
          (w.vacant i e).0,
          shares_update s.stride.ticket i u ((s.stride.ticket 0 + 2 ^ 32 - u) % 2 ^ 32)
              (omega arith) f,
        );
        vacant = λ j g. ground (arith, w.vacant j);
        iters = λ m. w.iters m;
      }

  pub ticket-le_total :
      (s : Sched fl) (i : ℕ) → WellFormed s → 0 < i → i < nproc → s.stride.ticket i ≤ s.stride.total
  ticket-le_total s i w a b = omega (arith, w.shares, shares_update s.stride.ticket i 0 0 a b)

  pub stride_delete-WellFormed :
      (s : Sched fl) (p : ℕ)
      → WellFormed s
      → s.stride.queue (s.proc p).index ≡ client p
      → WellFormed (stride_delete fl p s) × Unqueued p (stride_delete fl p s)
  unfolding stride_delete
  stride_delete-WellFormed s p w e =
      let i : ℕ = (s.proc p).index in
      let (lo, hi, b, lev, ind, pos_t) = w.enlisted i p e in
      let le : s.stride.ticket i ≤ s.stride.total = ticket-le_total s i w lo hi in
      (
        record {
          placed = λ m j q g. w.placed m j q g;
          enlisted = λ j q g. ground (arith, w.enlisted j q);
          head = ground (arith, w.head);
          only_head = λ j g. ground (arith, w.only_head j);
          whole = ground (arith, w.whole, w.limit);
          limit = ground (arith, w.limit);
          shares = omega (
            arith,
            w.limit,
            w.shares,
            shares_update s.stride.ticket i 0 ((s.stride.ticket 0 + s.stride.ticket i) % 2 ^ 32) lo
                hi,
          );
          vacant = λ j g. ground (arith, w.vacant j);
          iters = λ m. w.iters m;
        },
        record {
          no_queue = λ m j g. ground (arith, w.placed m j p);
          no_client = λ j g. ground (arith, w.enlisted j p);
        },
      )
