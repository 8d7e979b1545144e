-- ===== src/Stride/Frames.antt =====
-- What mlfq_append, mlfq_delete and mlfq_cpu_share of ex_project3/HYU-ELE3021/xv6-public/mlfq.c do to the places
-- of the other processes.
use operating_system.Common.{
  ℕ, ◌+◌, ◌^◌, ◌<◌, ◌≤◌, ◌≡◌, ◌≢◌, inl, inr, refl, ap, ◌∙◌, subst, ◌==◌, ◌||◌, ◌%◌, not, ltb_ℤ,
  to_u32, ltb, Bool, true, false, Option, none, some, ℤ, pos, negsuc, ok, same_state, bind_ok,
  branch, pure, ◌>>◌, arith, Bool-cases, Option-cases,
}
use operating_system.Stride.State.{Float, nproc, max_stride, client, Sched, is_empty, find_place}
use operating_system.Stride.Places.{find_place-some}
use operating_system.Stride.Tickets.{enlist, enlist_at, stride_append, stride_delete}
use operating_system.Stride.Queues.{put_queue, enqueue, clear_place, mlfq_delete, mlfq_cpu_share}
use operating_system.Stride.Invariant.{WellFormed, Unqueued}
use operating_system.Stride.Moves.{InPlace, Moved, Moved-refl, share-Moved}
use operating_system.Stride.Operations.{
  delete_outcomes, append_refused, append_searched, Shared-found, cpu_share_found,
  cpu_share_refused,
}

-- The processes other than `p` stay in their places, and outside of them.
pub record Others {fl : Float} (s r : Sched fl) (p : ℕ) : Type 0 where
  pub stays : (q : ℕ) → p ≢ q → InPlace s q → InPlace r q
  pub came : (q : ℕ) → p ≢ q → InPlace r q → InPlace s q
  pub state : (q : ℕ) → (r.proc q).state ≡ (s.proc q).state

module _ (fl : Float) where
  pub enqueue-Others :
      (s : Sched fl) (p l i : ℕ) → s.queue l i ≡ none → Others s (enqueue fl p l i s) p
  unfolding enqueue
  enqueue-Others s p l i e = record {
    stays = λ q n a. elim a [
      | inl (m, j, f) ↦ inl (m, j, ground (arith, e, f))
      | inr (j, f) ↦ inr (j, f)
    ];
    came = λ q n a. elim a [
      | inl (m, j, f) ↦ inl (m, j, ground (arith, f, n))
      | inr (j, f) ↦ inr (j, f)
    ];
    state = λ q. ground arith;
  }

  pub enqueue-queue : (s : Sched fl) (p l i : ℕ) → (enqueue fl p l i s).queue l i ≡ some p
  unfolding enqueue
  enqueue-queue s p l i = ground arith

  cleared-Others :
      (s : Sched fl) (p l i : ℕ) → s.queue l i ≡ some p → Others s (put_queue fl l i none s) p
  cleared-Others s p l i e = record {
    stays = λ q n a. elim a [
      | inl (m, j, f) ↦ inl (m, j, ground (arith, e, f, n))
      | inr (j, f) ↦ inr (j, f)
    ];
    came =
        λ q n a. elim a [ inl (m, j, f) ↦ inl (m, j, ground (arith, f)) | inr (j, f) ↦ inr (j, f) ];
    state = λ q. refl;
  }

  dropped-Others :
      (s : Sched fl) (p : ℕ)
      → s.stride.queue (s.proc p).index ≡ client p
      → Others s (stride_delete fl p s) p
  unfolding stride_delete
  dropped-Others s p e = record {
    stays = λ q n a. elim a [
      | inl (m, j, f) ↦ inl (m, j, f)
      | inr (j, f) ↦ inr (j, ground (arith, e, f, n))
    ];
    came =
        λ q n a. elim a [ inl (m, j, f) ↦ inl (m, j, f) | inr (j, f) ↦ inr (j, ground (arith, f)) ];
    state = λ q. refl;
  }

  -- mlfq_delete takes out the process, and no other.
  pub delete-Others :
      (s : Sched fl) (p : ℕ)
      → WellFormed s
      → InPlace s p
      → (r : Sched fl) × (mlfq_delete fl p s ≡ ok (tt, r))
        × WellFormed r
        × Unqueued p r
        × Others s r p
  unfolding mlfq_delete clear_place
  delete-Others s p w (inl (l, i, e)) =
      let (r, f, wr, u) = delete_outcomes fl s p w (inl (l, i, e)) in
      let g : mlfq_delete fl p s ≡ ok (tt, put_queue fl l i none s) =
        ground (arith, w.placed l i p) in
      let same : put_queue fl l i none s ≡ r = same_state (mlfq_delete fl p) tt tt s _ r g f in
      (r, f, wr, u, subst (λ z. Others s z p) same (cleared-Others s p l i e))
  delete-Others s p w (inr (i, e)) =
      let (r, f, wr, u) = delete_outcomes fl s p w (inr (i, e)) in
      let (lo, hi, lp, lev, ind, more) = w.enlisted i p e in
      let g : mlfq_delete fl p s ≡ ok (tt, stride_delete fl p s) = ground (arith, lev) in
      let same : stride_delete fl p s ≡ r = same_state (mlfq_delete fl p) tt tt s _ r g f in
      (r, f, wr, u, subst (λ z. Others s z p) same (dropped-Others s p (ap s.stride.queue ind ∙ e)))

  -- What a call of mlfq_cpu_share leaves, whatever it returns.
  pub record Asked (s r : Sched fl) : Type 0 where
    pub wf : WellFormed r
    pub moved : Moved s r

  unchanged-Asked :
      (s r : Sched fl) (p : ℕ) (u : ℤ) (b : Bool)
      → WellFormed s
      → mlfq_cpu_share fl p u s ≡ ok (false, s)
      → mlfq_cpu_share fl p u s ≡ ok (b, r)
      → Asked s r
  unchanged-Asked s r p u b w f e =
      let same : s ≡ r = same_state (mlfq_cpu_share fl p u) false b s s r f e in
      record { wf = subst WellFormed same w; moved = subst (Moved s) same (Moved-refl s) }

  listed-Asked :
      (s r : Sched fl) (p l i u : ℕ) (b : Bool)
      → WellFormed s
      → s.queue l i ≡ some p
      → 0 < u
      → s.stride.total + u ≤ 80
      → mlfq_cpu_share fl p (pos u) s ≡ ok (b, r)
      → Asked s r
  listed-Asked s r p l i u b w q a fits e =
      elim (Option-cases (find_place (λ j. is_empty (s.stride.queue j)) nproc 0)) [
        | inl f ↦
            unchanged-Asked s r p (pos u) b w
              (cpu_share_refused fl s p u (append_searched fl s p u a fits ∙ rw f refl)) e
        | inr (k, f) ↦
            let (lo, hi, t, before) =
              find_place-some (λ j. is_empty (s.stride.queue j)) nproc 0 k f in
            let g =
              cpu_share_found fl s p l i u k w q (append_searched fl s p u a fits ∙ rw f refl) in
            let same : enlist fl p (pos u) k (put_queue fl l i none s) ≡ r =
              same_state (mlfq_cpu_share fl p (pos u)) true b s _ r g e in
            record {
              wf =
                  subst WellFormed same (Shared-found fl s p l i u k w q a fits t (omega arith)).wf;
              moved = subst (Moved s) same (share-Moved fl s p l i u k w q t);
            }
      ]

  enlist_at-refused :
      (s t : Sched fl) (p : ℕ) (u : ℤ) (o : Option ℕ) → enlist_at fl p u o s ≡ ok (false, t) → s ≡ t
  enlist_at-refused s t p u none e = cc e
  enlist_at-refused s t p u (some i) e = absurd (cc e)

  append-refused : (s t : Sched fl) (p : ℕ) (u : ℤ) → stride_append fl p u s ≡ ok (false, t) → s ≡ t
  unfolding stride_append
  append-refused s t p u e =
      elim (Bool-cases
        (ltb max_stride ((s.stride.total + to_u32 u) % 2 ^ 32) || not (ltb_ℤ (pos 0) u))) [
          | inl h ↦ cc (rw h at e)
          | inr h ↦
              enlist_at-refused s t p u (find_place (λ i. is_empty (s.stride.queue i)) nproc 0)
                (rw h at e)
        ]

  shared_out :
      (t r : Sched fl) (l : ℤ) (i : ℕ) (b : Bool)
      → branch b (clear_place fl l i >> pure true) (pure false) t ≡ ok (false, r)
      → (b ≡ false) × (t ≡ r)
  shared_out t r l i true e =
      let (u, z, f, g) = bind_ok (clear_place fl l i) (λ u. pure true) t r false e in absurd (cc g)
  shared_out t r l i false e = (refl, cc e)

  -- A share that is refused changes nothing.
  refused-Asked :
      (s r : Sched fl) (p : ℕ) (u : ℤ)
      → WellFormed s
      → mlfq_cpu_share fl p u s ≡ ok (false, r)
      → Asked s r
  refused-Asked s r p u w e =
      let (b, t, f, g) =
        bind_ok (stride_append fl p u)
          (λ done.
            branch done (do clear_place fl (s.proc p).level (s.proc p).index; pure true)
              (pure false))
          s r false (unfold mlfq_cpu_share in e) in
      let (lacks, same) = shared_out t r (s.proc p).level (s.proc p).index b g in
      let kept : s ≡ t =
        append-refused s t p u (subst (λ z. stride_append fl p u s ≡ ok (z, t)) lacks f) in
      record {
        wf = subst WellFormed (kept ∙ same) w;
        moved = subst (Moved s) (kept ∙ same) (Moved-refl s);
      }

  queued-Asked :
      (s r : Sched fl) (p l i u : ℕ) (b : Bool)
      → WellFormed s
      → s.queue l i ≡ some p
      → u < 2 ^ 31
      → mlfq_cpu_share fl p (pos u) s ≡ ok (b, r)
      → Asked s r
  queued-Asked s r p l i u b w q x e = elim (Bool-cases (u == 0 || ltb 80 (s.stride.total + u))) [
    | inl over ↦
        unchanged-Asked s r p (pos u) b w
          (cpu_share_refused fl s p u (append_refused fl s p u w x (ground arith))) e
    | inr under ↦ listed-Asked s r p l i u b w q (ground arith) (ground arith) e
  ]

  negative_refused : (s : Sched fl) (p n : ℕ) → mlfq_cpu_share fl p (negsuc n) s ≡ ok (false, s)
  unfolding mlfq_cpu_share stride_append
  negative_refused s p n = ground arith

  -- The argument of mlfq_cpu_share is an int, and a process that has a share does not get another.
  pub record Request (s : Sched fl) (p : ℕ) (usage : ℤ) (b : Bool) : Type 0 where
    pub int : (u : ℕ) → usage ≡ pos u → u < 2 ^ 31
    pub once : (s.proc p).level ≡ negsuc 0 → b ≡ false

  -- mlfq_cpu_share moves a process that stands in a place at most.
  pub cpu_share-Asked :
      (s r : Sched fl) (p : ℕ) (usage : ℤ) (b : Bool)
      → WellFormed s
      → InPlace s p
      → Request s p usage b
      → mlfq_cpu_share fl p usage s ≡ ok (b, r)
      → Asked s r
  cpu_share-Asked s r p (negsuc n) b w a h e =
      unchanged-Asked s r p (negsuc n) b w (negative_refused s p n) e
  cpu_share-Asked s r p (pos u) b w (inl (l, i, q)) h e =
      queued-Asked s r p l i u b w q (h.int u refl) e
  cpu_share-Asked s r p (pos u) b w (inr (i, q)) h e =
      let (lo, hi, lp, lev, ind, more) = w.enlisted i p q in
      refused-Asked s r p (pos u) w
        (subst (λ z. mlfq_cpu_share fl p (pos u) s ≡ ok (z, r)) (h.once lev) e)
