-- ===== src/Stride/Begin.antt =====
-- mlfq_scheduler of ex_project3/HYU-ELE3021/xv6-public/mlfq.c: a round that reaches swtch leaves the
-- processes in their places.
use operating_system.Common.{
  ℕ, ◌≡◌, ◌⊎◌, inl, inr, refl, sym, ap, ◌∙◌, subst, Option, none, some, ok, bind_ok, get_elem?,
  arith, Bool-cases,
}
use operating_system.Mlfq.Proc.{Procstate, runnable, eqb_Procstate}
use operating_system.Stride.State.{Float, Sched}
use operating_system.Stride.Queues.{Verdict, next, keep, charge}
use operating_system.Stride.Turns.{
  Locals, choose, choose_anew, stay_or, start_or_idle, dispatch, before_switch,
}
use operating_system.Stride.Invariant.{WellFormed, FloatLaws, charge-WellFormed}
use operating_system.Stride.Moves.{
  InPlace, Moved, Moved-refl, Moved-trans, Moved-same, charge-Moved,
}
use operating_system.Stride.Minimum.{OrderLaws}
use operating_system.Stride.Selection.{Chosen, choose_outcomes}
use operating_system.Stride.Rounds.{dispatch-WellFormed}

-- What a choice leaves: the process is the current one or stands in a place.
pub record Chose {fl : Float} (s t : Sched fl) (cur : Option ℕ) (c : Option (ℕ × ℕ)) : Type 0 where
  pub wf : WellFormed t
  pub moved : Moved s t
  pub stands : (p u : ℕ) → c ≡ some (p, u) → (cur ≡ some p) ⊎ InPlace s p

pub record Began {fl : Float} (s r : Sched fl) (v w : Locals) : Type 0 where
  pub wf : WellFormed r
  pub moved : Moved s r
  pub stands : (p : ℕ) → w.cur ≡ some p → (v.cur ≡ some p) ⊎ InPlace s p

Chosen-InPlace : {fl : Float} (s : Sched fl) (p : ℕ) → Chosen s p → InPlace s p
Chosen-InPlace s p (inl (i, e, m, f)) = inr (i, e)
Chosen-InPlace s p (inr (l, i, e, m, n)) = inl (l, i, e)

module _ (fl : Float) (laws : FloatLaws fl) (order : OrderLaws fl) where
  choose_anew-Chose :
      (s t : Sched fl) (idx i : ℕ) (cur : Option ℕ) (c : Option (ℕ × ℕ))
      → WellFormed s
      → choose_anew fl idx s ≡ ok ((c, i), t)
      → Chose s t cur c
  choose_anew-Chose s t idx i cur c w e = elim (choose_outcomes fl s idx laws order w) [
    | inl (r, p, k, f, runs, chosen, same, procs, wr) ↦
        let eq : ok ((some (p, k), k), r) ≡ ok ((c, i), t) = sym f ∙ e in
        let states : r ≡ t = cc eq in
        let choice : some (p, k) ≡ c = cc eq in
        record {
          wf = subst WellFormed states wr;
          moved = subst (Moved s) states (
              Moved-same s r same.queues (λ j. ap (λ z. z.queue j) same.stride)
                (λ q. ap (λ z. (z q).state) procs));
          stands = λ q u g.
              let who : p ≡ q = cc (choice, g) in
              inr (subst (InPlace s) who (Chosen-InPlace s p chosen));
        }
    | inr (f, above, mini) ↦
        let eq : ok ((none, idx), s) ≡ ok ((c, i), t) = sym f ∙ e in
        let states : s ≡ t = cc eq in
        let choice : none ≡ c = cc eq in
        record {
          wf = subst WellFormed states w;
          moved = subst (Moved s) states (Moved-refl s);
          stands = λ q u g. absurd (cc (choice, g));
        }
  ]

  stay-Chose :
      (s t : Sched fl) (idx i p k : ℕ) (c : Option (ℕ × ℕ)) (x : Option Procstate)
      → WellFormed s
      → stay_or fl idx p k x s ≡ ok ((c, i), t)
      → Chose s t (some p) c
  stay-Chose s t idx i p k c none w e = absurd (cc e)
  stay-Chose s t idx i p k c (some x) w e = elim (Bool-cases (eqb_Procstate x runnable)) [
    | inl h ↦
        let states : s ≡ t = ground (arith, e, h) in
        let choice : some (p, k) ≡ c = ground (arith, e, h) in
        record {
          wf = subst WellFormed states w;
          moved = subst (Moved s) states (Moved-refl s);
          stands = λ q u g. inl (ground (arith, choice, g));
        }
    | inr h ↦ choose_anew-Chose s t idx i (some p) c w (ground (arith, e, h))
  ]

  choose-Chose :
      (s t : Sched fl) (k : Verdict) (cur : Option ℕ) (idx i : ℕ) (c : Option (ℕ × ℕ))
      → WellFormed s
      → choose fl k cur idx s ≡ ok ((c, i), t)
      → Chose s t cur c
  choose-Chose s t next cur idx i c w e = choose_anew-Chose s t idx i cur c w e
  choose-Chose s t keep none idx i c w e = absurd (cc e)
  choose-Chose s t keep (some p) idx i c w e =
      stay-Chose s t idx i p (s.proc p).tidx c (get_elem? (s.proc p).threads (s.proc p).tidx) w e

  dispatch-Moved : (s : Sched fl) (now p t : ℕ) → Moved s (dispatch fl now p t s)
  unfolding dispatch
  dispatch-Moved s now p t =
      Moved-same s (dispatch fl now p t s) (λ l i. refl) (λ i. refl) (λ q. ground arith)

  started-Began :
      (s t r : Sched fl) (now i : ℕ) (v w : Locals) (c : Option (ℕ × ℕ))
      → Chose s t v.cur c
      → start_or_idle fl now (record v { idx = i }) c t ≡ ok (w, r)
      → Began s r v w
  started-Began s t r now i v w none a e =
      let states : charge fl 0 t ≡ r = ground (arith, e) in
      let locals : record v { idx = i; keep_it = next; cur = none } ≡ w = ground (arith, e) in
      record {
        wf =
            subst WellFormed states
              (charge-WellFormed fl t 0 laws a.wf (ground (arith, a.wf.head)));
        moved = subst (Moved s) states (Moved-trans a.moved (charge-Moved fl t 0));
        stands = λ p g. absurd (ground (arith, ap (λ z. z.cur) locals, g));
      }
  started-Began s t r now i v w (some (p, k)) a e =
      let states : dispatch fl now p k t ≡ r = ground (arith, e) in
      let locals : record v { idx = i; cur = some p } ≡ w = ground (arith, e) in
      record {
        wf = subst WellFormed states (dispatch-WellFormed fl t now p k a.wf);
        moved = subst (Moved s) states (Moved-trans a.moved (dispatch-Moved t now p k));
        stands = λ q g.
            let who : p ≡ q = ground (arith, ap (λ z. z.cur) locals, g) in
            subst (λ z. (v.cur ≡ some z) ⊎ InPlace s z) who (a.stands p k refl);
      }

  -- Whatever the scheduler did before, a round up to swtch keeps the queues well-formed, the processes in
  -- their places and their states; the process that it runs is that of the round before or stands in a
  -- place.
  pub before_switch-Began :
      (s r : Sched fl) (now : ℕ) (v w : Locals)
      → WellFormed s
      → before_switch fl now v s ≡ ok (w, r)
      → Began s r v w
  unfolding before_switch
  before_switch-Began s r now v w a e =
      let ((c, i), t, f, g) =
        bind_ok (choose fl v.keep_it v.cur v.idx)
          (λ (c, i). start_or_idle fl now (record v { idx = i }) c) s r w e in
      started-Began s t r now i v w c (choose-Chose s t v.keep_it v.cur v.idx i c a f) g
