-- ===== src/Procs/Invariant.antt =====
-- ex_project3/HYU-ELE3021/xv6-public/proc.c with mlfq.c: the entries of the process table and the places of
-- the scheduler.
use operating_system.Common.{
  ℕ, ◌<◌, ◌≡◌, ◌≢◌, inl, inr, sym, ap, ◌∙◌, subst, ◌==◌, Bool, true, false, some, arith, Bool-cases,
}
use operating_system.Mlfq.Proc.{unused, eqb_Procstate}
use operating_system.Stride.State.{Float, nproc, Sched}
use operating_system.Stride.Turns.{Locals}
use operating_system.Stride.Invariant.{WellFormed, Same, Same-WellFormed}
use operating_system.Stride.Moves.{InPlace, Moved}
use operating_system.Procs.State.{Kernel}
use operating_system.Procs.Alike.{Alike}

abbrev pub is_unused : {fl : Float} → Sched fl → ℕ → Bool
is_unused s p = eqb_Procstate (s.proc p).state unused

-- The processes that are not UNUSED stand in a place, and the others in none; the current process is the
-- one that the scheduler has chosen, and stands in a place.
pub record Kept {fl : Float} (k : Kernel fl) (v : Locals) : Type 0 where
  pub wf : WellFormed k.sched
  pub idle : (p : ℕ) → p < nproc → is_unused k.sched p ≡ true → ¬ InPlace k.sched p
  pub busy : (p : ℕ) → p < nproc → is_unused k.sched p ≡ false → InPlace k.sched p
  pub current : (p : ℕ) → k.cpu.proc ≡ some p → v.cur ≡ some p
  pub chosen : (p : ℕ) → v.cur ≡ some p → InPlace k.sched p

module _ {fl : Float} where
  pub InPlace-below : (s : Sched fl) (p : ℕ) → WellFormed s → InPlace s p → p < nproc
  InPlace-below s p w (inl (l, i, e)) = ground (arith, w.placed l i p)
  InPlace-below s p w (inr (i, e)) = ground (arith, w.enlisted i p)

  -- A process in a place is not UNUSED.
  pub InPlace-is_unused :
      (k : Kernel fl) (v : Locals) (p : ℕ)
      → Kept k v
      → InPlace k.sched p
      → is_unused k.sched p ≡ false
  InPlace-is_unused k v p h a = elim (Bool-cases (is_unused k.sched p)) [
    | inl e ↦ absurd (h.idle p (InPlace-below k.sched p h.wf a) e a)
    | inr e ↦ e
  ]

  pub Same-stays : (s r : Sched fl) (p : ℕ) → Same s r → InPlace s p → InPlace r p
  Same-stays s r p a (inl (l, i, e)) = inl (l, i, a.queues l i ∙ e)
  Same-stays s r p a (inr (i, e)) = inr (i, ap (λ z. z.queue i) a.stride ∙ e)

  pub Same-came : (s r : Sched fl) (p : ℕ) → Same s r → InPlace r p → InPlace s p
  Same-came s r p a (inl (l, i, e)) = inl (l, i, sym (a.queues l i) ∙ e)
  Same-came s r p a (inr (i, e)) = inr (i, sym (ap (λ z. z.queue i) a.stride) ∙ e)

  pub Alike-Kept : (k r : Kernel fl) (v : Locals) → Kept k v → Alike k r → Kept r v
  Alike-Kept k r v h a = record {
    wf = Same-WellFormed k.sched r.sched h.wf a.same (λ l. rw (a.iters l) (h.wf.iters l));
    idle = λ p b e m. h.idle p b (sym (a.alive p) ∙ e) (Same-came k.sched r.sched p a.same m);
    busy = λ p b e. Same-stays k.sched r.sched p a.same (h.busy p b (sym (a.alive p) ∙ e));
    current = λ p e. h.current p (sym a.current ∙ e);
    chosen = λ p e. Same-stays k.sched r.sched p a.same (h.chosen p e);
  }

  -- The scheduler moves processes from place to place, and may choose another.
  pub Moved-Kept :
      (k r : Kernel fl) (v w : Locals)
      → Kept k v
      → WellFormed r.sched
      → Moved k.sched r.sched
      → ((p : ℕ) → r.cpu.proc ≡ some p → w.cur ≡ some p)
      → ((p : ℕ) → w.cur ≡ some p → InPlace k.sched p)
      → Kept r w
  Moved-Kept k r v w h wf m c d = record {
    wf = wf;
    idle =
        λ p b e a. h.idle p b (ap (λ z. eqb_Procstate z unused) (sym (m.state p)) ∙ e) (m.came p a);
    busy = λ p b e. m.stays p (h.busy p b (ap (λ z. eqb_Procstate z unused) (sym (m.state p)) ∙ e));
    current = c;
    chosen = λ p e. m.stays p (d p e);
  }

  -- A process enters a place or leaves it, and the others stay.
  pub Others-Kept :
      (k r : Kernel fl) (v : Locals) (p : ℕ)
      → Kept k v
      → WellFormed r.sched
      → ((q : ℕ) → p ≢ q → InPlace k.sched q → InPlace r.sched q)
      → ((q : ℕ) → p ≢ q → InPlace r.sched q → InPlace k.sched q)
      → ((q : ℕ) → p ≢ q → is_unused r.sched q ≡ is_unused k.sched q)
      → (is_unused r.sched p ≡ true → ¬ InPlace r.sched p)
      → (is_unused r.sched p ≡ false → InPlace r.sched p)
      → r.cpu.proc ≡ k.cpu.proc
      → v.cur ≢ some p
      → Kept r v
  Others-Kept k r v p h wf stays came state idle busy cpu other = record {
    wf = wf;
    idle = λ q b e. elim (Bool-cases (p == q)) [
      | inl s ↦
          let here : p ≡ q = ground arith in
          subst (λ z. ¬ InPlace r.sched z) here (idle (ap (is_unused r.sched) here ∙ e))
      | inr n ↦
          let away : p ≢ q = ground arith in
          λ a. h.idle q b (sym (state q away) ∙ e) (came q away a)
    ];
    busy = λ q b e. elim (Bool-cases (p == q)) [
      | inl s ↦
          let here : p ≡ q = ground arith in
          subst (InPlace r.sched) here (busy (ap (is_unused r.sched) here ∙ e))
      | inr n ↦
          let away : p ≢ q = ground arith in stays q away (h.busy q b (sym (state q away) ∙ e))
    ];
    current = λ q e. h.current q (sym cpu ∙ e);
    chosen = λ q e. stays q (λ same. other (e ∙ ap some (sym same))) (h.chosen q e);
  }
