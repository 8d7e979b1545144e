-- ===== src/Procs/Scheduling.antt =====
-- A round of mlfq_scheduler in ex_project3/HYU-ELE3021/xv6-public/mlfq.c keeps the entries of the process table
-- and the places of the scheduler in agreement.
use operating_system.Common.{
  ℕ, ◌≡◌, inl, inr, refl, sym, ◌∙◌, subst, Option, none, some, ok, bind_ok, zoom_ok, ◌∷◌, pure,
  ◌>>=◌, ◌>>◌,
}
use operating_system.Mlfq.Spinlock.{ptable_lock, sti}
use operating_system.Mlfq.Proc.{switchkvm}
use operating_system.Stride.State.{Float, Sched}
use operating_system.Stride.Turns.{Locals, before_switch, after_switch}
use operating_system.Stride.Invariant.{FloatLaws, WellFormed}
use operating_system.Stride.Minimum.{OrderLaws}
use operating_system.Stride.Moves.{InPlace, Moved}
use operating_system.Stride.Begin.{Began, before_switch-Began}
use operating_system.Stride.Rounds.{after_switch-Moved}
use operating_system.Procs.State.{Kernel, put_cpu, put_sched, on_sched, lock, unlock}
use operating_system.Procs.Alike.{Alike, Alike-trans, Alike-beside}
use operating_system.Procs.Quiet.{Quiet, lock-Quiet, unlock-Quiet, quiet}
use operating_system.Procs.Invariant.{Kept, Alike-Kept, Moved-Kept}
use operating_system.Procs.Round.{set_current, switch_or_release, begin_round, end_at, end_round}

module _ {fl : Float} where
  switch_or_release-Quiet : (o : Option ℕ) → Quiet fl (switch_or_release fl o)
  switch_or_release-Quiet none = search quiet
  switch_or_release-Quiet (some p) = search quiet

  abbrev with_current : Option ℕ → Kernel fl → Kernel fl
  with_current o k = put_cpu fl k (record (k.cpu) { proc = o })

  begun-Kept :
      (k : Kernel fl) (v w : Locals) (s : Sched fl)
      → Kept k v
      → Began k.sched s v w
      → Kept (with_current w.cur (put_sched fl k s)) w
  begun-Kept k v w s h b =
      Moved-Kept k (with_current w.cur (put_sched fl k s)) v w h b.wf b.moved (λ p e. e)
        (λ p e. elim (b.stands p e) [ inl c ↦ h.chosen p c | inr a ↦ a ])

  pub begin_round-Kept :
      FloatLaws fl
      → OrderLaws fl
      → (k r : Kernel fl) (v w : Locals) (now : ℕ) → Kept k v
      → begin_round fl now v k ≡ ok (w, r)
      → Kept r w
  unfolding begin_round
  begin_round-Kept laws order k r v w now h e =
      let k0 : Kernel fl = put_cpu fl k (sti k.cpu) in
      let (u, k1, f, g) =
        bind_ok (lock fl ptable_lock)
          (λ u. on_sched fl (before_switch fl now v) >>= λ w.
            set_current fl w.cur >> (switch_or_release fl w.cur >> pure w))
          k0 r w e in
      let quick : Alike k k1 =
        Alike-trans (Alike-beside k k0 refl refl) ((lock-Quiet ptable_lock).alike k0 u k1 f) in
      let h1 : Kept k1 v = Alike-Kept k k1 v h quick in
      let (x, k2, i, j) =
        bind_ok (on_sched fl (before_switch fl now v))
          (λ w. set_current fl w.cur >> (switch_or_release fl w.cur >> pure w)) k1 r w g in
      let (s, d, same) = zoom_ok (λ k. k.sched) (put_sched fl) (before_switch fl now v) k1 k2 x i in
      let h3 : Kept (with_current x.cur k2) x =
        subst (λ z. Kept (with_current x.cur z) x) same
          (begun-Kept k1 v x s h1 (before_switch-Began fl laws order k1.sched s now v x h1.wf d)) in
      let (t, k4, l, m) =
        bind_ok (switch_or_release fl x.cur) (λ u. pure x) (with_current x.cur k2) r w j in
      let h4 : Kept k4 x =
        Alike-Kept (with_current x.cur k2) k4 x h3
          ((switch_or_release-Quiet x.cur).alike (with_current x.cur k2) t k4 l) in
      let states : k4 ≡ r = cc m in
      let locals : x ≡ w = cc m in subst (Kept r) locals (subst (λ z. Kept z x) states h4)

  ended-Kept :
      (k : Kernel fl) (v w : Locals) (s : Sched fl) (p start end_time : ℕ)
      → FloatLaws fl
      → Kept k v
      → v.cur ≡ some p
      → after_switch fl p start end_time v k.sched ≡ ok (w, s)
      → Kept (with_current none (put_sched fl k s)) w
  ended-Kept k v w s p start end_time laws h now e =
      let place : InPlace k.sched p = h.chosen p now in
      let (x, t, f, wt, cur, boost, moved) =
        after_switch-Moved fl k.sched p start end_time v laws h.wf place in
      let eq : ok (x, t) ≡ ok (w, s) = sym f ∙ e in
      let states : t ≡ s = cc eq in
      let locals : x ≡ w = cc eq in
      let chosen : w.cur ≡ some p = subst (λ z. z.cur ≡ some p) locals cur in
      Moved-Kept k (with_current none (put_sched fl k s)) v w h (subst WellFormed states wt)
        (subst (Moved k.sched) states moved) (λ q z. absurd (cc z))
        (λ q z. subst (InPlace k.sched) (cc (chosen, z)) place)

  end_at-Kept :
      FloatLaws fl
      → (k r : Kernel fl) (v w : Locals) (start end_time : ℕ) (o : Option ℕ) → Kept k v
      → v.cur ≡ o
      → end_at fl start end_time v o k ≡ ok (w, r)
      → Kept r w
  end_at-Kept laws k r v w start end_time none h cur e = absurd (cc e)
  end_at-Kept laws k r v w start end_time (some p) h cur e =
      let k1 : Kernel fl = record k { calls = switchkvm ∷ k.calls } in
      let h1 : Kept k1 v = Alike-Kept k k1 v h (Alike-beside k k1 refl refl) in
      let (x, k2, i, j) =
        bind_ok (on_sched fl (after_switch fl p start end_time v))
          (λ w. set_current fl none >> (unlock fl ptable_lock >> pure w)) k1 r w e in
      let (s, d, same) =
        zoom_ok (λ k. k.sched) (put_sched fl) (after_switch fl p start end_time v) k1 k2 x i in
      let h3 : Kept (with_current none k2) x =
        subst (λ z. Kept (with_current none z) x) same
          (ended-Kept k1 v x s p start end_time laws h1 cur d) in
      let (t, k4, l, m) =
        bind_ok (unlock fl ptable_lock) (λ u. pure x) (with_current none k2) r w j in
      let h4 : Kept k4 x =
        Alike-Kept (with_current none k2) k4 x h3
          ((unlock-Quiet ptable_lock).alike (with_current none k2) t k4 l) in
      let states : k4 ≡ r = cc m in
      let locals : x ≡ w = cc m in subst (Kept r) locals (subst (λ z. Kept z x) states h4)

  pub end_round-Kept :
      FloatLaws fl
      → (k r : Kernel fl) (v w : Locals) (start end_time : ℕ) → Kept k v
      → end_round fl start end_time v k ≡ ok (w, r)
      → Kept r w
  unfolding end_round
  end_round-Kept laws k r v w start end_time h e =
      end_at-Kept laws k r v w start end_time v.cur h refl e
