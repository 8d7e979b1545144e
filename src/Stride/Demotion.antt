-- ===== src/Stride/Demotion.antt =====
-- mlfq_update of ex_project3/HYU-ELE3021/xv6-public/mlfq.c.
use operating_system.Common.{
  ℕ, ◌+◌, ◌-◌, ◌%◌, ◌^◌, ◌<◌, ◌≡◌, inl, inr, refl, ltb, leb, Bool, true, false, not, ◌&&◌, ◌||◌,
  none, some, if◌then◌else◌, pos, ok, arith, Bool-cases,
}
use operating_system.Mlfq.Proc.{zombie, eqb_Procstate}
use operating_system.Stride.State.{Float, nproc, nmlfq, Sched}
use operating_system.Stride.Queues.{
  next, keep, put_queue, enqueue, clear_place, charge, update_level, update_queued, mlfq_update,
}
use operating_system.Stride.Invariant.{WellFormed, FloatLaws, move-WellFormed, charge-WellFormed}
use operating_system.Stride.Moves.{Moved, Moved-refl, Moved-trans, charge-Moved, raise-Moved}
use operating_system.Stride.Room.{append_room}

-- The process is over.
abbrev pub is_over : {fl : Float} → Sched fl → ℕ → Bool
is_over s p = eqb_Procstate (s.proc p).state zombie || (s.proc p).killed

-- It has used up its time at a level that is not the last.
abbrev pub sinks : {fl : Float} → Sched fl → ℕ → ℕ → Bool
sinks s p l = ltb (l + 1) nmlfq && leb (s.expire l) (s.proc p).elapsed

-- It has run for a time quantum, on a clock of 32 bits.
abbrev pub used_up : {fl : Float} → Sched fl → ℕ → ℕ → ℕ → Bool
used_up s p l ctime = leb (s.quantum l) ((ctime + 2 ^ 32 - (s.proc p).start) % 2 ^ 32)

-- What mlfq_update makes of a process of level `l`.
pub record Updated {fl : Float} (s r : Sched fl) (p l : ℕ) : Type 0 where
  pub wf : WellFormed r
  pub level : (r.proc p).level ≡ pos (if not (is_over s p) && sinks s p l then l + 1 else l)
  pub stands :
      r.queue (if not (is_over s p) && sinks s p l then l + 1 else l) (r.proc p).index ≡ some p
  pub moved : Moved s r

module _ (fl : Float) where
  Updated-same :
      (s r : Sched fl) (p l i : ℕ)
      → WellFormed s
      → WellFormed r
      → s.queue l i ≡ some p
      → r.queue ≡ s.queue
      → r.proc ≡ s.proc
      → (not (is_over s p) && sinks s p l) ≡ false
      → Moved s r
      → Updated s r p l
  Updated-same s r p l i ws wr e q f h v = record {
    wf = wr;
    level = ground (arith, wr.placed l i p, q, e);
    stands = ground (arith, wr.placed l i p, q, e);
    moved = v;
  }

  Updated-sunk :
      (s : Sched fl) (p l i j : ℕ)
      → WellFormed (charge fl 0 s)
      → s.queue l i ≡ some p
      → j < nproc
      → not (is_over s p) ≡ true
      → sinks s p l ≡ true
      → s.queue (l + 1) j ≡ none
      → Updated s (put_queue fl l i none (enqueue fl p (l + 1) j (charge fl 0 s))) p l
  unfolding enqueue
  Updated-sunk s p l i j w e d h g f = record {
    wf =
        unfold enqueue in
        move-WellFormed fl (charge fl 0 s) p l i (l + 1) j w e (omega arith) (ground arith) d;
    level = ground arith;
    stands = ground arith;
    moved =
        Moved-trans (charge-Moved fl s 0)
          (unfold enqueue in raise-Moved fl (charge fl 0 s) p l i (l + 1) j w e f (omega arith));
  }

  update_level-sinks :
      (s : Sched fl) (p l i ctime : ℕ)
      → WellFormed s
      → s.queue l i ≡ some p
      → sinks s p l ≡ true
      → (j : ℕ) × (j < nproc)
        × (s.queue (l + 1) j ≡ none)
        × (update_level fl p l ctime s
            ≡ ok (next, put_queue fl l i none (enqueue fl p (l + 1) j s)))
  unfolding update_level clear_place
  update_level-sinks s p l i ctime w e h =
      let (j, b, f, g) = append_room fl s w (l + 1) p l i e (omega arith) in
      (j, b, f, ground (arith, w.placed l i p))

  update_level-stays :
      (s : Sched fl) (p l ctime : ℕ)
      → sinks s p l ≡ false
      → update_level fl p l ctime s ≡ ok (if used_up s p l ctime then next else keep, s)
  unfolding update_level
  update_level-stays s p l ctime h = ground arith

  pub update_outcomes :
      (s : Sched fl) (p l i ctime : ℕ)
      → FloatLaws fl
      → WellFormed s
      → s.queue l i ≡ some p
      → (r : Sched fl) × (mlfq_update fl p ctime s
          ≡ ok (if is_over s p || (sinks s p l || used_up s p l ctime) then next else keep, r))
        × Updated s r p l
  unfolding mlfq_update update_queued
  update_outcomes s p l i ctime laws w e =
      let c : Sched fl = charge fl 0 s in
      let wc : WellFormed c = charge-WellFormed fl s 0 laws w (ground (arith, w.head)) in
      elim (Bool-cases (is_over s p)) [
        | inl over ↦
            (s, ground arith, Updated-same s s p l i w w e refl refl (ground arith) (Moved-refl s))
        | inr alive ↦ elim (Bool-cases (sinks s p l)) [
          | inl down ↦
              let (j, b, empty, f) = update_level-sinks c p l i ctime wc e down in
              (
                put_queue fl l i none (enqueue fl p (l + 1) j c),
                ground (arith, w.placed l i p, f),
                Updated-sunk s p l i j wc e b (ground arith) down empty,
              )
          | inr stay ↦ (
            c,
            ground (arith, w.placed l i p, update_level-stays c p l ctime stay),
            Updated-same s c p l i w wc e refl refl (ground arith) (charge-Moved fl s 0),
          )
        ]
      ]
