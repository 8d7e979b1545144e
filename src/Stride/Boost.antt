-- ===== src/Stride/Boost.antt =====
-- mlfq_boost of ex_project3/HYU-ELE3021/xv6-public/mlfq.c.
use operating_system.Common.{
  ℕ, zero, suc, ◌+◌, ◌-◌, ◌*◌, ◌<◌, ◌≤◌, ◌≡◌, inl, inr, refl, subst, ◌==◌, ltb, false, ◌&&◌, Option,
  none, some, if◌then◌else◌, pos, ok, arith, Bool-cases, Option-cases,
}
use operating_system.Stride.State.{Float, nproc, Sched, is_none, find_place}
use operating_system.Stride.Places.{find_place-some, find_place-none}
use operating_system.Stride.Queues.{put_queue, enqueue, boost_entry, boost_from, mlfq_boost}
use operating_system.Stride.Invariant.{WellFormed, move-WellFormed}
use operating_system.Stride.Moves.{Moved, Moved-refl, Moved-trans, raise-Moved}
use operating_system.Stride.Room.{not_full}

-- What the outer loop of mlfq_boost has done up to the place number `x`, counted through all levels, where
-- its inner loop stands at `top`: the lower levels are empty up to there, no place of level 0 before
-- `top` is free, and no process has left the queues.
pub record Swept {fl : Float} (s t : Sched fl) (x top : ℕ) : Type 0 where
  pub wf : WellFormed t
  pub swept : (m j : ℕ) → 1 ≤ m → m * 64 + j < x → t.queue m j ≡ none
  pub filled : (j : ℕ) → j < top → is_none (t.queue 0 j) ≡ false
  pub kept :
      (p a b : ℕ)
      → s.queue a b ≡ some p
      → (c d : ℕ) × (t.queue c d ≡ some p) × ((a ≡ 0) → (c ≡ 0) × (b ≡ d))
  pub moved : Moved s t

module _ (fl : Float) where
  Swept-none :
      (s t : Sched fl) (x top l i : ℕ)
      → Swept s t x top
      → l * 64 + i ≡ x
      → i < nproc
      → t.queue l i ≡ none
      → Swept s t (x + 1) top
  Swept-none s t x top l i v e b f = record {
    wf = v.wf;
    swept = λ m j a c. elim (Bool-cases (m * 64 + j == x)) [
      | inl here ↦ elim (Option-cases (t.queue m j)) [
        | inl g ↦ g
        | inr (q, g) ↦
            let same : (m ≡ l) × (j ≡ i) = ground (arith, v.wf.placed m j q) in
            absurd (cc (same.0, same.1))
      ]
      | inr other ↦ v.swept m j a (ground arith)
    ];
    filled = v.filled;
    kept = v.kept;
    moved = v.moved;
  }

  Swept-raise :
      (s t : Sched fl) (x top l i p j : ℕ)
      → Swept s t x top
      → l * 64 + i ≡ x
      → i < nproc
      → 1 ≤ l
      → t.queue l i ≡ some p
      → find_place (λ k. is_none (t.queue 0 k)) (nproc - top) top ≡ some j
      → top ≤ nproc
      → Swept s (put_queue fl l i none (enqueue fl p 0 j t)) (x + 1) j
  unfolding enqueue
  Swept-raise s t x top l i p j v e b a f g h =
      let (lo, hi, free, before) =
        find_place-some (λ k. is_none (t.queue 0 k)) (nproc - top) top j g in
      record {
        wf =
            unfold enqueue in
            move-WellFormed fl t p l i 0 j v.wf f (omega arith) (omega arith) (omega arith);
        swept = λ m k c d. elim (Bool-cases (m * 64 + k == x)) [
          | inl here ↦ elim (Option-cases (t.queue m k)) [
            | inl r ↦ ground arith
            | inr (q, r) ↦
                let same : (m ≡ l) × (k ≡ i) = ground (arith, v.wf.placed m k q) in ground arith
          ]
          | inr other ↦ ground (arith, v.swept m k)
        ];
        filled = λ k c. ground (arith, v.filled k, before k);
        kept = λ q m k r.
            let (c, d, u, z) = v.kept q m k r in
            elim (Bool-cases (c == l && d == i)) [
              | inl moved ↦ (0, j, ground (arith, u, f), λ y. absurd (ground (arith, z y)))
              | inr stays ↦ (c, d, ground (arith, u, free), z)
            ];
        moved = Moved-trans v.moved (
            unfold enqueue in
            raise-Moved fl t p l i 0 j v.wf f (ground (arith, free)) (omega arith));
      }

  -- One round of the outer loop.
  boost_entry_lem :
      (s t : Sched fl) (x top l i : ℕ) (e : Option ℕ)
      → Swept s t x top
      → l * 64 + i ≡ x
      → i < nproc
      → 1 ≤ l
      → top ≤ nproc
      → t.queue l i ≡ e
      → (u : Sched fl) × (j : ℕ) × (boost_entry fl l i top e t ≡ ok (j, u))
        × (j ≤ nproc)
        × Swept s u (x + 1) j
  unfolding boost_entry
  boost_entry_lem s t x top l i none v e b a h f =
      (t, top, refl, h, Swept-none s t x top l i v e b f)
  boost_entry_lem s t x top l i (some p) v e b a h f =
      elim (Option-cases (find_place (λ k. is_none (t.queue 0 k)) (nproc - top) top)) [
        | inl g ↦ absurd (
            not_full fl t v.wf 0 p l i f (omega arith) (λ k c. elim (Bool-cases (ltb k top)) [
              | inl lo ↦ v.filled k (ground arith)
              | inr hi ↦
                  find_place-none (λ k. is_none (t.queue 0 k)) (nproc - top) top g k (ground arith)
                    (omega arith)
            ]))
        | inr (j, g) ↦
            let (lo, hi, free, before) =
              find_place-some (λ k. is_none (t.queue 0 k)) (nproc - top) top j g in
            (
              put_queue fl l i none (enqueue fl p 0 j t),
              j,
              rw g refl,
              omega arith,
              Swept-raise s t x top l i p j v e b a f g h,
            )
      ]

  boost_from_lem :
      (s t : Sched fl) (n x top l i : ℕ)
      → Swept s t x top
      → l * 64 + i ≡ x
      → i < nproc
      → 1 ≤ l
      → top ≤ nproc
      → (u : Sched fl) × (j : ℕ) × (boost_from fl n l i top t ≡ ok (tt, u)) × Swept s u (x + n) j
  unfolding boost_from
  boost_from_lem s t zero x top l i v e b a h =
      (t, top, refl, subst (λ y. Swept s t y top) (omega arith) v)
  boost_from_lem s t (suc n) x top l i v e b a h =
      let (u, j, f, g, w) = boost_entry_lem s t x top l i (t.queue l i) v e b a h refl in
      let l' : ℕ = if i + 1 == nproc then l + 1 else l in
      let i' : ℕ = if i + 1 == nproc then 0 else i + 1 in
      let (z, k, r, y) =
        boost_from_lem s u n (x + 1) j l' i' w (ground arith) (ground arith) (ground arith) g in
      (z, k, ground (arith, f, r), subst (λ y. Swept s z y k) (omega arith) y)

  boost-Swept :
      (s : Sched fl)
      → WellFormed s
      → (t : Sched fl) × (j : ℕ) × (mlfq_boost fl s ≡ ok (tt, t)) × Swept s t 192 j
  unfolding mlfq_boost
  boost-Swept s w =
      boost_from_lem s s 128 64 0 1 0
        (record {
          wf = w;
          swept = λ m j a b. absurd (omega arith);
          filled = λ j b. absurd (omega arith);
          kept = λ p a b f. (a, b, f, λ z. (z, refl));
          moved = Moved-refl s;
        })
        refl (omega arith) (omega arith) (omega arith)

  pub boost-Moved :
      (s : Sched fl)
      → WellFormed s
      → (t : Sched fl) × (mlfq_boost fl s ≡ ok (tt, t)) × WellFormed t × Moved s t
  boost-Moved s w = let (t, j, e, v) = boost-Swept s w in (t, e, v.wf, v.moved)

  -- mlfq_boost never panics. Behind it the invariant holds, the lower levels are empty, a process of
  -- level 0 stands where it stood, and each process of a lower level stands in level 0; each knows its
  -- level.
  pub boost_outcome :
      (s : Sched fl)
      → WellFormed s
      → (t : Sched fl) × (mlfq_boost fl s ≡ ok (tt, t))
        × WellFormed t
        × ((m j : ℕ) → 1 ≤ m → t.queue m j ≡ none)
        × ((p a b : ℕ)
            → s.queue a b ≡ some p
            → (d : ℕ) × (t.queue 0 d ≡ some p) × ((a ≡ 0) → b ≡ d) × ((t.proc p).level ≡ pos 0))
  boost_outcome s w =
      let (t, k, e, v) = boost-Swept s w in
      let low : (m j : ℕ) → 1 ≤ m → t.queue m j ≡ none = λ m j a.
        elim (Option-cases (t.queue m j)) [
          | inl g ↦ g
          | inr (q, g) ↦ v.swept m j a (ground (arith, v.wf.placed m j q))
        ] in
      (
        t,
        e,
        v.wf,
        low,
        λ p a b f.
            let (c, d, g, z) = v.kept p a b f in
            let top : c ≡ 0 = elim (Bool-cases (c == 0)) [
              | inl h ↦ ground arith
              | inr h ↦ absurd (ground (arith, low c d))
            ] in
            (d, rw (← top) g, λ y. (z y).1, ground (arith, v.wf.placed c d p)),
      )
