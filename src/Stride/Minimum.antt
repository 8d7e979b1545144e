-- ===== src/Stride/Minimum.antt =====
-- stride_next of ex_project3/HYU-ELE3021/xv6-public/mlfq.c: the client with the least pass.
use operating_system.Common.{
  ℕ, zero, suc, ◌+◌, ◌<◌, ◌≤◌, ◌≡◌, ◌⊎◌, inl, inr, refl, sym, ap, ◌∙◌, subst, ◌==◌, Bool, true,
  false, not, ◌&&◌, Option, none, some, ok, ◌>>=◌, branch, arith, Bool-cases,
}
use operating_system.Stride.State.{
  Float, nproc, Client, nobody, feedback, client, Sched, find_runnable,
}
use operating_system.Stride.Tickets.{
  empty_pass, Choice, take_client, try_client, choose_from, stride_next,
}
use operating_system.Stride.Invariant.{WellFormed, FloatLaws}

-- What the search asks of `<` on the passes: it is a strict weak order, as on floats that are numbers.
pub record OrderLaws (fl : Float) : Type 0 where
  pub irrefl : (a : fl.Num) → fl.lt a a ≡ false
  pub less_keeps : (a b c : fl.Num) → fl.lt a b ≡ true → fl.lt c b ≡ false → fl.lt c a ≡ false
  pub less_first : (a b c : fl.Num) → fl.lt a b ≡ true → fl.lt c b ≡ false → fl.lt a c ≡ true

-- A process with a runnable thread, whose pass is not the mark of an empty place.
pub record Ready {fl : Float} (s : Sched fl) (j t : ℕ) : Type 0 where
  pub who : ℕ
  pub listed : s.stride.queue j ≡ client who
  pub runs : find_runnable 0 (s.proc who).threads ≡ some t
  pub marked : fl.eq (s.stride.pass j) (empty_pass fl) ≡ false

-- The choice after the places below `i`: MLFQ_PROC at place 0 or a process with a runnable thread, such
-- that none of the places so far has a smaller pass, and none in front of it the same pass.
pub record Least {fl : Float} (s : Sched fl) (i : ℕ) (c : Choice) : Type 0 where
  pub valid :
      ((c.place ≡ 0) × (c.thread ≡ none)) ⊎ ((t : ℕ) × (c.thread ≡ some t) × Ready s c.place t)
  pub head : fl.lt (s.stride.pass 0) (s.stride.pass c.place) ≡ false
  pub least :
      (j t : ℕ)
      → 0 < j
      → j < i
      → Ready s j t
      → fl.lt (s.stride.pass j) (s.stride.pass c.place) ≡ false
  pub below : c.place ≤ i
  pub under_head : 0 < c.place → fl.lt (s.stride.pass c.place) (s.stride.pass 0) ≡ true
  pub first :
      (j t : ℕ)
      → 0 < j
      → j < c.place
      → Ready s j t
      → fl.lt (s.stride.pass c.place) (s.stride.pass j) ≡ true

module _ (fl : Float) (laws : FloatLaws fl) (order : OrderLaws fl) (s : Sched fl)
    (w : WellFormed s) where
  -- A place that is passed over.
  Least-skip :
      (i : ℕ) (c : Choice)
      → Least s i c
      → ((t : ℕ) → Ready s i t → fl.lt (s.stride.pass i) (s.stride.pass c.place) ≡ false)
      → Least s (i + 1) c
  Least-skip i c v h = record {
    valid = v.valid;
    head = v.head;
    least = λ j t a b r. elim (Bool-cases (j == i)) [
      | inl here ↦
          let same : j ≡ i = ground arith in rw same (h t (subst (λ k. Ready s k t) same r))
      | inr other ↦ v.least j t a (ground arith) r
    ];
    below = omega (arith, v.below);
    under_head = v.under_head;
    first = v.first;
  }

  Least-take :
      (i t : ℕ) (c : Choice)
      → Least s i c
      → Ready s i t
      → fl.lt (s.stride.pass i) (s.stride.pass c.place) ≡ true
      → Least s (i + 1) (record { place = i; thread = some t })
  Least-take i t c v r h = record {
    valid = inr (t, refl, r);
    head = order.less_keeps (s.stride.pass i) (s.stride.pass c.place) (s.stride.pass 0) h v.head;
    least = λ j u a b q. elim (Bool-cases (j == i)) [
      | inl here ↦ let same : j ≡ i = ground arith in rw same (order.irrefl (s.stride.pass i))
      | inr other ↦
          order.less_keeps (s.stride.pass i) (s.stride.pass c.place) (s.stride.pass j) h
            (v.least j u a (ground arith) q)
    ];
    below = omega arith;
    under_head =
        λ z. order.less_first (s.stride.pass i) (s.stride.pass c.place) (s.stride.pass 0) h v.head;
    first = λ j u a b q.
        order.less_first (s.stride.pass i) (s.stride.pass c.place) (s.stride.pass j) h
          (v.least j u a b q);
  }

  choose_goes :
      (n i : ℕ) (c d : Choice)
      → fl.eq (s.stride.pass i) (empty_pass fl) ≡ false
      → fl.lt (s.stride.pass i) (s.stride.pass c.place) ≡ true
      → try_client fl i (s.stride.queue i) c s ≡ ok (d, s)
      → choose_from fl (suc n) i c s ≡ choose_from fl n (i + 1) d s
  unfolding choose_from
  choose_goes n i c d a b e = rw (a, b, branch, ◌>>=◌, e) refl

  choose_skips :
      (n i : ℕ) (c : Choice)
      → (not (fl.eq (s.stride.pass i) (empty_pass fl))
          && fl.lt (s.stride.pass i) (s.stride.pass c.place))
        ≡ false
      → choose_from fl (suc n) i c s ≡ choose_from fl n (i + 1) c s
  unfolding choose_from
  choose_skips n i c a = rw (a, branch) refl

  try_client_lem :
      (i p : ℕ) (c : Choice)
      → s.stride.queue i ≡ client p
      → try_client fl i (s.stride.queue i) c s
        ≡ ok (take_client i c (find_runnable 0 (s.proc p).threads), s)
  unfolding try_client
  try_client_lem i p c e = rw e refl

  choose_client :
      (n i p : ℕ) (c : Choice)
      → Least s i c
      → ((d : Choice)
          → Least s (i + 1) d
          → (e : Choice) × (choose_from fl n (i + 1) d s ≡ ok (e, s)) × Least s (i + 1 + n) e)
      → s.stride.queue i ≡ client p
      → fl.eq (s.stride.pass i) (empty_pass fl) ≡ false
      → fl.lt (s.stride.pass i) (s.stride.pass c.place) ≡ true
      → (r : Option ℕ) → find_runnable 0 (s.proc p).threads ≡ r
      → (e : Choice) × (choose_from fl (suc n) i c s ≡ ok (e, s)) × Least s (i + 1 + n) e
  choose_client n i p c v rest q x y none r =
      let tried : try_client fl i (s.stride.queue i) c s ≡ ok (c, s) =
        try_client_lem i p c q ∙ ap (λ z. ok (take_client i c z, s)) r in
      let (e, goes, l) = rest c (
        Least-skip i c v (λ t h.
          let same : client p ≡ client h.who = sym q ∙ h.listed in
          let who : p ≡ h.who = ground (arith, same) in
          absurd (ground (arith, r, ap (λ z. find_runnable 0 (s.proc z).threads) who, h.runs)))) in
      (e, choose_goes n i c c x y tried ∙ goes, l)
  choose_client n i p c v rest q x y (some t) r =
      let d : Choice = record { place = i; thread = some t } in
      let tried : try_client fl i (s.stride.queue i) c s ≡ ok (d, s) =
        try_client_lem i p c q ∙ ap (λ z. ok (take_client i c z, s)) r in
      let ready : Ready s i t = record { who = p; listed = q; runs = r; marked = x } in
      let (e, goes, l) = rest d (Least-take i t c v ready y) in
      (e, choose_goes n i c d x y tried ∙ goes, l)

  -- A choice is kept at the place of MLFQ_PROC and at the empty ones, and where the pass is not less.
  choose_step :
      (n i : ℕ) (c : Choice)
      → 0 < i
      → Least s i c
      → ((d : Choice)
          → Least s (i + 1) d
          → (e : Choice) × (choose_from fl n (i + 1) d s ≡ ok (e, s)) × Least s (i + 1 + n) e)
      → (q : Client) → s.stride.queue i ≡ q
      → fl.eq (s.stride.pass i) (empty_pass fl) ≡ false
      → fl.lt (s.stride.pass i) (s.stride.pass c.place) ≡ true
      → (e : Choice) × (choose_from fl (suc n) i c s ≡ ok (e, s)) × Least s (i + 1 + n) e
  choose_step n i c a v rest nobody q x y =
      let gone : s.stride.pass i ≡ empty_pass fl = (w.vacant i (rw q refl)).1 in
      let mark : fl.eq (s.stride.pass i) (empty_pass fl) ≡ true = rw gone laws.neg_eq in
      absurd (ground (arith, mark, x))
  choose_step n i c a v rest feedback q x y =
      let zero_i : i ≡ 0 = w.only_head i q in absurd (omega arith)
  choose_step n i c a v rest (client p) q x y =
      choose_client n i p c v rest q x y (find_runnable 0 (s.proc p).threads) refl

  choose_from_lem :
      (n i : ℕ) (c : Choice)
      → 0 < i
      → Least s i c
      → (e : Choice) × (choose_from fl n i c s ≡ ok (e, s)) × Least s (i + n) e
  unfolding choose_from
  choose_from_lem zero i c a v = (c, refl, subst (λ k. Least s k c) (omega arith) v)
  choose_from_lem (suc n) i c a v =
      let x : Bool = fl.eq (s.stride.pass i) (empty_pass fl) in
      let y : Bool = fl.lt (s.stride.pass i) (s.stride.pass c.place) in
      let rest =
        λ (d : Choice) (l : Least s (i + 1) d). choose_from_lem n (i + 1) d (omega arith) l in
      let found : (e : Choice) × (choose_from fl (suc n) i c s ≡ ok (e, s))
          × Least s (i + 1 + n) e =
        elim (Bool-cases (not x && y)) [
          | inl go ↦
              choose_step n i c a v rest (s.stride.queue i) refl (ground (arith, go))
                (ground (arith, go))
          | inr stop ↦
              let (e, goes, l) =
                rest c (Least-skip i c v (λ t h. ground (arith, stop, h.marked))) in
              (e, choose_skips n i c stop ∙ goes, l)
        ] in
      (found.0, found.1, subst (λ k. Least s k found.0) (omega arith) found.2)

  -- stride_next always returns and changes nothing, where the queues are well-formed and the order on the
  -- passes is a strict weak one. It chooses the feedback queue or a process with a runnable thread, and
  -- then that thread; the pass of the choice is not larger than that of the feedback queue, nor than
  -- that of any process with a runnable thread.
  pub stride_next-Least : (e : Choice) × (stride_next fl s ≡ ok (e, s)) × Least s nproc e
  unfolding stride_next
  stride_next-Least =
      choose_from_lem 63 1 (record { place = 0; thread = none }) (omega arith)
        (record {
          valid = inl (refl, refl);
          head = order.irrefl (s.stride.pass 0);
          least = λ j t a b r. absurd (omega arith);
          below = omega arith;
          under_head = λ z. absurd (omega arith);
          first = λ j t a b r. absurd (omega arith);
        })
