-- ===== src/Stride/Tickets.antt =====
-- stride_init, stride_append, stride_delete, stride_update and stride_next of
-- ex_project3/HYU-ELE3021/xv6-public/mlfq.c.
use operating_system.Common.{
  ℕ, zero, suc, ◌+◌, ◌-◌, ◌%◌, ◌^◌, ◌==◌, ltb, Bool, true, false, not, ◌&&◌, ◌||◌, Option, none,
  some, if◌then◌else◌, ℤ, pos, negsuc, ltb_ℤ, to_u32, M, pure, fault, ok, ◌>>=◌, branch, update,
}
use operating_system.Stride.State.{
  Float, nproc, max_ticket, max_stride, max_pass, scale_pass, Client, nobody, feedback, client,
  Stride, Sched, is_empty, find_place, find_runnable,
}

-- What stride_next has chosen so far: the place, and *tidx where it was written.
pub record Choice : Type 0 where
  pub place : ℕ
  pub thread : Option ℕ

abbrev pub take_client : ℕ → Choice → Option ℕ → Choice
take_client i c none = c
take_client i c (some t) = record { place = i; thread = some t }

module _ (fl : Float) where
  abbrev pub empty_pass : fl.Num
  empty_pass = fl.of_int (negsuc 0)

  unfoldable pub stride_init : Stride fl
  stride_init = record {
    quantum = 5;
    total = 0;
    pass = λ i. if i == 0 then fl.of_int (pos 0) else empty_pass;
    ticket = λ i. if i == 0 then max_ticket else 0;
    queue = λ i. if i == 0 then feedback else nobody;
  }

  -- The loop for the minimal pass, over so many places from `i` on.
  unfoldable pub min_pass : (ℕ → fl.Num) → ℕ → ℕ → fl.Num → fl.Num
  min_pass pass zero i m = m
  min_pass pass (suc n) i m =
      min_pass pass n (i + 1)
        (if not (fl.eq (pass i) empty_pass) && fl.lt (pass i) m then pass i else m)

  -- stride_append behind the search, for the place that it found.
  unfoldable pub enlist : ℕ → ℤ → ℕ → Sched fl → Sched fl
  enlist p usage idx s =
      let st : Stride fl = s.stride in
      record s {
        proc = update s.proc p (record (s.proc p) { level = negsuc 0; index = idx });
        stride = record st {
          queue = update st.queue idx (client p);
          total = (st.total + to_u32 usage) % 2 ^ 32;
          ticket =
              update (update st.ticket 0 ((st.ticket 0 + 2 ^ 32 - to_u32 usage) % 2 ^ 32)) idx
                (to_u32 usage);
          pass = update st.pass idx (min_pass st.pass (nproc - 1) 1 (st.pass 0));
        };
      }

  abbrev pub enlist_at : ℕ → ℤ → Option ℕ → M (Sched fl) Bool
  enlist_at p usage none s = ok (false, s)
  enlist_at p usage (some idx) s = ok (true, enlist p usage idx s)

  unfoldable pub stride_append : ℕ → ℤ → M (Sched fl) Bool
  stride_append p usage s =
      if ltb max_stride ((s.stride.total + to_u32 usage) % 2 ^ 32) || not (ltb_ℤ (pos 0) usage)
      then ok (false, s)
      else enlist_at p usage (find_place (λ i. is_empty (s.stride.queue i)) nproc 0) s

  -- The place of a process in the stride scheduler, cleared.
  unfoldable pub stride_delete : ℕ → Sched fl → Sched fl
  stride_delete p s =
      let st : Stride fl = s.stride in
      let idx : ℕ = (s.proc p).index in
      record s {
        stride = record st {
          total = (st.total + 2 ^ 32 - st.ticket idx) % 2 ^ 32;
          ticket = update (update st.ticket 0 ((st.ticket 0 + st.ticket idx) % 2 ^ 32)) idx 0;
          pass = update st.pass idx empty_pass;
          queue = update st.queue idx nobody;
        };
      }

  abbrev pub rescaled : (ℕ → fl.Num) → ℕ → fl.Num
  rescaled pass i =
      if ltb i nproc && fl.lt (fl.of_int (pos 0)) (pass i)
      then fl.sub (pass i) (fl.of_int (pos (max_pass - scale_pass)))
      else pass i

  -- stride_update for the client at place `idx`; it returns MLFQ_NEXT.
  unfoldable pub stride_update : ℕ → Stride fl → Stride fl
  stride_update idx st =
      let pass : ℕ → fl.Num = update st.pass idx (
        fl.add (st.pass idx)
          (fl.div (fl.of_int (pos max_ticket)) (fl.of_int (pos (st.ticket idx))))) in
      record st {
        pass = if fl.lt (fl.of_int (pos max_pass)) (pass idx) then rescaled pass else pass;
      }

  -- The body of its loop at a place whose pass is less. `runnable` follows the pointer.
  unfoldable pub try_client : ℕ → Client → Choice → M (Sched fl) Choice
  try_client i nobody c s = fault
  try_client i feedback c s = fault
  try_client i (client p) c s = ok (take_client i c (find_runnable 0 (s.proc p).threads), s)

  unfoldable pub choose_from : ℕ → ℕ → Choice → M (Sched fl) Choice
  choose_from zero i c s = ok (c, s)
  choose_from (suc n) i c s =
      (do
        d ←
            branch
              (not (fl.eq (s.stride.pass i) empty_pass)
                && fl.lt (s.stride.pass i) (s.stride.pass c.place))
              (try_client i (s.stride.queue i) c) (pure c)
        choose_from n (i + 1) d)
        s

  unfoldable pub stride_next : M (Sched fl) Choice
  stride_next = choose_from (nproc - 1) 1 (record { place = 0; thread = none })
