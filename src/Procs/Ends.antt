-- ===== src/Procs/Ends.antt =====
-- ex_project3/HYU-ELE3021/xv6-public/proc.c: exit, wait and set_cpu_share keep the places of the scheduler.
use operating_system.Common.{
  ap, ℕ, zero, suc, ◌+◌, ◌≡◌, inl, inr, refl, sym, ◌∙◌, subst, ◌>>=◌, ◌>>◌, ◌∷◌, map, Bool, false,
  some, ℤ, ok, bind_ok, zoom_ok, modify, update, Bool-cases,
}
use operating_system.Mlfq.Proc.{zombie, eqb_Procstate, iput, begin_op, end_op, fileclose}
use operating_system.Mlfq.Life.{file_calls}
use operating_system.Mlfq.Exit.{eqb_ptr}
use operating_system.Stride.State.{Float, nproc, Proc, Sched}
use operating_system.Stride.Queues.{mlfq_cpu_share}
use operating_system.Stride.Turns.{Locals}
use operating_system.Stride.Frames.{Asked, Request, cpu_share-Asked}
use operating_system.Procs.State.{
  chan_of, in_exit, Rest, Kernel, put_sched, proc_of, put_proc, myproc,
}
use operating_system.Procs.Switch.{sched, wakeup1}
use operating_system.Procs.Alike.{Alike, Alike-refl, Alike-trans, Alike-beside}
use operating_system.Procs.Quiet.{Quiet, modify-Quiet, myproc_ok, quiet}
use operating_system.Procs.Calls.{sched-Quiet, wakeup1-Alike}
use operating_system.Procs.Invariant.{is_unused, Kept, Alike-Kept, Moved-Kept, InPlace-is_unused}
use operating_system.Procs.Changes.{stored, stored-Alike}
use operating_system.Procs.Exit.{
  end_thread, pass_child, pass_children, give_up, exit_of, exit, share_of, set_cpu_share,
}

module _ {fl : Float} where
  pass_child-Alike : (cur p : ℕ) (k : Kernel fl) → Alike k (pass_child fl cur p k)
  unfolding pass_child
  pass_child-Alike cur p k =
      let j : Kernel fl = record k {
        more = update k.more p (record (k.more p) { parent = k.initproc });
      } in
      let beside : Alike k j = Alike-beside k j refl refl in
      elim (Bool-cases (eqb_ptr (k.more p).parent (some cur))) [
        | inl h ↦ elim (Bool-cases (eqb_Procstate (k.sched.proc p).state zombie)) [
          | inl z ↦ rw (h, z) (Alike-trans beside (wakeup1-Alike (chan_of k.initproc) j))
          | inr z ↦ rw (h, z) beside
        ]
        | inr h ↦ rw h (Alike-refl k)
      ]

  pass_children-Alike : (cur n p : ℕ) (k : Kernel fl) → Alike k (pass_children fl cur n p k)
  unfolding pass_children
  pass_children-Alike cur zero p k = Alike-refl k
  pass_children-Alike cur (suc n) p k =
      Alike-trans (pass_child-Alike cur p k)
        (pass_children-Alike cur n (p + 1) (pass_child fl cur p k))

  pass-Quiet :
      (p : ℕ)
      → Quiet fl
          (modify (λ k. pass_children fl p nproc 0 (wakeup1 fl (chan_of (k.more p).parent) k)))
  pass-Quiet p = modify-Quiet _ (λ k.
      Alike-trans (wakeup1-Alike (chan_of (k.more p).parent) k) (pass_children-Alike p nproc 0 _))

  close-Quiet :
      (r : Rest)
      → Quiet fl (
          modify (λ k. record k {
            calls = end_op ∷ iput r.cwd ∷ begin_op ∷ file_calls fileclose r.ofile k.calls;
          }))
  close-Quiet r = modify-Quiet _ (λ k. Alike-beside k _ refl refl)

  give_up-Quiet : (p : ℕ) → Quiet fl (give_up fl p)
  unfolding give_up
  give_up-Quiet p = search (quiet, pass-Quiet, close-Quiet) depth 24

  -- exit of a process that is in use.
  exit_of-Alike :
      (k r : Kernel fl) (p : ℕ)
      → is_unused k.sched p ≡ false
      → exit_of fl p k ≡ ok (tt, r)
      → Alike k r
  exit_of-Alike k r p h e =
      let (u, t, a, g) =
        bind_ok (give_up fl p)
          (λ u. proc_of fl p >>= λ q.
            put_proc fl p (record q { state = zombie; threads = map end_thread q.threads })
            >> sched fl in_exit)
          k r tt e in
      let same : Alike k t = (give_up-Quiet p).alike k u t a in
      let x : Proc = record (t.sched.proc p) {
        state = zombie;
        threads = map end_thread (t.sched.proc p).threads;
      } in
      Alike-trans same (
        Alike-trans (stored-Alike p x t refl refl (sym (same.alive p ∙ h)))
          ((sched-Quiet in_exit).alike (stored p x t) tt r g))

  -- The current process is in use.
  pub current-is_unused :
      (k : Kernel fl) (v : Locals) (p : ℕ)
      → Kept k v
      → k.cpu.proc ≡ some p
      → is_unused k.sched p ≡ false
  current-is_unused k v p h e = InPlace-is_unused k v p h (h.chosen p (h.current p e))

  pub exit-Kept : (k r : Kernel fl) (v : Locals) → Kept k v → exit fl k ≡ ok (tt, r) → Kept r v
  unfolding exit
  exit-Kept k r v h e =
      let (p, t, f, g) = bind_ok (myproc fl) (exit_of fl) k r tt e in
      let (same, now) = myproc_ok k t p f in
      let ht : Kept t v = subst (λ z. Kept z v) same h in
      let here : t.cpu.proc ≡ some p = subst (λ z. z.cpu.proc ≡ some p) same now in
      Alike-Kept t r v ht (exit_of-Alike t r p (current-is_unused t v p ht here) g)

  share_of-Kept :
      (k r : Kernel fl) (v : Locals) (s : Sched fl)
      → Kept k v
      → Asked fl k.sched s
      → put_sched fl k s ≡ r
      → Kept r v
  share_of-Kept k r v s h a e =
      subst (λ z. Kept z v) e
        (Moved-Kept k (put_sched fl k s) v v h a.wf a.moved h.current h.chosen)

  -- set_cpu_share of a process that is not given a second share.
  pub set_cpu_share-Kept :
      (k r : Kernel fl) (v : Locals) (percent : ℤ) (b : Bool)
      → Kept k v
      → ((p : ℕ) → k.cpu.proc ≡ some p → Request fl k.sched p percent b)
      → set_cpu_share fl percent k ≡ ok (b, r)
      → Kept r v
  unfolding set_cpu_share
  set_cpu_share-Kept k r v percent b h asks e =
      let (p, t, f, g) = bind_ok (myproc fl) (share_of fl percent) k r b e in
      let (same, now) = myproc_ok k t p f in
      let ht : Kept t v = subst (λ z. Kept z v) same h in
      let here : t.cpu.proc ≡ some p = subst (λ z. z.cpu.proc ≡ some p) same now in
      let (s, i, j) = zoom_ok (λ k. k.sched) (put_sched fl) (mlfq_cpu_share fl p percent) t r b g in
      let request : Request fl t.sched p percent b =
        subst (λ z. Request fl z.sched p percent b) same
          (asks p (ap (λ z. z.cpu.proc) same ∙ here)) in
      share_of-Kept t r v s ht
        (cpu_share-Asked fl t.sched s p percent b ht.wf (ht.chosen p (ht.current p here)) request i)
        j
