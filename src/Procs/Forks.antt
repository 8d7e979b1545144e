-- ===== src/Procs/Forks.antt =====
-- ex_project3/HYU-ELE3021/xv6-public/proc.c: userinit and fork keep the places of the scheduler, where kalloc
-- and copyuvm do not fail.
use operating_system.Common.{
  ℕ, ◌≡◌, inl, inr, refl, sym, ◌∙◌, subst, ◌==◌, ◌>>=◌, ◌>>◌, ◌∷◌, Bool, true, false, Option, none,
  some, ℤ, ok, bind_ok, arith, branch, pure, update, Bool-cases,
}
use operating_system.Mlfq.Spinlock.{ptable_lock}
use operating_system.Mlfq.Proc.{runnable, idup, filedup}
use operating_system.Mlfq.Life.{file_calls, safestrcpy}
use operating_system.Stride.State.{Float, Proc}
use operating_system.Stride.Turns.{Locals}
use operating_system.Procs.State.{Kernel, Kern, lock, unlock, put_state, proc_of, put_proc, myproc}
use operating_system.Procs.Alike.{Alike, Alike-trans, Alike-beside}
use operating_system.Procs.Quiet.{Quiet, pure-Quiet, lock-Quiet, myproc_ok, quiet}
use operating_system.Procs.Invariant.{is_unused, Kept, Alike-Kept}
use operating_system.Procs.Changes.{stored, stored-Alike}
use operating_system.Procs.Life.{
  allocproc, set_runnable, first_frame, initcode, first_proc, userinit, fork_into, fork_of, fork,
  child_of,
}
use operating_system.Procs.Births.{Allocated, allocproc-Allocated}

module _ {fl : Float} where
  -- A process that is in use is made runnable.
  set_runnable-Alike :
      (k r : Kernel fl) (p : ℕ)
      → is_unused k.sched p ≡ false
      → set_runnable fl p k ≡ ok (tt, r)
      → Alike k r
  set_runnable-Alike k r p h e =
      let (u, t, a, g) =
        bind_ok (lock fl ptable_lock)
          (λ u. proc_of fl p >>= λ q.
            put_proc fl p (record q { state = runnable })
            >> (put_state fl p 0 runnable >> unlock fl ptable_lock))
          k r tt e in
      let same : Alike k t = (lock-Quiet ptable_lock).alike k u t a in
      let x : Proc = record (t.sched.proc p) { state = runnable } in
      let tail : Quiet fl (put_state fl p 0 runnable >> unlock fl ptable_lock) = search quiet in
      Alike-trans same (
        Alike-trans (stored-Alike p x t refl refl (sym (same.alive p ∙ h)))
          (tail.alike (stored p x t) tt r g))

  branch_lem :
      {A : Type 0} (b : Bool) (m n : Kern fl A) (k r : Kernel fl) (a : A)
      → b ≡ false
      → branch b m n k ≡ ok (a, r)
      → n k ≡ ok (a, r)
  branch_lem true m n k r a h e = absurd (cc h)
  branch_lem false m n k r a h e = e

  -- fork behind allocproc, where the slot has been taken and the page directory copied.
  fork_into-Alike :
      (k r : Kernel fl) (pgdir p : ℕ) (n : ℕ) (a : ℤ)
      → (pgdir == 0) ≡ false
      → is_unused k.sched n ≡ false
      → fork_into fl pgdir p (some n) k ≡ ok (a, r)
      → Alike k r
  unfolding fork_into
  fork_into-Alike k r pgdir p n a h live e =
      let x : Proc = record (k.sched.proc n) { tidx = 0 } in
      let t : Kernel fl = record (stored n x k) {
        more = update k.more n (child_of fl p (k.more p) (k.sched.proc p).tidx pgdir (k.more n));
        calls = idup (k.more p).cwd ∷ file_calls filedup (k.more p).ofile k.calls;
      } in
      let body : (set_runnable fl n >> pure (k.more n).pid) t ≡ ok (a, r) =
        branch_lem (pgdir == 0) _ _ k r a h e in
      let (u, s, f, g) = bind_ok (set_runnable fl n) (λ u. pure (k.more n).pid) t r a body in
      let start : Alike k (stored n x k) = stored-Alike n x k refl refl refl in
      let first : Alike k t = Alike-trans start (Alike-beside (stored n x k) t refl refl) in
      Alike-trans first (
        Alike-trans (set_runnable-Alike t s n (first.alive n ∙ live) f)
          ((pure-Quiet (k.more n).pid).alike s a r g))

  fork_end-Kept :
      (k t r : Kernel fl) (v : Locals) (pgdir p : ℕ) (o : Option ℕ) (a : ℤ)
      → Kept k v
      → (pgdir == 0) ≡ false
      → Allocated k t v o
      → fork_into fl pgdir p o t ≡ ok (a, r)
      → Kept r v
  unfolding fork_into
  fork_end-Kept k t r v pgdir p o a h pg (inl (n, same, full)) e =
      let f : fork_into fl pgdir p none t ≡ ok (a, r) =
        subst (λ z. fork_into fl pgdir p z t ≡ ok (a, r)) n e in
      Alike-Kept k r v h (subst (Alike k) (ground (arith, f)) same)
  fork_end-Kept k t r v pgdir p o a h pg (inr (n, x, b)) e =
      let f : fork_into fl pgdir p (some n) t ≡ ok (a, r) =
        subst (λ z. fork_into fl pgdir p z t ≡ ok (a, r)) x e in
      Alike-Kept t r v b.kept (fork_into-Alike t r pgdir p n a pg b.now f)

  pub fork-Kept :
      (k r : Kernel fl) (v : Locals) (kstack pgdir : ℕ) (a : ℤ)
      → Kept k v
      → (kstack == 0) ≡ false
      → (pgdir == 0) ≡ false
      → fork fl kstack pgdir k ≡ ok (a, r)
      → Kept r v
  unfolding fork
  fork-Kept k r v kstack pgdir a h stack pg e =
      let (p, t, f, g) = bind_ok (myproc fl) (fork_of fl kstack pgdir) k r a e in
      let (same, now) = myproc_ok k t p f in
      let (o, s, i, j) = bind_ok (allocproc fl kstack) (fork_into fl pgdir p) t r a g in
      let ht : Kept t v = subst (λ z. Kept z v) same h in
      fork_end-Kept t s r v pgdir p o a ht pg (allocproc-Allocated t s v kstack o ht stack i) j

  first_proc-Alike :
      (k r : Kernel fl) (pgdir : ℕ) (cwd : Option ℕ) (p : ℕ)
      → is_unused k.sched p ≡ false
      → first_proc fl pgdir cwd (some p) k ≡ ok (tt, r)
      → Alike k r
  first_proc-Alike k r pgdir cwd p live e = elim (Bool-cases (pgdir == 0)) [
    | inl z ↦ absurd (ground (arith, z, e))
    | inr n ↦
        let t : Kernel fl = record k {
          initproc = some p;
          more = update k.more p (record (k.more p) {
            pgdir = pgdir;
            sz = 4096;
            thread =
                update (k.more p).thread 0
                  (record ((k.more p).thread 0) { tf = first_frame ((k.more p).thread 0).tf });
            name = safestrcpy 15 (k.more p).name initcode;
            cwd = cwd;
          });
        } in
        let body : set_runnable fl p t ≡ ok (tt, r) =
          branch_lem (pgdir == 0) _ _ (record k { initproc = some p }) r tt n e in
        Alike-trans (Alike-beside k t refl refl) (set_runnable-Alike t r p live body)
  ]

  first_end-Kept :
      (k t r : Kernel fl) (v : Locals) (pgdir : ℕ) (cwd : Option ℕ) (o : Option ℕ)
      → Allocated k t v o
      → first_proc fl pgdir cwd o t ≡ ok (tt, r)
      → Kept r v
  first_end-Kept k t r v pgdir cwd o (inl (n, same, full)) e =
      let f : first_proc fl pgdir cwd none t ≡ ok (tt, r) =
        subst (λ z. first_proc fl pgdir cwd z t ≡ ok (tt, r)) n e in
      absurd (cc f)
  first_end-Kept k t r v pgdir cwd o (inr (p, x, b)) e =
      let f : first_proc fl pgdir cwd (some p) t ≡ ok (tt, r) =
        subst (λ z. first_proc fl pgdir cwd z t ≡ ok (tt, r)) x e in
      Alike-Kept t r v b.kept (first_proc-Alike t r pgdir cwd p b.now f)

  pub userinit-Kept :
      (k r : Kernel fl) (v : Locals) (kstack pgdir : ℕ) (cwd : Option ℕ)
      → Kept k v
      → (kstack == 0) ≡ false
      → userinit fl kstack pgdir cwd k ≡ ok (tt, r)
      → Kept r v
  unfolding userinit
  userinit-Kept k r v kstack pgdir cwd h stack e =
      let (o, t, f, g) = bind_ok (allocproc fl kstack) (first_proc fl pgdir cwd) k r tt e in
      first_end-Kept k t r v pgdir cwd o (allocproc-Allocated k t v kstack o h stack f) g
