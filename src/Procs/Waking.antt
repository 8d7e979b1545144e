-- ===== src/Procs/Waking.antt =====
-- ex_project3/HYU-ELE3021/xv6-public/proc.c: wakeup1 at a thread.
use operating_system.Common.{
  ℕ, zero, suc, ◌+◌, ◌<◌, ◌≡◌, inl, inr, ap, ◌∙◌, ltb, true, ◌&&◌, some, List, [], ◌∷◌,
  if◌then◌else◌, get_elem?, arith, Bool-cases,
}
use operating_system.Mlfq.Proc.{Procstate, runnable, sleeping, zombie, eqb_Procstate}
use operating_system.Stride.State.{Float, nproc, Proc}
use operating_system.Procs.State.{Chan, eqb_Chan, pointer, proc_chan, Thread, Rest}
use operating_system.Procs.Switch.{wake_process, wake_threads}

eqb_Chan_refl : (c : Chan) → eqb_Chan c c ≡ true
eqb_Chan_refl (pointer a) = ground arith
eqb_Chan_refl (proc_chan a) = ground arith

pub wake_threads-get :
    (c : Chan) (th : ℕ → Thread) (t : ℕ) (xs : List Procstate) (u : ℕ) (x : Procstate)
    → get_elem? xs u ≡ some x
    → get_elem? (wake_threads c th t xs) u
      ≡ some (if eqb_Procstate x sleeping && eqb_Chan (th (t + u)).chan c then runnable else x)
unfolding wake_threads
wake_threads-get c th t [] u x h = absurd (cc h)
wake_threads-get c th t (y ∷ xs) zero x h = ground (arith, h)
wake_threads-get c th t (y ∷ xs) (suc u) x h =
    wake_threads-get c th (t + 1) xs u x h
    ∙ ap (λ i. some (if eqb_Procstate x sleeping && eqb_Chan (th i).chan c then runnable else x))
        (omega arith)

pub wake_process-zombie :
    (fl : Float) (c : Chan) (more : ℕ → Rest) (q u : ℕ) (x : Proc)
    → get_elem? x.threads u ≡ some zombie
    → get_elem? (wake_process fl c more q x).threads u ≡ some zombie
wake_process-zombie fl c more q u x h =
    elim (Bool-cases (ltb q nproc && eqb_Procstate x.state runnable)) [
      | inl b ↦ rw b (wake_threads-get c (more q).thread 0 x.threads u zombie h)
      | inr b ↦ rw b h
    ]

pub wake_process-woken :
    (fl : Float) (c : Chan) (more : ℕ → Rest) (q u : ℕ) (x : Proc)
    → q < nproc
    → x.state ≡ runnable
    → get_elem? x.threads u ≡ some sleeping
    → ((more q).thread u).chan ≡ c
    → get_elem? (wake_process fl c more q x).threads u ≡ some runnable
wake_process-woken fl c more q u x lt state sleeps on =
    let b : (ltb q nproc && eqb_Procstate x.state runnable) ≡ true = ground (arith, state, lt) in
    let same : eqb_Chan ((more q).thread (0 + u)).chan c ≡ true =
      ap (λ i. eqb_Chan ((more q).thread i).chan c) (omega arith)
      ∙ ap (λ z. eqb_Chan z c) on
      ∙ eqb_Chan_refl c in
    rw b (
      wake_threads-get c (more q).thread 0 x.threads u sleeping sleeps
      ∙ ap (λ z. some (if z then runnable else sleeping)) same)
