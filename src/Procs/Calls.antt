-- ===== src/Procs/Calls.antt =====
-- ex_project3/HYU-ELE3021/xv6-public/proc.c: the calls that leave the places of the scheduler alone.
use operating_system.Common.{
  ℕ, refl, Bool, true, Option, none, some, ◌∷◌, map, ℤ, pos, inc_int, pure, modify, ◌>>=◌, ◌>>◌,
  arith,
}
use operating_system.Mlfq.Spinlock.{Lock, ptable_lock}
use operating_system.Stride.State.{Float}
use operating_system.Procs.State.{
  Chan, Caller, in_forkret, in_yield, in_exit, in_epilogue, in_next, in_next_idle, in_sleep, Word,
  Kernel, unlock, proc_of, put_proc,
}
use operating_system.Procs.Switch.{
  Found, found, no_other, out_of_rounds, to_thread, rouse, save, sched, switch_thread, next_thread,
  yield, forkret, sleep_by, sleep, resume_at, restore, resume, wakeup1, wakeup, kill_at, kill,
}
use operating_system.Procs.Pool.{
  thread_epilogue, thread_exit, abandon, start_thread, give_ustack, fill_thread, create_at,
  thread_create, join_end, join_at, thread_join,
}
use operating_system.Procs.Life.{growproc}
use operating_system.Procs.Alike.{Alike, Alike-beside, Edit}
use operating_system.Procs.Quiet.{Quiet, modify-Quiet, Edit-Quiet, quiet}

tidx-Edit : (i : ℕ) → Edit (λ q. record q { tidx = i })
tidx-Edit i = record { level = λ q. refl; index = λ q. refl; alive = λ q. refl }

kill-Edit : Edit (λ q. record q { killed = true; threads = map rouse q.threads })
kill-Edit = record { level = λ q. refl; index = λ q. refl; alive = λ q. refl }

module _ {fl : Float} where
  save-Quiet : (p t : ℕ) (c : Caller) → Quiet fl (save fl p t c)
  save-Quiet p t c = search quiet

  pub sched-Quiet : (c : Caller) → Quiet fl (sched fl c)
  unfolding sched
  sched-Quiet c = search (quiet, save-Quiet) depth 24

  chosen-Quiet :
      (p t i : ℕ)
      → Quiet fl (
          proc_of fl p >>= λ q.
          put_proc fl p (record q { tidx = i }) >> (save fl p t in_next >> pure (to_thread i)))
  chosen-Quiet p t i =
      Edit-Quiet p (λ q. record q { tidx = i }) (λ q. save fl p t in_next >> pure (to_thread i))
        (tidx-Edit i) (λ q. search (quiet, save-Quiet))

  switch_thread-Quiet : (p t : ℕ) (f : Found) → Quiet fl (switch_thread fl p t f)
  switch_thread-Quiet p t out_of_rounds = search quiet
  switch_thread-Quiet p t no_other = search (quiet, sched-Quiet) depth 24
  switch_thread-Quiet p t (found i) = search (chosen-Quiet, quiet) depth 24

  pub next_thread-Quiet : (p : ℕ) → Quiet fl (next_thread fl p)
  unfolding next_thread
  next_thread-Quiet p = search (quiet, switch_thread-Quiet) depth 24

  pub yield-Quiet : Quiet fl (yield fl)
  unfolding yield
  yield-Quiet = search (quiet, sched-Quiet) depth 24

  sleep_by-Quiet : (o : Option ℕ) (c : Chan) (lk : Option Lock) → Quiet fl (sleep_by fl o c lk)
  sleep_by-Quiet none c lk = search quiet
  sleep_by-Quiet (some p) c none = search quiet
  sleep_by-Quiet (some p) c (some lk) = search (quiet, sched-Quiet) depth 24

  pub sleep-Quiet : (c : Chan) (lk : Option Lock) → Quiet fl (sleep fl c lk)
  unfolding sleep
  sleep-Quiet c lk = search (quiet, sleep_by-Quiet) depth 24

  intena-Quiet :
      (b : Bool) → Quiet fl (modify (λ k. record k { cpu = record (k.cpu) { intena = b } }))
  intena-Quiet b = modify-Quiet _ (λ k. Alike-beside k _ refl refl)

  restore-Quiet : (c : Caller) (b : Bool) → Quiet fl (restore fl c b)
  restore-Quiet in_forkret b = search quiet
  restore-Quiet in_yield b = intena-Quiet b
  restore-Quiet in_exit b = intena-Quiet b
  restore-Quiet in_epilogue b = intena-Quiet b
  restore-Quiet in_next b = intena-Quiet b
  restore-Quiet in_next_idle b = intena-Quiet b
  restore-Quiet (in_sleep lk) b = intena-Quiet b

  resume_at-Quiet : (p t : ℕ) (c : Caller) → Quiet fl (resume_at fl p t c)
  unfolding forkret
  resume_at-Quiet p t in_forkret = search quiet
  resume_at-Quiet p t in_yield = search quiet
  resume_at-Quiet p t in_exit = search quiet
  resume_at-Quiet p t in_epilogue = search quiet
  resume_at-Quiet p t in_next = search quiet
  resume_at-Quiet p t in_next_idle = search quiet
  resume_at-Quiet p t (in_sleep lk) = search quiet depth 24

  pub resume-Quiet : Quiet fl (resume fl)
  unfolding resume
  resume-Quiet = search (quiet, restore-Quiet, resume_at-Quiet) depth 24

  pub wakeup1-Alike : (c : Chan) (k : Kernel fl) → Alike k (wakeup1 fl c k)
  unfolding wakeup1
  wakeup1-Alike c k = record {
    same = record {
      queues = λ l i. refl;
      stride = refl;
      level = λ p. ground arith;
      index = λ p. ground arith;
    };
    iters = λ l. refl;
    alive = λ p. ground arith;
    current = refl;
  }

  wakeup1-Quiet : (c : Chan) → Quiet fl (modify (wakeup1 fl c))
  wakeup1-Quiet c = modify-Quiet _ (wakeup1-Alike c)

  pub wakeup-Quiet : (c : Chan) → Quiet fl (wakeup fl c)
  unfolding wakeup
  wakeup-Quiet c = search (quiet, wakeup1-Quiet) depth 24

  kill_at-Quiet : (o : Option ℕ) → Quiet fl (kill_at fl o)
  kill_at-Quiet none = search quiet
  kill_at-Quiet (some p) =
      Edit-Quiet p (λ q. record q { killed = true; threads = map rouse q.threads })
        (λ q. unlock fl ptable_lock >> pure (pos 0)) kill-Edit (λ q. search quiet depth 24)

  pub kill-Quiet : (pid : ℤ) → Quiet fl (kill fl pid)
  unfolding kill
  kill-Quiet pid = search (quiet, kill_at-Quiet) depth 24

  pub growproc-Quiet : (f g : ℕ → ℕ → ℕ) (n : ℤ) → Quiet fl (growproc fl f g n)
  unfolding growproc
  growproc-Quiet f g n = search quiet depth 24

  thread_epilogue-Quiet : Quiet fl (thread_epilogue fl)
  unfolding thread_epilogue
  thread_epilogue-Quiet = search (quiet, wakeup1-Quiet, sched-Quiet) depth 24

  pub thread_exit-Quiet : (v : ℕ) → Quiet fl (thread_exit fl v)
  unfolding thread_exit
  thread_exit-Quiet v = search (quiet, thread_epilogue-Quiet) depth 24

  abandon-Quiet : (p t s : ℕ) → Quiet fl (abandon fl p t s)
  abandon-Quiet p t s = search quiet depth 24

  writes-Quiet : (w v : ℕ × Word) → Quiet fl (modify (λ k. record k { writes = w ∷ v ∷ k.writes }))
  writes-Quiet w v = modify-Quiet _ (λ k. Alike-beside k _ refl refl)

  start_thread-Quiet : (a b p t top : ℕ) → Quiet fl (start_thread fl a b p t top)
  unfolding start_thread
  start_thread-Quiet a b p t top = search (quiet, writes-Quiet) depth 24

  give_ustack-Quiet : (g : ℕ → ℕ → ℕ) (a b p t : ℕ) → Quiet fl (give_ustack fl g a b p t)
  unfolding give_ustack
  give_ustack-Quiet g a b p t = search (quiet, start_thread-Quiet, abandon-Quiet) depth 24

  fill_thread-Quiet : (g : ℕ → ℕ → ℕ) (a b p c t : ℕ) → Quiet fl (fill_thread fl g a b p c t)
  unfolding fill_thread
  fill_thread-Quiet g a b p c t = search (quiet, give_ustack-Quiet) depth 24

  next_tid-Quiet : Quiet fl (modify (λ k. record k { next_tid = inc_int k.next_tid }))
  next_tid-Quiet = modify-Quiet _ (λ k. Alike-beside k _ refl refl)

  create_at-Quiet :
      (s : ℕ) (g : ℕ → ℕ → ℕ) (a b p c : ℕ) (o : Option ℕ) → Quiet fl (create_at fl s g a b p c o)
  create_at-Quiet s g a b p c none = search quiet
  create_at-Quiet s g a b p c (some t) =
      search (quiet, next_tid-Quiet, abandon-Quiet, fill_thread-Quiet) depth 24

  pub thread_create-Quiet : (s : ℕ) (g : ℕ → ℕ → ℕ) (a b : ℕ) → Quiet fl (thread_create fl s g a b)
  unfolding thread_create
  thread_create-Quiet s g a b = search (quiet, create_at-Quiet) depth 24

  pub join_end-Quiet : (p t : ℕ) → Quiet fl (join_end fl p t)
  unfolding join_end
  join_end-Quiet p t = search quiet depth 24

  join_at-Quiet : (tid : ℤ) (o : Option (ℕ × ℕ)) → Quiet fl (join_at fl tid o)
  join_at-Quiet tid none = search quiet
  join_at-Quiet tid (some (p, t)) = search (quiet, join_end-Quiet, sleep-Quiet) depth 24

  pub thread_join-Quiet : (tid : ℤ) → Quiet fl (thread_join fl tid)
  unfolding thread_join
  thread_join-Quiet tid = search (quiet, join_at-Quiet) depth 24
