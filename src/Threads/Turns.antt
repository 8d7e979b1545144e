-- ===== src/Threads/Turns.antt =====
-- scheduler of xv6-public_project03/proc.c. A pass over the table is cut at swtch: `schedule` runs up to
-- the first switch, and `turn` goes on behind a switch. switchuvm and switchpth load registers.
use operating_system.Common.{
  ℕ, ◌+◌, ◌==◌, Bool, false, not, ◌&&◌, Option, none, some, List, [], ◌∷◌, if◌then◌else◌, drop,
  pure, ◌>>=◌, ◌>>◌, get, modify, when,
}
use operating_system.Mlfq.Spinlock.{ptable_lock, sti}
use operating_system.Mlfq.Proc.{runnable, running, eqb_Procstate}
use operating_system.Threads.State.{
  Pthread, Process, Kern, on_cpu, lock, unlock, process_at, put_process, thread_at, put_thread,
}
use operating_system.Threads.Join.{found_in}

-- The first runnable thread from index `t` on.
unfoldable pub find_ready : ℕ → List Pthread → Option ℕ
find_ready t [] = none
find_ready t (th ∷ ths) =
    let rest = find_ready (t + 1) ths in if eqb_Procstate th.state runnable then some t else rest

-- The next thread of a process, from index `t` on. The state of the process is tested before its threads.
abbrev pub ready_thread : ℕ → Process → Option ℕ
ready_thread t p =
    if t == 0 && not (eqb_Procstate p.state runnable) then none else find_ready t (drop t p.pth)

-- The next thread of the pass, from index `t` of process `i` on.
unfoldable pub find_next : ℕ → ℕ → List Process → Option (ℕ × ℕ)
find_next i t [] = none
find_next i t (p ∷ ps) = found_in i (ready_thread t p) (find_next (i + 1) 0 ps)

abbrev pub is_last : Option ℕ → ℕ → Bool
is_last none i = false
is_last (some j) i = i == j

abbrev pub set_current : Option ℕ → Kern (Unit {0})
set_current c = modify (λ k. record k { cpu = record (k.cpu) { proc = c } })

-- The body of the inner loop up to swtch; the first argument is scheduled_proc. A second thread of the
-- process leaves its state as it is.
unfoldable pub run_thread : Option ℕ → ℕ → ℕ → Kern (Unit {0})
run_thread last i t = do
  th ← thread_at i t
  put_thread i t (record th { state = running })
  p ← process_at i
  put_process i (record p { on_tidx = t; state = if is_last last i then p.state else running })
  when (not (is_last last i)) (set_current (some i))

abbrev pub run_or_end : Option ℕ → Option (ℕ × ℕ) → Kern (Option (ℕ × ℕ))
run_or_end last none = do set_current none; unlock ptable_lock; pure none
run_or_end last (some (i, t)) = do run_thread last i t; pure (some (i, t))

-- The pass from index `t` of process `i` on, up to its next switch or its end. Behind a switch to thread
-- `t` of process `i` follows `turn (some i) i (t + 1)`.
unfoldable pub turn : Option ℕ → ℕ → ℕ → Kern (Option (ℕ × ℕ))
turn last i t = do k ← get; run_or_end last (find_next i t (drop i k.procs))

unfoldable pub schedule : Kern (Option (ℕ × ℕ))
schedule = do on_cpu (modify sti); lock ptable_lock; turn none 0 0
