-- ===== src/Procs/ForkFailure.antt =====
-- ex_project3/HYU-ELE3021/xv6-public/proc.c: fork, where copyuvm fails.
use operating_system.Common.{ℕ, ◌<◌, ◌≡◌, ◌⊎◌, true, some}
use operating_system.Stride.State.{Float, nproc}
use operating_system.Procs.State.{Kernel}
use operating_system.Procs.Alike.{Alike}
use operating_system.Procs.Invariant.{is_unused}
use operating_system.Procs.Births.{AllUsed}

module _ {fl : Float} where
  -- What a fork leaves whose copyuvm has failed: no entry was free and nothing has changed, or the entry of
  -- the child is UNUSED, but stands in level 0.
  abbrev pub Undone : Kernel fl → Kernel fl → Type 0
  Undone k r =
      (AllUsed k × Alike k r)
      ⊎ ((n i : ℕ) × (n < nproc)
          × (is_unused k.sched n ≡ true)
          × (is_unused r.sched n ≡ true)
          × (r.sched.queue 0 i ≡ some n))
