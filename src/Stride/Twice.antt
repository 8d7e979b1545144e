-- ===== src/Stride/Twice.antt =====
-- mlfq_cpu_share of ex_project3/HYU-ELE3021/xv6-public/mlfq.c for a process that has a share already.
use operating_system.Common.{ℕ, ◌≡◌, ◌≢◌}
use operating_system.Stride.State.{Float, client, Sched}

module _ (fl : Float) where
  -- A process that the stride scheduler holds twice; `i` is the place that it had before.
  pub record Twice (s r : Sched fl) (p i u : ℕ) : Type 0 where
    pub again : ℕ
    pub apart : again ≢ i
    pub old : r.stride.queue i ≡ client p
    pub new : r.stride.queue again ≡ client p
    pub tickets_old : r.stride.ticket i ≡ s.stride.ticket i
    pub tickets_new : r.stride.ticket again ≡ u
    pub knows : (r.proc p).index ≡ again
    pub lost : r.expire i ≡ 0
