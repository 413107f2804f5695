-- ===== src/Infra/ThreadPool/Stopping.antt =====
-- `stop` from end to end.
use project_chat.Common.{ℕ, ◌+◌}
use project_chat.Infra.ThreadSafeQueue.{ThreadSafeQueue}
use project_chat.Infra.ThreadSafeQueue
use project_chat.Infra.ThreadPool.{ThreadPool}

module _ {T : Type 0} where
  abbrev pub over : ThreadPool T → ℕ
  over p = p.completed_tasks + p.failed_tasks
