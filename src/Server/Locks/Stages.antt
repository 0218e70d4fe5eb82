-- ===== src/Server/Locks/Stages.antt =====
-- The states that one task's operations lead through, for the two deadlocks of src/server/mod.rs.
use seabird_core.Prelude.{ℕ, ◌≡◌, none, some, List, [], ◌∷◌, ◌++◌}
use seabird_core.Server.Locks.{Locks, Op, Waiter, update}

-- Nobody holds or awaits a lock.
pub record IsIdle (σ : Locks) : Type 0 where
  pub unlocked : σ.mutex ≡ none
  pub unread : σ.readers ≡ []
  pub unwritten : σ.writing ≡ none
  pub unasked : σ.queue ≡ []

-- The task goes on to these operations.
abbrev pub at_ops : ℕ → List Op → Locks → Locks
at_ops i rest σ = record σ { tasks = update i rest σ.tasks }

abbrev pub with_mutex : ℕ → List Op → Locks → Locks
with_mutex i rest σ = record σ { mutex = some i; tasks = update i rest σ.tasks }

abbrev pub queued : ℕ → Waiter → List Op → Locks → Locks
queued i x rest σ = record σ { queue = σ.queue ++ x ∷ []; tasks = update i rest σ.tasks }

-- The task has a read guard, and nobody is left in the queue.
abbrev pub reading : ℕ → List Op → Locks → Locks
reading i rest σ = record σ { readers = i ∷ σ.readers; queue = []; tasks = update i rest σ.tasks }
