-- ===== src/Server/Locks.antt =====
-- Who waits for whom: the mutex of `requests`, the read-write lock of `backends` and the bounded mpsc
-- channels of src/server/mod.rs, as the tasks take and free them. Only the order of those operations
-- is kept of each function.
pub mod Stages
pub mod Send
pub mod Nested
pub mod Order
use seabird_core.Prelude.{
  ℕ, suc, ◌+◌, ◌≤◌, ◌≡◌, Option, none, some, List, [], ◌∷◌, ◌++◌, ◌==◌, if◌then◌else◌, Bool, true,
  false,
}
use seabird_core.Server.State.{Sender}

abbrev pub chat_ingest_receive_buffer : ℕ
chat_ingest_receive_buffer = 10

-- An `await` on the read-write lock is two operations: the task joins the queue, and gets the lock.
-- A lock that is freed with nothing awaited in between, that of the commands or of a backend's
-- channels, is one: `touch`.
pub data Op : Type 0 where
  lock unlock : Op
  ask_read get_read drop_read : Op
  ask_write get_write drop_write : Op
  send receive : Sender → Op
  touch pause : Op

-- How a call of `issue_request` goes: its identifier is taken, no such backend is registered, the send
-- fails, or the request is sent.
pub data Way : Type 0 where
  id_taken unknown_backend send_fails issued : Way

-- `issue_request` to the backend with the channel `k`. An early return drops the guards that it has,
-- and a send on a channel whose receiver was dropped fails at once. The pause is the wait for the
-- answer.
abbrev pub issue_request_ops : Way → Sender → List Op
issue_request_ops id_taken k = lock ∷ unlock ∷ []
issue_request_ops unknown_backend k = lock ∷ ask_read ∷ get_read ∷ drop_read ∷ unlock ∷ []
issue_request_ops send_fails k = lock ∷ ask_read ∷ get_read ∷ drop_read ∷ unlock ∷ []
issue_request_ops issued k = lock ∷ ask_read ∷ get_read ∷ send k ∷ drop_read ∷ unlock ∷ pause ∷ []

-- `get_backend_info`, whose guard lives to its end; it calls `issue_request` if it finds the backend.
abbrev pub get_backend_info_ops : Option Way → Sender → List Op
get_backend_info_ops none k = ask_read ∷ get_read ∷ drop_read ∷ []
get_backend_info_ops (some way) k =
    ask_read ∷ get_read ∷ (issue_request_ops way k ++ drop_read ∷ [])

-- `list_backends`.
abbrev pub list_backends_ops : List Op
list_backends_ops = ask_read ∷ get_read ∷ drop_read ∷ []

-- `list_channels` and `get_channel_info`, by whether the backend is registered.
abbrev pub list_channels_ops : Bool → List Op
list_channels_ops true = ask_read ∷ get_read ∷ touch ∷ drop_read ∷ []
list_channels_ops false = ask_read ∷ get_read ∷ drop_read ∷ []

-- What a channel event does after `respond`.
abbrev pub update_channels_ops : List Op
update_channels_ops = touch ∷ []

-- `stream_events`, `registered_commands`, and the arm of the cleanup task for commands.
abbrev pub commands_ops : List Op
commands_ops = touch ∷ []

-- `register_backend`, and the arm of the cleanup task for a backend.
abbrev pub register_backend_ops : List Op
register_backend_ops = ask_write ∷ get_write ∷ drop_write ∷ []

-- `respond`, and the arm of the cleanup task for a request.
abbrev pub respond_ops : List Op
respond_ops = lock ∷ unlock ∷ []

-- One round of `run` that reads an answer, and one that passes a request on.
abbrev pub answer_ops : List Op
answer_ops = pause ∷ respond_ops

abbrev pub pass_on_ops : Sender → List Op
pass_on_ops k = receive k ∷ pause ∷ []

pub data Waiter : Type 0 where
  reader writer : ℕ → Waiter

-- A task is a number, and `tasks` what each has still to do. `readers` has each task once for each
-- guard it holds; `room` is what a channel can still take.
pub record Locks : Type 0 where
  pub mutex : Option ℕ
  pub readers : List ℕ
  pub writing : Option ℕ
  pub queue : List Waiter
  pub room : Sender → ℕ
  pub tasks : ℕ → List Op

abbrev pub update {ℓ} : {A : Type ℓ} → ℕ → A → (ℕ → A) → ℕ → A
update i a f j = if j == i then a else f j

-- One guard of the task is dropped.
unfoldable pub erase : ℕ → List ℕ → List ℕ
erase i [] = []
erase i (j ∷ l) = if j == i then l else j ∷ erase i l

-- What one task does next. A mutex is taken when it is free, in any order; the read-write lock is
-- given to its waiters first come, first served, to readers together; a send waits for room.
pub data Step (σ τ : Locks) : Type 0 where
  locks :
      (i : ℕ) (rest : List Op)
      → σ.tasks i ≡ lock ∷ rest
      → σ.mutex ≡ none
      → τ ≡ record σ { mutex = some i; tasks = update i rest σ.tasks }
      → Step σ τ
  unlocks :
      (i : ℕ) (rest : List Op)
      → σ.tasks i ≡ unlock ∷ rest
      → σ.mutex ≡ some i
      → τ ≡ record σ { mutex = none; tasks = update i rest σ.tasks }
      → Step σ τ
  asks_read :
      (i : ℕ) (rest : List Op)
      → σ.tasks i ≡ ask_read ∷ rest
      → τ ≡ record σ { queue = σ.queue ++ reader i ∷ []; tasks = update i rest σ.tasks }
      → Step σ τ
  gets_read :
      (i : ℕ) (rest : List Op) (q : List Waiter)
      → σ.tasks i ≡ get_read ∷ rest
      → σ.queue ≡ reader i ∷ q
      → σ.writing ≡ none
      → τ ≡ record σ { readers = i ∷ σ.readers; queue = q; tasks = update i rest σ.tasks }
      → Step σ τ
  drops_read :
      (i : ℕ) (rest : List Op)
      → σ.tasks i ≡ drop_read ∷ rest
      → τ ≡ record σ { readers = erase i σ.readers; tasks = update i rest σ.tasks }
      → Step σ τ
  asks_write :
      (i : ℕ) (rest : List Op)
      → σ.tasks i ≡ ask_write ∷ rest
      → τ ≡ record σ { queue = σ.queue ++ writer i ∷ []; tasks = update i rest σ.tasks }
      → Step σ τ
  gets_write :
      (i : ℕ) (rest : List Op) (q : List Waiter)
      → σ.tasks i ≡ get_write ∷ rest
      → σ.queue ≡ writer i ∷ q
      → σ.readers ≡ []
      → σ.writing ≡ none
      → τ ≡ record σ { writing = some i; queue = q; tasks = update i rest σ.tasks }
      → Step σ τ
  drops_write :
      (i : ℕ) (rest : List Op)
      → σ.tasks i ≡ drop_write ∷ rest
      → σ.writing ≡ some i
      → τ ≡ record σ { writing = none; tasks = update i rest σ.tasks }
      → Step σ τ
  sends :
      (i : ℕ) (rest : List Op) (k : Sender) (n : ℕ)
      → σ.tasks i ≡ send k ∷ rest
      → σ.room k ≡ suc n
      → τ ≡ record σ { room = update k n σ.room; tasks = update i rest σ.tasks }
      → Step σ τ
  receives :
      (i : ℕ) (rest : List Op) (k : Sender)
      → σ.tasks i ≡ receive k ∷ rest
      → suc (σ.room k) ≤ chat_ingest_receive_buffer
      → τ ≡ record σ { room = update k (suc (σ.room k)) σ.room; tasks = update i rest σ.tasks }
      → Step σ τ
  touches :
      (i : ℕ) (rest : List Op)
      → σ.tasks i ≡ touch ∷ rest
      → τ ≡ record σ { tasks = update i rest σ.tasks }
      → Step σ τ
  pauses :
      (i : ℕ) (rest : List Op)
      → σ.tasks i ≡ pause ∷ rest
      → τ ≡ record σ { tasks = update i rest σ.tasks }
      → Step σ τ

pub data Reach (σ : Locks) : Locks → Type 0 where
  here : Reach σ σ
  next : {τ υ : Locks} → Reach σ τ → Step τ υ → Reach σ υ
