-- ===== src/Tests/Locks.antt =====
-- The two deadlocks of src/server/mod.rs, from tasks that start at the beginning of their functions.
use seabird_core.Prelude.{
  Bool-cases, inl, inr, ℕ, ◌≡◌, ◌≢◌, refl, arith, none, some, List, [], ◌∷◌, if◌then◌else◌, ◌==◌,
}
use seabird_core.Server.Locks
use seabird_core.Server.Locks.{
  Locks, Op, send, get_read, get_write, drop_read, drop_write, unlock, lock, ask_read, ask_write,
  pause, reader, writer, update, Step, Reach, issue_request_ops, get_backend_info_ops,
  register_backend_ops, respond_ops, answer_ops, issued,
}
use seabird_core.Server.Locks.Stages.{queued, at_ops}
use seabird_core.Server.Locks.Send
use seabird_core.Server.Locks.Nested
use seabird_core.Server.Locks.Send.{NeverReceives, stuck_send, send_under_mutex_blocks}
use seabird_core.Server.Locks.Order.Progress.{Progress}
use seabird_core.Server.Locks.Order.Places.{IsBusy}
use seabird_core.Server.Locks.Order.Work.{work}
use seabird_core.Server.Locks.Order.Finish.{IsSmall, every_run_finishes}
use seabird_core.Prelude.{◌⊎◌, ◌+◌}
use seabird_core.Server.Locks.Order.Serving.{
  Serves, finished, issues_request, registers, answers, IsFresh,
}
use seabird_core.Server.Locks.Nested.{stuck_read, second_guard_blocks}

-- A handler and a connection, and a backend that connects; ten requests wait in the channel of the
-- connection.
abbrev first_tasks : ℕ → List Op
first_tasks j =
    if j == 0
    then issue_request_ops issued 0
    else (if j == 1 then answer_ops else (if j == 2 then register_backend_ops else []))

abbrev with_full_channel : Locks
with_full_channel = record {
  mutex = none;
  readers = [];
  writing = none;
  queue = [];
  room = λ k. 0;
  tasks = first_tasks;
}

abbrev sending : List Op
sending = send 0 ∷ drop_read ∷ unlock ∷ pause ∷ []

never : (j : ℕ) → j ≢ 1 → NeverReceives 0 (first_tasks j)
never j n = elim (Bool-cases (j == 0)) [
  | inl e ↦ ground (arith, e)
  | inr e ↦ elim (Bool-cases (j == 2)) [
    | inl f ↦ ground (arith, e, f, n)
    | inr f ↦ ground (arith, e, f, n)
  ]
]

first_Callers : Send.Callers 0 1 0 [] [] with_full_channel
first_Callers = record {
  idle = record { unlocked = refl; unread = refl; unwritten = refl; unasked = refl };
  full = refl;
  two = λ e. ground (arith, e);
  calls = refl;
  reads_answer = refl;
  others = never;
}

-- The backend connects meanwhile.
abbrev later_send : Locks
later_send =
    queued 2 (writer 2) (get_write ∷ drop_write ∷ []) (stuck_send 0 1 0 [] [] with_full_channel)

send_under_mutex_blocks_example :
    Reach with_full_channel (stuck_send 0 1 0 [] [] with_full_channel)
    × (later_send.mutex ≡ some 0)
    × (later_send.tasks 0 ≡ sending)
    × (later_send.tasks 1 ≡ respond_ops)
    × (later_send.room 0 ≡ 0)
send_under_mutex_blocks_example =
    send_under_mutex_blocks 0 1 0 [] [] with_full_channel later_send first_Callers
      (Locks.next Locks.here (Locks.asks_write 2 (get_write ∷ drop_write ∷ []) refl refl))

-- A handler of `get_backend_info`, a backend that connects, and a connection that reads an answer.
abbrev second_tasks : ℕ → List Op
second_tasks j =
    if j == 0
    then get_backend_info_ops (some issued) 0
    else (if j == 1 then register_backend_ops else (if j == 2 then answer_ops else []))

abbrev with_room : Locks
with_room = record {
  mutex = none;
  readers = [];
  writing = none;
  queue = [];
  room = λ k. 10;
  tasks = second_tasks;
}

second_Callers : Nested.Callers 0 1 0 [] [] with_room
second_Callers = record {
  idle = record { unlocked = refl; unread = refl; unwritten = refl; unasked = refl };
  two = λ e. ground (arith, e);
  calls = refl;
  registers = refl;
}

-- The connection reads its answer meanwhile.
abbrev later_read : Locks
later_read = at_ops 2 respond_ops (stuck_read 0 1 0 [] [] with_room)

second_guard_blocks_example :
    Reach with_room (stuck_read 0 1 0 [] [] with_room)
    × (later_read.mutex ≡ some 0)
    × (later_read.tasks 0 ≡ get_read ∷ send 0 ∷ drop_read ∷ unlock ∷ pause ∷ drop_read ∷ [])
    × (later_read.tasks 1 ≡ get_write ∷ drop_write ∷ [])
second_guard_blocks_example =
    second_guard_blocks 0 1 0 [] [] with_room later_read second_Callers
      (Locks.next Locks.here (Locks.pauses 2 respond_ops refl refl))

-- The same three tasks with room in the channel, and the handler with the mutex.
abbrev three_start : Locks
three_start = record with_full_channel { room = λ k. 10 }

abbrev mutex_held : Locks
mutex_held = record three_start {
  mutex = some 0;
  tasks = update 0 (ask_read ∷ get_read ∷ sending) first_tasks;
}

first_serve : (i : ℕ) → Serves (first_tasks i)
first_serve i = elim (Bool-cases (i == 0)) [
  | inl e ↦ rw e (issues_request issued 0 finished)
  | inr e ↦ elim (Bool-cases (i == 1)) [
    | inl f ↦ rw (e, f) (answers finished)
    | inr f ↦ elim (Bool-cases (i == 2)) [
      | inl g ↦ rw (e, f, g) (registers finished)
      | inr g ↦ rw (e, f, g) finished
    ]
  ]
]

three_start-IsFresh : IsFresh three_start
three_start-IsFresh = record {
  unlocked = refl;
  unread = refl;
  unwritten = refl;
  unasked = refl;
  serves = first_serve;
}

three_start-IsSmall : IsSmall 3 three_start
three_start-IsSmall = record { idle = λ i l. ground (arith, l); roomy = λ k. ground arith }

every_run_finishes_example :
    (1 + work 3 mutex_held ≡ work 3 three_start)
    × (Progress mutex_held ⊎ ((i : ℕ) → ¬ IsBusy (mutex_held.tasks i)))
every_run_finishes_example =
    every_run_finishes 3 three_start mutex_held three_start-IsFresh three_start-IsSmall
      (Locks.next Locks.here (Locks.locks 0 _ refl refl refl))
