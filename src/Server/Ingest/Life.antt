-- ===== src/Server/Ingest/Life.antt =====
-- The task that `IngestEventsHandle::new` of src/server/ingest_events.rs spawns for a connection, from
-- the hello to the end, and what `spawn` of src/main.rs makes of its result.
pub mod Hello
pub mod Outcome
use seabird_core.Prelude.{Option, List, [], ◌∷◌, RpcResult, Status, ok, err}
use seabird_core.Id.Percent.{PercentEncoding}
use seabird_core.Proto.{ChatEvent}
use seabird_core.Server.State.{Server}
use seabird_core.Server.Ingest.{IngestEvents, Selected, start, run, disconnect}

-- `spawn` of src/main.rs: the errors that are logged when the task has ended.
abbrev pub spawn {ℓ} : {V : Type ℓ} → RpcResult V → List Status
spawn (ok v) = []
spawn (err e) = e ∷ []

-- The task is in its loop, or it has ended, with what was logged.
pub data Life : Type 0 where
  looping : IngestEvents → Life
  ended : List Status → Life

-- The end of the loop drops the handle.
abbrev pub after_loop : IngestEvents → RpcResult (Unit {0}) × Server → Life × Server
after_loop c (ok t, s) = (looping c, s)
after_loop c (err e, s) = (ended (spawn {V = Unit {0}} (err e)), disconnect c s)

module _ (p : PercentEncoding) where
  abbrev pub after_start : List Selected → RpcResult IngestEvents × Server → Life × Server
  after_start xs (err e, s) = (ended (spawn {V = Unit {0}} (err e)), s)
  after_start xs (ok c, s) = after_loop c (run p c xs s)

  -- The task: the first message of the stream, and then all that its loop selects.
  unfoldable pub connection_task :
      RpcResult (Option ChatEvent) → List Selected → Server → Life × Server
  connection_task first xs s = after_start xs (start first s)
