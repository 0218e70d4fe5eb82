-- ===== src/Server/System.antt =====
-- The server with its tasks: the connections of backends, the event streams of plugins and the
-- handlers that wait. A step is what one task does between two waits; the locks that
-- src/server/mod.rs holds make it atomic.
pub mod Ownership
pub mod Correlation
pub mod Channels
pub mod Queues
pub mod Broadcast
pub mod Protocol
use mathlib.Core.List.{Mem, Perm}
use seabird_core.Prelude.{
  Text, Option, none, some, List, [], ◌∷◌, RpcResult, Status, ok, err, ◌≡◌, Entries, keys, Nodup,
  ◌++◌, map, text_ord, ℕ, length, Bool, true, false, suc, ◌+◌, ◌≤◌,
}
use seabird_core.Id.{BackendId}
use seabird_core.Id.Percent.{PercentEncoding}
use seabird_core.Block.Message.{Tags}
use seabird_core.Proto.{EventInner, ChatEvent, ChatRequestInner, CommandMetadata}
use seabird_core.Server.State.{
  CommandsHandle, Sender, on, broadcast_buffer, Server, ChatRequestHandle, CleanupRequest,
  broadcast, new,
}
use seabird_core.Server.Requests.{
  Delivery, Awaited, answer, sender_dropped, elapsed, open_request, close_request, cleanup_turn,
}
use seabird_core.Server.Ingest.{
  IngestEvents, Selected, request_passed, request_refused, start, turn, disconnect,
}
use seabird_core.Proto.{ChatRequest as ChatRequestMessage, Event}
use seabird_core.Server.Grpc.Stream
use seabird_core.Server.Grpc.Stream.{
  EventStream, subscribe, advance, forward, stream_turn, returned, stream_events, unsubscribe,
}

-- While `cleaning`, the cleanup task has read the first entry of the cleanup queue, and waits for the
-- lock that it needs; the entry stays the first of `cleanup` until it is carried out.
pub record System : Type 0 where
  pub server : Server
  pub connections : List IngestEvents
  pub streams : List EventStream
  pub waiting : List ChatRequestHandle
  pub cleaning : Bool

-- The server as `new` makes it, with no task but the cleanup task.
abbrev pub booted : Text → Text → ℕ → System
booted host url now = record {
  server = new host url now;
  connections = [];
  streams = [];
  waiting = [];
  cleaning = false;
}

-- A oneshot channel yields only a value that was sent on it.
abbrev pub Delivers : Server → ChatRequestHandle → Awaited → Type 0
Delivers s h (answer e) = Mem (h.receiver, e) s.answered
Delivers s h sender_dropped = Unit
Delivers s h elapsed = Unit

-- An mpsc channel yields what was sent on it, in order; a connection reads that of its backend.
pub record NextRequest (s : Server) (from : Sender) (req : ChatRequestMessage) : Type 0 where
  pub after : List ChatRequestMessage
  pub sent : on from s.asked ≡ on from s.passed ++ req ∷ after

abbrev pub Yields : Server → IngestEvents → Selected → Type 0
Yields s c (request_passed req) = NextRequest s c.backend_handle.receiver req
Yields s c (request_refused req why) = NextRequest s c.backend_handle.receiver req
Yields s c _ = Unit

-- The broadcast channel yields what was sent on it since the subscription, in order, to a reader that
-- is not more than the buffer behind: the next event is that after those which it yielded before.
pub record NextEvent (s : Server) (stream : EventStream) (event : Event) : Type 0 where
  pub before : List Event
  pub after : List Event
  pub sent : s.sender ≡ before ++ event ∷ after
  pub position : length before ≡ stream.next
  pub buffered : suc (length after) ≤ broadcast_buffer

-- `Perm l (x ∷ rest)`: `x` is one of the tasks `l`, and `rest` are the others.
pub data Step (p : PercentEncoding) (σ τ : System) : Type 0 where
  -- A backend says hello, and is connected or refused.
  connects :
      (first : RpcResult (Option ChatEvent)) (c : IngestEvents) (s : Server)
      → start first σ.server ≡ (ok c, s)
      → τ ≡ record σ { server = s; connections = c ∷ σ.connections }
      → Step p σ τ
  refused :
      (first : RpcResult (Option ChatEvent)) (e : Status) (s : Server)
      → start first σ.server ≡ (err e, s)
      → τ ≡ record σ { server = s }
      → Step p σ τ
  -- A connection goes once round its loop, which goes on or ends.
  turns :
      (c : IngestEvents) (rest : List IngestEvents) (x : Selected) (s : Server)
      → Perm σ.connections (c ∷ rest)
      → Yields σ.server c x
      → turn p c x σ.server ≡ (ok tt, s)
      → τ ≡ record σ { server = s }
      → Step p σ τ
  ends :
      (c : IngestEvents) (rest : List IngestEvents) (x : Selected) (e : Status) (s : Server)
      → Perm σ.connections (c ∷ rest)
      → Yields σ.server c x
      → turn p c x σ.server ≡ (err e, s)
      → τ ≡ record σ { server = disconnect c s; connections = rest }
      → Step p σ τ
  -- A plugin opens its stream with the commands of a `HashMap`, and is accepted or refused; later
  -- its stream ends.
  subscribes :
      (commands : Entries Text CommandMetadata) (h : CommandsHandle) (s : Server)
      → Nodup (keys commands)
      → stream_events commands σ.server ≡ (ok h, s)
      → τ ≡ record σ { server = s; streams = subscribe h s ∷ σ.streams }
      → Step p σ τ
  denied :
      (commands : Entries Text CommandMetadata) (e : Status) (s : Server)
      → stream_events commands σ.server ≡ (err e, s)
      → τ ≡ record σ { server = s }
      → Step p σ τ
  forwards :
      (stream : EventStream) (rest : List EventStream) (event : Event)
      → Perm σ.streams (stream ∷ rest)
      → NextEvent σ.server stream event
      → τ ≡ record σ { streams = forward event (advance stream) ∷ rest }
      → Step p σ τ
  unsubscribes :
      (stream : EventStream) (rest : List EventStream) (x : Stream.Selected)
      (r : RpcResult (Unit {0}))
      → Perm σ.streams (stream ∷ rest)
      → stream_turn x ≡ returned r
      → τ ≡ record σ { server = unsubscribe stream.handle σ.server; streams = rest }
      → Step p σ τ
  -- A handler broadcasts, opens a request, fails to, and gets the end of its wait.
  broadcasts :
      (inner : EventInner) (tags : Tags)
      → τ ≡ record σ { server = broadcast inner tags σ.server }
      → Step p σ τ
  opens :
      (id : Text) (d : Delivery) (b : BackendId) (req : ChatRequestInner) (h : ChatRequestHandle)
      (s : Server)
      → open_request id d b req σ.server ≡ (ok h, s)
      → τ ≡ record σ { server = s; waiting = h ∷ σ.waiting }
      → Step p σ τ
  fails :
      (id : Text) (d : Delivery) (b : BackendId) (req : ChatRequestInner) (e : Status) (s : Server)
      → open_request id d b req σ.server ≡ (err e, s)
      → τ ≡ record σ { server = s }
      → Step p σ τ
  closes :
      (h : ChatRequestHandle) (rest : List ChatRequestHandle) (a : Awaited)
      → Perm σ.waiting (h ∷ rest)
      → Delivers σ.server h a
      → τ ≡ record σ { server = (close_request h a σ.server).1; waiting = rest }
      → Step p σ τ
  -- The cleanup task reads the first entry of its queue; later it gets the lock for it, and carries
  -- it out.
  reads_cleanup :
      (r : CleanupRequest) (q : List CleanupRequest)
      → σ.cleaning ≡ false
      → σ.server.cleanup ≡ r ∷ q
      → τ ≡ record σ { cleaning = true }
      → Step p σ τ
  cleans :
      σ.cleaning ≡ true
      → τ ≡ record σ { server = cleanup_turn σ.server; cleaning = false }
      → Step p σ τ

pub data Reach (p : PercentEncoding) (σ : System) : System → Type 0 where
  here : Reach p σ σ
  next : {τ υ : System} → Reach p σ τ → Step p τ υ → Reach p σ υ
