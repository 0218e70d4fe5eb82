-- ===== src/Server/Grpc/Stream.antt =====
-- `stream_events` of src/server/grpc.rs: a plugin registers its commands and receives the events.
use seabird_core.Prelude.{
  ℕ, suc, length, Text, text, Option, none, some, List, [], ◌∷◌, ◌++◌, Rpc, RpcResult, ok, err,
  status, internal, already_exists, Entries, keys, text_ord, contains_key, insert, if◌then◌else◌,
}
use seabird_core.Proto.{Event, CommandMetadata}
use seabird_core.Server.State.{Server, CommandsHandle, drop_commands_handle}

-- The first name, in the order of iteration, that is already registered.
unfoldable pub first_taken : List Text → Entries Text CommandMetadata → Option Text
first_taken [] registry = none
first_taken (name ∷ names) registry =
    if contains_key name registry then some name else first_taken names registry

unfoldable pub insert_all :
    Entries Text CommandMetadata → Entries Text CommandMetadata → Entries Text CommandMetadata
insert_all [] registry = registry
insert_all ((name, metadata) ∷ more) registry = insert_all more (insert name metadata registry)

-- `stream_events` up to the spawned task: the handle is what the task holds. `commands` is the
-- plugin's `HashMap`, in its order of iteration.
unfoldable pub stream_events : Entries Text CommandMetadata → Rpc Server CommandsHandle
unfolding first_taken insert_all
stream_events commands s = elim (first_taken (keys commands) s.commands) [
  | some name ↦ (
    err (
        status already_exists
          (text "command \"" ++ (name ++ text "\" already registered by another plugin"))),
    s,
  )
  | none ↦ (
    ok (record { commands = keys commands }),
    record s { commands = insert_all commands s.commands },
  )
]

-- What `select` yields: an event, with the end of its send to the plugin; a lag of the broadcast
-- channel; the end of the broadcast; the plugin's disconnection.
pub data Selected : Type 0 where
  forwarded : Event → Selected
  unsent : Event → Text → Selected
  lagged : Text → Selected
  broadcast_ended disconnected : Selected

-- How the task stands: still in its loop, or returned.
pub data Stream : Type 0 where
  looping : Stream
  returned : RpcResult (Unit {0}) → Stream

-- One turn of the loop.
unfoldable pub stream_turn : Selected → Stream
stream_turn (forwarded event) = looping
stream_turn (unsent event why) =
    returned (err (status internal (text "failed to send event: " ++ why)))
stream_turn (lagged why) =
    returned (err (status internal (text "failed to read internal event: " ++ why)))
stream_turn broadcast_ended =
    returned (err (status internal (text "input stream ended unexpectedly")))
stream_turn disconnected = returned (ok tt)

abbrev sent_by : Selected → List Event
sent_by (forwarded event) = event ∷ []
sent_by _ = []

-- The loop over what is selected: the events that the plugin got, and how the task stands.
unfoldable pub stream_loop : List Selected → List Event × Stream
unfolding stream_turn
stream_loop [] = ([], looping)
stream_loop (x ∷ xs) =
    let rest = stream_loop xs in
    elim (stream_turn x) [ looping ↦ (sent_by x ++ rest.0, rest.1) | returned r ↦ ([], returned r) ]

-- The task with what it has sent to its plugin. `since` is the length of the broadcast when the task
-- subscribed, and `next` the place in it of the event that its receiver yields next.
pub record EventStream : Type 0 where
  pub handle : CommandsHandle
  pub since : ℕ
  pub next : ℕ
  pub sent : List Event

-- The task as it starts, after its receiver yielded an event, and after it sent one.
unfoldable pub subscribe : CommandsHandle → Server → EventStream
subscribe h s = record { handle = h; since = length s.sender; next = length s.sender; sent = [] }

unfoldable pub advance : EventStream → EventStream
advance stream = record stream { next = suc stream.next }

unfoldable pub forward : Event → EventStream → EventStream
forward event stream = record stream { sent = stream.sent ++ event ∷ [] }

-- The end of the task, however it returns: the handle is dropped.
unfoldable pub unsubscribe : CommandsHandle → Server → Server
unfolding drop_commands_handle
unsubscribe h s = drop_commands_handle h s
