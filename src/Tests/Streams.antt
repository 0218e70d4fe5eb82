-- ===== src/Tests/Streams.antt =====
-- A plugin that subscribes and is sent an event; what its backend is asked and passes on.
use mathlib.Core.List.{mem-cons_self, Nodup-nil}
use mathlib.Core.List.Perm
use seabird_core.Prelude.{none, ◌≡◌, refl, text, some, [], ◌∷◌, ◌++◌, ok, text_ord, contains_key}
use seabird_core.Id.{backend_id_ord}
use seabird_core.Proto.{ChatRequestInner}
use seabird_core.Server.State.{new}
use seabird_core.Server.Requests.{register_backend, delivered}
use seabird_core.Server.Ingest.{start, connect, read_hello}
use seabird_core.Server.System
use seabird_core.Server.System.{System, Step, Reach, booted}
use seabird_core.Tests.Samples.{codec}
use seabird_core.Tests.Scenario.{
  start_state, connection, connected_state, to_connected, handle, asked, asked_state, opens,
  step_to_asked,
}
use seabird_core.Prelude.{length, List, ◌≤◌, arith}
use seabird_core.Proto.{Event, EventInner}
use seabird_core.Proto.{ChatRequest as ChatRequestMessage}
use seabird_core.Server.State.{on, CommandsHandle, broadcast}
use seabird_core.Server.Grpc.Stream.{EventStream, subscribe, advance, forward, stream_events}
use seabird_core.Server.System.{NextEvent}
use seabird_core.Server.System.Broadcast.{drop}
use seabird_core.Server.System.Broadcast.Always.{plugin_sees_broadcast}
use seabird_core.Server.System.Queues.Always.{request_reaches_connection}
use seabird_core.Server.System.Protocol.{Moves, view}
use seabird_core.Server.System.Protocol.Refines.{Step-refines}

Step-refines_example : Moves (view connected_state) (view asked_state)
Step-refines_example =
    Step-refines codec (text "host") (text "db") 7 connected_state asked_state to_connected
      step_to_asked

abbrev message : ChatRequestMessage
message = record { id = text "r1"; inner = some ChatRequestInner.metadata }

request_reaches_connection_example :
    (rest : List ChatRequestMessage) × (on 0 connected_state.server.asked
      ≡ on 0 connected_state.server.passed ++ rest)
    × (on 0 asked.asked ≡ on 0 asked.passed ++ (rest ++ message ∷ []))
request_reaches_connection_example =
    request_reaches_connection codec (text "host") (text "db") 7 connected_state connection
      (text "r1") delivered ChatRequestInner.metadata handle asked to_connected mem-cons_self opens

-- A plugin without commands.
abbrev plugin : CommandsHandle
plugin = record { commands = [] }

abbrev stream : EventStream
stream = record { handle = plugin; since = 0; next = 0; sent = [] }

abbrev subscribed_state : System
subscribed_state = record connected_state { streams = stream ∷ [] }

subscribes : stream_events [] connected_state.server ≡ (ok plugin, connected_state.server)
unfolding stream_events
subscribes = refl

to_subscribed : Reach codec start_state subscribed_state
unfolding subscribe start read_hello connect register_backend contains_key new
to_subscribed =
    System.next to_connected
      (System.subscribes [] plugin connected_state.server Nodup-nil subscribes refl)

abbrev inner : EventInner
inner = EventInner.command (record { source = none; command = text "roll"; arg = [] })

abbrev event : Event
event = record { inner = some inner; tags = [] }

abbrev broadcast_state : System
broadcast_state = record subscribed_state { server = broadcast inner [] connected_state.server }

to_broadcast : Reach codec start_state broadcast_state
to_broadcast = System.next to_subscribed (System.broadcasts inner [] refl)

abbrev forwarded_stream : EventStream
forwarded_stream = record stream { next = 1; sent = event ∷ [] }

abbrev forwarded_state : System
forwarded_state = record broadcast_state { streams = forwarded_stream ∷ [] }

next_event : NextEvent broadcast_state.server stream event
unfolding broadcast start read_hello connect register_backend contains_key new
next_event = record {
  before = [];
  after = [];
  sent = refl;
  position = refl;
  buffered = omega arith;
}

to_forwarded : Reach codec start_state forwarded_state
unfolding forward advance
to_forwarded =
    System.next to_broadcast
      (System.forwards stream [] event (Perm.refl (stream ∷ [])) next_event refl)

plugin_sees_broadcast_example :
    (drop 0 forwarded_state.server.sender ≡ (event ∷ []) ++ drop 1 forwarded_state.server.sender)
    × (forwarded_stream.next ≡ 1)
    × (1 ≤ length forwarded_state.server.sender)
plugin_sees_broadcast_example =
    plugin_sees_broadcast codec (text "host") (text "db") 7 forwarded_state forwarded_stream
      to_forwarded mem-cons_self
