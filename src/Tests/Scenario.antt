-- ===== src/Tests/Scenario.antt =====
-- A backend that connects and is asked.

use seabird_core.Prelude.{
  ◌≡◌, refl, text, some, [], ◌∷◌, ok, text_ord, cmp_text, get, insert, contains_key,
}
use seabird_core.Id.{BackendId, backend_id_ord}
use seabird_core.Proto.{ChatEvent, ChatEventInner, ChatRequestInner}
use seabird_core.Server.State.{Server, ChatRequestHandle, new}
use seabird_core.Server.Requests.{register_backend, open_request, delivered}
use seabird_core.Server.Ingest.{IngestEvents, start, connect, read_hello}
use seabird_core.Server.System
use seabird_core.Server.System.{System, Step, Reach, booted}
use seabird_core.Tests.Samples.{codec}

abbrev pub id : BackendId
id = record { scheme = text "irc"; id = text "net" }

abbrev pub hello : ChatEvent
hello = record {
  id = [];
  inner = some (ChatEventInner.hello (some (record { type = text "irc"; id = text "net" })));
  tags = [];
}

abbrev pub start_state : System
start_state = booted (text "host") (text "db") 7

abbrev pub connection : IngestEvents
connection = record { id = id; backend = 0; backend_handle = record { id = id; receiver = 0 } }

abbrev pub connected_state : System
connected_state = record start_state {
  server = (start (ok (some hello)) start_state.server).1;
  connections = connection ∷ [];
}

pub starts : start (ok (some hello)) start_state.server ≡ (ok connection, connected_state.server)
unfolding start read_hello connect register_backend contains_key new
starts = refl

abbrev pub to_connected : Reach codec start_state connected_state
to_connected =
    System.next System.here
      (System.connects (ok (some hello)) connection connected_state.server starts refl)

abbrev pub handle : ChatRequestHandle
handle = record { id = text "r1"; receiver = 1 }

abbrev pub asked : Server
asked = (open_request (text "r1") delivered id ChatRequestInner.metadata connected_state.server).1

abbrev pub asked_state : System
asked_state = record connected_state { server = asked; waiting = handle ∷ [] }

pub opens :
    open_request (text "r1") delivered id ChatRequestInner.metadata connected_state.server
    ≡ (ok handle, asked)
unfolding open_request start read_hello connect register_backend contains_key insert get new
    backend_id_ord text text_ord cmp_text
opens = refl

abbrev pub step_to_asked : Step codec connected_state asked_state
step_to_asked =
    System.opens (text "r1") delivered id ChatRequestInner.metadata handle asked opens refl

abbrev pub to_asked : Reach codec start_state asked_state
to_asked = System.next to_connected step_to_asked
