-- ===== src/Tests/Rooms.antt =====
-- A backend that joined a room, and what is told of it.
use mathlib.Core.List.{Mem, mem-cons_self}
use mathlib.Core.List.Perm
use seabird_core.Prelude.{
  ◌≡◌, ◌↔◌, refl, Text, text, List, [], ◌∷◌, ok, text_ord, insert, contains_key, keys, map, Nodup,
}
use seabird_core.Id.{BackendId, backend_id_ord, relative, show_backend_id, show_full_id}
use seabird_core.Proto.{Channel}
use seabird_core.Server.State.{new, set_arc}
use seabird_core.Server.Requests.{register_backend}
use seabird_core.Server.Ingest.{
  event_read, start, connect, read_hello, turn, handle_event, dispatch, update_channels,
  apply_channel, respond_unless_empty,
}
use seabird_core.Server.Ingest.Channels.{IsTable}
use seabird_core.Server.Grpc.{backend_id_of}
use seabird_core.Server.Grpc.Queries.{
  Backend, list_backends, backend_response, list_channels, get_channel_info,
}
use mathlib.Core.Logic.{◌∨₁◌}
use seabird_core.Server.System.Ownership.{connected, queued_backends}
use seabird_core.Server.System.Ownership.Listed.{listed_backends}
use seabird_core.Server.System
use seabird_core.Server.System.{System, Reach}
use seabird_core.Server.System.Channels.Tables.{Reach-AreTables}
use seabird_core.Server.System.Channels.Agree.{channel_queries_agree}
use seabird_core.Tests.Samples.{codec, codec-Laws}
use seabird_core.Tests.Scenario.{id, start_state, connection, connected_state, to_connected}
use seabird_core.Tests.Runs.{joining}

abbrev joined_state : System
joined_state = record connected_state {
  server = (turn codec connection (event_read joining) connected_state.server).1;
}

to_joined : Reach codec start_state joined_state
unfolding turn handle_event dispatch
to_joined = System.next to_connected (
    System.turns connection [] (event_read joining) joined_state.server
      (Perm.refl (connection ∷ [])) tt refl refl)

room :
    (joined_state.server.arcs 0).channels
    ≡ (text "c", record { id = text "c"; display_name = text "C"; topic = [] }) ∷ []
unfolding turn handle_event dispatch update_channels apply_channel insert set_arc start read_hello
    connect register_backend contains_key new text respond_unless_empty
room = refl

Reach-AreTables_example : IsTable (joined_state.server.arcs 0).channels
Reach-AreTables_example = Reach-AreTables codec (text "host") (text "db") 7 joined_state to_joined 0

registered : Mem id (keys joined_state.server.backends)
unfolding turn handle_event dispatch update_channels start read_hello connect register_backend
    contains_key insert new respond_unless_empty
registered = mem-cons_self

channel_queries_agree_example :
    (channels : List Channel) × (list_channels codec (show_backend_id codec id) joined_state.server
      ≡ (ok channels, joined_state.server))
    × ((k : Text) (x : Channel)
        → (Mem x channels × (x.id ≡ show_full_id codec (relative id k))) ↔ (
            (get_channel_info codec (show_full_id codec (relative id k)) joined_state.server).0
            ≡ ok x))
channel_queries_agree_example =
    channel_queries_agree codec codec-Laws (text "host") (text "db") 7 joined_state id to_joined
      registered

listed_backends_example :
    (backends : List Backend) × (list_backends codec joined_state.server
      ≡ (ok backends, joined_state.server))
    × Nodup (map (λ b. b.id) backends)
    × ((b : BackendId)
        → Mem b (connected joined_state.connections)
        → Mem (backend_response codec b) backends)
    × ((x : Backend)
        → Mem x backends
        → ∥ (
            (b : BackendId) × (x ≡ backend_response codec b)
            × (backend_id_of codec x.id ≡ ok b)
            × (Mem b (connected joined_state.connections)
                ∨₁ Mem b (queued_backends joined_state.server.cleanup))) ∥₁)
listed_backends_example =
    listed_backends codec codec-Laws (text "host") (text "db") 7 joined_state to_joined
