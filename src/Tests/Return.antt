-- ===== src/Tests/Return.antt =====
-- A backend that comes back, and a plugin after it.
use mathlib.Core.List.{Mem}
use seabird_core.Prelude.{
  ◌≡◌, ◌⊎◌, refl, Text, text, some, [], ◌∷◌, ◌++◌, ok, err, status, already_exists, Entries, keys,
  text_ord, get,
}
use seabird_core.Id.{backend_id_ord}
use seabird_core.Proto.{CommandMetadata}
use seabird_core.Server.Ingest.{IngestEvents, start, read_hello}
use seabird_core.Server.Grpc.Stream.{stream_events}
use seabird_core.Server.System.Ownership.{connected, subscribed}
use seabird_core.Server.System.Ownership.Return.{caught_up, backend_may_return, commands_may_return}
use seabird_core.Tests.Samples.{codec}
use seabird_core.Tests.Scenario.{id, hello}
use seabird_core.Tests.Runs.{gone_state, to_gone}

greeted : read_hello (ok (some hello)) ≡ ok (record { type = text "irc"; id = text "net" })
unfolding read_hello
greeted = refl

backend_may_return_example :
    (Mem id (connected gone_state.connections)
      × (start (ok (some hello)) (caught_up gone_state)
          ≡ (err (status already_exists (text "id already exists")), caught_up gone_state)))
    ⊎ ((¬ Mem id (connected gone_state.connections))
        × (c : IngestEvents) × ((start (ok (some hello)) (caught_up gone_state)).0 ≡ ok c)
        × (c.backend_handle.id ≡ id)
        × (get id (start (ok (some hello)) (caught_up gone_state)).1.backends ≡ some c.backend))
backend_may_return_example =
    backend_may_return codec (text "host") (text "db") 7 gone_state (ok (some hello))
      (record { type = text "irc"; id = text "net" }) to_gone greeted

abbrev help : Entries Text CommandMetadata
help = (text "help", text "usage") ∷ []

commands_may_return_example :
    ((name : Text) × Mem name (keys help)
      × Mem name (subscribed gone_state.streams)
      × (stream_events help (caught_up gone_state) ≡ (
        err (
            status already_exists
              (text "command \"" ++ (name ++ text "\" already registered by another plugin"))),
        caught_up gone_state,
      )))
    ⊎ (((name : Text) → Mem name (keys help) → ¬ Mem name (subscribed gone_state.streams))
        × ((stream_events help (caught_up gone_state)).0 ≡ ok (record { commands = keys help })))
commands_may_return_example =
    commands_may_return codec (text "host") (text "db") 7 gone_state help to_gone
