-- ===== src/Tests/Fixtures.antt =====
-- A server with one backend, and how one request of it goes.
use seabird_core.Prelude.{Text, text, text_ord}
use seabird_core.Id.{BackendId, backend_id_ord, relative, show_full_id}
use seabird_core.Proto.{ChatEventInner}
use seabird_core.Server.State.{Server, new}
use seabird_core.Server.Requests.{Wait, answer, delivered, register_backend}
use seabird_core.Tests.Samples.{codec}

abbrev pub net : BackendId
net = record { scheme = text "a"; id = text "b" }

abbrev pub empty_server : Server
empty_server = new (text "host") (text "db") 7

-- One backend is registered.
abbrev pub one_backend : Server
one_backend = (register_backend net empty_server).1

abbrev pub room : Text
room = show_full_id codec (relative net (text "c"))

abbrev pub wait : Wait
wait = record {
  request_id = text "r";
  delivery = delivered;
  meanwhile = λ s. s;
  awaited = answer ChatEventInner.success;
}

abbrev pub complaint : Text
complaint = text "failed to parse channel_id"
