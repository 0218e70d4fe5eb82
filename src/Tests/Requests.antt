-- ===== src/Tests/Requests.antt =====
-- Requests that are asked, answered and forgotten.
use seabird_core.Prelude.{◌≡◌, refl, text, some, text_ord, get, contains_key}
use seabird_core.Id.{backend_id_ord}
use seabird_core.Proto.{ChatRequestInner}
use seabird_core.Server.State.{new}
use seabird_core.Server.Requests.{issue_request}
use seabird_core.Server.Requests.Turns.{turns}
use seabird_core.Server.Requests.Lifetime.{unknown_backend_leaks}
use seabird_core.Tests.Fixtures.{net, empty_server, wait}

unknown_backend_leaks_example :
    get
      (text "r")
      (turns 5 (issue_request wait net ChatRequestInner.metadata empty_server).1).requests
    ≡ some (some (record { sender = empty_server.next }))
unfolding new get contains_key
unknown_backend_leaks_example =
    (unknown_backend_leaks wait net ChatRequestInner.metadata empty_server 5 refl refl tt).1
