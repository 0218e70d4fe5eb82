-- ===== src/Server/System/Protocol/Refines.antt =====
-- Every step of every task is at most one move of each identifier in the abstract specification.
use mathlib.Core.List.{Mem}
use mathlib.Core.Path.{subst}
use seabird_core.Prelude.{ℕ, ◌≡◌, refl, sym, Text, List, [], ◌∷◌, text_ord, true, contains_key}
use seabird_core.Id.{BackendId, backend_id_ord}
use seabird_core.Id.Percent.{PercentEncoding}
use seabird_core.Server.State.{Server, CleanupRequest, request, backend, commands, broadcast}
use seabird_core.Server.Requests.{clean, cleanup_turn, close_request}
use seabird_core.Server.Requests.Turns.{cleanup_turn-nil, cleanup_turn-cons}
use seabird_core.Server.Ingest.{disconnect}
use seabird_core.Server.Ingest.Frame.{turn-Same}
use seabird_core.Server.Ingest.Start.{start-Started, start_refused}
use seabird_core.Server.Grpc.Stream.{unsubscribe}
use seabird_core.Server.Grpc.Register.{stream_events-Registered, stream_events_denied}
use seabird_core.Server.System
use seabird_core.Server.System.{System, Step, Reach, booted}
use seabird_core.Server.System.Ownership.{Inv, connected}
use seabird_core.Server.System.Ownership.Always.{Reach-Inv, cleanup_is_due}
use seabird_core.Server.System.Ownership.Steps.{open_request-Same}
use seabird_core.Server.System.Channels.{Wired}
use seabird_core.Server.System.Channels.Shown.{Reach-Wired}
use seabird_core.Server.System.Protocol.{Moves, view}
use seabird_core.Server.System.Protocol.Requests.{
  same_requests, turn_moves, cleanup_moves, open_request_moves,
}
use seabird_core.Server.System.Protocol.Backends.{
  AllGo, same_backends, starts_go, ends_go, clean_goes,
}

module _ (σ : System) where
  abbrev onto : Server → System
  onto t = record σ { server = t }

  unmoved :
      (t : Server)
      → t.requests ≡ σ.server.requests
      → t.backends ≡ σ.server.backends
      → Moves (view σ) (view (onto t))
  unmoved t e f = record {
    requests = same_requests σ.server.requests t.requests e;
    backends = same_backends σ t f;
  }

  -- What the cleanup task may count on.
  abbrev Due : Type 0
  Due =
      (id : BackendId) (q : List CleanupRequest)
      → σ.server.cleanup ≡ backend id ∷ q
      → (contains_key id σ.server.backends ≡ true) × (¬ Mem id (connected σ.connections))

  clean_first_goes :
      (r : CleanupRequest) (q : List CleanupRequest)
      → σ.server.cleanup ≡ r ∷ q
      → Due
      → AllGo σ (onto (clean r (record σ.server { cleanup = q })))
  unfolding clean
  clean_first_goes (request id) q e due =
      same_backends σ (clean (request id) (record σ.server { cleanup = q })) refl
  clean_first_goes (commands names) q e due =
      same_backends σ (clean (commands names) (record σ.server { cleanup = q })) refl
  clean_first_goes (backend id) q e due =
      clean_goes σ id (clean (backend id) (record σ.server { cleanup = q })) (due id q e) refl

  cleanup_goes :
      (q : List CleanupRequest)
      → σ.server.cleanup ≡ q
      → Due
      → AllGo σ (onto (cleanup_turn σ.server))
  cleanup_goes [] e due =
      subst (λ t. AllGo σ (onto t)) (sym (cleanup_turn-nil σ.server e))
        (same_backends σ σ.server refl)
  cleanup_goes (r ∷ q) e due =
      subst (λ t. AllGo σ (onto t)) (sym (cleanup_turn-cons σ.server r q e))
        (clean_first_goes r q e due)

Step-Moves :
    (p : PercentEncoding) (σ τ : System)
    → Step p σ τ
    → Inv σ
    → Wired σ.server σ.connections
    → Due σ
    → Moves (view σ) (view τ)
unfolding disconnect unsubscribe broadcast close_request
Step-Moves p σ τ (System.connects first c s e t) v w due =
    let begun = start-Started first c σ.server s e in
    rw t (record {
      requests = same_requests _ s.requests begun.requests;
      backends = starts_go σ c s begun;
    })
Step-Moves p σ τ (System.refused first e s r t) v w due =
    rw (t, start_refused first e σ.server s r) (unmoved σ σ.server refl refl)
Step-Moves p σ τ (System.turns c rest x s m y e t) v w due = rw t (record {
  requests = rw e at (turn_moves p c x σ.server);
  backends = same_backends σ s (rw e at (turn-Same p c x σ.server).backends);
})
Step-Moves p σ τ (System.ends c rest x e s m y r t) v w due = rw t (record {
  requests = rw r at (turn_moves p c x σ.server);
  backends = ends_go σ c rest (disconnect c s) m v w (rw r at (turn-Same p c x σ.server).backends);
})
Step-Moves p σ τ (System.subscribes new h s nd e t) v w due =
    let done = stream_events-Registered new h σ.server s e in
    rw t (record {
      requests = same_requests _ s.requests done.requests;
      backends = same_backends σ s done.backends;
    })
Step-Moves p σ τ (System.denied new e s r t) v w due =
    rw (t, stream_events_denied new e σ.server s r) (unmoved σ σ.server refl refl)
Step-Moves p σ τ (System.forwards h rest event m y t) v w due =
    rw t (record { requests = same_requests _ _ refl; backends = same_backends σ σ.server refl })
Step-Moves p σ τ (System.unsubscribes h rest x r m y t) v w due = rw t (record {
  requests = same_requests _ _ refl;
  backends = same_backends σ (unsubscribe h.handle σ.server) refl;
})
Step-Moves p σ τ (System.broadcasts i tags t) v w due =
    rw t (unmoved σ (broadcast i tags σ.server) refl refl)
Step-Moves p σ τ (System.opens id d b req h s e t) v w due = rw t (record {
  requests = rw e at (open_request_moves id d b req σ.server);
  backends = same_backends σ s (rw e at (open_request-Same id d b req σ.server).backends);
})
Step-Moves p σ τ (System.fails id d b req e s r t) v w due = rw t (record {
  requests = rw r at (open_request_moves id d b req σ.server);
  backends = same_backends σ s (rw r at (open_request-Same id d b req σ.server).backends);
})
Step-Moves p σ τ (System.closes h rest a m d t) v w due = rw t (record {
  requests = same_requests _ _ refl;
  backends = same_backends σ (close_request h a σ.server).1 refl;
})
Step-Moves p σ τ (System.reads_cleanup r q n e t) v w due =
    rw t (record { requests = same_requests _ _ refl; backends = same_backends σ σ.server refl })
Step-Moves p σ τ (System.cleans b t) v w due = rw t (record {
  requests = cleanup_moves σ.server σ.server.cleanup refl;
  backends = cleanup_goes σ σ.server.cleanup refl due;
})

-- The running server refines the abstract broker: whatever the tasks did before, each of their steps
-- leaves every request's and every backend's identifier as it is, or makes one move of its life. A
-- request's identifier is unknown, then waits, then is answered, and from anywhere is forgotten; it
-- waits once between two times it is unknown. A backend's is absent, then here with a connection,
-- then leaving, then absent again, with the same `Arc` throughout, and never goes another way.
pub Step-refines :
    (p : PercentEncoding) (host url : Text) (now : ℕ) (σ τ : System)
    → Reach p (booted host url now) σ
    → Step p σ τ
    → Moves (view σ) (view τ)
Step-refines p host url now σ τ r st =
    Step-Moves p σ τ st (Reach-Inv p host url now σ r) (Reach-Wired p host url now σ r)
      (λ id q e. cleanup_is_due p host url now σ id q r e)
