-- ===== src/Server/System/Channels/Tables.antt =====
-- The channels of every backend, however the tasks interleave, are those of a map from identifiers
-- to channels.
use mathlib.Core.Path.{subst}
use native.Mathlib.Decide.{ℕ_discrete}
use seabird_core.Prelude.{
  ℕ, Text, ◌≡◌, refl, sym, List, [], ◌∷◌, arith, inl, inr, Option-cases, Bool-cases, ◌==◌,
}
use seabird_core.Id.{BackendId}
use seabird_core.Id.Percent.{PercentEncoding}
use seabird_core.Block.Message.{Tags}
use seabird_core.Proto.{EventInner, ChatEvent, ChatRequestInner}
use seabird_core.Server.State.{
  Server, CleanupRequest, backend, request, commands, new, set_arc, broadcast,
}
use seabird_core.Server.Requests.{cleanup_turn, clean, open_request, close_request, Delivery}
use seabird_core.Server.Requests.Turns.{cleanup_turn-nil, cleanup_turn-cons}
use seabird_core.Server.Ingest.{
  IngestEvents, Selected, event_read, request_passed, turn, handle_event, disconnect,
}
use seabird_core.Server.Ingest.Channels.{IsTable, apply_channel-IsTable}
use seabird_core.Server.Ingest.Start.{Started, start-Started, start_refused}
use seabird_core.Server.Grpc.Stream.{unsubscribe}
use seabird_core.Server.Grpc.Register.{stream_events-Registered, stream_events_denied}
use seabird_core.Server.System
use seabird_core.Server.System.{System, Step, Reach, booted}
use seabird_core.Server.System.Channels.Events.{turn-Applied}

abbrev pub AreTables : Server → Type 0
AreTables s = (a : ℕ) → IsTable (s.arcs a).channels

same_arcs : (s t : Server) → t.arcs ≡ s.arcs → AreTables s → AreTables t
same_arcs s t e v a = rw e (v a)

starts-AreTables : (c : IngestEvents) (s t : Server) → Started c s t → AreTables s → AreTables t
unfolding set_arc
starts-AreTables c s t e v a = elim (Bool-cases (s.next == a)) [
  | inl here ↦ rw (e.arcs, set_arc, here) (record { keyed = tt; sorted = tt })
  | inr away ↦ rw (e.arcs, set_arc, away) (v a)
]

module _ (p : PercentEncoding) (c : IngestEvents) where
  event-AreTables :
      (e : ChatEvent) (s : Server) → AreTables s → AreTables (turn p c (event_read e) s).1
  unfolding turn handle_event
  event-AreTables e s v a = elim (Option-cases e.inner) [
    | inl n ↦ rw (n, handle_event) (v a)
    | inr (i, n) ↦
        let done = turn-Applied p c e i s n in
        elim (ℕ_discrete a c.backend) [
          | yes same ↦ rw (same, done.here) (apply_channel-IsTable i _ (v c.backend))
          | no away ↦ rw (done.elsewhere a away) (v a)
        ]
  ]

  turn-AreTables : (x : Selected) (s : Server) → AreTables s → AreTables (turn p c x s).1
  unfolding turn
  turn-AreTables (event_read e) s v = event-AreTables e s v
  turn-AreTables (request_passed req) s v = v
  turn-AreTables _ s v = v

clean-arcs : (r : CleanupRequest) (s : Server) → (clean r s).arcs ≡ s.arcs
unfolding clean
clean-arcs (request id) s = refl
clean-arcs (backend id) s = refl
clean-arcs (commands names) s = refl

cleanup-AreTables :
    (s : Server) (q : List CleanupRequest)
    → s.cleanup ≡ q
    → AreTables s
    → AreTables (cleanup_turn s)
cleanup-AreTables s [] e v = subst AreTables (sym (cleanup_turn-nil s e)) v
cleanup-AreTables s (r ∷ q) e v =
    subst AreTables (sym (cleanup_turn-cons s r q e))
      (same_arcs s (clean r (record s { cleanup = q })) (clean-arcs r (record s { cleanup = q })) v)

open_request-arcs :
    (id : Text) (d : Delivery) (b : BackendId) (req : ChatRequestInner) (s : Server)
    → (open_request id d b req s).1.arcs ≡ s.arcs
unfolding open_request
open_request-arcs id d b req s = ground arith

broadcast-arcs : (i : EventInner) (tags : Tags) (s : Server) → (broadcast i tags s).arcs ≡ s.arcs
unfolding broadcast
broadcast-arcs i tags s = refl

Step-AreTables :
    (p : PercentEncoding) (σ τ : System) → Step p σ τ → AreTables σ.server → AreTables τ.server
unfolding disconnect unsubscribe close_request
Step-AreTables p σ τ (System.connects first c s e t) v =
    rw t (starts-AreTables c σ.server s (start-Started first c σ.server s e) v)
Step-AreTables p σ τ (System.refused first e s r t) v = rw (t, start_refused first e σ.server s r) v
Step-AreTables p σ τ (System.turns c rest x s m y e t) v =
    rw t (rw e at (turn-AreTables p c x σ.server v))
Step-AreTables p σ τ (System.ends c rest x e s m y r t) v =
    rw t (rw r at (turn-AreTables p c x σ.server v))
Step-AreTables p σ τ (System.subscribes new h s u e t) v =
    rw t (same_arcs σ.server s (stream_events-Registered new h σ.server s e).arcs v)
Step-AreTables p σ τ (System.denied new e s r t) v =
    rw (t, stream_events_denied new e σ.server s r) v
Step-AreTables p σ τ (System.forwards h rest event m y t) v = rw t v
Step-AreTables p σ τ (System.unsubscribes h rest x r m y t) v = rw t v
Step-AreTables p σ τ (System.broadcasts i tags t) v =
    rw t (same_arcs σ.server (broadcast i tags σ.server) (broadcast-arcs i tags σ.server) v)
Step-AreTables p σ τ (System.opens id d b req h s e t) v =
    rw t (same_arcs σ.server s (rw e at (open_request-arcs id d b req σ.server)) v)
Step-AreTables p σ τ (System.fails id d b req e s r t) v =
    rw t (same_arcs σ.server s (rw r at (open_request-arcs id d b req σ.server)) v)
Step-AreTables p σ τ (System.closes h rest a m d t) v = rw t v
Step-AreTables p σ τ (System.reads_cleanup r q n e t) v = rw t v
Step-AreTables p σ τ (System.cleans b t) v =
    rw t (cleanup-AreTables σ.server σ.server.cleanup refl v)

-- Whatever the tasks do from the start of the server on, the channels of every backend are kept each
-- under its own identifier, in increasing order of the identifiers.
pub Reach-AreTables :
    (p : PercentEncoding) (host url : Text) (now : ℕ) (σ : System)
    → Reach p (booted host url now) σ
    → (a : ℕ) → IsTable (σ.server.arcs a).channels
unfolding new
Reach-AreTables p host url now σ System.here a = record { keyed = tt; sorted = tt }
Reach-AreTables p host url now σ (System.next {τ = υ} r st) a =
    Step-AreTables p υ σ st (Reach-AreTables p host url now υ r) a
