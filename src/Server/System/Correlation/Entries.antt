-- ===== src/Server/System/Correlation/Entries.antt =====
-- Every request in the map of src/server/mod.rs is accounted for, however the tasks interleave.
use mathlib.Core.List.{Mem, mem-append}
use mathlib.Core.Logic.{◌∨₁◌, ∨₁_prop}
use mathlib.Core.Logic.Or
use seabird_core.Prelude.{ℕ, Text, some, List, [], ◌++◌, map, ◌≡◌, refl, ap, Option, get, text_ord}
use seabird_core.Id.Percent.{PercentEncoding}
use seabird_core.Server.State.{ChatRequest, backend, commands, new, broadcast}
use seabird_core.Server.Requests.{close_request}
use seabird_core.Server.Requests.Held.{open_request-IsHeld}
use seabird_core.Server.Ingest.{disconnect}
use seabird_core.Server.Ingest.Frame.{broadcast-Quiet}
use seabird_core.Server.Ingest.Start.{start-Started, start_refused}
use seabird_core.Server.Grpc.Stream.{unsubscribe}
use seabird_core.Server.Grpc.Register.{stream_events-Registered, stream_events_denied}
use seabird_core.Server.System
use seabird_core.Server.System.{System, Step, Reach, booted}
use seabird_core.Server.System.Ownership.Steps.{open_request-Same}
use seabird_core.Server.System.Correlation.Kept.{queued_requests}
use seabird_core.Server.System.Correlation.Waiting.{open_request-waits}
use seabird_core.Server.System.Correlation.Accounted.{
  Accounted, failed, failed_by, same_entries, unchanged, turn-Accounted, queued, closes-Accounted,
  opens-Accounted, fails-Accounted, cleanup-Accounted,
}

Step-Accounted :
    (p : PercentEncoding) (σ τ : System) (f : List Text) (st : Step p σ τ)
    → Accounted σ.server σ.waiting f
    → Accounted τ.server τ.waiting (failed_by st ++ f)
unfolding close_request disconnect unsubscribe
Step-Accounted p σ τ f (System.connects first c s e t) v =
    let g = start-Started first c σ.server s e in
    rw t (
      same_entries σ.server s _ f (ap queued_requests g.cleanup) (unchanged σ.server s g.requests)
        v)
Step-Accounted p σ τ f (System.refused first e s r t) v =
    rw (t, start_refused first e σ.server s r) v
Step-Accounted p σ τ f (System.turns c rest x s m y e t) v =
    rw t (rw e at (turn-Accounted p c x σ.server σ.waiting f v))
Step-Accounted p σ τ f (System.ends c rest x e s m y r t) v = rw t (
    queued s (backend c.backend_handle.id) σ.waiting f refl
      (rw r at (turn-Accounted p c x σ.server σ.waiting f v)))
Step-Accounted p σ τ f (System.subscribes new h s u e t) v =
    let g = stream_events-Registered new h σ.server s e in
    rw t (
      same_entries σ.server s _ f (ap queued_requests g.cleanup) (unchanged σ.server s g.requests)
        v)
Step-Accounted p σ τ f (System.denied new e s r t) v =
    rw (t, stream_events_denied new e σ.server s r) v
Step-Accounted p σ τ f (System.forwards h rest event m y t) v = rw t v
Step-Accounted p σ τ f (System.unsubscribes h rest x r m y t) v =
    rw t (queued σ.server (commands h.handle.commands) σ.waiting f refl v)
Step-Accounted p σ τ f (System.broadcasts i tags t) v =
    let g = broadcast-Quiet i tags σ.server in
    rw t (
      same_entries σ.server (broadcast i tags σ.server) _ f (ap queued_requests g.cleanup)
        (unchanged σ.server (broadcast i tags σ.server) g.requests) v)
Step-Accounted p σ τ f (System.opens id d b req h s e t) v =
    let (same, waits) = open_request-waits id d b req σ.server s h e in
    rw t (
      opens-Accounted σ.server s _ h f
        (ap queued_requests (rw e at (open_request-Same id d b req σ.server)).cleanup)
        (rw (e, ← same) at (open_request-IsHeld id d b req σ.server)) v)
Step-Accounted p σ τ f (System.fails id d b req e s r t) v = rw t (
    fails-Accounted σ.server s _ id f
      (ap queued_requests (rw r at (open_request-Same id d b req σ.server)).cleanup)
      (rw r at (open_request-IsHeld id d b req σ.server)) v)
Step-Accounted p σ τ f (System.closes h rest a m d t) v =
    rw t (closes-Accounted σ.server σ.waiting rest h f m v)
Step-Accounted p σ τ f (System.reads_cleanup r q b e t) v = rw t v
Step-Accounted p σ τ f (System.cleans b t) v =
    rw t (cleanup-Accounted σ.server σ.waiting σ.server.cleanup f refl v)

booted-Accounted : (host url : Text) (now : ℕ) → Accounted (new host url now) [] []
unfolding Accounted new get
booted-Accounted host url now k (x, h) = cc h

Reach-Accounted :
    (p : PercentEncoding) (host url : Text) (now : ℕ) (σ : System)
    (r : Reach p (booted host url now) σ)
    → Accounted σ.server σ.waiting (failed r)
Reach-Accounted p host url now σ System.here = booted-Accounted host url now
Reach-Accounted p host url now σ (System.next {τ = υ} r st) =
    Step-Accounted p υ σ (failed r) st (Reach-Accounted p host url now υ r)

-- Whatever the tasks did before: a request that has an entry in the map, waiting or answered, is one
-- whose handler waits, or whose cleanup is queued, or that could not be sent.
pub requests_are_accounted :
    (p : PercentEncoding) (host url : Text) (now : ℕ) (σ : System)
    (r : Reach p (booted host url now) σ) (id : Text) (x : Option ChatRequest)
    → get id σ.server.requests ≡ some x
    → Mem id (map (λ h. h.id) σ.waiting)
      ∨₁ (Mem id (queued_requests σ.server.cleanup) ∨₁ Mem id (failed r))
unfolding Accounted
requests_are_accounted p host url now σ r id x h =
    Or.elim ∨₁_prop (mem-append.0 (Reach-Accounted p host url now σ r id (x, h)))
      (λ m. Or.imp (λ w. w) Or.inl (mem-append.0 m)) (λ m. Or.inr (Or.inr m))
