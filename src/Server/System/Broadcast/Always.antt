-- ===== src/Server/System/Broadcast/Always.antt =====
-- What plugins are sent is what was broadcast, however the tasks interleave.
use mathlib.Core.List.{Perm, Mem, not-mem-nil, mem-cons, mem-cons_of_mem, mem-cons_self}
use mathlib.Core.List.Perm
use mathlib.Core.Logic.Or
use seabird_core.Prelude.{
  ℕ, ◌+◌, ◌≡◌, refl, ap, sym, ◌∙◌, List, [], ◌∷◌, ◌++◌, ◌≤◌, arith, append-nil, Text, ok,
  Option-cases, inl, inr, RpcResult, Option, length,
}
use seabird_core.Id.{BackendId}
use seabird_core.Id.Percent.{PercentEncoding}
use seabird_core.Proto.{Event, ChatEvent, ChatRequestInner}
use seabird_core.Server.State.{
  Server, CleanupRequest, CommandsHandle, backend, request, commands, new, broadcast,
}
use seabird_core.Server.Requests.{open_request, close_request, Delivery, clean, cleanup_turn}
use seabird_core.Server.Requests.Turns.{cleanup_turn-nil, cleanup_turn-cons}
use seabird_core.Server.Ingest.{
  IngestEvents, Selected, event_read, request_passed, turn, handle_event, start, connect,
  disconnect,
}
use seabird_core.Server.Ingest.Publish.{turn-published, published}
use seabird_core.Server.Ingest.Start.{start-Started, start_refused}
use seabird_core.Server.Grpc.Stream.{
  EventStream, subscribe, advance, forward, stream_events, unsubscribe,
}
use seabird_core.Server.Grpc.Register.{stream_events_denied}
use seabird_core.Server.System
use seabird_core.Server.System.{System, Step, Reach, booted, NextEvent}
use seabird_core.Server.System.Broadcast.{
  drop, IsSlice, IsSlice-prop, IsSlice-append, subscribe-IsSlice, forward-IsSlice,
}

-- Events are only ever added to the broadcast.
abbrev Added : Server → Server → Type 0
Added s t = (more : List Event) × (t.sender ≡ s.sender ++ more)

none_added :
    (s : Server) (l : List Event) → l ≡ s.sender → (more : List Event) × (l ≡ s.sender ++ more)
none_added s l e = ([], e ∙ sym (append-nil s.sender))

turn-Added :
    (p : PercentEncoding) (c : IngestEvents) (x : Selected) (s : Server) → Added s (turn p c x s).1
unfolding turn handle_event
turn-Added p c (event_read e) s = elim (Option-cases e.inner) [
  | inl absent ↦ none_added s _ (ground (arith, absent))
  | inr (i, found) ↦ (published p c.id i e.tags, turn-published p c e i s found)
]
turn-Added p c (request_passed req) s = none_added s _ refl
turn-Added p c _ s = none_added s _ refl

start-Added :
    (first : RpcResult (Option ChatEvent)) (c : IngestEvents) (s t : Server)
    → start first s ≡ (ok c, t)
    → Added s t
unfolding start connect
start-Added first c s t e = none_added s _ (start-Started first c s t e).sender

clean-sender : (r : CleanupRequest) (s : Server) → (clean r s).sender ≡ s.sender
unfolding clean
clean-sender (request id) s = refl
clean-sender (backend id) s = refl
clean-sender (commands names) s = refl

cleanup-Added : (s : Server) (q : List CleanupRequest) → s.cleanup ≡ q → Added s (cleanup_turn s)
cleanup-Added s [] e = none_added s _ (ap (λ (t : Server). t.sender) (cleanup_turn-nil s e))
cleanup-Added s (r ∷ q) e = none_added s _ (
    ap (λ (t : Server). t.sender) (cleanup_turn-cons s r q e)
    ∙ clean-sender r (record s { cleanup = q }))

open_request-Added :
    (id : Text) (d : Delivery) (b : BackendId) (req : ChatRequestInner) (s : Server)
    → Added s (open_request id d b req s).1
unfolding open_request
open_request-Added id d b req s = none_added s _ (ground arith)

-- What holds of all streams of a system.
abbrev pub Slices : System → Type 0
Slices σ = (stream : EventStream) → Mem stream σ.streams → IsSlice σ.server stream

Added-Slices :
    (σ : System) (t : Server) → Added σ.server t → Slices σ → Slices (record σ { server = t })
Added-Slices σ t (more, e) v stream m = IsSlice-append σ.server t stream more e (v stream m)

subscribes-Slices :
    (σ : System) (h : CommandsHandle) (t : Server)
    → t.sender ≡ σ.server.sender
    → Slices σ
    → Slices (record σ { server = t; streams = subscribe h t ∷ σ.streams })
subscribes-Slices σ h t e v stream m =
    Or.elim (IsSlice-prop _ _) (mem-cons.0 m) (λ same. rw same (subscribe-IsSlice h t))
      (λ old. Added-Slices σ t (none_added σ.server _ e) v stream old)

forward-Slices :
    (σ : System) (first : EventStream) (rest : List EventStream) (event : Event)
    → Perm σ.streams (first ∷ rest)
    → NextEvent σ.server first event
    → Slices σ
    → Slices (record σ { streams = forward event (advance first) ∷ rest })
forward-Slices σ first rest event m n v stream k =
    Or.elim (IsSlice-prop _ _) (mem-cons.0 k)
      (λ same.
        rw same
          (forward-IsSlice σ.server first event n (v first ((Perm.mem_iff m).1 mem-cons_self))))
      (λ old. v stream ((Perm.mem_iff m).1 (mem-cons_of_mem first old)))

stream_events-sender :
    (new : _) (h : _) (s t : Server) → stream_events new s ≡ (ok h, t) → t.sender ≡ s.sender
unfolding stream_events
stream_events-sender new h s t e = ground arith

Step-Slices : (p : PercentEncoding) (σ τ : System) → Step p σ τ → Slices σ → Slices τ
unfolding disconnect unsubscribe broadcast close_request
Step-Slices p σ τ (System.connects first c s e t) v =
    rw t (Added-Slices σ s (start-Added first c σ.server s e) v)
Step-Slices p σ τ (System.refused first e s r t) v = rw (t, start_refused first e σ.server s r) v
Step-Slices p σ τ (System.turns c rest x s m y e t) v =
    rw t (Added-Slices σ s (rw e at (turn-Added p c x σ.server)) v)
Step-Slices p σ τ (System.ends c rest x e s m y r t) v =
    rw t (Added-Slices σ (disconnect c s) (rw r at (turn-Added p c x σ.server)) v)
Step-Slices p σ τ (System.subscribes new h s nd e t) v =
    rw t (subscribes-Slices σ h s (stream_events-sender new h σ.server s e) v)
Step-Slices p σ τ (System.denied new e s r t) v = rw (t, stream_events_denied new e σ.server s r) v
Step-Slices p σ τ (System.forwards first rest event m n t) v =
    rw t (forward-Slices σ first rest event m n v)
Step-Slices p σ τ (System.unsubscribes first rest x r m y t) v = rw t λ stream k.
    IsSlice-append σ.server _ stream [] (sym (append-nil σ.server.sender))
      (v stream ((Perm.mem_iff m).1 (mem-cons_of_mem first k)))
Step-Slices p σ τ (System.broadcasts i tags t) v = rw t (Added-Slices σ _ (_, refl) v)
Step-Slices p σ τ (System.opens id d b req h s e t) v =
    rw t (Added-Slices σ s (rw e at (open_request-Added id d b req σ.server)) v)
Step-Slices p σ τ (System.fails id d b req e s r t) v =
    rw t (Added-Slices σ s (rw r at (open_request-Added id d b req σ.server)) v)
Step-Slices p σ τ (System.closes h rest a m d t) v =
    rw t (Added-Slices σ (close_request h a σ.server).1 (none_added σ.server _ refl) v)
Step-Slices p σ τ (System.reads_cleanup r q n e t) v = rw t v
Step-Slices p σ τ (System.cleans b t) v =
    rw t (Added-Slices σ (cleanup_turn σ.server) (cleanup-Added σ.server σ.server.cleanup refl) v)

pub plugin_sees_broadcast :
    (p : PercentEncoding) (host url : Text) (now : ℕ) (σ : System) (stream : EventStream)
    → Reach p (booted host url now) σ
    → Mem stream σ.streams
    → (drop stream.since σ.server.sender
        ≡ stream.sent ++ drop (stream.since + length stream.sent) σ.server.sender)
      × (stream.next ≡ stream.since + length stream.sent)
      × (stream.since + length stream.sent ≤ length σ.server.sender)
plugin_sees_broadcast p host url now σ stream r m =
    let v = always σ r stream m in (v.slice, v.read, v.within)
  where
    always : (τ : System) → Reach p (booted host url now) τ → Slices τ
    always τ System.here = λ s k. absurd (not-mem-nil k)
    always τ (System.next {τ = υ} r st) = Step-Slices p υ τ st (always υ r)
