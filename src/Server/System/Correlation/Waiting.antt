-- ===== src/Server/System/Correlation/Waiting.antt =====
-- No answer to a handler that waits in `issue_request` of src/server/mod.rs is lost.
use mathlib.Core.List.{
  Mem, mem-cons_of_mem, Nodup-cons, Nodup-nil, not-mem-nil, Nodup-append, exists_of_mem-map,
  mem-append_right, mem-cons_self, mem-cast,
}
use mathlib.Core.Logic.{◌∨₁◌, ∨₁_prop, ∥∥₁_map}
use mathlib.Core.Logic.Or
use seabird_core.Prelude.{
  ℕ, ◌≡◌, refl, sym, ap, arith, Text, some, List, [], ◌∷◌, ◌++◌, Nodup, ok, get-insert, text_ord,
  same_key_refl, is_empty, false, append-nil, inl,
}
use seabird_core.Id.{BackendId}
use seabird_core.Id.Percent.{PercentEncoding}
use seabird_core.Proto.{ChatEvent, ChatEventInner, ChatRequestInner}
use seabird_core.Server.State.{Server, Sender, ChatRequestHandle, CleanupRequest, new}
use seabird_core.Server.Requests.{Delivery, open_request, close_request, answer}
use seabird_core.Server.Requests.Answers.{Pending, answered_on}
use seabird_core.Server.Requests.Served.{unchanged-Keeps, open_request-Keeps}
use seabird_core.Server.Ingest.{IngestEvents, disconnect, turn, event_read}
use seabird_core.Server.Ingest.Answer.{turn_answers}
use seabird_core.Server.Ingest.Frame.{turn-Same, broadcast-Quiet}
use seabird_core.Server.Ingest.Served.{turn-Keeps}
use seabird_core.Server.Ingest.Start.{start-Started, start_refused}
use seabird_core.Server.Grpc.Stream.{unsubscribe}
use seabird_core.Server.Grpc.Register.{stream_events-Registered, stream_events_denied}
use seabird_core.Server.System
use seabird_core.Server.System.{System, Step, Reach, booted, Delivers}
use seabird_core.Server.System.Ownership.Steps.{open_request-Same}
use seabird_core.Server.System.Correlation.Kept.{
  Kept, Keeps-Kept, opens-Kept, closes-Kept, cleanup-Kept, queued_requests, queued_requests-append,
}

-- The UUIDs that the handlers drew, the last one first.
abbrev drawn_by : {p : PercentEncoding} {σ τ : System} → Step p σ τ → List Text
drawn_by (System.opens id d b req h s e t) = id ∷ []
drawn_by (System.fails id d b req e s r t) = id ∷ []
drawn_by _ = []

abbrev pub drawn : {p : PercentEncoding} {σ τ : System} → Reach p σ τ → List Text
drawn System.here = []
drawn (System.next r st) = drawn_by st ++ drawn r

pub open_request-waits :
    (id : Text) (d : Delivery) (b : BackendId) (req : ChatRequestInner) (s t : Server)
    (h : ChatRequestHandle)
    → open_request id d b req s ≡ (ok h, t)
    → (h.id ≡ id) × Pending t h.id h.receiver
unfolding open_request
open_request-waits id d b req s t h e =
    ground
      (arith, same_key_refl id, get-insert id id (some (record { sender = s.next })) s.requests)

drew :
    (s : Server) (ws : List ChatRequestHandle) (seen : List Text) (id : Text)
    → Kept s ws seen
    → Kept s ws (id ∷ seen)
drew s ws seen id v = record {
  served = v.served;
  apart = v.apart;
  known = λ j m. mem-cons_of_mem id (v.known j m);
}

-- What is queued for a backend or for commands changes nothing here.
queued :
    (s : Server) (r : CleanupRequest) (ws : List ChatRequestHandle) (seen : List Text)
    → queued_requests (r ∷ []) ≡ []
    → Kept s ws seen
    → Kept (record s { cleanup = s.cleanup ++ r ∷ [] }) ws seen
queued s r ws seen e v =
    Keeps-Kept s _ ws seen (rw (queued_requests-append s.cleanup (r ∷ []), e, append-nil) refl)
      (unchanged-Keeps s _ refl refl) v

Fresh : {p : PercentEncoding} {σ τ : System} → Step p σ τ → List Text → Type 0
Fresh st seen = (id : Text) → Mem id (drawn_by st) → ¬ Mem id seen

InStep : System → List Text → Type 0
InStep σ seen = Kept σ.server σ.waiting seen

-- Each step keeps the handlers served, if it draws no UUID again.
Step-Kept :
    (p : PercentEncoding) (σ τ : System) (seen : List Text) (st : Step p σ τ)
    → Nodup (drawn_by st ++ seen)
    → Kept σ.server σ.waiting seen
    → Kept τ.server τ.waiting (drawn_by st ++ seen)
unfolding close_request disconnect unsubscribe
Step-Kept p σ τ seen (System.connects first c s e t) n v =
    let f = start-Started first c σ.server s e in
    rw t (
      Keeps-Kept σ.server s _ seen (ap queued_requests f.cleanup)
        (unchanged-Keeps _ s f.requests f.answered) v)
Step-Kept p σ τ seen (System.refused first e s r t) n v =
    rw (t, start_refused first e σ.server s r) v
Step-Kept p σ τ seen (System.turns c rest x s m y e t) n v = rw t (
    Keeps-Kept σ.server s _ seen (ap queued_requests (rw e at (turn-Same p c x σ.server)).cleanup)
      (rw e at (turn-Keeps p c x σ.server)) v)
Step-Kept p σ τ seen (System.ends c rest x e s m y r t) n v = rw t (
    queued s _ _ seen refl (
      Keeps-Kept σ.server s _ seen (ap queued_requests (rw r at (turn-Same p c x σ.server)).cleanup)
        (rw r at (turn-Keeps p c x σ.server)) v))
Step-Kept p σ τ seen (System.subscribes new h s u e t) n v =
    let f = stream_events-Registered new h σ.server s e in
    rw t (
      Keeps-Kept σ.server s _ seen (ap queued_requests f.cleanup)
        (unchanged-Keeps _ s f.requests f.answered) v)
Step-Kept p σ τ seen (System.denied new e s r t) n v =
    rw (t, stream_events_denied new e σ.server s r) v
Step-Kept p σ τ seen (System.forwards h rest event m y t) n v = rw t v
Step-Kept p σ τ seen (System.unsubscribes h rest x r m y t) n v =
    rw t (queued σ.server _ _ seen refl v)
Step-Kept p σ τ seen (System.broadcasts i tags t) n v =
    let f = broadcast-Quiet i tags σ.server in
    rw t (
      Keeps-Kept σ.server _ _ seen (ap queued_requests f.cleanup)
        (unchanged-Keeps _ _ f.requests f.answered) v)
Step-Kept p σ τ seen (System.opens id d b req h s e t) n v =
    let (same, waits) = open_request-waits id d b req σ.server s h e in
    rw (t, ← same)
      (opens-Kept σ.server s _ seen h (λ m. (Nodup-cons.0 n).0 (rw same at m))
        (ap queued_requests (rw e at (open_request-Same id d b req σ.server)).cleanup)
        (rw e at (open_request-Keeps id d b req σ.server)) waits v)
Step-Kept p σ τ seen (System.fails id d b req e s r t) n v = rw t (
    drew s _ seen id (
      Keeps-Kept σ.server s _ seen
        (ap queued_requests (rw r at (open_request-Same id d b req σ.server)).cleanup)
        (rw r at (open_request-Keeps id d b req σ.server)) v))
Step-Kept p σ τ seen (System.closes h rest a m d t) n v =
    rw t (closes-Kept σ.server σ.waiting rest h seen m v)
Step-Kept p σ τ seen (System.reads_cleanup r q b e t) n v = rw t v
Step-Kept p σ τ seen (System.cleans b t) n v =
    rw t (cleanup-Kept σ.server _ σ.server.cleanup seen refl v)

Reach-Kept :
    (p : PercentEncoding) (host url : Text) (now : ℕ) (σ : System)
    (r : Reach p (booted host url now) σ)
    → Nodup (drawn r)
    → Kept σ.server σ.waiting (drawn r)
unfolding new
Reach-Kept p host url now σ System.here n = record {
  served = λ h m. absurd (not-mem-nil m);
  apart = Nodup-nil;
  known = λ id m. absurd (not-mem-nil m);
}
Reach-Kept p host url now σ (System.next {τ = υ} r st) n =
    Step-Kept p υ σ (drawn r) st n (Reach-Kept p host url now υ r (Nodup-append.0 n).1)

sent_before :
    (s : Server) (h : ChatRequestHandle)
    → Mem h.receiver (answered_on s)
    → ∥ ((got : ChatEventInner) × Delivers s h (answer got)) ∥₁
sent_before s h m =
    ∥∥₁_map (exists_of_mem-map m)
      (λ ((a, sent, e) : (a : Sender × ChatEventInner) × Mem a s.answered × (a.0 ≡ h.receiver)).
        (a.1, mem-cast (ap (λ k. (k, a.1)) (sym e)) sent))

-- Whatever the tasks did before, as long as no UUID was drawn twice: a handler that waits (for a
-- request whose identifier is not empty) was sent an answer before, or is sent that of an event with
-- its identifier when any connection reads one next.
pub waiting_handler_is_answered :
    (p : PercentEncoding) (host url : Text) (now : ℕ) (σ : System)
    (r : Reach p (booted host url now) σ) (h : ChatRequestHandle) (c : IngestEvents) (e : ChatEvent)
    (i : ChatEventInner)
    → Nodup (drawn r)
    → Mem h σ.waiting
    → e.inner ≡ some i
    → e.id ≡ h.id
    → is_empty h.id ≡ false
    → ((got : ChatEventInner) × Delivers σ.server h (answer got))
      ∨₁ Delivers (turn p c (event_read e) σ.server).1 h (answer i)
waiting_handler_is_answered p host url now σ r h c e i n m inside same named =
    Or.elim ∨₁_prop ((Reach-Kept p host url now σ r n).served h m)
      (λ w.
        let sent =
          (turn_answers p c e i h.receiver σ.server inside (rw same named) (rw same w)).0 in
        Or.inr (rw sent (mem-append_right _ mem-cons_self)))
      (λ k. ∥∥₁_map (sent_before σ.server h k) inl)
