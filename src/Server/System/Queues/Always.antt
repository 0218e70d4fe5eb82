-- ===== src/Server/System/Queues/Always.antt =====
-- What a backend is asked reaches its connection, in order, however the tasks interleave.
use mathlib.Core.List.{Mem, not-mem-nil, mem-cons_of_mem}
use mathlib.Core.List.Perm
use mathlib.Core.Path.{subst}
use seabird_core.Prelude.{
  ℕ, ◌≡◌, refl, sym, List, [], ◌∷◌, ◌++◌, arith, some, get, append_assoc, Text, ok, text_ord,
  RpcResult, Option, get-remove,
}
use seabird_core.Id.{backend_id_ord}
use seabird_core.Id.Percent.{PercentEncoding}
use seabird_core.Proto.{ChatRequest as ChatRequestMessage, ChatRequestInner, ChatEvent}
use seabird_core.Server.State.{
  Server, on, CleanupRequest, backend, request, commands, ChatRequestHandle, new, broadcast,
}
use seabird_core.Server.Requests.{open_request, close_request, Delivery, clean, cleanup_turn}
use seabird_core.Server.Requests.Turns.{cleanup_turn-nil, cleanup_turn-cons}
use seabird_core.Server.Ingest.{IngestEvents, start, disconnect}
use seabird_core.Server.Ingest.Start.{start-Started, start_refused}
use seabird_core.Server.Grpc.Stream.{stream_events, unsubscribe}
use seabird_core.Server.Grpc.Register.{stream_events_denied}
use seabird_core.Server.System
use seabird_core.Server.System.{System, Step, Reach, booted}
use seabird_core.Server.System.Channels.{Wired}
use seabird_core.Server.System.Channels.Shown.{Reach-Wired}
use seabird_core.Server.System.Queues.{Queues, Unasked, Unasked-Queues, fewer_readers}
use seabird_core.Server.System.Queues.Turns.{turn-Queues}
use seabird_core.Server.System.Queues.Asked.{
  open_request-Asked, open_request-Unasked, on-Asked, Asked-Queues, starts-Queues,
}

clean-Unasked : (r : CleanupRequest) (s : Server) → Unasked s (clean r s)
unfolding clean
clean-Unasked (request id) s = record {
  asked = refl;
  passed = refl;
  senders = λ a. refl;
  backends = λ b a h. h;
  grows = omega arith;
}
clean-Unasked (commands names) s = record {
  asked = refl;
  passed = refl;
  senders = λ a. refl;
  backends = λ b a h. h;
  grows = omega arith;
}
clean-Unasked (backend id) s = record {
  asked = refl;
  passed = refl;
  senders = λ a. refl;
  backends = λ b a h. ground (arith, get-remove id b s.backends);
  grows = omega arith;
}

cleanup-Queues :
    (s : Server) (cs : List IngestEvents) (q : List CleanupRequest)
    → s.cleanup ≡ q
    → Queues s cs
    → Queues (cleanup_turn s) cs
cleanup-Queues s cs [] e v = subst (λ t. Queues t cs) (sym (cleanup_turn-nil s e)) v
cleanup-Queues s cs (r ∷ q) e v =
    subst (λ t. Queues t cs) (sym (cleanup_turn-cons s r q e))
      (Unasked-Queues (record s { cleanup = q }) _ cs (clean-Unasked r (record s { cleanup = q }))
        (Unasked-Queues s (record s { cleanup = q }) cs
          (record {
            asked = refl;
            passed = refl;
            senders = λ a. refl;
            backends = λ b a h. h;
            grows = omega arith;
          })
          v))

stream_events-Unasked :
    (new : _) (h : _) (s t : Server) → stream_events new s ≡ (ok h, t) → Unasked s t
unfolding stream_events
stream_events-Unasked new h s t e = record {
  asked = ground arith;
  passed = ground arith;
  senders = λ a. ground arith;
  backends = λ b a g. ground arith;
  grows = ground arith;
}

booted-Queues : (host url : Text) (now : ℕ) → Queues (new host url now) []
unfolding new get
booted-Queues host url now = record {
  unread = λ k. ([], refl);
  fresh = λ k h. refl;
  reads = λ c m. absurd (not-mem-nil m);
  in_use = λ b a h. cc;
}

Step-Queues :
    (p : PercentEncoding) (σ τ : System)
    → Step p σ τ
    → Wired σ.server σ.connections
    → Queues σ.server σ.connections
    → Queues τ.server τ.connections
unfolding disconnect unsubscribe broadcast close_request
Step-Queues p σ τ (System.connects first c s e t) w v =
    rw t (starts-Queues c σ.server s _ (start-Started first c σ.server s e) w v)
Step-Queues p σ τ (System.refused first e s r t) w v = rw (t, start_refused first e σ.server s r) v
Step-Queues p σ τ (System.turns c rest x s m y e t) w v =
    rw t (rw e at (turn-Queues p c x σ.server _ y v))
Step-Queues p σ τ (System.ends c rest x e s m y r t) w v =
    let after : Queues s σ.connections = rw r at (turn-Queues p c x σ.server _ y v) in
    let left =
      fewer_readers s σ.connections rest (λ d k. (Perm.mem_iff m).1 (mem-cons_of_mem c k)) after in
    rw t (record {
      unread = left.unread;
      fresh = left.fresh;
      reads = left.reads;
      in_use = left.in_use;
    })
Step-Queues p σ τ (System.subscribes new h s nd e t) w v =
    rw t (Unasked-Queues σ.server s _ (stream_events-Unasked new h σ.server s e) v)
Step-Queues p σ τ (System.denied new e s r t) w v =
    rw (t, stream_events_denied new e σ.server s r) v
Step-Queues p σ τ (System.forwards h rest event m y t) w v = rw t v
Step-Queues p σ τ (System.unsubscribes h rest x r m y t) w v =
    rw t (record { unread = v.unread; fresh = v.fresh; reads = v.reads; in_use = v.in_use })
Step-Queues p σ τ (System.broadcasts i tags t) w v =
    rw t (record { unread = v.unread; fresh = v.fresh; reads = v.reads; in_use = v.in_use })
Step-Queues p σ τ (System.opens id d b req h s e t) w v =
    rw t (Asked-Queues _ b σ.server s _ (open_request-Asked id d b req σ.server s h e) v)
Step-Queues p σ τ (System.fails id d b req e s r t) w v =
    rw t (Unasked-Queues σ.server s _ (open_request-Unasked id d b req σ.server s e r) v)
Step-Queues p σ τ (System.closes h rest a m d t) w v =
    rw t (record { unread = v.unread; fresh = v.fresh; reads = v.reads; in_use = v.in_use })
Step-Queues p σ τ (System.reads_cleanup r q n e t) w v = rw t v
Step-Queues p σ τ (System.cleans b t) w v = rw t (cleanup-Queues σ.server _ σ.server.cleanup refl v)

-- Whatever the tasks do from the start of the server on: what the connections passed on from an mpsc
-- channel is the beginning of what was sent on it; a number that is not in use has had nothing sent;
-- each connection reads the channel that its registered backend is asked on; and the channels of all
-- registered backends are in use.
pub Reach-Queues :
    (p : PercentEncoding) (host url : Text) (now : ℕ) (σ : System)
    → Reach p (booted host url now) σ
    → Queues σ.server σ.connections
Reach-Queues p host url now σ System.here = booted-Queues host url now
Reach-Queues p host url now σ (System.next {τ = υ} r st) =
    Step-Queues p υ σ st (Reach-Wired p host url now υ r) (Reach-Queues p host url now υ r)

-- Whatever the tasks did before: a request that a handler opens for the identifier of a connection
-- joins the end of what that connection has still to pass on, behind all that was asked before and
-- not yet passed on; nothing is lost, repeated or overtaken.
pub request_reaches_connection :
    (p : PercentEncoding) (host url : Text) (now : ℕ) (σ : System) (c : IngestEvents) (id : Text)
    (d : Delivery) (req : ChatRequestInner) (h : ChatRequestHandle) (t : Server)
    → Reach p (booted host url now) σ
    → Mem c σ.connections
    → open_request id d c.id req σ.server ≡ (ok h, t)
    → let k = c.backend_handle.receiver in
      (rest : List ChatRequestMessage) × (on k σ.server.asked ≡ on k σ.server.passed ++ rest)
      × (on k t.asked ≡ on k t.passed ++ (rest ++ record { id = id; inner = some req } ∷ []))
request_reaches_connection p host url now σ c id d req h t r m e =
    let k = c.backend_handle.receiver in
    let v = Reach-Queues p host url now σ r in
    let w = Reach-Wired p host url now σ r in
    let message : ChatRequestMessage = record { id = id; inner = some req } in
    let q = open_request-Asked id d c.id req σ.server t h e in
    let (rest, before) = v.unread k in
    let same : (σ.server.arcs q.arc).sender ≡ k =
      ground (arith, q.found, w.held c m, v.reads c m) in
    (
      rest,
      before,
      ground (
        arith,
        on-Asked message c.id σ.server t σ.connections q k same,
        before,
        q.passed,
        append_assoc (on k σ.server.passed) rest (message ∷ []),
      ),
    )

-- Whatever the tasks did before: a connection that starts has nothing to pass on of what was asked of
-- an earlier connection, also if it had the same identifier.
pub start_reads_nothing_old :
    (p : PercentEncoding) (host url : Text) (now : ℕ) (σ : System)
    (first : RpcResult (Option ChatEvent)) (c : IngestEvents) (t : Server)
    → Reach p (booted host url now) σ
    → start first σ.server ≡ (ok c, t)
    → on c.backend_handle.receiver t.asked ≡ []
start_reads_nothing_old p host url now σ first c t r e =
    let v = Reach-Queues p host url now σ r in
    let started = start-Started first c σ.server t e in
    rw (started.asked, started.receiver) (v.fresh σ.server.next (omega arith))
