-- ===== src/Server/System/Channels/Shown.antt =====
-- What `list_channels` and `get_channel_info` read is what the connected backend reported.
use mathlib.Core.List.{Mem, not-mem-nil, mem-cons_of_mem}
use mathlib.Core.List.Perm
use mathlib.Core.Path.{subst}
use mathlib.Core.Bool.{true≢false}
use seabird_core.Prelude.{
  ◌≢◌, Bool-cases, same_key, same_key-eq, same_key_refl, if◌then◌else◌, ℕ, Text, some, List, [],
  ◌∷◌, ◌≡◌, ◌≢◌, refl, sym, ap, ◌≤◌, inl, inr, arith, ok, get, Option-cases, ◌∙◌,
}
use seabird_core.Id.{BackendId, backend_id_ord}
use seabird_core.Id.Percent.{PercentEncoding}
use seabird_core.Proto.{ChatEvent, ChatEventInner, ChatRequestInner}
use seabird_core.Server.State.{Server, CleanupRequest, backend, new}
use seabird_core.Server.Requests.{cleanup_turn, open_request, close_request, Delivery}
use seabird_core.Server.Requests.Turns.{cleanup_turn-nil, cleanup_turn-cons}
use seabird_core.Server.Requests.Answers.{open_request-Opened}
use seabird_core.Server.Ingest.{IngestEvents, Selected, event_read, turn, apply_channel, disconnect}
use seabird_core.Server.Ingest.Frame.{turn-Same, turn-Answering, Answering, broadcast-Quiet}
use seabird_core.Server.Ingest.Start.{start-Started, start_refused}
use seabird_core.Server.Grpc.Stream.{unsubscribe}
use seabird_core.Server.Grpc.Register.{stream_events-Registered, stream_events_denied}
use seabird_core.Server.Grpc.Queries.{channels_of}
use seabird_core.Server.System
use seabird_core.Server.System.{System, Step, Reach, booted}
use seabird_core.Server.System.Ownership.{connected}
use seabird_core.Server.System.Ownership.Always.{cleanup_is_due}
use seabird_core.Server.System.Ownership.Steps.{open_request-Same}
use seabird_core.Server.System.Channels.{
  Wired, Wired-kept, fewer_connections, starts-Wired, clean-Wired,
}
use seabird_core.Server.System.Channels.Events.{turn-Applied}

Answering-grows : (s t : Server) → Answering s t → s.next ≤ t.next
Answering-grows s t (inl f) = f.grows
Answering-grows s t (inr (_, _, _, a)) = a.grows

turn-Wired :
    (p : PercentEncoding) (c : IngestEvents) (x : Selected) (s : Server) (cs : List IngestEvents)
    → Wired s cs
    → Wired (turn p c x s).1 cs
turn-Wired p c x s cs v =
    Wired-kept s _ cs (turn-Same p c x s).backends (Answering-grows s _ (turn-Answering p c x s)) v

open_request-Wired :
    (id : Text) (d : Delivery) (b : BackendId) (req : ChatRequestInner) (s : Server)
    (cs : List IngestEvents)
    → Wired s cs
    → Wired (open_request id d b req s).1 cs
open_request-Wired id d b req s cs v =
    Wired-kept s _ cs (open_request-Same id d b req s).backends
      (open_request-Opened id d b req s).grows v

cleanup-Wired :
    (s : Server) (cs : List IngestEvents) (q : List CleanupRequest)
    → s.cleanup ≡ q
    → ((id : BackendId) (rest : List CleanupRequest)
        → s.cleanup ≡ backend id ∷ rest
        → ¬ Mem id (connected cs))
    → Wired s cs
    → Wired (cleanup_turn s) cs
cleanup-Wired s cs [] e n v = subst (λ t. Wired t cs) (sym (cleanup_turn-nil s e)) v
cleanup-Wired s cs (r ∷ q) e n v =
    subst (λ t. Wired t cs) (sym (cleanup_turn-cons s r q e))
      (clean-Wired (record s { cleanup = q }) r cs (λ id f. n id q (e ∙ ap (λ x. x ∷ q) f))
        (Wired-kept s (record s { cleanup = q }) cs refl (omega arith) v))

booted-Wired : (host url : Text) (now : ℕ) → Wired (new host url now) []
unfolding new get
booted-Wired host url now = record {
  held = λ c m. absurd (not-mem-nil m);
  named = λ c m. absurd (not-mem-nil m);
  below = λ k a h. cc;
  apart = λ j k a h g. cc;
}

Step-Wired :
    (p : PercentEncoding) (σ τ : System)
    → ((id : BackendId) (q : List CleanupRequest)
        → σ.server.cleanup ≡ backend id ∷ q
        → ¬ Mem id (connected σ.connections))
    → Step p σ τ
    → Wired σ.server σ.connections
    → Wired τ.server τ.connections
unfolding disconnect unsubscribe close_request
Step-Wired p σ τ n (System.connects first c s e t) v =
    rw t (starts-Wired c σ.server s _ (start-Started first c σ.server s e) v)
Step-Wired p σ τ n (System.refused first e s r t) v = rw (t, start_refused first e σ.server s r) v
Step-Wired p σ τ n (System.turns c rest x s m y e t) v =
    rw t (rw e at (turn-Wired p c x σ.server _ v))
Step-Wired p σ τ n (System.ends c rest x e s m y r t) v =
    let after : Wired s σ.connections = rw r at (turn-Wired p c x σ.server _ v) in
    rw t (
      Wired-kept s _ rest refl (omega arith) (
        fewer_connections s σ.connections rest (λ d k. (Perm.mem_iff m).1 (mem-cons_of_mem c k))
          after))
Step-Wired p σ τ n (System.subscribes new h s nd e t) v =
    let done = stream_events-Registered new h σ.server s e in
    rw t (Wired-kept σ.server s _ done.backends (omega (arith, done.next)) v)
Step-Wired p σ τ n (System.denied new e s r t) v = rw (t, stream_events_denied new e σ.server s r) v
Step-Wired p σ τ n (System.forwards h rest event m y t) v = rw t v
Step-Wired p σ τ n (System.unsubscribes h rest x r m y t) v =
    rw t (Wired-kept σ.server _ _ refl (omega arith) v)
Step-Wired p σ τ n (System.broadcasts i tags t) v =
    let quiet = broadcast-Quiet i tags σ.server in
    rw t (Wired-kept σ.server _ _ quiet.backends (omega (arith, quiet.next)) v)
Step-Wired p σ τ n (System.opens id d b req h s e t) v =
    rw t (rw e at (open_request-Wired id d b req σ.server _ v))
Step-Wired p σ τ n (System.fails id d b req e s r t) v =
    rw t (rw r at (open_request-Wired id d b req σ.server _ v))
Step-Wired p σ τ n (System.closes h rest a m d t) v =
    rw t (Wired-kept σ.server _ _ refl (omega arith) v)
Step-Wired p σ τ n (System.reads_cleanup r q b e t) v = rw t v
Step-Wired p σ τ n (System.cleans b t) v = rw t (cleanup-Wired σ.server _ σ.server.cleanup refl n v)

-- Whatever the tasks do from the start of the server on: the registry finds for each connection the
-- very backend that the connection writes to, under the connection's identifier, and it finds no
-- backend under two identifiers.
pub Reach-Wired :
    (p : PercentEncoding) (host url : Text) (now : ℕ) (σ : System)
    → Reach p (booted host url now) σ
    → Wired σ.server σ.connections
Reach-Wired p host url now σ System.here = booted-Wired host url now
Reach-Wired p host url now σ (System.next {τ = υ} r st) =
    Step-Wired p υ σ (λ id q e. (cleanup_is_due p host url now υ id q r e).1) st
      (Reach-Wired p host url now υ r)

-- Whatever the tasks did before: when a connection reads an event of its backend, the channels that
-- the handlers read for the backend's identifier become what the event makes of them, whether the
-- event is accepted or refused; and what they read for every other identifier stays.
pub channels_follow_events :
    (p : PercentEncoding) (host url : Text) (now : ℕ) (σ : System) (c : IngestEvents)
    (e : ChatEvent) (i : ChatEventInner) (j : BackendId)
    → Reach p (booted host url now) σ
    → Mem c σ.connections
    → e.inner ≡ some i
    → let t = (turn p c (event_read e) σ.server).1 in
      let known = (σ.server.arcs c.backend).channels in
      (channels_of c.id σ.server ≡ ok known)
      × (channels_of j t
          ≡ (if same_key j c.id then ok (apply_channel i known) else channels_of j σ.server))
unfolding channels_of
channels_follow_events p host url now σ c e i j r m h =
    let v = Reach-Wired p host url now σ r in
    let mine = v.held c m in
    let done = turn-Applied p c e i σ.server h in
    (
      ground (arith, mine),
      elim (Bool-cases (same_key j c.id)) [
        | inl same ↦
            rw (same_key-eq j c.id same, same_key_refl c.id)
              (ground (arith, mine, done.backends, done.here))
        | inr other ↦ elim (Option-cases (get j σ.server.backends)) [
          | inl absent ↦ ground (arith, other, absent, done.backends)
          | inr (a, found) ↦
              let away : a ≢ c.backend = λ q. true≢false (
                sym (same_key_refl j)
                ∙ ap (same_key j) (v.apart j c.id a found (mine ∙ ap some (sym q)))
                ∙ other) in
              ground (arith, other, found, done.backends, done.elsewhere a away)
        ]
      ],
    )
