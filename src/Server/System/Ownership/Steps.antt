-- ===== src/Server/System/Ownership/Steps.antt =====
-- Every step keeps the ownership of the registries' entries.
use mathlib.Core.List.Perm
use seabird_core.Prelude.{
  Bool, true, false, Text, List, [], ◌∷◌, ◌++◌, Perm, Nodup, ◌≡◌, refl, sym, Entries, keys,
  text_ord, IsIncreasing, IsIncreasing-Nodup, append-nil, arith, owned_adopt, owned_retire,
  owned_release, owned_mem, keys-remove-perm, keys-insert-perm, keys-insert-IsIncreasing,
  keys-remove-IsIncreasing, contains_key-mem, remove,
}
use seabird_core.Id.{BackendId, backend_id_ord}
use seabird_core.Id.Percent.{PercentEncoding}
use seabird_core.Proto.{CommandMetadata, ChatRequestInner}
use seabird_core.Server.State.{
  Server, CleanupRequest, request, backend, commands, CommandsHandle, ChatRequestHandle, new,
}
use seabird_core.Server.Requests.{
  cleanup_turn, clean, remove_commands, open_request, close_request, Delivery, Awaited,
}
use mathlib.Core.Path.{subst}
use seabird_core.Server.Requests.Turns.{cleanup_turn-nil, cleanup_turn-cons}
use seabird_core.Server.Ingest.{IngestEvents, disconnect}
use seabird_core.Server.Ingest.Frame.{Same, turn-Same, broadcast-Quiet, Quiet-Same}
use seabird_core.Server.Ingest.Start.{Started, start-Started, start_refused}
use seabird_core.Server.Grpc.Stream.{EventStream, subscribe, advance, forward, unsubscribe}
use seabird_core.Proto.{Event}
use seabird_core.Server.Grpc.Register.{
  Registered, stream_events-Registered, stream_events_denied, keys-insert_all,
  keys-insert_all-IsIncreasing,
}
use seabird_core.Server.System
use seabird_core.Server.System.{System, Step, Reach, booted}
use seabird_core.Server.System.Ownership.{
  Inv, connected, subscribed, queued_backends, queued_commands, queued_backends-append,
  queued_commands-append, subscribed-Perm,
}

-- A server with the same registries and queue is as good.
Same-Inv : (σ : System) (t : Server) → Same σ.server t → Inv σ → Inv (record σ { server = t })
Same-Inv σ t e v = record {
  backends_owned = rw (e.backends, e.cleanup) v.backends_owned;
  backends_sorted = rw e.backends v.backends_sorted;
  commands_owned = rw (e.commands, e.cleanup) v.commands_owned;
  commands_sorted = rw e.commands v.commands_sorted;
}

-- So is one whose cleanup task waits for a lock, or does not.
cleaning-Inv : (σ : System) (b : Bool) → Inv σ → Inv (record σ { cleaning = b })
cleaning-Inv σ b v = record {
  backends_owned = v.backends_owned;
  backends_sorted = v.backends_sorted;
  commands_owned = v.commands_owned;
  commands_sorted = v.commands_sorted;
}

starts-Inv :
    (σ : System) (c : IngestEvents) (t : Server)
    → Started c σ.server t
    → Inv σ
    → Inv (record σ { server = t; connections = c ∷ σ.connections })
starts-Inv σ c t e v = record {
  backends_owned =
      rw (e.backends, e.cleanup, e.handle)
        (owned_adopt (keys σ.server.backends) _ (c.id ∷ []) (connected σ.connections) _
          v.backends_owned (keys-insert-perm c.id σ.server.next σ.server.backends e.absent));
  backends_sorted =
      rw e.backends
        (keys-insert-IsIncreasing c.id σ.server.next σ.server.backends v.backends_sorted);
  commands_owned = rw (e.commands, e.cleanup) v.commands_owned;
  commands_sorted = rw e.commands v.commands_sorted;
}

disconnect-Inv :
    (σ : System) (c : IngestEvents) (rest : List IngestEvents)
    → Perm σ.connections (c ∷ rest)
    → Inv σ
    → Inv (record σ { server = disconnect c σ.server; connections = rest })
unfolding disconnect
disconnect-Inv σ c rest e v = record {
  backends_owned = rw (queued_backends-append σ.server.cleanup (backend c.backend_handle.id ∷ [])) (
      owned_retire _ (c.backend_handle.id ∷ []) (connected σ.connections) (connected rest) _
        v.backends_owned (Perm.map _ e));
  backends_sorted = v.backends_sorted;
  commands_owned =
      rw (queued_commands-append σ.server.cleanup (backend c.backend_handle.id ∷ []), append-nil)
        v.commands_owned;
  commands_sorted = v.commands_sorted;
}

registers-Inv :
    (σ : System) (new : Entries Text CommandMetadata) (h : CommandsHandle) (t : Server)
    → Nodup (keys new)
    → Registered new h σ.server t
    → Inv σ
    → Inv (record σ { server = t; streams = subscribe h t ∷ σ.streams })
unfolding subscribe
registers-Inv σ new h t n e v = record {
  backends_owned = rw (e.backends, e.cleanup) v.backends_owned;
  backends_sorted = rw e.backends v.backends_sorted;
  commands_owned =
      rw (e.commands, e.cleanup, e.held)
        (owned_adopt (keys σ.server.commands) _ (keys new) (subscribed σ.streams) _ v.commands_owned
          (keys-insert_all new σ.server.commands n e.free));
  commands_sorted = rw e.commands (keys-insert_all-IsIncreasing new _ v.commands_sorted);
}

forward-Inv :
    (σ : System) (h : EventStream) (rest : List EventStream) (event : Event)
    → Perm σ.streams (h ∷ rest)
    → Inv σ
    → Inv (record σ { streams = forward event (advance h) ∷ rest })
unfolding forward advance
forward-Inv σ h rest event e v = record {
  backends_owned = v.backends_owned;
  backends_sorted = v.backends_sorted;
  commands_owned = Perm.trans v.commands_owned (Perm.append_right _ (subscribed-Perm e));
  commands_sorted = v.commands_sorted;
}

unsubscribe-Inv :
    (σ : System) (h : EventStream) (rest : List EventStream)
    → Perm σ.streams (h ∷ rest)
    → Inv σ
    → Inv (record σ { server = unsubscribe h.handle σ.server; streams = rest })
unfolding unsubscribe
unsubscribe-Inv σ h rest e v = record {
  backends_owned =
      rw (queued_backends-append σ.server.cleanup (commands h.handle.commands ∷ []), append-nil)
        v.backends_owned;
  backends_sorted = v.backends_sorted;
  commands_owned =
      rw (queued_commands-append σ.server.cleanup (commands h.handle.commands ∷ []), append-nil)
        (owned_retire _ h.handle.commands (subscribed σ.streams) (subscribed rest) _
          v.commands_owned (subscribed-Perm e));
  commands_sorted = v.commands_sorted;
}

pub open_request-Same :
    (id : Text) (d : Delivery) (b : BackendId) (req : ChatRequestInner) (s : Server)
    → Same s (open_request id d b req s).1
unfolding open_request
open_request-Same id d b req s = ground arith

close_request-Inv :
    (σ : System) (h : ChatRequestHandle) (rest : List ChatRequestHandle) (a : Awaited)
    → Inv σ
    → Inv (record σ { server = (close_request h a σ.server).1; waiting = rest })
unfolding close_request
close_request-Inv σ h rest a v = record {
  backends_owned =
      rw (queued_backends-append σ.server.cleanup (request h.id ∷ []), append-nil) v.backends_owned;
  backends_sorted = v.backends_sorted;
  commands_owned =
      rw (queued_commands-append σ.server.cleanup (request h.id ∷ []), append-nil) v.commands_owned;
  commands_sorted = v.commands_sorted;
}

release_commands :
    (names : List Text) (m : Entries Text CommandMetadata) (o q : List Text)
    → IsIncreasing (keys m)
    → Perm (keys m) (o ++ (names ++ q))
    → Perm (keys (remove_commands names m)) (o ++ q) × IsIncreasing (keys (remove_commands names m))
unfolding remove_commands
release_commands [] m o q i h = (h, i)
release_commands (name ∷ names) m o q i h =
    release_commands names (remove name m) o q (keys-remove-IsIncreasing name m i) (
      owned_release (keys m) (keys (remove name m)) (name ∷ []) o (names ++ q) h (
        keys-remove-perm name m (IsIncreasing-Nodup _ i)
          (contains_key-mem name m (owned_mem (keys m) o (names ++ q) name h))))

clean-Inv :
    (σ : System) (r : CleanupRequest) (q : List CleanupRequest)
    → σ.server.cleanup ≡ r ∷ q
    → Inv σ
    → Inv (record σ { server = clean r (record σ.server { cleanup = q }) })
unfolding clean
clean-Inv σ (backend id) q e v =
    let owned = rw e at (v.backends_owned) in
    record {
      backends_owned =
          owned_release (keys σ.server.backends) _ (id ∷ []) (connected σ.connections)
            (queued_backends q) owned
            (keys-remove-perm id σ.server.backends (IsIncreasing-Nodup _ v.backends_sorted) (
              contains_key-mem id σ.server.backends (
                owned_mem (keys σ.server.backends) (connected σ.connections) (queued_backends q) id
                  owned)));
      backends_sorted = keys-remove-IsIncreasing id σ.server.backends v.backends_sorted;
      commands_owned = rw e at (v.commands_owned);
      commands_sorted = v.commands_sorted;
    }
clean-Inv σ (request id) q e v = record {
  backends_owned = rw e at (v.backends_owned);
  backends_sorted = v.backends_sorted;
  commands_owned = rw e at (v.commands_owned);
  commands_sorted = v.commands_sorted;
}
clean-Inv σ (commands names) q e v =
    let (owned, sorted) =
      release_commands names σ.server.commands (subscribed σ.streams) (queued_commands q)
        v.commands_sorted (rw e at (v.commands_owned)) in
    record {
      backends_owned = rw e at (v.backends_owned);
      backends_sorted = v.backends_sorted;
      commands_owned = owned;
      commands_sorted = sorted;
    }

pub turn_of_cleanup :
    (σ : System) (q : List CleanupRequest)
    → σ.server.cleanup ≡ q
    → Inv σ
    → Inv (record σ { server = cleanup_turn σ.server })
turn_of_cleanup σ [] e v =
    subst (λ s. Inv (record σ { server = s })) (sym (cleanup_turn-nil σ.server e)) v
turn_of_cleanup σ (r ∷ q) e v =
    subst (λ s. Inv (record σ { server = s })) (sym (cleanup_turn-cons σ.server r q e))
      (clean-Inv σ r q e v)

-- Each step of a task keeps the ownership.
pub Step-Inv : (p : PercentEncoding) (σ τ : System) → Step p σ τ → Inv σ → Inv τ
Step-Inv p σ τ (System.connects first c s e t) v =
    rw t (starts-Inv σ c s (start-Started first c σ.server s e) v)
Step-Inv p σ τ (System.refused first e s r t) v = rw (t, start_refused first e σ.server s r) v
Step-Inv p σ τ (System.turns c rest x s m y e t) v =
    rw t (Same-Inv σ s (rw e at (turn-Same p c x σ.server)) v)
Step-Inv p σ τ (System.ends c rest x e s m y r t) v = rw t (
    disconnect-Inv (record σ { server = s }) c rest m
      (Same-Inv σ s (rw r at (turn-Same p c x σ.server)) v))
Step-Inv p σ τ (System.subscribes new h s n e t) v =
    rw t (registers-Inv σ new h s n (stream_events-Registered new h σ.server s e) v)
Step-Inv p σ τ (System.denied new e s r t) v = rw (t, stream_events_denied new e σ.server s r) v
Step-Inv p σ τ (System.forwards h rest event m y t) v = rw t (forward-Inv σ h rest event m v)
Step-Inv p σ τ (System.unsubscribes h rest x r m y t) v = rw t (unsubscribe-Inv σ h rest m v)
Step-Inv p σ τ (System.broadcasts i tags t) v =
    rw t (Same-Inv σ _ (Quiet-Same (broadcast-Quiet i tags σ.server)) v)
Step-Inv p σ τ (System.opens id d b req h s e t) v =
    let same : Same σ.server s = rw e at (open_request-Same id d b req σ.server) in
    rw t (record {
      backends_owned = (Same-Inv σ s same v).backends_owned;
      backends_sorted = (Same-Inv σ s same v).backends_sorted;
      commands_owned = (Same-Inv σ s same v).commands_owned;
      commands_sorted = (Same-Inv σ s same v).commands_sorted;
    })
Step-Inv p σ τ (System.fails id d b req e s r t) v =
    rw t (Same-Inv σ s (rw r at (open_request-Same id d b req σ.server)) v)
Step-Inv p σ τ (System.closes h rest a m d t) v = rw t (close_request-Inv σ h rest a v)
Step-Inv p σ τ (System.reads_cleanup r q n e t) v = rw t (cleaning-Inv σ true v)
Step-Inv p σ τ (System.cleans b t) v =
    rw t (cleaning-Inv _ false (turn_of_cleanup σ σ.server.cleanup refl v))
