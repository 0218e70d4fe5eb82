-- ===== src/Server/System/Ownership.antt =====
-- Who owns the entries of the two registries: a connection its backend's, a stream its commands',
-- and what was dropped is queued for the cleanup task.
pub mod Steps
pub mod Always
pub mod Return
pub mod Listed
use mathlib.Core.List.Perm
use mathlib.Core.List.{Permᴰ, perm_append_comm, append-nil}
use mathlib.Core.Logic.{∥∥₁_elim}
use seabird_core.Prelude.{
  Text, Option, none, some, List, [], ◌∷◌, ◌++◌, map, Perm, ◌≡◌, refl, sym, ap, Entries, keys,
  text_ord, IsIncreasing, append_assoc, inl, inr, owned_adopt, owned_retire, owned_release,
  owned_mem,
}
use seabird_core.Id.{BackendId, backend_id_ord}
use seabird_core.Server.State.{Server, CleanupRequest, request, backend, commands, CommandsHandle}
use seabird_core.Server.Ingest.{IngestEvents}
use seabird_core.Server.Grpc.Stream.{EventStream}
use seabird_core.Server.System.{System}

abbrev pub queued_backends : List CleanupRequest → List BackendId
queued_backends [] = []
queued_backends (backend id ∷ q) = id ∷ queued_backends q
queued_backends (request id ∷ q) = queued_backends q
queued_backends (commands names ∷ q) = queued_backends q

abbrev pub queued_commands : List CleanupRequest → List Text
queued_commands [] = []
queued_commands (backend id ∷ q) = queued_commands q
queued_commands (request id ∷ q) = queued_commands q
queued_commands (commands names ∷ q) = names ++ queued_commands q

abbrev pub connected : List IngestEvents → List BackendId
connected = map λ c. c.backend_handle.id

abbrev pub subscribed : List EventStream → List Text
subscribed [] = []
subscribed (stream ∷ streams) = stream.handle.commands ++ subscribed streams

-- The registered backends are those of the connections and those queued for cleanup, each once; and
-- so the registered commands are those of the streams and those queued.
pub record Inv (σ : System) : Type 0 where
  pub backends_owned :
      Perm (keys σ.server.backends) (connected σ.connections ++ queued_backends σ.server.cleanup)
  pub backends_sorted : IsIncreasing (keys σ.server.backends)
  pub commands_owned :
      Perm (keys σ.server.commands) (subscribed σ.streams ++ queued_commands σ.server.cleanup)
  pub commands_sorted : IsIncreasing (keys σ.server.commands)

pub queued_backends-append :
    (q r : List CleanupRequest) → queued_backends (q ++ r) ≡ queued_backends q ++ queued_backends r
queued_backends-append [] r = refl
queued_backends-append (backend id ∷ q) r = ap (◌∷◌ id) (queued_backends-append q r)
queued_backends-append (request id ∷ q) r = queued_backends-append q r
queued_backends-append (commands names ∷ q) r = queued_backends-append q r

pub queued_commands-append :
    (q r : List CleanupRequest) → queued_commands (q ++ r) ≡ queued_commands q ++ queued_commands r
queued_commands-append [] r = refl
queued_commands-append (backend id ∷ q) r = queued_commands-append q r
queued_commands-append (request id ∷ q) r = queued_commands-append q r
queued_commands-append (commands names ∷ q) r =
    rw (queued_commands-append q r)
      (sym (append_assoc names (queued_commands q) (queued_commands r)))

swap_front : (xs ys zs : List Text) → Perm (xs ++ (ys ++ zs)) (ys ++ (xs ++ zs))
swap_front xs ys zs =
    rw (← append_assoc xs ys zs, ← append_assoc ys xs zs)
      (Perm.append_right zs (perm_append_comm xs ys))

subscribed-Permᴰ : {a b : List EventStream} → Permᴰ a b → Perm (subscribed a) (subscribed b)
subscribed-Permᴰ Permᴰ.nil = Perm.nil
subscribed-Permᴰ (Permᴰ.cons {l₁ = l} e r) = rw e (Perm.append_left _ (subscribed-Permᴰ r))
subscribed-Permᴰ (Permᴰ.swap {l = l} e f) = rw (e, f) (swap_front _ _ (subscribed l))
subscribed-Permᴰ (Permᴰ.trans r t) = Perm.trans (subscribed-Permᴰ r) (subscribed-Permᴰ t)

pub subscribed-Perm : {a b : List EventStream} → Perm a b → Perm (subscribed a) (subscribed b)
subscribed-Perm h = ∥∥₁_elim h squash₁ subscribed-Permᴰ
