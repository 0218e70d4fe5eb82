-- ===== src/Server/Requests/Lifetime.antt =====
-- How long the entry of a request stays in `requests` of src/server/mod.rs: until the cleanup task
-- has read of its handle's drop; and for ever, if it never had a handle.

use seabird_core.Prelude.{
  ℕ, zero, suc, ◌≡◌, ◌≢◌, refl, Text, text, Option, none, some, List, [], ◌∷◌, ◌++◌, err, status,
  not_found, arith, get, contains_key, get-insert, get-remove, text_ord, same_key, same_key-eq,
  same_key_refl, Bool-cases, inl, inr, false, length,
}
use seabird_core.Id.{BackendId, backend_id_ord}
use seabird_core.Proto.{ChatRequestInner}
use seabird_core.Server.State.{
  Server, ChatRequest, CleanupRequest, request, backend, commands, ChatRequestHandle,
  drop_request_handle,
}
use seabird_core.Server.Requests.{Awaited, Wait, close_request, issue_request, clean, cleanup_turn}
use seabird_core.Server.Requests.Turns.{turns, cleanup_turn-nil, cleanup_turn-cons, cleanup-turn}

abbrev Entry : Type 0
Entry = Option (Option ChatRequest)

-- The identifier is not among those queued for cleanup.
abbrev pub IsKept : Text → List CleanupRequest → Type 0
IsKept id [] = Unit {0}
IsKept id (request j ∷ q) = (id ≢ j) × IsKept id q
IsKept id (backend b ∷ q) = IsKept id q
IsKept id (commands names ∷ q) = IsKept id q

turn_keeps :
    (id : Text) (e : Entry) (s : Server) (q : List CleanupRequest)
    → s.cleanup ≡ q
    → IsKept id q
    → get id s.requests ≡ e
    → (get id (cleanup_turn s).requests ≡ e)
unfolding clean
turn_keeps id e s [] c k h = rw (cleanup_turn-nil s c) h
turn_keeps id e s (request j ∷ q) c k h =
    rw (cleanup_turn-cons s (request j) q c) (elim (Bool-cases (same_key id j)) [
      | inl p ↦ absurd (k.0 (same_key-eq id j p))
      | inr p ↦ ground (arith, get-remove j id s.requests, p)
    ])
turn_keeps id e s (backend b ∷ q) c k h = rw (cleanup_turn-cons s (backend b) q c) h
turn_keeps id e s (commands names ∷ q) c k h = rw (cleanup_turn-cons s (commands names) q c) h

IsKept-after :
    (id : Text) (r : CleanupRequest) (q : List CleanupRequest) → IsKept id (r ∷ q) → IsKept id q
IsKept-after id (request j) q k = k.1
IsKept-after id (backend b) q k = k
IsKept-after id (commands names) q k = k

turns_keep :
    (n : ℕ) (id : Text) (e : Entry) (s : Server) (q : List CleanupRequest)
    → s.cleanup ≡ q
    → IsKept id q
    → get id s.requests ≡ e
    → get id (turns n s).requests ≡ e
unfolding turns
turns_keep zero id e s q c k h = h
turns_keep (suc n) id e s [] c k h =
    turns_keep n id e (cleanup_turn s) [] (rw (cleanup_turn-nil s c) c) tt
      (turn_keeps id e s [] c k h)
turns_keep (suc n) id e s (r ∷ q) c k h =
    turns_keep n id e (cleanup_turn s) q (cleanup-turn s r q c) (IsKept-after id r q k)
      (turn_keeps id e s (r ∷ q) c k h)

gone_after :
    (n : ℕ) (id : Text) (s : Server) (q : List CleanupRequest)
    → s.cleanup ≡ q
    → get id s.requests ≡ none
    → get id (turns n s).requests ≡ none
unfolding turns clean
gone_after zero id s q c h = h
gone_after (suc n) id s [] c h =
    gone_after n id (cleanup_turn s) [] (rw (cleanup_turn-nil s c) c) (rw (cleanup_turn-nil s c) h)
gone_after (suc n) id s (request j ∷ q) c h =
    gone_after n id (cleanup_turn s) q (cleanup-turn s (request j) q c)
      (rw (cleanup_turn-cons s (request j) q c) (ground (arith, get-remove j id s.requests)))
gone_after (suc n) id s (backend b ∷ q) c h =
    gone_after n id (cleanup_turn s) q (cleanup-turn s (backend b) q c)
      (rw (cleanup_turn-cons s (backend b) q c) h)
gone_after (suc n) id s (commands names ∷ q) c h =
    gone_after n id (cleanup_turn s) q (cleanup-turn s (commands names) q c)
      (rw (cleanup_turn-cons s (commands names) q c) h)

-- One drop of a handle among what is queued.
drained :
    (id : Text) (s : Server) (before after : List CleanupRequest)
    → s.cleanup ≡ before ++ request id ∷ after
    → get id (turns (length (before ++ request id ∷ after)) s).requests ≡ none
unfolding turns clean
drained id s [] after c =
    gone_after (length after) id (cleanup_turn s) after (cleanup-turn s (request id) after c) (
      rw (cleanup_turn-cons s (request id) after c)
        (ground (arith, get-remove id id s.requests, same_key_refl id)))
drained id s (r ∷ before) after c =
    drained id (cleanup_turn s) before after (cleanup-turn s r (before ++ request id ∷ after) c)

-- Once a handler stops waiting, whether with an answer or not, its request is forgotten: when the
-- cleanup task has gone through its queue, the identifier is no longer in the map.
pub closed_request_is_forgotten :
    (h : ChatRequestHandle) (a : Awaited) (s : Server)
    → let t = (close_request h a s).1 in get h.id (turns (length t.cleanup) t).requests ≡ none
unfolding close_request
closed_request_is_forgotten h a s = drained h.id (drop_request_handle h s) s.cleanup [] refl

-- A request to a backend that is not registered, under a UUID that is neither in the map nor queued
-- for cleanup, is refused, and its entry stays: however many turns the cleanup task makes, the
-- identifier keeps its entry, since no handle was made whose drop would have queued it.
pub unknown_backend_leaks :
    (w : Wait) (b : BackendId) (req : ChatRequestInner) (s : Server) (n : ℕ)
    → contains_key w.request_id s.requests ≡ false
    → get b s.backends ≡ none
    → IsKept w.request_id s.cleanup
    → let (r, t) = issue_request w b req s in
      (r ≡ err (status not_found (text "unknown backend")))
      × (get w.request_id (turns n t).requests ≡ some (some (record { sender = s.next })))
unfolding issue_request
unknown_backend_leaks w b req s n e u k = (
  ground (arith, e, u),
  turns_keep n w.request_id _ (issue_request w b req s).1 s.cleanup (ground (arith, e, u)) k (
      ground (
        arith,
        e,
        u,
        same_key_refl w.request_id,
        get-insert w.request_id w.request_id (some (record { sender = s.next })) s.requests,
      )),
)
