-- ===== src/Server/Requests/Turns.antt =====
-- The turns of the cleanup task's loop in src/server/mod.rs, one request of the queue each.
use seabird_core.Prelude.{ℕ, zero, suc, ◌≡◌, refl, ap, List, [], ◌∷◌}
use seabird_core.Server.State.{Server, CleanupRequest, request, backend, commands}
use seabird_core.Server.Requests.{clean, clean_first, cleanup_turn}

-- The next `n` turns of the cleanup task, with no other task between them.
unfoldable pub turns : ℕ → Server → Server
turns zero s = s
turns (suc n) s = turns n (cleanup_turn s)

pub cleanup_turn-nil : (s : Server) → s.cleanup ≡ [] → cleanup_turn s ≡ s
unfolding cleanup_turn
cleanup_turn-nil s e = ap (λ q. clean_first q s) e

pub cleanup_turn-cons :
    (s : Server) (r : CleanupRequest) (q : List CleanupRequest)
    → s.cleanup ≡ r ∷ q
    → cleanup_turn s ≡ clean r (record s { cleanup = q })
unfolding cleanup_turn
cleanup_turn-cons s r q e = ap (λ q. clean_first q s) e

pub cleanup-clean : (r : CleanupRequest) (s : Server) → (clean r s).cleanup ≡ s.cleanup
unfolding clean
cleanup-clean (request id) s = refl
cleanup-clean (backend id) s = refl
cleanup-clean (commands names) s = refl

-- A turn takes the first request from the queue.
pub cleanup-turn :
    (s : Server) (r : CleanupRequest) (q : List CleanupRequest)
    → s.cleanup ≡ r ∷ q
    → (cleanup_turn s).cleanup ≡ q
cleanup-turn s r q e = rw (cleanup_turn-cons s r q e) (cleanup-clean r (record s { cleanup = q }))
