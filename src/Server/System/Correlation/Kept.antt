-- ===== src/Server/System/Correlation/Kept.antt =====
-- The handlers that wait are served, as long as no UUID is drawn twice: `issue_request` and the
-- cleanup task of src/server/mod.rs.
use mathlib.Core.List.{
  Mem, mem-cons, mem-cons_of_mem, mem-cons_self, mem-map_of_mem, mem-cast, Nodup-cons,
}
use mathlib.Core.List.Perm
use mathlib.Core.Path.{subst}
use mathlib.Core.Logic.{∨₁_prop, ∥∥₁_prop}
use mathlib.Core.Logic.Or
use seabird_core.Prelude.{
  Text, some, arith, get, remove, get-remove, text_ord, same_key-eq, List, [], ◌∷◌, ◌++◌, map, Perm,
  Nodup, ◌≡◌, refl, sym, ap, owned_retire, owned_apart, perm_rotate,
}
use seabird_core.Server.State.{
  Server, Sender, ChatRequestHandle, CleanupRequest, request, backend, commands,
}
use seabird_core.Server.Requests.{cleanup_turn, clean}
use seabird_core.Server.Requests.Answers.{Pending}
use seabird_core.Server.Requests.Served.{Served, Keeps, Keeps-Served}
use seabird_core.Server.Requests.Turns.{cleanup_turn-nil, cleanup_turn-cons}

abbrev pub queued_requests : List CleanupRequest → List Text
queued_requests [] = []
queued_requests (backend id ∷ q) = queued_requests q
queued_requests (request id ∷ q) = id ∷ queued_requests q
queued_requests (commands names ∷ q) = queued_requests q

pub queued_requests-append :
    (q r : List CleanupRequest) → queued_requests (q ++ r) ≡ queued_requests q ++ queued_requests r
queued_requests-append [] r = refl
queued_requests-append (backend id ∷ q) r = queued_requests-append q r
queued_requests-append (request id ∷ q) r = ap (◌∷◌ id) (queued_requests-append q r)
queued_requests-append (commands names ∷ q) r = queued_requests-append q r

-- The identifiers of the handlers that wait, and of those whose entry is to be removed.
abbrev pub in_use : Server → List ChatRequestHandle → List Text
in_use s ws = map (λ h. h.id) ws ++ queued_requests s.cleanup

pub record Kept (s : Server) (ws : List ChatRequestHandle) (seen : List Text) : Type 0 where
  pub served : (h : ChatRequestHandle) → Mem h ws → Served s h.id h.receiver
  pub apart : Nodup (in_use s ws)
  pub known : (id : Text) → Mem id (in_use s ws) → Mem id seen

module _ (s t : Server) (ws : List ChatRequestHandle) (seen : List Text) where
  pub Keeps-Kept :
      queued_requests t.cleanup ≡ queued_requests s.cleanup
      → Keeps s t
      → Kept s ws seen
      → Kept t ws seen
  Keeps-Kept e k v = record {
    served = λ h m. Keeps-Served s t h.id h.receiver k (v.served h m);
    apart = rw e v.apart;
    known = λ id m. v.known id (rw e at m);
  }

  -- A UUID that was not drawn before may be drawn.
  pub opens-Kept :
      (h : ChatRequestHandle)
      → ¬ Mem h.id seen
      → queued_requests t.cleanup ≡ queued_requests s.cleanup
      → Keeps s t
      → Pending t h.id h.receiver
      → Kept s ws seen
      → Kept t (h ∷ ws) (h.id ∷ seen)
  opens-Kept h fresh e k w v = record {
    served = λ g m.
        Or.elim ∨₁_prop (mem-cons.0 m) (λ e. Or.inl (rw e w))
          (λ n. Keeps-Served s t g.id g.receiver k (v.served g n));
    apart = rw e (Nodup-cons.1 ((λ m. fresh (v.known h.id m)), v.apart));
    known = λ id m.
        Or.elim ∥∥₁_prop (mem-cons.0 (rw e at m)) (λ q. rw q mem-cons_self)
          (λ n. mem-cons_of_mem h.id (v.known id n));
  }

-- The handle of a handler that goes is queued: its identifier stays in use.
pub in_use-close :
    (s : Server) (ws rest : List ChatRequestHandle) (h : ChatRequestHandle)
    → Perm ws (h ∷ rest)
    → Perm (in_use s ws) (in_use (record s { cleanup = s.cleanup ++ request h.id ∷ [] }) rest)
in_use-close s ws rest h m = rw (queued_requests-append s.cleanup (request h.id ∷ [])) (
    owned_retire (in_use s ws) (h.id ∷ []) (map (λ h. h.id) ws) (map (λ h. h.id) rest)
      (queued_requests s.cleanup) (Perm.refl _) (Perm.map _ m))

pub closes-Kept :
    (s : Server) (ws rest : List ChatRequestHandle) (h : ChatRequestHandle) (seen : List Text)
    → Perm ws (h ∷ rest)
    → Kept s ws seen
    → Kept (record s { cleanup = s.cleanup ++ request h.id ∷ [] }) rest seen
closes-Kept s ws rest h seen m v =
    let moved = in_use-close s ws rest h m in
    record {
      served = λ g k. v.served g ((Perm.mem_iff m).1 (mem-cons_of_mem h k));
      apart = Perm.nodup moved v.apart;
      known = λ id k. v.known id ((Perm.mem_iff moved).1 k);
    }

still_pending :
    (id : Text) (s : Server) (j : Text) (k : Sender)
    → ¬ (j ≡ id)
    → Pending s j k
    → get j (remove id s.requests) ≡ some (some (record { sender = k }))
still_pending id s j k n w = ground (arith, w, n, get-remove id j s.requests, same_key-eq j id)

-- The cleanup task removes no request whose handler waits.
clean-Kept :
    (s : Server) (ws : List ChatRequestHandle) (r : CleanupRequest) (q : List CleanupRequest)
    (seen : List Text)
    → s.cleanup ≡ r ∷ q
    → Kept s ws seen
    → Kept (clean r (record s { cleanup = q })) ws seen
unfolding clean
clean-Kept s ws (backend id) q seen e v = record {
  served = v.served;
  apart = rw e at (v.apart);
  known = λ j m. v.known j (rw e m);
}
clean-Kept s ws (commands names) q seen e v = record {
  served = v.served;
  apart = rw e at (v.apart);
  known = λ j m. v.known j (rw e m);
}
clean-Kept s ws (request id) q seen e v =
    let own = rw e at (v.apart) in
    let ids = map (λ (h : ChatRequestHandle). h.id) ws in
    let rot = perm_rotate ids (id ∷ []) (queued_requests q) in
    let gone = owned_apart _ ids (queued_requests q) id own (Perm.refl _) in
    record {
      served = λ h m.
          Or.elim ∨₁_prop (v.served h m)
            (λ w. Or.inl (
              still_pending id s h.id h.receiver
                (λ p. gone (mem-cast (sym p) (mem-map_of_mem (λ (h : ChatRequestHandle). h.id) m)))
                w))
            Or.inr;
      apart = (Nodup-cons.0 (Perm.nodup rot own)).1;
      known = λ j m. v.known j (rw e ((Perm.mem_iff rot).1 (mem-cons_of_mem id m)));
    }

pub cleanup-Kept :
    (s : Server) (ws : List ChatRequestHandle) (q : List CleanupRequest) (seen : List Text)
    → s.cleanup ≡ q
    → Kept s ws seen
    → Kept (cleanup_turn s) ws seen
cleanup-Kept s ws [] seen e v = subst (λ t. Kept t ws seen) (sym (cleanup_turn-nil s e)) v
cleanup-Kept s ws (r ∷ q) seen e v =
    subst (λ t. Kept t ws seen) (sym (cleanup_turn-cons s r q e)) (clean-Kept s ws r q seen e v)
