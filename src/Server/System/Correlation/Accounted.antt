-- ===== src/Server/System/Correlation/Accounted.antt =====
-- Why a request has an entry in the map of src/server/mod.rs: its handler waits, its cleanup is
-- queued, or it could not be sent.
use mathlib.Core.List.{
  Mem, mem-cons, mem-cons_self, mem-cons_of_mem, mem-append, mem-append_left, mem-append_right,
  mem-cast,
}
use mathlib.Core.List.Perm
use mathlib.Core.Path.{subst}
use mathlib.Core.Bool.{true≢false}
use mathlib.Core.Logic.{∥∥₁_prop}
use mathlib.Core.Logic.Or
use seabird_core.Prelude.{
  Text, List, [], ◌∷◌, ◌++◌, map, Perm, ◌≡◌, refl, sym, ap, ◌⊎◌, inl, inr, append-nil, Option-cases,
  Bool-cases, perm_rotate, text_ord, same_key, same_key_refl, ◌∙◌, is_empty,
}
use seabird_core.Id.Percent.{PercentEncoding}
use seabird_core.Proto.{ChatEvent, ChatEventInner}
use seabird_core.Server.State.{
  Server, ChatRequestHandle, CleanupRequest, request, backend, commands,
}
use seabird_core.Server.Requests.{cleanup_turn, clean}
use seabird_core.Server.Requests.Held.{IsHeld, NoneNew, respond-NoneNew, remove-IsHeld}
use seabird_core.Server.Requests.Turns.{cleanup_turn-nil, cleanup_turn-cons}
use seabird_core.Server.Ingest.{
  IngestEvents, Selected, event_read, request_passed, turn, handle_event, dispatch,
  respond_unless_empty,
}
use seabird_core.Server.Ingest.Frame.{turn-Same, dispatch-Quiet}
use seabird_core.Server.System
use seabird_core.Server.System.{System, Step, Reach, booted}
use seabird_core.Server.System.Correlation.Kept.{
  in_use, in_use-close, queued_requests, queued_requests-append,
}

-- The identifiers of the requests that could not be sent.
abbrev pub failed_by : {p : PercentEncoding} {σ τ : System} → Step p σ τ → List Text
failed_by (System.fails id d b req e s r t) = id ∷ []
failed_by _ = []

abbrev pub failed : {p : PercentEncoding} {σ τ : System} → Reach p σ τ → List Text
failed System.here = []
failed (System.next r st) = failed_by st ++ failed r

unfoldable pub Accounted : Server → List ChatRequestHandle → List Text → Type 0
Accounted s ws f = (k : Text) → IsHeld s k → Mem k (in_use s ws ++ f)

pub same_entries :
    (s t : Server) (ws : List ChatRequestHandle) (f : List Text)
    → queued_requests t.cleanup ≡ queued_requests s.cleanup
    → NoneNew s t
    → Accounted s ws f
    → Accounted t ws f
unfolding Accounted
same_entries s t ws f e n v k h = rw e (v k (n k h))

pub unchanged : (s t : Server) → t.requests ≡ s.requests → NoneNew s t
unchanged s t e k (x, h) = (x, rw e at h)

respond_unless_empty-NoneNew :
    (id : Text) (e : ChatEventInner) (s : Server) → NoneNew s (respond_unless_empty id e s)
unfolding respond_unless_empty
respond_unless_empty-NoneNew id e s = elim (Bool-cases (is_empty id)) [
  | inl b ↦ rw (b, respond_unless_empty) (unchanged s s refl)
  | inr b ↦ rw (b, respond_unless_empty) (respond-NoneNew id e s)
]

module _ (p : PercentEncoding) (c : IngestEvents) where
  handle_event-NoneNew : (e : ChatEvent) (s : Server) → NoneNew s (handle_event p c e s).1
  unfolding handle_event
  handle_event-NoneNew e s = elim (Option-cases e.inner) [
    | inl n ↦ rw (n, handle_event) (unchanged s s refl)
    | inr (i, n) ↦
        let told = respond_unless_empty e.id i s in
        rw (n, handle_event)
          λ k h. respond_unless_empty-NoneNew e.id i s k (
            unchanged told (dispatch p c i e.tags told).1
              (dispatch-Quiet p c i e.tags told).requests k h)
  ]

  turn-NoneNew : (x : Selected) (s : Server) → NoneNew s (turn p c x s).1
  unfolding turn
  turn-NoneNew (event_read e) s = handle_event-NoneNew e s
  turn-NoneNew (request_passed req) s = λ k h. h
  turn-NoneNew _ s = unchanged s s refl

  pub turn-Accounted :
      (x : Selected) (s : Server) (ws : List ChatRequestHandle) (f : List Text)
      → Accounted s ws f
      → Accounted (turn p c x s).1 ws f
  turn-Accounted x s ws f =
      same_entries s (turn p c x s).1 ws f (ap queued_requests (turn-Same p c x s).cleanup)
        (turn-NoneNew x s)

-- What is queued for a backend or for commands changes nothing here.
pub queued :
    (s : Server) (r : CleanupRequest) (ws : List ChatRequestHandle) (f : List Text)
    → queued_requests (r ∷ []) ≡ []
    → Accounted s ws f
    → Accounted (record s { cleanup = s.cleanup ++ r ∷ [] }) ws f
queued s r ws f e =
    same_entries s (record s { cleanup = s.cleanup ++ r ∷ [] }) ws f
      (rw (queued_requests-append s.cleanup (r ∷ []), e, append-nil) refl) (λ k h. h)

pub closes-Accounted :
    (s : Server) (ws rest : List ChatRequestHandle) (h : ChatRequestHandle) (f : List Text)
    → Perm ws (h ∷ rest)
    → Accounted s ws f
    → Accounted (record s { cleanup = s.cleanup ++ request h.id ∷ [] }) rest f
unfolding Accounted
closes-Accounted s ws rest h f m v k e =
    (Perm.mem_iff (Perm.append_right f (in_use-close s ws rest h m))).0 (v k e)

clean-Accounted :
    (s : Server) (ws : List ChatRequestHandle) (r : CleanupRequest) (q : List CleanupRequest)
    (f : List Text)
    → s.cleanup ≡ r ∷ q
    → Accounted s ws f
    → Accounted (clean r (record s { cleanup = q })) ws f
unfolding clean Accounted
clean-Accounted s ws (backend id) q f e v k h = rw e at (v k h)
clean-Accounted s ws (commands names) q f e v k h = rw e at (v k h)
clean-Accounted s ws (request id) q f e v k h =
    let (other, held) = remove-IsHeld id s k h in
    let rot =
      perm_rotate (map (λ (h : ChatRequestHandle). h.id) ws) (id ∷ []) (queued_requests q) in
    Or.elim ∥∥₁_prop (mem-cons.0 ((Perm.mem_iff (Perm.append_right f rot)).0 (rw e at (v k held))))
      (λ same. absurd (true≢false (sym (same_key_refl k) ∙ ap (same_key k) same ∙ other))) (λ m. m)

pub cleanup-Accounted :
    (s : Server) (ws : List ChatRequestHandle) (q : List CleanupRequest) (f : List Text)
    → s.cleanup ≡ q
    → Accounted s ws f
    → Accounted (cleanup_turn s) ws f
cleanup-Accounted s ws [] f e v = subst (λ t. Accounted t ws f) (sym (cleanup_turn-nil s e)) v
cleanup-Accounted s ws (r ∷ q) f e v =
    subst (λ t. Accounted t ws f) (sym (cleanup_turn-cons s r q e)) (clean-Accounted s ws r q f e v)

pub opens-Accounted :
    (s t : Server) (ws : List ChatRequestHandle) (h : ChatRequestHandle) (f : List Text)
    → queued_requests t.cleanup ≡ queued_requests s.cleanup
    → ((k : Text) → IsHeld t k → (k ≡ h.id) ⊎ IsHeld s k)
    → Accounted s ws f
    → Accounted t (h ∷ ws) f
unfolding Accounted
opens-Accounted s t ws h f e n v k held = elim (n k held) [
  | inl same ↦ mem-cast same mem-cons_self
  | inr old ↦ rw e (mem-cons_of_mem h.id (v k old))
]

pub fails-Accounted :
    (s t : Server) (ws : List ChatRequestHandle) (id : Text) (f : List Text)
    → queued_requests t.cleanup ≡ queued_requests s.cleanup
    → ((k : Text) → IsHeld t k → (k ≡ id) ⊎ IsHeld s k)
    → Accounted s ws f
    → Accounted t ws (id ∷ f)
unfolding Accounted
fails-Accounted s t ws id f e n v k held = elim (n k held) [
  | inl same ↦ mem-append_right (in_use t ws) (mem-cast same mem-cons_self)
  | inr old ↦ rw e (
      Or.elim ∥∥₁_prop (mem-append.0 (v k old)) (λ m. mem-append_left (id ∷ f) m)
        (λ m. mem-append_right (in_use s ws) (mem-cons_of_mem id m)))
]
