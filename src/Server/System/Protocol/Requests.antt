-- ===== src/Server/System/Protocol/Requests.antt =====
-- The life of a request's identifier under the operations of src/server/mod.rs.
use mathlib.Core.Path.{subst}
use seabird_core.Prelude.{
  Entries, ◌≡◌, refl, ap, sym, arith, Bool-cases, Option-cases, inl, inr, Text, Option, none, some,
  List, [], ◌∷◌, get, remove, get-insert, get-remove, contains_key, contains_key-get, same_key,
  same_key-eq, text_ord, is_empty,
}
use seabird_core.Id.{BackendId}
use seabird_core.Id.Percent.{PercentEncoding}
use seabird_core.Proto.{ChatEvent, ChatEventInner, ChatRequestInner}
use seabird_core.Server.State.{Server, ChatRequest, CleanupRequest, request, backend, commands}
use seabird_core.Server.Requests.{respond, open_request, clean, cleanup_turn, Delivery}
use seabird_core.Server.Requests.Turns.{cleanup_turn-nil, cleanup_turn-cons}
use seabird_core.Server.Requests.Answers.{requests-open_request}
use seabird_core.Server.Ingest.{
  IngestEvents, Selected, event_read, request_passed, turn, handle_event, respond_unless_empty,
}
use seabird_core.Server.Ingest.Frame.{dispatch-Quiet}
use seabird_core.Server.System.Protocol.{RequestMove, request_in}

-- Every request keeps its state or makes one move.
abbrev pub AllMove : Entries Text (Option ChatRequest) → Entries Text (Option ChatRequest) → Type 0
AllMove m n = (id : Text) → RequestMove (request_in m id) (request_in n id)

pub same_requests : (m n : Entries Text (Option ChatRequest)) → n ≡ m → AllMove m n
same_requests m n e id = RequestMove.stays (ap (λ l. request_in l id) e)

respond_moves :
    (id : Text) (e : ChatEventInner) (s : Server) → AllMove s.requests (respond id e s).requests
unfolding respond
respond_moves id e s j =
    let gone = get-remove id j s.requests in
    let marked = get-insert id j none (remove id s.requests) in
    elim (Bool-cases (same_key j id)) [
      | inl p ↦
          let same : j ≡ id = same_key-eq j id p in
          elim (Option-cases (get id s.requests)) [
            | inl no_entry ↦ RequestMove.stays (ground (arith, gone, p, same, no_entry))
            | inr (o, entry) ↦ elim (Option-cases o) [
              | inl mark ↦ RequestMove.forgets (ground (arith, gone, p, same, entry, mark))
              | inr (r, open_) ↦
                  RequestMove.answers r.sender (ground (arith, same, entry, open_))
                    (ground (arith, marked, p, same, entry, open_))
            ]
          ]
      | inr p ↦ elim (Option-cases (get id s.requests)) [
        | inl no_entry ↦ RequestMove.stays (ground (arith, gone, p, no_entry))
        | inr (o, entry) ↦ elim (Option-cases o) [
          | inl mark ↦ RequestMove.stays (ground (arith, gone, p, entry, mark))
          | inr (r, open_) ↦ RequestMove.stays (ground (arith, gone, marked, p, entry, open_))
        ]
      ]
    ]

respond_unless_empty_moves :
    (id : Text) (e : ChatEventInner) (s : Server)
    → AllMove s.requests (respond_unless_empty id e s).requests
unfolding respond_unless_empty
respond_unless_empty_moves id e s = elim (Bool-cases (is_empty id)) [
  | inl b ↦ rw (b, respond_unless_empty) (same_requests _ _ refl)
  | inr b ↦ rw (b, respond_unless_empty) (respond_moves id e s)
]

handle_event_moves :
    (p : PercentEncoding) (c : IngestEvents) (e : ChatEvent) (s : Server)
    → AllMove s.requests (handle_event p c e s).1.requests
unfolding handle_event
handle_event_moves p c e s = elim (Option-cases e.inner) [
  | inl none_inside ↦ rw (none_inside, handle_event) (same_requests _ _ refl)
  | inr (i, e_inner) ↦
      let told = respond_unless_empty e.id i s in
      rw (e_inner, handle_event)
        λ id.
          subst (λ m. RequestMove (request_in s.requests id) (request_in m id))
            (sym (dispatch-Quiet p c i e.tags told).requests)
            (respond_unless_empty_moves e.id i s id)
]

pub turn_moves :
    (p : PercentEncoding) (c : IngestEvents) (x : Selected) (s : Server)
    → AllMove s.requests (turn p c x s).1.requests
unfolding turn
turn_moves p c (event_read e) s = handle_event_moves p c e s
turn_moves p c (request_passed req) s = same_requests _ _ refl
turn_moves p c _ s = same_requests _ _ refl

clean_moves : (r : CleanupRequest) (s : Server) → AllMove s.requests (clean r s).requests
unfolding clean
clean_moves (backend id) s j = same_requests _ _ refl j
clean_moves (commands names) s j = same_requests _ _ refl j
clean_moves (request id) s j = elim (Bool-cases (same_key j id)) [
  | inl p ↦ RequestMove.forgets (ground (arith, get-remove id j s.requests, p))
  | inr p ↦ RequestMove.stays (ground (arith, get-remove id j s.requests, p))
]

pub cleanup_moves :
    (s : Server) (q : List CleanupRequest)
    → s.cleanup ≡ q
    → AllMove s.requests (cleanup_turn s).requests
cleanup_moves s [] e =
    subst (λ t. AllMove s.requests t.requests) (sym (cleanup_turn-nil s e)) (same_requests _ _ refl)
cleanup_moves s (r ∷ q) e =
    subst (λ t. AllMove s.requests t.requests) (sym (cleanup_turn-cons s r q e))
      (clean_moves r (record s { cleanup = q }))

pub open_request_moves :
    (id : Text) (d : Delivery) (b : BackendId) (req : ChatRequestInner) (s : Server)
    → AllMove s.requests (open_request id d b req s).1.requests
open_request_moves id d b req s j =
    let held = requests-open_request id d b req s in
    elim (Bool-cases (contains_key id s.requests)) [
      | inl e ↦ RequestMove.stays (ground (arith, held, e))
      | inr e ↦ elim (Bool-cases (same_key j id)) [
        | inl p ↦
            RequestMove.opens s.next
              (ground (arith, e, same_key-eq j id p, contains_key-get id s.requests))
              (ground
                (arith, held, e, p, get-insert id j (some (record { sender = s.next })) s.requests))
        | inr p ↦ RequestMove.stays (
            ground
              (arith, held, e, p, get-insert id j (some (record { sender = s.next })) s.requests))
      ]
    ]
