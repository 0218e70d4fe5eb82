-- ===== src/Server/Requests/Answers.antt =====
-- What each operation of src/server/mod.rs does to the requests that wait and to the answers given.
use seabird_core.Prelude.{
  map, List, ◌≤◌, ◌<◌, ◌≡◌, refl, ap, sym, Text, Option, none, some, [], ◌∷◌, ◌++◌, ok, arith, ◌⊎◌,
  inl, inr, Entries, get, insert, remove, contains_key, get-insert, get-remove, text_ord, same_key,
  same_key-eq, same_key_refl, if◌then◌else◌, Bool-cases, true, false,
}
use mathlib.Core.Path.{subst}
use mathlib.Core.Bool.{true≢false}
use seabird_core.Id.{BackendId}
use seabird_core.Proto.{ChatEventInner, ChatRequestInner}
use seabird_core.Server.State.{
  Server, ChatRequest, Sender, CleanupRequest, request, backend, commands, ChatRequestHandle,
}
use seabird_core.Server.Requests.{respond, respond_to, open_request, clean, Delivery}

-- The request `id` waits for its answer on the oneshot of `k`.
abbrev pub Pending : Server → Text → Sender → Type 0
Pending s id k = get id s.requests ≡ some (some (record { sender = k }))

-- The oneshot channels that got an answer.
abbrev pub answered_on : Server → List Sender
answered_on s = map (λ a. a.0) s.answered

-- Nothing new waits in `t`, no answer was given, and no number was freed.
pub record Fewer (s t : Server) : Type 0 where
  pub pending : (id : Text) (k : Sender) → Pending t id k → Pending s id k
  pub answered : t.answered ≡ s.answered
  pub grows : s.next ≤ t.next

-- The request `id` was waiting on `k`, got its answer, and waits no more.
pub record Answers (id : Text) (k : Sender) (e : ChatEventInner) (s t : Server) : Type 0 where
  pub waited : Pending s id k
  pub pending : (j : Text) (l : Sender) → Pending t j l → Pending s j l × (j ≡ id → ⊥)
  pub answered : t.answered ≡ s.answered ++ (k, e) ∷ []
  pub grows : s.next ≤ t.next

pub Fewer-refl : (s : Server) → Fewer s s
Fewer-refl s = record { pending = λ id k h. h; answered = refl; grows = omega arith }

-- A removed request waits no more, and the others are as before.
removed :
    (id j : Text) (k : Sender) (m : Entries Text (Option ChatRequest))
    → get j (remove id m) ≡ some (some (record { sender = k }))
    → (get j m ≡ some (some (record { sender = k }))) × (j ≡ id → ⊥)
removed id j k m h = elim (Bool-cases (same_key j id)) [
  | inl e ↦ ground (arith, get-remove id j m, e)
  | inr e ↦ (ground (arith, get-remove id j m, e), λ p. true≢false (rw (p, same_key_refl id) at e))
]

remove-Fewer : (id : Text) (s : Server) → Fewer s (record s { requests = remove id s.requests })
remove-Fewer id s = record {
  pending = λ j k h. (removed id j k s.requests h).0;
  answered = refl;
  grows = omega arith;
}

answer-Answers :
    (id : Text) (k : Sender) (e : ChatEventInner) (s : Server)
    → Pending s id k
    → Answers id k e s (
        respond_to
          (some (some (record { sender = k })))
          id
          e
          (record s { requests = remove id s.requests }))
unfolding respond_to
answer-Answers id k e s w = record {
  waited = w;
  pending = λ j l h. marked j l (Bool-cases (same_key j id)) h;
  answered = refl;
  grows = omega arith;
}
  where
    marked :
        (j : Text) (l : Sender)
        → (same_key j id ≡ true) ⊎ (same_key j id ≡ false)
        → get j (insert id none (remove id s.requests)) ≡ some (some (record { sender = l }))
        → Pending s j l × (j ≡ id → ⊥)
    marked j l (inl p) h = ground (arith, get-insert id j none (remove id s.requests), p)
    marked j l (inr p) h =
        removed id j l s.requests (ground (arith, get-insert id j none (remove id s.requests), p))

respond_at :
    (id : Text) (e : ChatEventInner) (s : Server) (o : Option (Option ChatRequest))
    → get id s.requests ≡ o
    → respond id e s ≡ respond_to o id e (record s { requests = remove id s.requests })
unfolding respond
respond_at id e s o h = ap (λ o. respond_to o id e (record s { requests = remove id s.requests })) h

-- An answer goes to the request that waits under its identifier; if none does, nothing is sent.
pub respond_cases :
    (id : Text) (e : ChatEventInner) (s : Server) (o : Option (Option ChatRequest))
    → get id s.requests ≡ o
    → Fewer s (respond id e s) ⊎ ((k : Sender) × Answers id k e s (respond id e s))
unfolding respond_to
respond_cases id e s none h =
    inl (subst (Fewer s) (sym (respond_at id e s none h)) (remove-Fewer id s))
respond_cases id e s (some none) h =
    inl (subst (Fewer s) (sym (respond_at id e s (some none) h)) (remove-Fewer id s))
respond_cases id e s (some (some r)) h = inr (
  r.sender,
  subst (Answers id r.sender e s) (sym (respond_at id e s (some (some r)) h))
      (answer-Answers id r.sender e s h),
)

pub clean-Fewer : (r : CleanupRequest) (s : Server) → Fewer s (clean r s)
unfolding clean
clean-Fewer (request id) s = remove-Fewer id s
clean-Fewer (backend id) s = record { pending = λ j k h. h; answered = refl; grows = omega arith }
clean-Fewer (commands names) s = record {
  pending = λ j k h. h;
  answered = refl;
  grows = omega arith;
}

-- Besides those that waited, only the new request waits, on a number that was free.
pub record Opened (id : Text) (s t : Server) : Type 0 where
  pub pending :
      (j : Text) (l : Sender)
      → Pending t j l
      → Pending s j l ⊎ ((j ≡ id) × (l ≡ s.next) × (s.next < t.next))
  pub answered : t.answered ≡ s.answered
  pub grows : s.next ≤ t.next

-- The request is in the map from here on, whether it could be sent or not.
pub requests-open_request :
    (id : Text) (d : Delivery) (b : BackendId) (req : ChatRequestInner) (s : Server)
    → (open_request id d b req s).1.requests ≡ (
        if contains_key id s.requests
        then s.requests
        else insert id (some (record { sender = s.next })) s.requests)
unfolding open_request
requests-open_request id d b req s = ground arith

next-open_request :
    (id : Text) (d : Delivery) (b : BackendId) (req : ChatRequestInner) (s : Server)
    → contains_key id s.requests ≡ false
    → s.next < (open_request id d b req s).1.next
unfolding open_request
next-open_request id d b req s e = ground (arith, e)

module _ (id : Text) (d : Delivery) (b : BackendId) (req : ChatRequestInner) (s : Server) where
  opened :
      (j : Text) (l : Sender)
      → Pending (open_request id d b req s).1 j l
      → Pending s j l ⊎ ((j ≡ id) × (l ≡ s.next) × (s.next < (open_request id d b req s).1.next))
  opened j l h =
      let held = requests-open_request id d b req s in
      let at_id = get-insert id j (some (record { sender = s.next })) s.requests in
      elim (Bool-cases (contains_key id s.requests)) [
        | inl e ↦ inl (ground (arith, held, e))
        | inr e ↦ elim (Bool-cases (same_key j id)) [
          | inl p ↦ inr (
            same_key-eq j id p,
            ground (arith, held, e, p, at_id),
            next-open_request id d b req s e,
          )
          | inr p ↦ inl (ground (arith, held, e, p, at_id))
        ]
      ]

pub open_request-Opened :
    (id : Text) (d : Delivery) (b : BackendId) (req : ChatRequestInner) (s : Server)
    → Opened id s (open_request id d b req s).1
unfolding open_request
open_request-Opened id d b req s = record {
  pending = λ j l h. opened id d b req s j l h;
  answered = ground arith;
  grows = ground arith;
}

-- The handle of a request that was opened waits on the number that was free.
pub open_request-handle :
    (id : Text) (d : Delivery) (b : BackendId) (req : ChatRequestInner) (s t : Server)
    (h : ChatRequestHandle)
    → open_request id d b req s ≡ (ok h, t)
    → (h.id ≡ id) × (h.receiver ≡ s.next) × (s.next < t.next)
unfolding open_request
open_request-handle id d b req s t h e = ground arith
