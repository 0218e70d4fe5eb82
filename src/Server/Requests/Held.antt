-- ===== src/Server/Requests/Held.antt =====
-- Which requests of src/server/mod.rs have an entry, whether they wait or are answered.
use seabird_core.Prelude.{
  ◌≡◌, Text, Option, none, some, arith, ◌⊎◌, inl, inr, get, remove, contains_key, get-insert,
  get-remove, text_ord, false, same_key, same_key-eq, Bool-cases, Option-cases,
}
use seabird_core.Id.{BackendId}
use seabird_core.Proto.{ChatEventInner, ChatRequestInner}
use seabird_core.Server.State.{Server, ChatRequest}
use seabird_core.Server.Requests.{respond, respond_to, open_request, Delivery}
use seabird_core.Server.Requests.Answers.{requests-open_request}

abbrev pub IsHeld : Server → Text → Type 0
IsHeld s k = (x : Option ChatRequest) × (get k s.requests ≡ some x)

-- No request has an entry that had none.
abbrev pub NoneNew : Server → Server → Type 0
NoneNew s t = (k : Text) → IsHeld t k → IsHeld s k

pub respond-NoneNew : (id : Text) (e : ChatEventInner) (s : Server) → NoneNew s (respond id e s)
unfolding respond respond_to
respond-NoneNew id e s k (x, h) = elim (Option-cases (get k s.requests)) [
  | inr (y, f) ↦ (y, f)
  | inl n ↦ elim (Option-cases (get id s.requests)) [
    | inl m ↦ ground (arith, n, m, h, get-remove id k s.requests)
    | inr (none, m) ↦ ground (arith, n, m, h, get-remove id k s.requests)
    | inr (some r, m) ↦ ground (
      arith,
      n,
      m,
      h,
      get-remove id k s.requests,
      get-insert id k none (remove id s.requests),
      same_key-eq k id,
    )
  ]
]

pub open_request-IsHeld :
    (id : Text) (d : Delivery) (b : BackendId) (req : ChatRequestInner) (s : Server) (k : Text)
    → IsHeld (open_request id d b req s).1 k
    → (k ≡ id) ⊎ IsHeld s k
open_request-IsHeld id d b req s k (x, h) = elim (Bool-cases (same_key k id)) [
  | inl e ↦ inl (same_key-eq k id e)
  | inr e ↦ inr (elim (Bool-cases (contains_key id s.requests)) [
    | inl c ↦ (x, ground (arith, h, c, requests-open_request id d b req s))
    | inr c ↦ (
      x,
      ground (
        arith,
        h,
        c,
        e,
        requests-open_request id d b req s,
        get-insert id k (some (record { sender = s.next })) s.requests,
      ),
    )
  ])
]

pub remove-IsHeld :
    (id : Text) (s : Server) (k : Text)
    → IsHeld (record s { requests = remove id s.requests }) k
    → (same_key k id ≡ false) × IsHeld s k
remove-IsHeld id s k (x, h) = elim (Bool-cases (same_key k id)) [
  | inl e ↦ ground (arith, e, h, get-remove id k s.requests)
  | inr e ↦ (e, (x, ground (arith, e, h, get-remove id k s.requests)))
]
