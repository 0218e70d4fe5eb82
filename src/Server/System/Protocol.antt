-- ===== src/Server/System/Protocol.antt =====
-- What the server promises, with no registry, queue or task in sight: the life of a request's
-- identifier and that of a backend's.
pub mod Requests
pub mod Backends
pub mod Refines
use seabird_core.Prelude.{
  ℕ, Entries, ◌≡◌, Bool, true, false, if◌then◌else◌, Text, Option, none, some, List, [], ◌∷◌, get,
  same_key, text_ord,
}
use seabird_core.Id.{BackendId, backend_id_ord}
use seabird_core.Server.State.{Server, Sender, ChatRequest}
use seabird_core.Server.System.{System}
use seabird_core.Server.System.Ownership.{connected}

-- A request waits for its answer on one oneshot channel, then it is marked as answered.
pub data RequestState : Type 0 where
  unknown answered : RequestState
  waiting : Sender → RequestState

-- A backend is here while its connection lives, and leaving until its identifier is free again. The
-- number stands for its `Arc`.
pub data Presence : Type 0 where
  absent : Presence
  here leaving : ℕ → Presence

pub record Broker : Type 0 where
  pub requests : Text → RequestState
  pub backends : BackendId → Presence

-- A request that waits or was answered can only be forgotten before its identifier is used again, and
-- one that was answered never waits again.
pub data RequestMove (r t : RequestState) : Type 0 where
  stays : t ≡ r → RequestMove r t
  opens : (k : Sender) → r ≡ unknown → t ≡ waiting k → RequestMove r t
  answers : (k : Sender) → r ≡ waiting k → t ≡ answered → RequestMove r t
  forgets : t ≡ unknown → RequestMove r t

-- A backend that is here can only leave, and one that is leaving can only go: no second connection
-- takes its place before it is gone.
pub data PresenceMove (r t : Presence) : Type 0 where
  stays : t ≡ r → PresenceMove r t
  arrives : (a : ℕ) → r ≡ absent → t ≡ here a → PresenceMove r t
  leaves : (a : ℕ) → r ≡ here a → t ≡ leaving a → PresenceMove r t
  goes : (a : ℕ) → r ≡ leaving a → t ≡ absent → PresenceMove r t

pub record Moves (b d : Broker) : Type 0 where
  pub requests : (id : Text) → RequestMove (b.requests id) (d.requests id)
  pub backends : (id : BackendId) → PresenceMove (b.backends id) (d.backends id)

-- How a system looks from outside.
abbrev state_of : Option (Option ChatRequest) → RequestState
state_of none = unknown
state_of (some none) = answered
state_of (some (some r)) = waiting r.sender

abbrev pub request_in : Entries Text (Option ChatRequest) → Text → RequestState
request_in m id = state_of (get id m)

abbrev pub elem : BackendId → List BackendId → Bool
elem k [] = false
elem k (j ∷ l) = if same_key k j then true else elem k l

abbrev arc_at : Bool → ℕ → Presence
arc_at true a = here a
arc_at false a = leaving a

abbrev presence_at : Bool → Option ℕ → Presence
presence_at live none = absent
presence_at live (some a) = arc_at live a

abbrev pub presence_of : System → BackendId → Presence
presence_of σ id = presence_at (elem id (connected σ.connections)) (get id σ.server.backends)

abbrev pub view : System → Broker
view σ = record { requests = request_in σ.server.requests; backends = presence_of σ }
