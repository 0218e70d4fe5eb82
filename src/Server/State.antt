-- ===== src/Server/State.antt =====
-- The state of src/server/mod.rs and its small operations.
use seabird_core.Prelude.{
  Bool, true, false, ℕ, Text, Option, some, List, [], ◌∷◌, ◌++◌, Entries, text_ord, ◌==◌,
  if◌then◌else◌,
}
use seabird_core.Id.{BackendId, backend_id_ord}
use seabird_core.Block.Message.{Tags}
use seabird_core.Proto.{Channel, Event, EventInner, ChatEventInner, CommandMetadata}
use seabird_core.Proto.{ChatRequest as ChatRequestMessage}

-- `REQUEST_TIMEOUT` and the channel sizes bound waiting only; see the header of Lib.antt.
abbrev pub broadcast_buffer : ℕ
broadcast_buffer = 32

-- The identity of a channel's end: of the sender of a oneshot or an mpsc channel.
abbrev pub Sender : Type 0
Sender = ℕ

-- `sender` is the end of the mpsc channel to the backend's connection.
pub record ChatBackend : Type 0 where
  pub sender : Sender
  pub channels : Entries Text Channel

-- `sender` is the end of the oneshot channel to the handler that waits.
pub record ChatRequest : Type 0 where
  pub sender : Sender

pub data CleanupRequest : Type 0 where
  request : Text → CleanupRequest
  backend : BackendId → CleanupRequest
  commands : List Text → CleanupRequest

pub record ChatBackendHandle : Type 0 where
  pub id : BackendId
  pub receiver : Sender

pub record ChatRequestHandle : Type 0 where
  pub id : Text
  pub receiver : Sender

pub record CommandsHandle : Type 0 where
  pub commands : List Text

-- The fields of `Server`, and what it shares and hands on. `sender` holds what was sent to the
-- broadcast channel, oldest first, and `cleanup` what the cleanup task has still to read. An
-- `Arc<ChatBackend>` is a number by which `arcs` finds the backend. `asked` and `answered` hold what
-- was sent to backends' mpsc channels and to oneshot channels, and `passed` what connections took
-- from the mpsc channels and sent on to their backends. Numbers below `next` are taken.
pub record Server : Type 0 where
  pub bind_host : Text
  pub database_url : Text
  pub startup_timestamp : ℕ
  pub sender : List Event
  pub requests : Entries Text (Option ChatRequest)
  pub backends : Entries BackendId ℕ
  pub commands : Entries Text CommandMetadata
  pub cleanup : List CleanupRequest
  pub arcs : ℕ → ChatBackend
  pub asked : List (Sender × ChatRequestMessage)
  pub passed : List (Sender × ChatRequestMessage)
  pub answered : List (Sender × ChatEventInner)
  pub next : ℕ

-- `Server::new`, started at the given time.
unfoldable pub new : Text → Text → ℕ → Server
new bind_host database_url now = record {
  bind_host = bind_host;
  database_url = database_url;
  startup_timestamp = now;
  sender = [];
  requests = [];
  backends = [];
  commands = [];
  cleanup = [];
  arcs = λ a. record { sender = 0; channels = [] };
  asked = [];
  passed = [];
  answered = [];
  next = 0;
}

-- `Server::broadcast`. With no receiver the send fails, and the failure is ignored.
unfoldable pub broadcast : EventInner → Tags → Server → Server
broadcast inner tags s = record s {
  sender = s.sender ++ record { inner = some inner; tags = tags } ∷ [];
}

-- The three `Drop`s.
unfoldable pub drop_backend_handle : ChatBackendHandle → Server → Server
drop_backend_handle h s = record s { cleanup = s.cleanup ++ backend h.id ∷ [] }

unfoldable pub drop_request_handle : ChatRequestHandle → Server → Server
drop_request_handle h s = record s { cleanup = s.cleanup ++ request h.id ∷ [] }

unfoldable pub drop_commands_handle : CommandsHandle → Server → Server
drop_commands_handle h s = record s { cleanup = s.cleanup ++ commands h.commands ∷ [] }

-- What went through the channel `k`, of what went through any.
abbrev cons_if {ℓ} : {A : Type ℓ} → Bool → A → List A → List A
cons_if true a l = a ∷ l
cons_if false a l = l

abbrev pub on {ℓ} : {A : Type ℓ} → Sender → List (Sender × A) → List A
on k [] = []
on k ((j, a) ∷ l) = cons_if (j == k) a (on k l)

-- `arcs` with the backend at `a` replaced.
unfoldable pub set_arc : ℕ → ChatBackend → (ℕ → ChatBackend) → ℕ → ChatBackend
set_arc a b arcs c = if a == c then b else arcs c
