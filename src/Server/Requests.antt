-- ===== src/Server/Requests.antt =====
-- `register_backend`, `respond`, `issue_request` and the cleanup task of src/server/mod.rs.
pub mod Turns
pub mod Answers
pub mod Lifetime
pub mod Served
pub mod Held
use seabird_core.Prelude.{
  ℕ, suc, Text, text, Option, none, some, List, [], ◌∷◌, ◌++◌, Entries, Rpc, RpcResult, ok, err,
  modify, ◌>>=◌, ◌>>◌, text_ord, if◌then◌else◌, status, internal, not_found, already_exists,
  deadline_exceeded, get, insert, remove, contains_key,
}
use seabird_core.Id.{BackendId, backend_id_ord}
use seabird_core.Proto.{ChatEventInner, ChatRequestInner}
use seabird_core.Server.State.{
  Server, ChatRequest, ChatBackendHandle, ChatRequestHandle, CleanupRequest, request, backend,
  commands, Sender, set_arc, drop_request_handle,
}

add_backend : BackendId → Server → Server
unfolding set_arc
add_backend id s = record s {
  backends = insert id s.next s.backends;
  arcs = set_arc s.next (record { sender = s.next; channels = [] }) s.arcs;
  next = suc s.next;
}

-- The handle, and the `Arc` of the new backend.
unfoldable pub register_backend : BackendId → Rpc Server (ChatBackendHandle × ℕ)
unfolding add_backend
register_backend id s =
    if contains_key id s.backends
    then (err (status already_exists (text "id already exists")), s)
    else (ok (record { id = id; receiver = s.next }, s.next), add_backend id s)

-- The request as it was, after its removal: the first answer goes to the waiting handler and leaves
-- a mark, the second removes the mark.
respond_to : Option (Option ChatRequest) → Text → ChatEventInner → Server → Server
respond_to (some (some handle)) id event s = record s {
  answered = s.answered ++ (handle.sender, event) ∷ [];
  requests = insert id none s.requests;
}
respond_to (some none) id event s = s
respond_to none id event s = s

unfoldable pub respond : Text → ChatEventInner → Server → Server
unfolding respond_to
respond id event s =
    respond_to (get id s.requests) id event (record s { requests = remove id s.requests })

-- How `send` on a backend's mpsc channel ends, and how the wait for a oneshot value does.
pub data Delivery : Type 0 where
  delivered receiver_gone : Delivery

pub data Awaited : Type 0 where
  answer : ChatEventInner → Awaited
  sender_dropped elapsed : Awaited

add_request : Text → Server → Server
add_request id s = record s {
  requests = insert id (some (record { sender = s.next })) s.requests;
  next = suc s.next;
}

-- `backends.get(&backend_id)`, and the sender of what it points to.
find_sender : BackendId → Server → Option Sender
find_sender id s = elim (get id s.backends) [ none ↦ none | some a ↦ some (s.arcs a).sender ]

send_request : Delivery → Sender → Text → ChatRequestInner → Sender → Rpc Server ChatRequestHandle
send_request delivered to id req receiver s = (
  ok (record { id = id; receiver = receiver }),
  record s { asked = s.asked ++ (to, record { id = id; inner = some req }) ∷ [] },
)
send_request receiver_gone to id req receiver s =
    (err (status internal (text "failed to send request")), s)

open_with :
    Option Sender → Delivery → Text → ChatRequestInner → Sender → Rpc Server ChatRequestHandle
open_with none d id req receiver s = (err (status not_found (text "unknown backend")), s)
open_with (some to) d id req receiver s = send_request d to id req receiver s

-- The block of `issue_request` that holds the locks. `request_id` is the new UUID.
unfoldable pub open_request :
    Text → Delivery → BackendId → ChatRequestInner → Rpc Server ChatRequestHandle
unfolding add_request find_sender send_request open_with
open_request request_id d backend_id req s =
    if contains_key request_id s.requests
    then (err (status internal (text "failed to generate unique request ID")), s)
    else open_with (find_sender backend_id s) d request_id req s.next (add_request request_id s)

unfoldable pub awaited_result : Awaited → RpcResult ChatEventInner
awaited_result (answer e) = ok e
awaited_result sender_dropped = err (status internal (text "request channel closed"))
awaited_result elapsed = err (status deadline_exceeded (text "request timed out"))

-- The end of `issue_request`: the handle is dropped on every path.
unfoldable pub close_request : ChatRequestHandle → Awaited → Rpc Server ChatEventInner
unfolding awaited_result drop_request_handle
close_request h a s = (awaited_result a, drop_request_handle h s)

-- What surrounds one call of `issue_request`: the UUID drawn, the end of the send and of the wait,
-- and what the other tasks do to the server during the wait.
pub record Wait : Type 0 where
  pub request_id : Text
  pub delivery : Delivery
  pub meanwhile : Server → Server
  pub awaited : Awaited

unfoldable pub issue_request : Wait → BackendId → ChatRequestInner → Rpc Server ChatEventInner
unfolding open_request close_request
issue_request w backend_id req = do
  handle ← open_request w.request_id w.delivery backend_id req
  modify w.meanwhile
  close_request handle w.awaited

-- The loop over the names of one request.
unfoldable pub remove_commands : List Text → Entries Text Text → Entries Text Text
remove_commands [] m = m
remove_commands (name ∷ names) m = remove_commands names (remove name m)

-- One turn of the cleanup task's loop.
unfoldable pub clean : CleanupRequest → Server → Server
clean (backend id) s = record s { backends = remove id s.backends }
clean (request id) s = record s { requests = remove id s.requests }
clean (commands names) s = record s { commands = remove_commands names s.commands }

clean_first : List CleanupRequest → Server → Server
clean_first [] s = s
clean_first (r ∷ rest) s = clean r (record s { cleanup = rest })

-- The cleanup task reads the next request, or goes on waiting.
unfoldable pub cleanup_turn : Server → Server
unfolding clean_first
cleanup_turn s = clean_first s.cleanup s
