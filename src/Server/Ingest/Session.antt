-- ===== src/Server/Ingest/Session.antt =====
-- A whole run of the loop of src/server/ingest_events.rs, described apart from it: when it ends, and
-- what it has sent by then.
pub mod Run
pub mod Passed
use mathlib.Core.Option
use seabird_core.Prelude.{
  resume, ◌≡◌, refl, sym, ◌∙◌, ap, Text, text, Option, none, some, List, [], ◌∷◌, ◌++◌, append-nil,
  append_assoc, arith, text_ord, Option-cases, inl, inr, RpcResult, Status, status, ok, err,
  internal, invalid_argument,
}
use seabird_core.Id.Percent.{PercentEncoding}
use seabird_core.Block.{Block}
use seabird_core.Block.Described.{complaint}
use seabird_core.Block.Normal.{normalize_block_inner-eq}
use seabird_core.Block.Message.{Tags, normalize_block, block_or_text}
use seabird_core.Proto.{TextEvent, Event, EventInner, ChatEventInner, ChatEvent}
use seabird_core.Proto.{ChatRequest as ChatRequestMessage}
use seabird_core.Server.State.{Server, Sender, broadcast}
use seabird_core.Server.Requests.{respond}
use seabird_core.Server.Ingest.{
  IngestEvents, Selected, request_passed, request_refused, event_read, read_failed, requests_ended,
  events_ended, turn, run, relay, dispatch, handle_event, respond_unless_empty, pass_on,
  update_channels,
}
use seabird_core.Server.Ingest.Publish.{published, turn-published}

abbrev pub refusal : Text → Option Block → Option Status
refusal t b = Option.map (status invalid_argument) (complaint (block_or_text t b))

-- Why a backend's event ends its connection, if it does: it is a second hello, or a part of its block
-- is missing.
abbrev pub event_end : ChatEventInner → Option Status
event_end (ChatEventInner.action e) = refusal e.text e.root_block
event_end (ChatEventInner.message e) = refusal e.text e.root_block
event_end (ChatEventInner.mention e) = refusal e.text e.root_block
event_end (ChatEventInner.private_action e) = refusal e.text e.root_block
event_end (ChatEventInner.private_message e) = refusal e.text e.root_block
event_end (ChatEventInner.hello info) =
    some (status invalid_argument (text "unexpected chat event type"))
event_end _ = none

abbrev pub inner_end : Option ChatEventInner → Option Status
inner_end none = some (status internal (text "missing inner event"))
inner_end (some i) = event_end i

-- Why a turn of the loop is the last, if it is.
abbrev pub turn_end : Selected → Option Status
turn_end (request_passed req) = none
turn_end (request_refused req why) =
    some (status internal (text "failed to send request to backend: " ++ why))
turn_end (event_read e) = inner_end e.inner
turn_end (read_failed e) = some e
turn_end requests_ended = some (status internal (text "internal request stream ended"))
turn_end events_ended = some (status internal (text "chat event stream ended"))

abbrev pub result_of : Option Status → RpcResult (Unit {0})
result_of none = ok tt
result_of (some e) = err e

-- What is put after a turn, if it is not the last.
abbrev pub unless_ended {ℓ} : {A : Type ℓ} → Option Status → List A → List A
unless_ended none later = later
unless_ended (some e) later = []

abbrev pub first_of : Option Status → Option Status → Option Status
first_of none later = later
first_of (some e) later = some e

-- The reason for which the loop ends.
abbrev pub loop_end : List Selected → Option Status
loop_end [] = none
loop_end (x ∷ xs) = first_of (turn_end x) (loop_end xs)

abbrev pub passed_turn : Sender → Selected → List (Sender × ChatRequestMessage)
passed_turn k (request_passed req) = (k, req) ∷ []
passed_turn k _ = []

-- What the backend is sent: the requests that were passed on, to the last turn.
abbrev pub passed_loop : Sender → List Selected → List (Sender × ChatRequestMessage)
passed_loop k [] = []
passed_loop k (x ∷ xs) = passed_turn k x ++ unless_ended (turn_end x) (passed_loop k xs)

module _ (p : PercentEncoding) where
  abbrev pub shown_inner : IngestEvents → Option ChatEventInner → Tags → List Event
  shown_inner c none tags = []
  shown_inner c (some i) tags = published p c.id i tags

  abbrev pub shown_turn : IngestEvents → Selected → List Event
  shown_turn c (event_read e) = shown_inner c e.inner e.tags
  shown_turn c _ = []

  -- What plugins see of the loop: what they see of each turn, to the last.
  abbrev pub shown_loop : IngestEvents → List Selected → List Event
  shown_loop c [] = []
  shown_loop c (x ∷ xs) = shown_turn c x ++ unless_ended (turn_end x) (shown_loop c xs)
