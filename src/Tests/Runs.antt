-- ===== src/Tests/Runs.antt =====
-- What holds of the backend that connects, is asked, answers and goes.
use mathlib.Core.List.{Mem, mem-cons_self, Nodup-cons, Nodup-nil, not-mem-nil}
use mathlib.Core.List.Perm
use seabird_core.Prelude.{
  map, List, none, is_empty, false, if◌then◌else◌, same_key, ◌≡◌, refl, text, some, [], ◌∷◌, ◌++◌,
  Nodup, ok, status, text_ord, cmp_text, get, insert, remove, contains_key, internal, true,
}
use seabird_core.Id.{backend_id_ord}
use seabird_core.Proto.{ChatEvent, ChatEventInner}
use seabird_core.Server.State.{
  Server, ChatRequestHandle, CleanupRequest, new, set_arc, drop_backend_handle,
}
use seabird_core.Server.State
use seabird_core.Server.Requests.{respond, register_backend, open_request, answer}
use seabird_core.Server.Ingest.{events_ended, start, connect, read_hello, turn, disconnect}
use seabird_core.Server.System
use seabird_core.Server.System.{System, Step, Reach, booted, Delivers}
use seabird_core.Server.System.Ownership.{Inv, connected}
use seabird_core.Server.System.Ownership.Always.{Reach-Inv, cleanup_is_due}
use seabird_core.Server.Requests.Answers.{answered_on}
use seabird_core.Server.System.Correlation.Once.{answers_at_most_once, answer_is_routed}
use seabird_core.Server.System.Channels.Shown.{channels_follow_events}
use seabird_core.Server.Grpc.Queries.{channels_of}
use seabird_core.Server.Ingest.{event_read, apply_channel}
use seabird_core.Server.System.Correlation.Waiting.{waiting_handler_is_answered}
use mathlib.Core.Logic.{◌∨₁◌}
use seabird_core.Server.System.Correlation.Kept.{queued_requests}
use seabird_core.Server.System.Correlation.Accounted.{failed}
use seabird_core.Server.System.Correlation.Entries.{requests_are_accounted}
use seabird_core.Server.Ingest.{Selected, request_passed}
use seabird_core.Server.Ingest.Life.{connection_task}
use seabird_core.Server.Ingest.Life.Outcome.{Outcome, connection_task-Outcome}
use seabird_core.Tests.Samples.{codec}
use seabird_core.Tests.Scenario.{
  id, hello, start_state, connection, connected_state, to_connected, handle, asked, asked_state,
  to_asked,
}

Reach-Inv_example : Inv asked_state
Reach-Inv_example = Reach-Inv codec (text "host") (text "db") 7 asked_state to_asked

answers_once_example : Nodup (answered_on asked)
answers_once_example = answers_at_most_once codec (text "host") (text "db") 7 asked_state to_asked

answered :
    (respond (text "r1") ChatEventInner.success asked).answered
    ≡ asked.answered ++ (1, ChatEventInner.success) ∷ []
unfolding respond open_request start read_hello connect register_backend contains_key insert remove
    get new backend_id_ord text text_ord cmp_text
answered = refl

answer_is_routed_example : text "r1" ≡ handle.id
answer_is_routed_example =
    (answer_is_routed codec (text "host") (text "db") 7 asked_state handle (text "r1")
      ChatEventInner.success ChatEventInner.success to_asked mem-cons_self answered).0

-- The stream of the backend ends, and the connection with it.
abbrev pub gone_state : System
gone_state = record connected_state {
  server = disconnect connection connected_state.server;
  connections = [];
}

pub to_gone : Reach codec start_state gone_state
unfolding turn
to_gone = System.next to_connected (
    System.ends connection [] events_ended (status internal (text "chat event stream ended"))
      connected_state.server (Perm.refl (connection ∷ [])) tt refl refl)

due : gone_state.server.cleanup ≡ State.backend id ∷ []
unfolding disconnect start read_hello connect register_backend contains_key new
due = refl

cleanup_is_due_example :
    (contains_key id gone_state.server.backends ≡ true) × (¬ Mem id (connected []))
cleanup_is_due_example =
    cleanup_is_due codec (text "host") (text "db") 7 gone_state id [] to_gone due

-- The backend says that it is in a channel.
abbrev pub joining : ChatEvent
joining = record {
  id = [];
  inner = some (
      ChatEventInner.join_channel
        (record { channel_id = text "c"; display_name = text "C"; topic = [] }));
  tags = [];
}

abbrev room_joined : ChatEventInner
room_joined =
    ChatEventInner.join_channel
      (record { channel_id = text "c"; display_name = text "C"; topic = [] })

channels_follow_events_example :
    channels_of id (turn codec connection (event_read joining) connected_state.server).1 ≡ (
      if same_key id id
      then ok (apply_channel room_joined (connected_state.server.arcs 0).channels)
      else channels_of id connected_state.server)
channels_follow_events_example =
    (channels_follow_events codec (text "host") (text "db") 7 connected_state connection joining
      room_joined id to_connected mem-cons_self refl).1

-- The event answers the request, and then it breaks the protocol.
abbrev second_hello : ChatEvent
second_hello = record { id = text "r1"; inner = hello.inner; tags = [] }

abbrev hello_again : ChatEventInner
hello_again = ChatEventInner.hello (some (record { type = text "irc"; id = text "net" }))

has_id : is_empty (text "r1") ≡ false
unfolding text
has_id = refl

waiting_handler_is_answered_example :
    ((got : ChatEventInner) × Delivers asked handle (answer got))
    ∨₁ Delivers
        (turn codec connection (event_read second_hello) asked).1
        handle
        (answer hello_again)
unfolding text
waiting_handler_is_answered_example =
    waiting_handler_is_answered codec (text "host") (text "db") 7 asked_state to_asked handle
      connection second_hello hello_again (Nodup-cons.1 (not-mem-nil, Nodup-nil)) mem-cons_self refl
      refl has_id

r1_held : get (text "r1") asked.requests ≡ some (some (record { sender = 1 }))
unfolding open_request start read_hello connect register_backend contains_key insert get new
    backend_id_ord text text_ord cmp_text
r1_held = refl

requests_are_accounted_example :
    Mem (text "r1") (map (λ h. h.id) asked_state.waiting)
    ∨₁ (Mem (text "r1") (queued_requests asked_state.server.cleanup)
        ∨₁ Mem (text "r1") (failed to_asked))
requests_are_accounted_example =
    requests_are_accounted codec (text "host") (text "db") 7 asked_state to_asked (text "r1")
      (some (record { sender = 1 })) r1_held

-- A message that comes as text.
abbrev spoken : ChatEventInner
spoken = ChatEventInner.message (record {
  source = some (record { channel_id = text "c"; user = none });
  text = text "hi";
  root_block = none;
})

-- It is said twice, with a request passed on in between, and the stream ends before the second.
abbrev said : Selected
said = event_read (record { id = []; inner = some spoken; tags = [] })

abbrev selected : List Selected
selected =
    said ∷ request_passed (record { id = text "r1"; inner = none }) ∷ events_ended ∷ said ∷ []

connection_task-Outcome_example :
    Outcome codec
      (ok (some hello))
      selected
      start_state.server
      (connection_task codec (ok (some hello)) selected start_state.server)
connection_task-Outcome_example =
    connection_task-Outcome codec (ok (some hello)) selected start_state.server
