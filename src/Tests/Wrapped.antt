-- ===== src/Tests/Wrapped.antt =====
-- A world of one mpsc channel and one oneshot channel, and a plugin that goes away.
use seabird_core.Prelude.{
  ℕ, ◌≡◌, refl, ap, arith, Bool, true, false, Option, none, some, List, [], ◌∷◌, ◌++◌, Result, ok,
  err, length, ltb, if◌then◌else◌, text, RpcResult,
}
use seabird_core.Proto.{Event}
use seabird_core.Wrapped.Tokio.{TokioSync, Laws, Poll, pending, ready}
use seabird_core.Wrapped.{
  WrappedChannelSender, WrappedChannelReceiver, channel, send, poll_next, drop_receiver,
}
use seabird_core.Wrapped.Notice.{Uses, sends, polls, unused, notice_of_drop}
use seabird_core.Server.Grpc.Stream.{Selected, stream_turn, returned}
use seabird_core.Server.Grpc.Select.{select_next, select-drop_receiver}

record OneChannel (T : Type 0) : Type 0 where
  capacity : ℕ
  queue : List T
  closed : Bool
  fired : Bool

abbrev fires : Bool → Poll (Option (Unit {0}))
fires true = ready (some tt)
fires false = pending

module _ {T : Type 0} where
  abbrev push : T → OneChannel T → Poll (Result T (Unit {0})) × OneChannel T
  push v w =
      if w.closed
      then (ready (err v), w)
      else if ltb (length w.queue) w.capacity
      then (ready (ok tt), record w { queue = w.queue ++ v ∷ [] })
      else (pending, w)

  abbrev pop : List T → OneChannel T → Poll (Option T) × OneChannel T
  pop [] w = (pending, w)
  pop (v ∷ queue) w = (ready (some v), record w { queue = queue })

abbrev one_channel : (T : Type 0) → TokioSync T
one_channel T = record {
  World = OneChannel T;
  MpscSender = Unit;
  MpscReceiver = Unit;
  OneshotSender = Unit;
  OneshotReceiver = Unit;
  mpsc_channel = λ n w. (tt, tt, record w { capacity = n; queue = []; closed = false });
  mpsc_send = λ tx v w. push v w;
  poll_recv = λ rx w. pop w.queue w;
  drop_mpsc_receiver = λ rx w. record w { closed = true };
  oneshot_channel = λ w. (tt, tt, record w { fired = false });
  oneshot_send = λ tx w. (ok tt, record w { fired = true });
  poll_oneshot = λ rx w. fires w.fired;
}

push_closed :
    {T : Type 0} → (v : T) (w : OneChannel T) → w.closed ≡ true → (push v w).0 ≡ ready (err v)
push_closed v w e = rw e refl

push_stays_closed :
    {T : Type 0} → (v : T) (w : OneChannel T) → w.closed ≡ true → (push v w).1.closed ≡ true
push_stays_closed v w e = rw e refl

fired-push : {T : Type 0} → (v : T) (w : OneChannel T) → (push v w).1.fired ≡ w.fired
fired-push v w = ground arith

fired-pop : {T : Type 0} → (queue : List T) (w : OneChannel T) → (pop queue w).1.fired ≡ w.fired
fired-pop [] w = refl
fired-pop (v ∷ queue) w = refl

one_channel-Laws : (T : Type 0) → Laws (one_channel T)
one_channel-Laws T = record {
  sender_of = λ rx. tt;
  receiver_of = λ tx. tt;
  mpsc_channel-ends = λ n w. refl;
  oneshot_channel-ends = λ w. refl;
  IsClosed = λ tx w. w.closed ≡ true;
  drop-IsClosed = λ rx w. refl;
  send_closed = λ tx v w. push_closed v w;
  send-IsClosed = λ tx v w. push_stays_closed v w;
  oneshot_channel_waits = λ w. refl;
  oneshot_send_fires = λ tx w e. refl;
  poll_oneshot-send = λ r tx v w. ap fires (fired-push v w);
  poll_oneshot-recv = λ r rx w. ap fires (fired-pop w.queue w);
  poll_oneshot-drop = λ r rx w. refl;
}

abbrev sync : TokioSync (RpcResult Event)
sync = one_channel (RpcResult Event)

abbrev plugin : WrappedChannelReceiver sync
plugin = record { inner = tt; oneshot = some tt }

abbrev task : WrappedChannelSender sync
task = record { inner = tt }

abbrev quiet : OneChannel (RpcResult Event)
quiet = record { capacity = 0; queue = []; closed = true; fired = true }

abbrev opened : OneChannel (RpcResult Event)
opened = record { capacity = 10; queue = []; closed = false; fired = false }

abbrev event : RpcResult Event
event = ok (record { inner = none; tags = [] })

abbrev received : OneChannel (RpcResult Event)
received = (poll_next sync plugin (send sync task event opened).1).1

before_drop : Uses sync (one_channel-Laws (RpcResult Event)) true task plugin tt opened received
before_drop = polls (sends unused event) refl

abbrev gone : OneChannel (RpcResult Event)
gone = (send sync task event (drop_receiver sync plugin received)).1

after_drop :
    Uses sync
      (one_channel-Laws (RpcResult Event))
      false
      task
      plugin
      tt
      (drop_receiver sync plugin received)
      gone
after_drop = sends unused event

opens_channel : channel sync 10 quiet ≡ ((task, plugin, tt), opened)
unfolding channel
opens_channel = refl

notice_of_drop_example :
    (fires received.fired ≡ pending)
    × (fires gone.fired ≡ ready (some tt))
    × ((v : RpcResult Event) → (send sync task v gone).0 ≡ ready (err v))
notice_of_drop_example =
    notice_of_drop sync (one_channel-Laws (RpcResult Event)) 10 quiet opened received gone task
      plugin tt opens_channel before_drop after_drop

select-drop_receiver_example :
    (x : Selected) × (r : RpcResult (Unit {0})) × ((select_next sync
        (text "channel closed")
        pending
        task
        tt
        gone).0
      ≡ ready x)
    × (stream_turn x ≡ returned r)
select-drop_receiver_example =
    select-drop_receiver sync (one_channel-Laws (RpcResult Event)) 10 quiet opened received gone
      task plugin tt opens_channel before_drop after_drop (text "channel closed") pending
