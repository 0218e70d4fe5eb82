-- ===== src/Server/Grpc/Select.antt =====
-- The `select` in the task of `stream_events` in src/server/grpc.rs, over the wrapped channel to the
-- plugin.
use seabird_core.Prelude.{
  ap, true, false, Text, ◌≡◌, refl, Option, none, some, Result, ok, err, RpcResult, ℕ,
}
use seabird_core.Proto.{Event}
use seabird_core.Wrapped.Tokio.{TokioSync, Laws, Poll, pending, ready}
use seabird_core.Wrapped.{
  WrappedChannelSender, WrappedChannelReceiver, channel, send, drop_receiver,
}
use seabird_core.Wrapped.Notice.{Uses, notice_of_drop}
use seabird_core.Server.Grpc.Stream.{
  Selected, forwarded, unsent, lagged, broadcast_ended, disconnected, stream_turn, returned,
}

-- How the send of an event ends; `why` is how its error reads.
abbrev pub sent_event : Text → Event → Poll (Result (RpcResult Event) (Unit {0})) → Poll Selected
sent_event why event pending = pending
sent_event why event (ready (ok t)) = ready (forwarded event)
sent_event why event (ready (err v)) = ready (unsent event why)

abbrev pub noticed : Poll (Option (Unit {0})) → Poll Selected
noticed pending = pending
noticed (ready t) = ready disconnected

-- `events` is what the broadcast stream yields, an error being a lag. It is asked first, and the
-- notifier only while it has nothing.
unfoldable pub select_next :
    (k : TokioSync (RpcResult Event))
    → Text
    → Poll (Option (Result Text Event))
    → WrappedChannelSender k
    → k.OneshotReceiver
    → k.World
    → Poll Selected × k.World
select_next k why (ready (some (ok event))) sender notifier w =
    let (sent, w') = send k sender (ok event) w in (sent_event why event sent, w')
select_next k why (ready (some (err lag))) sender notifier w = (ready (lagged lag), w)
select_next k why (ready none) sender notifier w = (ready broadcast_ended, w)
select_next k why pending sender notifier w = (noticed (k.poll_oneshot notifier w), w)

-- A plugin that is gone is noticed at once: when the client has dropped its end of the channel,
-- whatever was sent and received before and since, the next turn of the task does not wait, whether
-- there is an event to forward, a lag, the end of the broadcast or nothing, and the task returns.
pub select-drop_receiver :
    (k : TokioSync (RpcResult Event)) (laws : Laws k) (n : ℕ) (w w₀ used later : k.World)
    (tx : WrappedChannelSender k) (rx : WrappedChannelReceiver k) (notifier : k.OneshotReceiver)
    → channel k n w ≡ ((tx, rx, notifier), w₀)
    → Uses k laws true tx rx notifier w₀ used
    → Uses k laws false tx rx notifier (drop_receiver k rx used) later
    → (why : Text) (events : Poll (Option (Result Text Event)))
    → (x : Selected) × (r : RpcResult (Unit {0})) × ((select_next k why events tx notifier later).0
        ≡ ready x)
      × (stream_turn x ≡ returned r)
unfolding select_next stream_turn
select-drop_receiver k laws n w w₀ used later tx rx notifier e before after why
      (ready (some (ok event))) =
    let (waits, fired, back) =
      notice_of_drop k laws n w w₀ used later tx rx notifier e before after in
    (unsent event why, _, ap (sent_event why event) (back (ok event)), refl)
select-drop_receiver k laws n w w₀ used later tx rx notifier e before after why
      (ready (some (err lag))) =
    (lagged lag, _, refl, refl)
select-drop_receiver k laws n w w₀ used later tx rx notifier e before after why (ready none) =
    (broadcast_ended, _, refl, refl)
select-drop_receiver k laws n w w₀ used later tx rx notifier e before after why pending =
    let (waits, fired, back) =
      notice_of_drop k laws n w w₀ used later tx rx notifier e before after in
    (disconnected, _, ap noticed fired, refl)
