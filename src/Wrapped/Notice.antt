-- ===== src/Wrapped/Notice.antt =====
-- When the oneshot channel of src/wrapped.rs fires.
use seabird_core.Prelude.{ℕ, ◌≡◌, refl, ap, ◌∙◌, Bool, true, false, some, err}
use seabird_core.Wrapped.Tokio.{TokioSync, Laws, pending, ready}
use seabird_core.Wrapped.{
  WrappedChannelSender, WrappedChannelReceiver, channel, send, poll_next, drop_receiver, notify,
}

module _ {T : Type 0} (k : TokioSync T) (laws : Laws k) where
  open k use {World, OneshotReceiver, poll_oneshot}

  -- What may happen while the channel is in use: a send, a poll by its receiver as long as there is
  -- one, and whatever is done on other channels.
  pub data Uses (alive : Bool) (tx : WrappedChannelSender k) (rx : WrappedChannelReceiver k)
      (notifier : OneshotReceiver) (w : World) : World → Type 0 where
    unused : Uses alive tx rx notifier w w
    sends :
        {v : World}
        → Uses alive tx rx notifier w v
        → (value : T) → Uses alive tx rx notifier w (send k tx value v).1
    polls :
        {v : World}
        → Uses alive tx rx notifier w v
        → alive ≡ true
        → Uses alive tx rx notifier w (poll_next k rx v).1
    elsewhere :
        {v u : World}
        → Uses alive tx rx notifier w v
        → poll_oneshot notifier u ≡ poll_oneshot notifier v
        → (laws.IsClosed tx.inner v → laws.IsClosed tx.inner u)
        → Uses alive tx rx notifier w u

  module _ (tx : WrappedChannelSender k) (rx : WrappedChannelReceiver k)
      (notifier : OneshotReceiver) where
    poll_oneshot-Uses :
        (alive : Bool) (w w' : World)
        → Uses alive tx rx notifier w w'
        → poll_oneshot notifier w' ≡ poll_oneshot notifier w
    unfolding send poll_next
    poll_oneshot-Uses alive w w' unused = refl
    poll_oneshot-Uses alive w w' (sends {v = v} u value) =
        laws.poll_oneshot-send notifier tx.inner value v ∙ poll_oneshot-Uses alive w v u
    poll_oneshot-Uses alive w w' (polls {v = v} u e) =
        laws.poll_oneshot-recv notifier rx.inner v ∙ poll_oneshot-Uses alive w v u
    poll_oneshot-Uses alive w w' (elsewhere {v = v} u e c) = e ∙ poll_oneshot-Uses alive w v u

    Uses-IsClosed :
        (w w' : World)
        → Uses false tx rx notifier w w'
        → laws.IsClosed tx.inner w
        → laws.IsClosed tx.inner w'
    unfolding send
    Uses-IsClosed w w' unused c = c
    Uses-IsClosed w w' (sends {v = v} u value) c =
        laws.send-IsClosed tx.inner value v (Uses-IsClosed w v u c)
    Uses-IsClosed w w' (polls u e) c = cc
    Uses-IsClosed w w' (elsewhere {v = v} u e keeps) c = keeps (Uses-IsClosed w v u c)

  -- How the channel stands before its receiver is dropped, and after.
  pub record IsConnected (tx : WrappedChannelSender k) (rx : WrappedChannelReceiver k)
      (notifier : OneshotReceiver) (w : World) : Type 0 where
    pub waits : poll_oneshot notifier w ≡ pending
    pub ends : laws.sender_of rx.inner ≡ tx.inner
    pub oneshot : k.OneshotSender
    pub armed : rx.oneshot ≡ some oneshot
    pub pair : laws.receiver_of oneshot ≡ notifier

  pub record IsDisconnected (tx : WrappedChannelSender k) (notifier : OneshotReceiver) (w : World)
      : Type 0 where
    pub fired : poll_oneshot notifier w ≡ ready (some tt)
    pub closed : laws.IsClosed tx.inner w

  channel-IsConnected :
      (n : ℕ) (w w₀ : World) (tx : WrappedChannelSender k) (rx : WrappedChannelReceiver k)
      (notifier : OneshotReceiver)
      → channel k n w ≡ ((tx, rx, notifier), w₀)
      → IsConnected tx rx notifier w₀
  unfolding channel
  channel-IsConnected n w w₀ tx rx notifier e =
      let w₁ = (k.mpsc_channel n w).2 in
      record {
        waits = cc (e, laws.oneshot_channel_waits w₁);
        ends = cc (e, laws.mpsc_channel-ends n w);
        oneshot = (k.oneshot_channel w₁).0;
        armed = cc e;
        pair = cc (e, laws.oneshot_channel-ends w₁);
      }

  pub Uses-IsConnected :
      (alive : Bool) (tx : WrappedChannelSender k) (rx : WrappedChannelReceiver k)
      (notifier : OneshotReceiver) (w w' : World)
      → IsConnected tx rx notifier w
      → Uses alive tx rx notifier w w'
      → IsConnected tx rx notifier w'
  Uses-IsConnected alive tx rx notifier w w' c u = record {
    waits = poll_oneshot-Uses tx rx notifier alive w w' u ∙ c.waits;
    ends = c.ends;
    oneshot = c.oneshot;
    armed = c.armed;
    pair = c.pair;
  }

  pub drop-IsDisconnected :
      (tx : WrappedChannelSender k) (rx : WrappedChannelReceiver k) (notifier : OneshotReceiver)
      (w : World)
      → IsConnected tx rx notifier w
      → IsDisconnected tx notifier (drop_receiver k rx w)
  unfolding drop_receiver notify
  drop-IsDisconnected tx rx notifier w c =
      let fires =
        laws.oneshot_send_fires c.oneshot w (ap (λ r. poll_oneshot r w) c.pair ∙ c.waits) in
      record {
        fired =
            rw (c.armed, laws.poll_oneshot-drop notifier rx.inner (k.oneshot_send c.oneshot w).1)
              (rw c.pair at fires);
        closed = rw c.ends at (laws.drop-IsClosed rx.inner (notify k rx.oneshot w));
      }

  pub Uses-IsDisconnected :
      (tx : WrappedChannelSender k) (rx : WrappedChannelReceiver k) (notifier : OneshotReceiver)
      (w w' : World)
      → IsDisconnected tx notifier w
      → Uses false tx rx notifier w w'
      → IsDisconnected tx notifier w'
  Uses-IsDisconnected tx rx notifier w w' d u = record {
    fired = poll_oneshot-Uses tx rx notifier false w w' u ∙ d.fired;
    closed = Uses-IsClosed tx rx notifier w w' u d.closed;
  }

  -- The oneshot channel of a wrapped channel fires when the receiver is dropped, and not before.
  -- Whatever is sent and received from its creation on, and whatever is done on other channels, it
  -- waits while there is a receiver; once the receiver is dropped it has fired and stays so, and
  -- every send gives its value back.
  pub notice_of_drop :
      (n : ℕ) (w w₀ used later : World) (tx : WrappedChannelSender k)
      (rx : WrappedChannelReceiver k) (notifier : OneshotReceiver)
      → channel k n w ≡ ((tx, rx, notifier), w₀)
      → Uses true tx rx notifier w₀ used
      → Uses false tx rx notifier (drop_receiver k rx used) later
      → (poll_oneshot notifier used ≡ pending)
        × (poll_oneshot notifier later ≡ ready (some tt))
        × ((v : T) → (send k tx v later).0 ≡ ready (err v))
  unfolding send
  notice_of_drop n w w₀ used later tx rx notifier e before after =
      let c =
        Uses-IsConnected true tx rx notifier w₀ used (channel-IsConnected n w w₀ tx rx notifier e)
          before in
      let d =
        Uses-IsDisconnected tx rx notifier (drop_receiver k rx used) later
          (drop-IsDisconnected tx rx notifier used c) after in
      (c.waits, d.fired, λ v. laws.send_closed tx.inner v later d.closed)
