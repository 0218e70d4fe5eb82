-- ===== src/Wrapped.antt =====
-- src/wrapped.rs: an mpsc channel with a oneshot channel that fires when the receiver is dropped.
pub mod Tokio
pub mod Notice
use seabird_core.Prelude.{ℕ, Option, none, some, Result}
use Tokio.{TokioSync, Poll}

module _ {T : Type 0} (k : TokioSync T) where
  open k use {
    World, MpscSender, MpscReceiver, OneshotSender, OneshotReceiver, mpsc_channel, mpsc_send,
    poll_recv, drop_mpsc_receiver, oneshot_channel, oneshot_send,
  }

  pub record WrappedChannelSender : Type 0 where
    pub inner : MpscSender

  pub record WrappedChannelReceiver : Type 0 where
    pub inner : MpscReceiver
    pub oneshot : Option OneshotSender

  unfoldable pub channel :
      ℕ → World → (WrappedChannelSender × WrappedChannelReceiver × OneshotReceiver) × World
  channel buffer_size w =
      let (sender, receiver, w₁) = mpsc_channel buffer_size w in
      let (oneshot_sender, oneshot_receiver, w₂) = oneshot_channel w₁ in
      (
        (
          record { inner = sender },
          record { inner = receiver; oneshot = some oneshot_sender },
          oneshot_receiver,
        ),
        w₂,
      )

  unfoldable pub send : WrappedChannelSender → T → World → Poll (Result T (Unit {0})) × World
  send s value w = mpsc_send s.inner value w

  unfoldable pub poll_next : WrappedChannelReceiver → World → Poll (Option T) × World
  poll_next r w = poll_recv r.inner w

  -- `self.oneshot.take()` and the send; a failure is only logged.
  unfoldable pub notify : Option OneshotSender → World → World
  notify (some oneshot) w = (oneshot_send oneshot w).1
  notify none w = w

  -- `Drop` for the receiver, after which its fields are dropped.
  unfoldable pub drop_receiver : WrappedChannelReceiver → World → World
  unfolding notify
  drop_receiver r w = drop_mpsc_receiver r.inner (notify r.oneshot w)
