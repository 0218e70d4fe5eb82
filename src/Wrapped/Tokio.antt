-- ===== src/Wrapped/Tokio.antt =====
-- The channels of the crate tokio, as src/wrapped.rs uses them: mpsc channels of a bounded size, and
-- oneshot channels that carry nothing but the fact that they fire. They are a parameter; the laws are
-- what tokio documents of a channel whose receiver is dropped, and of a oneshot channel.
use seabird_core.Prelude.{
  ℕ, ◌≡◌, ◌<◌, Option, none, some, List, [], ◌∷◌, ◌++◌, length, Result, ok, err,
}

pub data Poll {ℓ} (A : Type ℓ) : Type ℓ where
  pending : Poll A
  ready : A → Poll A

-- `World` is the state of all channels. `mpsc_send` polls the send of a value, which waits for room
-- and gives the value back when it fails; `poll_oneshot` is what the await of a oneshot's receiver
-- would see, which is `none` when its sender was dropped.
pub record TokioSync (T : Type 0) : Type 1 where
  pub World : Type 0
  pub MpscSender : Type 0
  pub MpscReceiver : Type 0
  pub OneshotSender : Type 0
  pub OneshotReceiver : Type 0
  pub mpsc_channel : ℕ → World → MpscSender × MpscReceiver × World
  pub mpsc_send : MpscSender → T → World → Poll (Result T (Unit {0})) × World
  pub poll_recv : MpscReceiver → World → Poll (Option T) × World
  pub drop_mpsc_receiver : MpscReceiver → World → World
  pub oneshot_channel : World → OneshotSender × OneshotReceiver × World
  pub oneshot_send : OneshotSender → World → Result (Unit {0}) (Unit {0}) × World
  pub poll_oneshot : OneshotReceiver → World → Poll (Option (Unit {0}))

pub record Laws {T : Type 0} (k : TokioSync T) : Type 1 where
  -- The other end of a channel.
  pub sender_of : k.MpscReceiver → k.MpscSender
  pub receiver_of : k.OneshotSender → k.OneshotReceiver
  pub mpsc_channel-ends :
      (n : ℕ) (w : k.World) → let (tx, rx, w') = k.mpsc_channel n w in sender_of rx ≡ tx
  pub oneshot_channel-ends :
      (w : k.World) → let (tx, rx, w') = k.oneshot_channel w in receiver_of tx ≡ rx
  -- A send on a channel fails once its receiver is dropped, and from then on.
  pub IsClosed : k.MpscSender → k.World → Type 0
  pub drop-IsClosed :
      (rx : k.MpscReceiver) (w : k.World) → IsClosed (sender_of rx) (k.drop_mpsc_receiver rx w)
  pub send_closed :
      (tx : k.MpscSender) (v : T) (w : k.World)
      → IsClosed tx w
      → (k.mpsc_send tx v w).0 ≡ ready (err v)
  pub send-IsClosed :
      (tx : k.MpscSender) (v : T) (w : k.World) → IsClosed tx w → IsClosed tx (k.mpsc_send tx v w).1
  -- A oneshot fires when it is sent on, and no operation on an mpsc channel makes it fire.
  pub oneshot_channel_waits :
      (w : k.World) → let (tx, rx, w') = k.oneshot_channel w in k.poll_oneshot rx w' ≡ pending
  pub oneshot_send_fires :
      (tx : k.OneshotSender) (w : k.World)
      → k.poll_oneshot (receiver_of tx) w ≡ pending
      → k.poll_oneshot (receiver_of tx) (k.oneshot_send tx w).1 ≡ ready (some tt)
  pub poll_oneshot-send :
      (r : k.OneshotReceiver) (tx : k.MpscSender) (v : T) (w : k.World)
      → k.poll_oneshot r (k.mpsc_send tx v w).1 ≡ k.poll_oneshot r w
  pub poll_oneshot-recv :
      (r : k.OneshotReceiver) (rx : k.MpscReceiver) (w : k.World)
      → k.poll_oneshot r (k.poll_recv rx w).1 ≡ k.poll_oneshot r w
  pub poll_oneshot-drop :
      (r : k.OneshotReceiver) (rx : k.MpscReceiver) (w : k.World)
      → k.poll_oneshot r (k.drop_mpsc_receiver rx w) ≡ k.poll_oneshot r w

-- How a poll of a receiver leaves what is buffered. It may be pending for no reason.
abbrev pub Received {ℓ} : {A : Type ℓ} → List A → Poll (Option A) → List A → Type ℓ
Received before pending after = after ≡ before
Received before (ready none) after = (before ≡ []) × (after ≡ [])
Received before (ready (some v)) after = before ≡ v ∷ after

-- How a poll of a send does: the value joins the others if there is room, or nothing changes.
abbrev pub Sent {ℓ} : {A : Type ℓ} → ℕ → A → List A → Poll (Result A (Unit {0})) → List A → Type ℓ
Sent n v before (ready (ok t)) after = (length before < n) × (after ≡ before ++ v ∷ [])
Sent n v before _ after = after ≡ before

-- An mpsc channel is a queue of at most as many values as it was made for.
pub record Fifo {T : Type 0} (k : TokioSync T) : Type 1 where
  -- What is buffered for a receiver, and how much may be.
  pub buffered : k.MpscReceiver → k.World → List T
  pub capacity : k.MpscReceiver → ℕ
  pub other_end : k.MpscReceiver → k.MpscSender
  pub channel-ends :
      (n : ℕ) (w : k.World) → let (tx, rx, w') = k.mpsc_channel n w in other_end rx ≡ tx
  pub channel-capacity :
      (n : ℕ) (w : k.World) → let (tx, rx, w') = k.mpsc_channel n w in capacity rx ≡ n
  pub channel-empty :
      (n : ℕ) (w : k.World) → let (tx, rx, w') = k.mpsc_channel n w in buffered rx w' ≡ []
  pub send-Sent :
      (rx : k.MpscReceiver) (v : T) (w : k.World)
      → let (r, w') = k.mpsc_send (other_end rx) v w in
        Sent (capacity rx) v (buffered rx w) r (buffered rx w')
  pub recv-Received :
      (rx : k.MpscReceiver) (w : k.World)
      → let (r, w') = k.poll_recv rx w in Received (buffered rx w) r (buffered rx w')
