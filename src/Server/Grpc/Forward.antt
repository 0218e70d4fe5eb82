-- ===== src/Server/Grpc/Forward.antt =====
-- What the task of `stream_events` in src/server/grpc.rs sends to its plugin, and how it ends.
use seabird_core.Prelude.{List, [], ◌∷◌, ◌++◌, map, ok, err, Status}
use seabird_core.Proto.{Event}
use seabird_core.Server.Grpc.Stream.{
  Selected, forwarded, unsent, lagged, broadcast_ended, disconnected, Stream, looping, returned,
  stream_turn, stream_loop,
}

-- A failed send, a lag, or the end of the broadcast.
abbrev pub IsFailure : Selected → Type 0
IsFailure (forwarded event) = ⊥
IsFailure disconnected = ⊥
IsFailure _ = Unit

-- The loop over what is selected, against the events sent and the state of the task.
pub data Forwards : List Selected → List Event × Stream → Type 0 where
  goes_on : (events : List Event) → Forwards (map Selected.forwarded events) (events, looping)
  leaves :
      (events : List Event) (rest : List Selected)
      → Forwards (map Selected.forwarded events ++ disconnected ∷ rest) (events, returned (ok tt))
  fails :
      (events : List Event) (x : Selected) (rest : List Selected) (e : Status)
      → IsFailure x
      → Forwards (map Selected.forwarded events ++ x ∷ rest) (events, returned (err e))

one_more :
    (event : Event) (xs : List Selected) (r : List Event × Stream)
    → Forwards xs r
    → Forwards (forwarded event ∷ xs) (event ∷ r.0, r.1)
one_more event xs r (goes_on events) = goes_on (event ∷ events)
one_more event xs r (leaves events rest) = leaves (event ∷ events) rest
one_more event xs r (fails events x rest e f) = fails (event ∷ events) x rest e f

-- A plugin is sent the events that are selected, each once and in order, up to the first other thing:
-- at the plugin's disconnection the task ends well, at a failed send, a lag or the end of the
-- broadcast with an error, and nothing after is sent; and until then the task goes on.
pub stream_loop-Forwards : (xs : List Selected) → Forwards xs (stream_loop xs)
unfolding stream_loop stream_turn
stream_loop-Forwards [] = goes_on []
stream_loop-Forwards (forwarded event ∷ xs) =
    one_more event xs (stream_loop xs) (stream_loop-Forwards xs)
stream_loop-Forwards (unsent event why ∷ xs) = fails [] _ xs _ tt
stream_loop-Forwards (lagged why ∷ xs) = fails [] _ xs _ tt
stream_loop-Forwards (broadcast_ended ∷ xs) = fails [] _ xs _ tt
stream_loop-Forwards (disconnected ∷ xs) = leaves [] xs
