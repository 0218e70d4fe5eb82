-- ===== src/Server/Ingest/Channels.antt =====
-- The channels of a backend under the events of src/server/ingest_events.rs: each is kept under its
-- own identifier, and the identifiers are in order.
use mathlib.Core.List.{Mem, not-mem-nil, mem-cons}
use mathlib.Core.Logic.Or
use Prim.Native.Nat.Ordering.{lt}
use seabird_core.Prelude.{
  ◌≡◌, refl, Text, Option, none, some, List, [], ◌∷◌, Entries, keys, values, get, insert, remove,
  get-insert, get-remove, text_ord, same_key, same_key-eq, same_key_refl, if◌then◌else◌, arith,
  IsIncreasing, keys-insert-IsIncreasing, keys-remove-IsIncreasing, Above, Option-cases, Bool-cases,
  inl, inr,
}
use seabird_core.Proto.{Channel, ChannelEvent, ChatEventInner}
use seabird_core.Server.Ingest.{apply_channel, change_at}

abbrev pub IsKeyed : Entries Text Channel → Type 0
IsKeyed [] = Unit
IsKeyed ((k, c) ∷ m) = (c.id ≡ k) × IsKeyed m

-- What holds of the channels of each backend.
pub record IsTable (m : Entries Text Channel) : Type 0 where
  pub keyed : IsKeyed m
  pub sorted : IsIncreasing (keys m)

IsKeyed-insert :
    (k : Text) (c : Channel) (m : Entries Text Channel)
    → c.id ≡ k
    → IsKeyed m
    → IsKeyed (insert k c m)
unfolding insert
IsKeyed-insert k c [] e h = (e, tt)
IsKeyed-insert k c ((j, d) ∷ m) e h = ground (arith, IsKeyed-insert k c m e h.1)

IsKeyed-remove : (k : Text) (m : Entries Text Channel) → IsKeyed m → IsKeyed (remove k m)
unfolding remove
IsKeyed-remove k [] h = tt
IsKeyed-remove k ((j, d) ∷ m) h = ground (arith, IsKeyed-remove k m h.1)

pub IsKeyed-get :
    (k : Text) (c : Channel) (m : Entries Text Channel) → IsKeyed m → get k m ≡ some c → c.id ≡ k
unfolding get
IsKeyed-get k c [] h e = cc
IsKeyed-get k c ((j, d) ∷ m) h e = ground (arith, text_ord.same k j, IsKeyed-get k c m h.1)

-- Every event keeps each channel under its own identifier, and the identifiers in order.
pub apply_channel-IsTable :
    (e : ChatEventInner) (m : Entries Text Channel) → IsTable m → IsTable (apply_channel e m)
unfolding apply_channel
apply_channel-IsTable (ChatEventInner.join_channel e) m h = record {
  keyed = IsKeyed-insert e.channel_id _ m refl h.keyed;
  sorted = keys-insert-IsIncreasing e.channel_id _ m h.sorted;
}
apply_channel-IsTable (ChatEventInner.leave_channel id) m h = record {
  keyed = IsKeyed-remove id m h.keyed;
  sorted = keys-remove-IsIncreasing id m h.sorted;
}
apply_channel-IsTable (ChatEventInner.change_channel e) m h =
    elim (Option-cases (get e.channel_id m)) [
      | inl absent ↦ rw (absent, apply_channel) h
      | inr (c, found) ↦
          rw (found, apply_channel)
            (record {
              keyed =
                  IsKeyed-insert e.channel_id _ m (IsKeyed-get e.channel_id c m h.keyed found)
                    h.keyed;
              sorted = keys-insert-IsIncreasing e.channel_id _ m h.sorted;
            })
    ]
apply_channel-IsTable _ m h = h

-- The channels after a series of events, oldest first.
abbrev pub apply_channels : List ChatEventInner → Entries Text Channel → Entries Text Channel
apply_channels [] m = m
apply_channels (e ∷ es) m = apply_channels es (apply_channel e m)

-- Whatever a backend reports, in any number of events: if its channels were kept each under its own
-- identifier, with the identifiers in order, then they still are.
pub apply_channels-IsTable :
    (es : List ChatEventInner) (m : Entries Text Channel)
    → IsTable m
    → IsTable (apply_channels es m)
apply_channels-IsTable [] m h = h
apply_channels-IsTable (e ∷ es) m h =
    apply_channels-IsTable es (apply_channel e m) (apply_channel-IsTable e m h)

-- What an event makes of the channel `k`, by what was known of it.
abbrev pub channel_after : ChatEventInner → Text → Option Channel → Option Channel
channel_after (ChatEventInner.join_channel e) k known =
    if same_key k e.channel_id
    then some (record { id = e.channel_id; display_name = e.display_name; topic = e.topic })
    else known
channel_after (ChatEventInner.leave_channel id) k known = if same_key k id then none else known
channel_after (ChatEventInner.change_channel e) k none = none
channel_after (ChatEventInner.change_channel e) k (some c) =
    if same_key k e.channel_id
    then some (record { id = c.id; display_name = e.display_name; topic = e.topic })
    else some c
channel_after _ k known = known

get-change_at :
    (e : ChannelEvent) (k : Text) (m : Entries Text Channel) (o : Option Channel)
    → get e.channel_id m ≡ o
    → (known : Option Channel) → get k m ≡ known
    → get k (change_at e o m) ≡ channel_after (ChatEventInner.change_channel e) k known
unfolding change_at
get-change_at e k m none h none g = g
get-change_at e k m none h (some c) g = ground (arith, text_ord.same k e.channel_id)
get-change_at e k m (some d) h none g = ground (
  arith,
  text_ord.same k e.channel_id,
  get-insert e.channel_id k (record d { display_name = e.display_name; topic = e.topic }) m,
)
get-change_at e k m (some d) h (some c) g = ground (
  arith,
  text_ord.same k e.channel_id,
  get-insert e.channel_id k (record d { display_name = e.display_name; topic = e.topic }) m,
)

-- A join makes its channel known as it says, over what was known; a leave makes it unknown; a change
-- gives a known channel its name and topic, and makes no unknown channel known; and no event touches
-- another channel.
pub get-apply_channel :
    (e : ChatEventInner) (k : Text) (m : Entries Text Channel)
    → get k (apply_channel e m) ≡ channel_after e k (get k m)
unfolding apply_channel
get-apply_channel (ChatEventInner.join_channel e) k m = get-insert e.channel_id k _ m
get-apply_channel (ChatEventInner.leave_channel id) k m = get-remove id k m
get-apply_channel (ChatEventInner.change_channel e) k m =
    get-change_at e k m (get e.channel_id m) refl (get k m) refl
get-apply_channel _ k m = refl

Above-get :
    (k j : Text) (c : Channel) (m : Entries Text Channel)
    → Above k (keys m)
    → get j m ≡ some c
    → text_ord.cmp k j ≡ lt
unfolding get
Above-get k j c [] h e = cc
Above-get k j c ((i, d) ∷ m) h e = elim (Bool-cases (same_key j i)) [
  | inl p ↦ rw (same_key-eq j i p) h.0
  | inr p ↦ Above-get k j c m h.1 (ground (arith, p))
]

Channel-set : IsSet (Option Channel)
Channel-set = hlevel

-- A listed channel is found under its identifier.
pub get_listed :
    (c : Channel) (m : Entries Text Channel) → IsTable m → Mem c (values m) → get c.id m ≡ some c
unfolding get
get_listed c [] h l = absurd (not-mem-nil l)
get_listed c ((k, d) ∷ m) h l =
    Or.elim (Channel-set _ _) (mem-cons.0 l) first
      (λ l. later (get_listed c m (record { keyed = h.keyed.1; sorted = h.sorted.1 }) l))
  where
    first : c ≡ d → get c.id ((k, d) ∷ m) ≡ some c
    first e = rw e (rw (h.keyed.0, same_key_refl k) refl)

    later : get c.id m ≡ some c → get c.id ((k, d) ∷ m) ≡ some c
    later found =
        let below = Above-get k c.id c m h.sorted.0 found in
        ground (arith, found, below, text_ord.same c.id k, text_ord.reflexive k)
