-- ===== src/Server/Grpc/Routing.antt =====
-- The identifiers that src/server publishes lead back to where they come from: those of events and
-- those of listed channels.
use mathlib.Core.List.{Mem}
use mathlib.Core.Option
use seabird_core.Prelude.{
  refl, keys, Option-cases, inl, inr, contains_key-mem, contains_key-get, ℕ, ◌≡◌, refl, Text, text,
  none, some, RpcResult, map, ok, Option, lift, ◌>>=◌, arith, get, values, text_ord,
}
use seabird_core.Id.{BackendId, backend_id_ord, relative, into_inner, show_full_id, show_backend_id}
use seabird_core.Id.Percent.{PercentEncoding, Laws}
use seabird_core.Id.RoundTrip.{parse_full_id-show, parse_backend_id-show}
use seabird_core.Block.Message.{Tags}
use seabird_core.Proto.{
  ChannelSource, User, Channel, ChatRequestInner, source_into_relative, user_into_relative,
}
use seabird_core.Server.State.{Server}
use seabird_core.Server.Requests.{Wait, issue_request}
use seabird_core.Server.Ingest.Channels.{IsTable, get_listed}
use seabird_core.Server.Grpc.{full_id_of, backend_id_of, leave_channel, reply_leave}
use seabird_core.Server.Grpc.Queries.{
  list_backends, backend_response, list_channels, get_channel_info, channel_response, channels_of,
}

-- What a handler reads of a user's identifier, and the user's display name.
abbrev pub ReadUser : Type 0
ReadUser = RpcResult (BackendId × Text) × Text

module _ (p : PercentEncoding) (laws : Laws p) where
  pub full_id_of-show :
      (complaint : Text) (b : BackendId) (path : Text)
      → full_id_of p complaint (show_full_id p (relative b path)) ≡ ok (b, path)
  unfolding full_id_of into_inner relative
  full_id_of-show complaint b path =
      ground (arith, parse_full_id-show p laws (record { backend = b; path = path }))

  -- The channel of an event that backend `b` sent, the user of that channel's source if it has one,
  -- and the user of a private event, are published under identifiers that every handler reads as
  -- backend `b` with the channel and the user as `b` named them; and users keep their display names.
  pub published_ids_lead_back :
      (complaint : Text) (b : BackendId) (source : ChannelSource) (user : User)
      → (full_id_of p complaint (source_into_relative p source b).channel_id
          ≡ ok (b, source.channel_id))
        × (Option.map {B = ReadUser}
              (λ u. (full_id_of p complaint u.id, u.display_name))
              (source_into_relative p source b).user
            ≡ Option.map {B = ReadUser} (λ u. (ok (b, u.id), u.display_name)) source.user)
        × (full_id_of p complaint (user_into_relative p user b).id ≡ ok (b, user.id))
        × ((user_into_relative p user b).display_name ≡ user.display_name)
  unfolding source_into_relative user_into_relative
  published_ids_lead_back complaint b source user = (
    full_id_of-show complaint b source.channel_id,
    users source.user,
    full_id_of-show complaint b user.id,
    refl,
  )
    where
      users :
          (o : Option User)
          → Option.map {B = ReadUser}
              (λ u. (full_id_of p complaint u.id, u.display_name))
              (Option.map (λ u. user_into_relative p u b) o)
            ≡ Option.map {B = ReadUser} (λ u. (ok (b, u.id), u.display_name)) o
      users none = refl
      users (some u) = rw (full_id_of-show complaint b u.id) refl

  -- A plugin that leaves the channel of an event asks the backend that the event came from to leave
  -- the channel under the backend's own name for it.
  pub leave_channel-published :
      (w : Wait) (b : BackendId) (source : ChannelSource) (tags : Tags) (s : Server)
      → leave_channel p w
          (record { channel_id = (source_into_relative p source b).channel_id; tags = tags })
          s
        ≡ (issue_request w b (ChatRequestInner.leave_channel source.channel_id tags) >>= λ resp.
              lift (reply_leave resp))
            s
  unfolding leave_channel source_into_relative
  leave_channel-published w b source tags s =
      rw (full_id_of-show (text "failed to parse channel_id") b source.channel_id, leave_channel)
        refl

  -- Of a registered backend whose channels are each kept under its own identifier, in order:
  -- `list_channels` lists all its channels, each is what `get_channel_info` returns for its
  -- identifier, and neither changes the server. (`s.arcs a` is what the backend's entry points to.)
  pub get_channel_info-list_channels :
      (b : BackendId) (a : ℕ) (c : Channel) (s : Server)
      → get b s.backends ≡ some a
      → IsTable (s.arcs a).channels
      → Mem c (values (s.arcs a).channels)
      → (list_channels p (show_backend_id p b) s
          ≡ (ok (map (channel_response p b) (values (s.arcs a).channels)), s))
        × (get_channel_info p (channel_response p b c).id s ≡ (ok (channel_response p b c), s))
  unfolding list_channels get_channel_info channels_of backend_id_of channel_response
  get_channel_info-list_channels b a c s e t l = (
    ground (arith, e, parse_backend_id-show p laws b),
    ground (
      arith,
      e,
      full_id_of-show (text "failed to parse channel_id") b c.id,
      get_listed c (s.arcs a).channels t l,
    ),
  )

  -- Each backend that `list_backends` lists can be asked about: the handlers read its listed
  -- identifier as the backend itself, it is registered, and `list_channels` of that identifier lists
  -- the backend's channels.
  pub list_backends_answer :
      (k : BackendId) (s : Server)
      → Mem k (keys s.backends)
      → (list_backends p s ≡ (ok (map (backend_response p) (keys s.backends)), s))
        × (backend_id_of p (backend_response p k).id ≡ ok k)
        × ((a : ℕ) × (get k s.backends ≡ some a)
            × (list_channels p (backend_response p k).id s
                ≡ (ok (map (channel_response p k) (values (s.arcs a).channels)), s)))
  unfolding list_backends list_channels channels_of backend_id_of backend_response
  list_backends_answer k s l = elim (Option-cases (get k s.backends)) [
    | inl absent ↦
        ground (arith, absent, contains_key-mem k s.backends l, contains_key-get k s.backends)
    | inr (a, e) ↦ (
      refl,
      ground (arith, parse_backend_id-show p laws k),
      (a, e, ground (arith, e, parse_backend_id-show p laws k)),
    )
  ]
