-- ===== src/Server/Grpc/Answers.antt =====
-- When the other handlers of src/server/grpc.rs that ask a backend report success.
use seabird_core.Prelude.{
  ◌≡◌, ◌⊎◌, inl, inr, refl, ap, ◌∙◌, Text, text, ok, arith, lift, ◌>>=◌, Result-cases, Option-cases,
  get, RpcResult,
}
use seabird_core.Id.{BackendId, backend_id_ord}
use seabird_core.Id.Percent.{PercentEncoding}
use seabird_core.Block.Message.{Tags}
use seabird_core.Proto.{ChatEventInner, ChatRequestInner, ChannelEvent}
use seabird_core.Server.State.{Server}
use seabird_core.Server.Requests.{Wait, issue_request}
use seabird_core.Server.Grpc.{
  JoinChannelRequest, LeaveChannelRequest, UpdateChannelInfoRequest, backend_id_of, full_id_of,
  reply_join, reply_leave, reply_update, reply_metadata, join_channel, leave_channel,
  update_channel_info,
}
use seabird_core.Server.Grpc.Queries.{Backend, backend_response, get_backend_info}
use seabird_core.Server.Grpc.TextHandlers.{Answered, issue_request-Answered}

-- The backend `b` answered with success, or with the event that the request is about.
abbrev pub Confirmed {ℓ} : {A : Type ℓ} → (A → ChatEventInner) → Wait → BackendId → Server → Type ℓ
Confirmed event w b s = Answered w b s ChatEventInner.success ⊎ ((a : _) × Answered w b s (event a))

confirmed_join :
    (e : ChatEventInner)
    → reply_join e ≡ ok tt
    → (e ≡ ChatEventInner.success) ⊎ ((j : ChannelEvent) × (e ≡ ChatEventInner.join_channel j))
unfolding reply_join
confirmed_join ChatEventInner.success h = inl refl
confirmed_join (ChatEventInner.join_channel j) h = inr (j, refl)
confirmed_join _ h = cc

confirmed_leave :
    (e : ChatEventInner)
    → reply_leave e ≡ ok tt
    → (e ≡ ChatEventInner.success) ⊎ ((j : Text) × (e ≡ ChatEventInner.leave_channel j))
unfolding reply_leave
confirmed_leave ChatEventInner.success h = inl refl
confirmed_leave (ChatEventInner.leave_channel j) h = inr (j, refl)
confirmed_leave _ h = cc

confirmed_update :
    (e : ChatEventInner)
    → reply_update e ≡ ok tt
    → (e ≡ ChatEventInner.success) ⊎ ((j : ChannelEvent) × (e ≡ ChatEventInner.change_channel j))
unfolding reply_update
confirmed_update ChatEventInner.success h = inl refl
confirmed_update (ChatEventInner.change_channel j) h = inr (j, refl)
confirmed_update _ h = cc

-- What the answer was, for a reader of replies that takes nothing else.
confirmed {ℓ} :
    {A : Type ℓ} (event : A → ChatEventInner) (reply : ChatEventInner → RpcResult (Unit {0}))
    → ((e : ChatEventInner)
        → reply e ≡ ok tt
        → (e ≡ ChatEventInner.success) ⊎ ((a : A) × (e ≡ event a)))
    → (w : Wait) (b : BackendId) (req : ChatRequestInner) (s : Server)
    → ((issue_request w b req >>= λ resp. lift (reply resp)) s).0 ≡ ok tt
    → Confirmed event w b s
confirmed event reply only w b req s h = elim (Result-cases (issue_request w b req s).0) [
  | inr (e, i) ↦ ground (arith, i)
  | inl (e, i) ↦ elim (only e (ground (arith, i))) [
    | inl good ↦ inl (issue_request-Answered w b req s _ (i ∙ ap ok good))
    | inr (a, good) ↦ inr (a, issue_request-Answered w b req s _ (i ∙ ap ok good))
  ]
]

module _ (p : PercentEncoding) (w : Wait) (s : Server) where
  -- `join_channel` reports success only if the backend that the request names is registered, was
  -- sent the request, and answered it in time with success or the event of a join.
  pub join_channel_ok :
      (req : JoinChannelRequest)
      → (join_channel p w req s).0 ≡ ok tt
      → (b : BackendId) × (backend_id_of p req.backend_id ≡ ok b)
        × Confirmed ChatEventInner.join_channel w b s
  unfolding join_channel
  join_channel_ok req h = elim (Result-cases (backend_id_of p req.backend_id)) [
    | inr (e, f) ↦ ground (arith, f)
    | inl (b, f) ↦
        (b, f, confirmed ChatEventInner.join_channel reply_join confirmed_join w b _ s (rw f at h))
  ]

  -- `leave_channel` reports success only if the backend that the channel's identifier names is
  -- registered, was sent the request, and answered it in time with success or the event of a leave.
  pub leave_channel_ok :
      (req : LeaveChannelRequest)
      → (leave_channel p w req s).0 ≡ ok tt
      → (b : BackendId) × (id : Text) × (full_id_of p
            (text "failed to parse channel_id")
            req.channel_id
          ≡ ok (b, id))
        × Confirmed ChatEventInner.leave_channel w b s
  unfolding leave_channel
  leave_channel_ok req h =
      elim (Result-cases (full_id_of p (text "failed to parse channel_id") req.channel_id)) [
        | inr (e, f) ↦ ground (arith, f)
        | inl (full, f) ↦ (
          full.0,
          full.1,
          f,
          confirmed ChatEventInner.leave_channel reply_leave confirmed_leave w full.0 _ s
              (rw f at h),
        )
      ]

  -- `update_channel_info` reports success only if the backend that the channel's identifier names is
  -- registered, was sent the request, and answered it in time with success or the event of a change.
  pub update_channel_info_ok :
      (req : UpdateChannelInfoRequest)
      → (update_channel_info p w req s).0 ≡ ok tt
      → (b : BackendId) × (id : Text) × (full_id_of p
            (text "failed to parse channel_id")
            req.channel_id
          ≡ ok (b, id))
        × Confirmed ChatEventInner.change_channel w b s
  unfolding update_channel_info
  update_channel_info_ok req h =
      elim (Result-cases (full_id_of p (text "failed to parse channel_id") req.channel_id)) [
        | inr (e, f) ↦ ground (arith, f)
        | inl (full, f) ↦ (
          full.0,
          full.1,
          f,
          confirmed ChatEventInner.change_channel reply_update confirmed_update w full.0 _ s
              (rw f at h),
        )
      ]

  only_metadata :
      (e : ChatEventInner) (tags : Tags)
      → reply_metadata e ≡ ok tags
      → e ≡ ChatEventInner.metadata tags
  unfolding reply_metadata
  only_metadata (ChatEventInner.metadata values) tags h = cc
  only_metadata _ tags h = cc

  pub get_backend_info_ok :
      (id : Text) (found : Backend) (metadata : Tags)
      → (get_backend_info p w id s).0 ≡ ok (found, metadata)
      → (b : BackendId) × (backend_id_of p id ≡ ok b)
        × (found ≡ backend_response p b)
        × Answered w b s (ChatEventInner.metadata metadata)
  unfolding get_backend_info
  get_backend_info_ok id found metadata h = elim (Result-cases (backend_id_of p id)) [
    | inr (e, f) ↦ ground (arith, f)
    | inl (b, f) ↦ elim (Option-cases (get b s.backends)) [
      | inl absent ↦ ground (arith, f, absent)
      | inr (a, here) ↦ elim (Result-cases (issue_request w b ChatRequestInner.metadata s).0) [
        | inr (e, i) ↦ ground (arith, f, here, i)
        | inl (e, i) ↦ elim (Result-cases (reply_metadata e)) [
          | inr (_, q) ↦ ground (arith, f, here, i, q)
          | inl (tags, q) ↦
              let same : tags ≡ metadata = ground (arith, f, here, i, q) in
              (
                b,
                f,
                ground (arith, f, here, i, q),
                issue_request-Answered w b ChatRequestInner.metadata s _
                    (i ∙ ap ok (only_metadata e metadata (q ∙ ap ok same))),
              )
        ]
      ]
    ]
  ]
