-- ===== src/Server/Grpc/Asked.antt =====
-- What the handlers of src/server/grpc.rs for channels ask of a backend, and what becomes of the
-- request.
use seabird_core.Prelude.{
  ℕ, ◌<◌, ◌≡◌, arith, Text, text, some, false, [], ◌∷◌, ◌++◌, ok, RpcResult, and_then, lift, ◌>>=◌,
  get, contains_key, get-insert, same_key_refl, text_ord,
}
use seabird_core.Id.{BackendId, backend_id_ord}
use seabird_core.Id.Percent.{PercentEncoding}
use seabird_core.Proto.{ChatEventInner, ChatRequestInner}
use seabird_core.Server.State.{Server, drop_request_handle}
use seabird_core.Server.Requests.{Wait, delivered, open_request, issue_request, awaited_result}
use seabird_core.Server.Grpc.{
  JoinChannelRequest, LeaveChannelRequest, UpdateChannelInfoRequest, backend_id_of, full_id_of,
  reply_join, reply_leave, reply_update, join_channel, leave_channel, update_channel_info,
}

-- The backend at `arc` can be asked: it is registered, the UUID is new, and its connection reads.
pub record CanAsk (w : Wait) (b : BackendId) (arc : ℕ) (s : Server) : Type 0 where
  pub registered : get b s.backends ≡ some arc
  pub new_id : contains_key w.request_id s.requests ≡ false
  pub delivers : w.delivery ≡ delivered

-- It was sent `inner` once, under the UUID a oneshot channel waits that nothing else uses, and nothing
-- was broadcast; `r` is what the wait yields, as `reply` reads it, with the request queued for cleanup.
pub record Asked {A : Type 0} (w : Wait) (arc : ℕ) (inner : ChatRequestInner)
    (reply : ChatEventInner → RpcResult A) (s : Server) (r : RpcResult A × Server) : Type 0 where
  pub opened : Server
  pub sent :
      opened.asked
      ≡ s.asked ++ ((s.arcs arc).sender, record { id = w.request_id; inner = some inner }) ∷ []
  pub quiet : opened.sender ≡ s.sender
  pub waits : get w.request_id opened.requests ≡ some (some (record { sender = s.next }))
  pub own : s.next < opened.next
  pub ends : r ≡ (
    and_then (awaited_result w.awaited) reply,
    drop_request_handle (record { id = w.request_id; receiver = s.next }) (w.meanwhile opened),
  )

issue_request-Asked :
    {A : Type 0}
    → (w : Wait) (b : BackendId) (arc : ℕ) (inner : ChatRequestInner)
      (reply : ChatEventInner → RpcResult A) (s : Server)
    → CanAsk w b arc s
    → Asked w arc inner reply s ((issue_request w b inner >>= λ resp. lift (reply resp)) s)
unfolding issue_request open_request
issue_request-Asked w b arc inner reply s v = record {
  opened = (open_request w.request_id delivered b inner s).1;
  sent = ground (arith, v.registered, v.new_id);
  quiet = ground (arith, v.registered, v.new_id);
  waits = ground (
    arith,
    v.registered,
    v.new_id,
    get-insert w.request_id w.request_id (some (record { sender = s.next })) s.requests,
    same_key_refl w.request_id,
  );
  own = ground (arith, v.registered, v.new_id);
  ends = ground (arith, v.registered, v.new_id, v.delivers);
}

module _ (p : PercentEncoding) (w : Wait) (s : Server) (b : BackendId) (arc : ℕ)
    (can : CanAsk w b arc s) where
  -- `join_channel` for a backend that can be asked: the request is sent once to the backend's own
  -- channel, with the name and tags of the caller, and nothing is broadcast; under the UUID a oneshot
  -- channel waits that nothing else uses. Then the response is what the wait yields, read as
  -- `reply_join` says, and the request is queued for cleanup, however the wait ended.
  pub join_channel_asks :
      (req : JoinChannelRequest)
      → backend_id_of p req.backend_id ≡ ok b
      → Asked w arc
          (ChatRequestInner.join_channel req.channel_name req.tags)
          reply_join
          s
          (join_channel p w req s)
  unfolding join_channel
  join_channel_asks req f = rw f (issue_request-Asked w b arc _ reply_join s can)

  leave_channel_asks :
      (req : LeaveChannelRequest) (id : Text)
      → full_id_of p (text "failed to parse channel_id") req.channel_id ≡ ok (b, id)
      → Asked w arc
          (ChatRequestInner.leave_channel id req.tags)
          reply_leave
          s
          (leave_channel p w req s)
  unfolding leave_channel
  leave_channel_asks req id f = rw f (issue_request-Asked w b arc _ reply_leave s can)

  -- `update_channel_info` for a backend that can be asked: the request is sent once to the backend's
  -- own channel, with the backend's own name of the channel and the topic and tags of the caller, and
  -- nothing is broadcast; under the UUID a oneshot channel waits that nothing else uses. Then the
  -- response is what the wait yields, read as `reply_update` says, and the request is queued for
  -- cleanup, however the wait ended.
  pub update_channel_info_asks :
      (req : UpdateChannelInfoRequest) (id : Text)
      → full_id_of p (text "failed to parse channel_id") req.channel_id ≡ ok (b, id)
      → Asked w arc
          (ChatRequestInner.update_channel_info id req.topic req.tags)
          reply_update
          s
          (update_channel_info p w req s)
  unfolding update_channel_info
  update_channel_info_asks req id f = rw f (issue_request-Asked w b arc _ reply_update s can)
