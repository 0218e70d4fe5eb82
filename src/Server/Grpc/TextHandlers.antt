-- ===== src/Server/Grpc/TextHandlers.antt =====
-- The four handlers of src/server/grpc.rs that send text: what they refuse, and what they do else.
use seabird_core.Prelude.{
  ℕ, ◌≡◌, refl, sym, ap, ◌∙◌, Text, some, RpcResult, Status, ok, err, lift, ◌>>=◌, arith, get,
  text_ord, extend, ◌⊎◌, inl, inr, Option-cases, ◌<◌, ◌++◌, [], ◌∷◌, and_then, get-insert,
  same_key_refl, Result-cases, contains_key, false,
}
use seabird_core.Id.{BackendId, backend_id_ord}
use seabird_core.Id.Percent.{PercentEncoding}
use seabird_core.Block.{Block}
use seabird_core.Block.Message.{Tags, normalize_block}
use seabird_core.Proto.{EventInner, ChatEventInner, ChatRequestInner, TextChatRequest}
use seabird_core.Auth.{extract_auth_username}
use seabird_core.Auth.Headers.{HeaderMap}
use seabird_core.Server.State.{drop_request_handle, Server, broadcast}
use seabird_core.Server.Requests.{
  awaited_result, open_request, Wait, answer, delivered, issue_request,
}
use seabird_core.Server.Grpc.{TextRequest, full_id_of, reply_text, deliver_text}

-- The answer that the handler gets is that of its wait, the backend is registered and the request
-- was delivered.
pub record Answered (w : Wait) (b : BackendId) (s : Server) (e : ChatEventInner) : Type 0 where
  pub awaited : w.awaited ≡ answer e
  pub delivery : w.delivery ≡ delivered
  pub arc : ℕ
  pub registered : get b s.backends ≡ some arc
  pub fresh : contains_key w.request_id s.requests ≡ false

pub issue_request-Answered :
    (w : Wait) (b : BackendId) (req : ChatRequestInner) (s : Server) (e : ChatEventInner)
    → (issue_request w b req s).0 ≡ ok e
    → Answered w b s e
unfolding issue_request
issue_request-Answered w b req s e h = elim (Option-cases (get b s.backends)) [
  | inl absent ↦ ground (arith, absent)
  | inr (a, here) ↦ record {
    awaited = ground (arith, here);
    delivery = ground (arith, here);
    arc = a;
    registered = here;
    fresh = ground (arith, here);
  }
]

only_success : (e : ChatEventInner) → reply_text e ≡ ok tt → e ≡ ChatEventInner.success
unfolding reply_text
only_success ChatEventInner.success h = refl
only_success _ h = cc

replied :
    (w : Wait) (b : BackendId) (req : ChatRequestInner) (s : Server)
    → ((issue_request w b req >>= λ resp. lift (reply_text resp)) s).0 ≡ ok tt
    → Answered w b s ChatEventInner.success
replied w b req s h = elim (Result-cases (issue_request w b req s).0) [
  | inl (e, i) ↦
      let good : e ≡ ChatEventInner.success = only_success e (ground (arith, i)) in
      issue_request-Answered w b req s ChatEventInner.success (i ∙ ap ok good)
  | inr (e, i) ↦ ground (arith, i)
]

module _ (p : PercentEncoding) (m : HeaderMap) (headers : m.Headers) (complaint : Text)
    (req : TextRequest) where
  -- The caller has a name, the target is an identifier, and the block is complete.
  pub record Accepted : Type 0 where
    pub username : Text
    pub named : extract_auth_username m headers ≡ ok username
    pub backend : BackendId
    pub target : Text
    pub parsed : full_id_of p complaint req.target ≡ ok (backend, target)
    pub t : Text
    pub root_block : Block
    pub additional_tags : Tags
    pub normalized : normalize_block req.text req.root_block ≡ ok (t, root_block, additional_tags)

  module _ (event : Text → TextRequest → Text → Block → EventInner)
      (request : TextChatRequest → ChatRequestInner) (w : Wait) (s : Server) where
    -- A request that is accepted is broadcast with the caller's name, its text and block as they were
    -- normalized, and the tags with the original format; then its backend is asked for the same text
    -- and tags, under the backend's own name of the target, and the answer is the response.
    pub deliver_text-Accepted :
        (a : Accepted)
        → deliver_text p m complaint event request w headers req s
          ≡ (issue_request w a.backend (
                  request (record {
                    target = a.target;
                    text = a.t;
                    root_block = some a.root_block;
                    tags = extend req.tags a.additional_tags;
                  }))
                >>= λ resp. lift (reply_text resp))
              (broadcast
                (event a.username req a.t a.root_block)
                (extend req.tags a.additional_tags)
                s)
    unfolding deliver_text
    deliver_text-Accepted a = ground (arith, a.named, a.parsed, a.normalized)

    -- An accepted request whose backend is registered, under a new UUID and with the connection still
    -- reading: the event is broadcast once, to the backend's own channel the same text, block and
    -- tags are sent once, and under the UUID a oneshot channel waits that nothing else uses. Then the
    -- response is what the wait yields, read as `reply_text` says, and the request is queued for
    -- cleanup, whatever the other tasks did in between and however the wait ended.
    pub deliver_text_asks :
        (a : Accepted) (arc : ℕ)
        → get a.backend s.backends ≡ some arc
        → contains_key w.request_id s.requests ≡ false
        → w.delivery ≡ delivered
        → let tags = extend req.tags a.additional_tags in
          let message : TextChatRequest = record {
            target = a.target;
            text = a.t;
            root_block = some a.root_block;
            tags = tags;
          } in
          (t : Server) × (t.sender
            ≡ s.sender
              ++ record { inner = some (event a.username req a.t a.root_block); tags = tags } ∷ [])
          × (t.asked
              ≡ s.asked
                ++ (
                  (s.arcs arc).sender,
                  record { id = w.request_id; inner = some (request message) },
                )
                  ∷ [])
          × (get w.request_id t.requests ≡ some (some (record { sender = s.next })))
          × (s.next < t.next)
          × (deliver_text p m complaint event request w headers req s ≡ (
            and_then (awaited_result w.awaited) reply_text,
            drop_request_handle (record { id = w.request_id; receiver = s.next }) (w.meanwhile t),
          ))
    unfolding issue_request broadcast open_request
    deliver_text_asks a arc e f d =
        let tags = extend req.tags a.additional_tags in
        let message : TextChatRequest = record {
          target = a.target;
          text = a.t;
          root_block = some a.root_block;
          tags = tags;
        } in
        let started = broadcast (event a.username req a.t a.root_block) tags s in
        (
          (open_request w.request_id delivered a.backend (request message) started).1,
          ground (arith, e, f),
          ground (arith, e, f),
          ground (
            arith,
            e,
            f,
            get-insert w.request_id w.request_id (some (record { sender = s.next })) s.requests,
            same_key_refl w.request_id,
          ),
          ground (arith, e, f),
          ground (arith, deliver_text-Accepted a, e, f, d),
        )

    pub deliver_text_or_refuse :
        Accepted
        ⊎ ((e : Status) × (deliver_text p m complaint event request w headers req s ≡ (err e, s)))
    unfolding deliver_text
    deliver_text_or_refuse = elim (Result-cases (extract_auth_username m headers)) [
      | inr (e, n) ↦ inr (e, ground (arith, n))
      | inl (u, n) ↦ elim (Result-cases (full_id_of p complaint req.target)) [
        | inr (e, f) ↦ inr (e, ground (arith, n, f))
        | inl (full, f) ↦ elim (Result-cases (normalize_block req.text req.root_block)) [
          | inr (e, b) ↦ inr (e, ground (arith, n, f, b))
          | inl (block, b) ↦ inl (record {
            username = u;
            named = n;
            backend = full.0;
            target = full.1;
            parsed = f;
            t = block.0;
            root_block = block.1;
            additional_tags = block.2;
            normalized = b;
          })
        ]
      ]
    ]

    -- A handler reports success only for an accepted request whose backend is registered, was sent
    -- the request, and answered it with success within the time allowed.
    pub deliver_text_ok :
        (deliver_text p m complaint event request w headers req s).0 ≡ ok tt
        → (a : Accepted) × Answered w a.backend
            (broadcast
              (event a.username req a.t a.root_block)
              (extend req.tags a.additional_tags)
              s)
            ChatEventInner.success
    deliver_text_ok h = elim deliver_text_or_refuse [
      | inr (e, r) ↦ ground (arith, r)
      | inl a ↦ (
        a,
        replied w a.backend _ _
            (ap (λ (x : RpcResult (Unit {0}) × Server). x.0) (sym (deliver_text-Accepted a)) ∙ h),
      )
    ]
