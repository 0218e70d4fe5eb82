-- ===== src/Server/Ingest/Life/Hello.antt =====
-- The first message of a backend's stream, which src/server/ingest_events.rs reads when it spawns the
-- task of the connection.
use seabird_core.Prelude.{
  ◌≡◌, refl, arith, text, Bool, true, false, Option, none, some, RpcResult, ok, err, status,
  invalid_argument, Status, Option-cases, inl, inr,
}
use seabird_core.Proto.{ChatEvent, ChatEventInner, BackendInfo}
use seabird_core.Server.Ingest.{read_hello}

abbrev pub is_hello : ChatEventInner → Bool
is_hello (ChatEventInner.hello info) = true
is_hello _ = false

-- What each first message comes to: an error of the stream, the end of the stream, a message without
-- an inner, a hello without the backend's data, a message of another type, and a proper hello.
pub data Hello : RpcResult (Option ChatEvent) → RpcResult BackendInfo → Type 0 where
  unreceived : (e : Status) → Hello (err e) (err e)
  closed : Hello (ok none) (err (status invalid_argument (text "missing hello message")))
  no_inner :
      (m : ChatEvent)
      → m.inner ≡ none
      → Hello (ok (some m)) (err (status invalid_argument (text "missing hello message inner")))
  no_info :
      (m : ChatEvent)
      → m.inner ≡ some (ChatEventInner.hello none)
      → Hello (ok (some m)) (err (status invalid_argument (text "missing backend_info inner")))
  other_type :
      (m : ChatEvent) (i : ChatEventInner)
      → m.inner ≡ some i
      → is_hello i ≡ false
      → Hello
          (ok (some m))
          (err (status invalid_argument (text "hello message inner is wrong type")))
  proper :
      (m : ChatEvent) (info : BackendInfo)
      → m.inner ≡ some (ChatEventInner.hello (some info))
      → Hello (ok (some m)) (ok info)

abbrev Comes : RpcResult (Option ChatEvent) → Type 0
Comes first = (r : RpcResult BackendInfo) × (read_hello first ≡ r) × Hello first r

inner-Comes : (m : ChatEvent) (i : ChatEventInner) → m.inner ≡ some i → Comes (ok (some m))
unfolding read_hello
inner-Comes m (ChatEventInner.hello (some info)) e = (_, ground (arith, e), proper m info e)
inner-Comes m (ChatEventInner.hello none) e = (_, ground (arith, e), no_info m e)
inner-Comes m i e = (_, ground (arith, e), other_type m i e refl)

comes : (first : RpcResult (Option ChatEvent)) → Comes first
unfolding read_hello
comes (err e) = (_, refl, unreceived e)
comes (ok none) = (_, refl, closed)
comes (ok (some m)) = elim (Option-cases m.inner) [
  | inl e ↦ (_, ground (arith, e), no_inner m e)
  | inr (i, e) ↦ inner-Comes m i e
]

pub read_hello-Hello : (first : RpcResult (Option ChatEvent)) → Hello first (read_hello first)
read_hello-Hello first = let (r, e, h) = comes first in rw e h
