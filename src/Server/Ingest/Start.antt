-- ===== src/Server/Ingest/Start.antt =====
-- How a connection starts: it registers a backend that was not registered, or changes nothing.
use seabird_core.Prelude.{
  suc, ◌≡◌, Option, [], RpcResult, ok, err, arith, Status, false, insert, contains_key, inl, inr,
  Bool-cases, Result-cases, text_ord,
}
use seabird_core.Id.{BackendId, backend_id_ord}
use seabird_core.Proto.{ChatEvent}
use seabird_core.Server.State.{Server, set_arc}
use seabird_core.Server.Ingest.{IngestEvents, connect, start, read_hello}

-- What a successful start did.
pub record Started (c : IngestEvents) (s t : Server) : Type 0 where
  pub absent : contains_key c.id s.backends ≡ false
  pub handle : c.backend_handle.id ≡ c.id
  pub arc : c.backend ≡ s.next
  pub receiver : c.backend_handle.receiver ≡ s.next
  pub asked : t.asked ≡ s.asked
  pub passed : t.passed ≡ s.passed
  pub sender : t.sender ≡ s.sender
  pub backends : t.backends ≡ insert c.id s.next s.backends
  pub arcs : t.arcs ≡ set_arc s.next (record { sender = s.next; channels = [] }) s.arcs
  pub commands : t.commands ≡ s.commands
  pub cleanup : t.cleanup ≡ s.cleanup
  pub next : t.next ≡ suc s.next
  pub requests : t.requests ≡ s.requests
  pub answered : t.answered ≡ s.answered

connect-Started :
    (id : BackendId) (c : IngestEvents) (s t : Server) → connect id s ≡ (ok c, t) → Started c s t
unfolding connect
connect-Started id c s t h = elim (Bool-cases (contains_key id s.backends)) [
  | inl e ↦ ground arith
  | inr e ↦ ground arith
]

connect_refused : (id : BackendId) (e : Status) (s t : Server) → connect id s ≡ (err e, t) → t ≡ s
unfolding connect
connect_refused id e s t h = ground arith

pub start-Started :
    (first : RpcResult (Option ChatEvent)) (c : IngestEvents) (s t : Server)
    → start first s ≡ (ok c, t)
    → Started c s t
unfolding start
start-Started first c s t h = elim (Result-cases (read_hello first)) [
  | inl (info, e) ↦ connect-Started _ c s t (rw e at h)
  | inr (e, r) ↦ ground (arith, r)
]

pub start_refused :
    (first : RpcResult (Option ChatEvent)) (e : Status) (s t : Server)
    → start first s ≡ (err e, t)
    → t ≡ s
unfolding start
start_refused first e s t h = elim (Result-cases (read_hello first)) [
  | inl (info, r) ↦ connect_refused _ e s t (rw r at h)
  | inr (_, r) ↦ ground (arith, r)
]
