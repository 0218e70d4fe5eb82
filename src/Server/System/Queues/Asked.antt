-- ===== src/Server/System/Queues/Asked.antt =====
-- What `open_request` of src/server/mod.rs does to the mpsc channels.
use mathlib.Core.List.{mem-cons}
use mathlib.Core.Logic.Or
use mathlib.Core.Bool.{true≢false}
use seabird_core.Prelude.{
  ℕ, suc, ◌≡◌, ◌≢◌, ap, sym, ◌∙◌, List, [], ◌∷◌, ◌++◌, arith, some, get, append_assoc, append-nil,
  Bool-cases, Option-cases, inl, inr, ◌==◌, Text, text_ord, ok, err, Status,
}
use seabird_core.Id.{BackendId, backend_id_ord}
use seabird_core.Proto.{ChatRequest as ChatRequestMessage, ChatRequestInner}
use seabird_core.Server.State.{Server, Sender, on, ChatRequestHandle, ChatBackend, set_arc}
use seabird_core.Server.Requests.{open_request, delivered, receiver_gone, Delivery}
use seabird_core.Server.Ingest.{IngestEvents}
use seabird_core.Server.Ingest.Start.{Started}
use seabird_core.Server.System.Channels.{Wired, added}
use seabird_core.Server.System.Queues.{Queues, on-append, Unasked}

-- The request went to the registered backend, and to no other.
pub record Asked (message : ChatRequestMessage) (b : BackendId) (s t : Server) : Type 0 where
  pub arc : ℕ
  pub found : get b s.backends ≡ some arc
  pub asked : t.asked ≡ s.asked ++ ((s.arcs arc).sender, message) ∷ []
  pub passed : t.passed ≡ s.passed
  pub arcs : t.arcs ≡ s.arcs
  pub backends : t.backends ≡ s.backends
  pub next : t.next ≡ suc s.next

pub open_request-Asked :
    (id : Text) (d : Delivery) (b : BackendId) (req : ChatRequestInner) (s t : Server)
    (h : ChatRequestHandle)
    → open_request id d b req s ≡ (ok h, t)
    → Asked (record { id = id; inner = some req }) b s t
unfolding open_request
open_request-Asked id delivered b req s t h e = elim (Option-cases (get b s.backends)) [
  | inl absent ↦ ground (arith, absent)
  | inr (a, found) ↦ record {
    arc = a;
    found = found;
    asked = ground (arith, found);
    passed = ground (arith, found);
    arcs = ground (arith, found);
    backends = ground (arith, found);
    next = ground (arith, found);
  }
]
open_request-Asked id receiver_gone b req s t h e = ground arith

pub open_request-Unasked :
    (id : Text) (d : Delivery) (b : BackendId) (req : ChatRequestInner) (s t : Server) (e : Status)
    → open_request id d b req s ≡ (err e, t)
    → Unasked s t
unfolding open_request
open_request-Unasked id d b req s t e h = record {
  asked = ground arith;
  passed = ground arith;
  senders = λ a. ground arith;
  backends = λ c a g. ground arith;
  grows = ground arith;
}

module _ (message : ChatRequestMessage) (b : BackendId) (s t : Server) (cs : List IngestEvents)
    (q : Asked message b s t) where
  -- On the channel that was asked on, and on any other.
  pub on-Asked :
      (k : Sender) → (s.arcs q.arc).sender ≡ k → on k t.asked ≡ on k s.asked ++ message ∷ []
  on-Asked k e =
      ground (arith, q.asked, on-append k s.asked (((s.arcs q.arc).sender, message) ∷ []), e)

  pub on_other-Asked : (k : Sender) → (s.arcs q.arc).sender ≢ k → on k t.asked ≡ on k s.asked
  on_other-Asked k n = ground (
    arith,
    q.asked,
    on-append k s.asked (((s.arcs q.arc).sender, message) ∷ []),
    n,
    append-nil (on k s.asked),
  )

  still_unread :
      (k : Sender)
      → Queues s cs
      → (rest : List ChatRequestMessage) × (on k t.asked ≡ on k t.passed ++ rest)
  still_unread k v =
      let (rest, before) = v.unread k in
      elim (Bool-cases ((s.arcs q.arc).sender == k)) [
        | inl e ↦
            let same : (s.arcs q.arc).sender ≡ k = ground (arith, e) in
            (
              rest ++ message ∷ [],
              ground (
                arith,
                on-Asked k same,
                before,
                q.passed,
                append_assoc (on k s.passed) rest (message ∷ []),
              ),
            )
        | inr e ↦
            let other : (s.arcs q.arc).sender ≢ k = λ x. true≢false (sym (ground (arith, x)) ∙ e) in
            (rest, ground (arith, on_other-Asked k other, before, q.passed))
      ]

  pub Asked-Queues : Queues s cs → Queues t cs
  Asked-Queues v = record {
    unread = λ k. still_unread k v;
    fresh = λ k h.
        let used = v.in_use b q.arc q.found in
        let other : (s.arcs q.arc).sender ≢ k = λ x. omega (arith, q.next, used) in
        on_other-Asked k other ∙ v.fresh k (omega (arith, q.next));
    reads = λ c m. ap (λ (arcs : ℕ → ChatBackend). (arcs c.backend).sender) q.arcs ∙ v.reads c m;
    in_use = λ j a h. rw q.arcs (omega (arith, q.next, v.in_use j a (rw q.backends at h)));
  }

Sender_prop : (j k : Sender) → IsProp (j ≡ k)
Sender_prop j k = hlevel

pub starts-Queues :
    (c : IngestEvents) (s t : Server) (cs : List IngestEvents)
    → Started c s t
    → Wired s cs
    → Queues s cs
    → Queues t (c ∷ cs)
unfolding set_arc
starts-Queues c s t cs e w v = record {
  unread = λ k. rw (e.asked, e.passed) (v.unread k);
  fresh = λ k h. rw e.asked (v.fresh k (omega (arith, e.next)));
  reads = λ d m.
      Or.elim (Sender_prop _ _) (mem-cons.0 m)
        (λ same. rw same (ground (arith, e.arcs, e.arc, e.receiver)))
        (λ old.
          let away = w.below d.id d.backend (w.held d old) in
          ground (arith, e.arcs, away, v.reads d old));
  in_use = λ b a h. elim (added c.id b s.next a s.backends (rw e.backends at h)) [
    | inl (_, fresh) ↦ ground (arith, fresh, e.arcs, e.next)
    | inr old ↦ ground (arith, w.below b a old, v.in_use b a old, e.arcs, e.next)
  ];
}
