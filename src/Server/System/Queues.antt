-- ===== src/Server/System/Queues.antt =====
-- The mpsc channels from the handlers of src/server/grpc.rs to the connections of
-- src/server/ingest_events.rs: what is asked of a backend and what its connection passes on.
pub mod Turns
pub mod Asked
pub mod Always
use mathlib.Core.List.{Mem}
use seabird_core.Prelude.{
  ℕ, ◌≡◌, refl, ap, sym, ◌∙◌, List, [], ◌∷◌, ◌++◌, ◌<◌, ◌≤◌, arith, some, get, append_assoc,
  append-nil, true, false, Bool-cases, inl, inr, ◌==◌,
}
use seabird_core.Id.{BackendId, backend_id_ord}
use seabird_core.Proto.{ChatRequest as ChatRequestMessage}
use seabird_core.Server.State.{Server, Sender, on}
use seabird_core.Server.Ingest.{IngestEvents}

-- Each channel yields what was sent on it, in order; a number not yet in use has had nothing sent; the
-- connections read the channels that their backends are asked on; and every registered backend has
-- a channel in use.
pub record Queues (s : Server) (cs : List IngestEvents) : Type 0 where
  pub unread :
      (k : Sender) → (rest : List ChatRequestMessage) × (on k s.asked ≡ on k s.passed ++ rest)
  pub fresh : (k : Sender) → s.next ≤ k → on k s.asked ≡ []
  pub reads : (c : IngestEvents) → Mem c cs → (s.arcs c.backend).sender ≡ c.backend_handle.receiver
  pub in_use : (b : BackendId) (a : ℕ) → get b s.backends ≡ some a → (s.arcs a).sender < s.next

pub on-append {ℓ} :
    {A : Type ℓ} (k : Sender) (xs ys : List (Sender × A)) → on k (xs ++ ys) ≡ on k xs ++ on k ys
on-append k [] ys = refl
on-append k ((j, a) ∷ xs) ys = elim (Bool-cases (j == k)) [
  | inl e ↦ rw e (ap (λ l. a ∷ l) (on-append k xs ys))
  | inr e ↦ rw e (on-append k xs ys)
]

-- A server that differs in nothing that `Queues` reads, but for numbers newly in use.
pub record Unasked (s t : Server) : Type 0 where
  pub asked : t.asked ≡ s.asked
  pub passed : t.passed ≡ s.passed
  pub senders : (a : ℕ) → (t.arcs a).sender ≡ (s.arcs a).sender
  pub backends : (b : BackendId) (a : ℕ) → get b t.backends ≡ some a → get b s.backends ≡ some a
  pub grows : s.next ≤ t.next

pub Unasked-Queues :
    (s t : Server) (cs : List IngestEvents) → Unasked s t → Queues s cs → Queues t cs
Unasked-Queues s t cs u v = record {
  unread = λ k. rw (u.asked, u.passed) (v.unread k);
  fresh = λ k h. rw u.asked (v.fresh k (omega (arith, u.grows)));
  reads = λ c m. u.senders c.backend ∙ v.reads c m;
  in_use = λ b a h. rw (u.senders a) (omega (arith, u.grows, v.in_use b a (u.backends b a h)));
}

pub fewer_readers :
    (s : Server) (cs rest : List IngestEvents)
    → ((c : IngestEvents) → Mem c rest → Mem c cs)
    → Queues s cs
    → Queues s rest
fewer_readers s cs rest sub v = record {
  unread = v.unread;
  fresh = v.fresh;
  reads = λ c m. v.reads c (sub c m);
  in_use = v.in_use;
}
