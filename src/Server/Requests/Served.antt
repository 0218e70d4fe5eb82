-- ===== src/Server/Requests/Served.antt =====
-- Operations after which a request that waited either waits on, or its handler has an answer.
use mathlib.Core.List.{Mem, mem-append_left, mem-append_right, mem-cons_self, map-append}
use mathlib.Core.Logic.{◌∨₁◌, ∨₁_prop}
use mathlib.Core.Logic.Or
use seabird_core.Prelude.{
  ◌≡◌, refl, Text, none, some, [], ◌∷◌, ◌++◌, arith, ◌⊎◌, inl, inr, true, false, get, remove,
  contains_key, contains_key-get, get-insert, get-remove, text_ord, same_key, same_key-eq,
  Bool-cases, Option-cases,
}
use seabird_core.Id.{BackendId}
use seabird_core.Proto.{ChatEventInner, ChatRequestInner}
use seabird_core.Server.State.{Server, Sender}
use seabird_core.Server.Requests.{respond, respond_to, open_request, Delivery}
use seabird_core.Server.Requests.Answers.{
  Pending, answered_on, respond_cases, requests-open_request, open_request-Opened,
}

-- The handler that waits on `k` for the request `id` is waited for, or answered.
abbrev pub Served : Server → Text → Sender → Type 0
Served s id k = Pending s id k ∨₁ Mem k (answered_on s)

pub record Keeps (s t : Server) : Type 0 where
  pub pending : (id : Text) (k : Sender) → Pending s id k → Served t id k
  pub answered : (k : Sender) → Mem k (answered_on s) → Mem k (answered_on t)

pub Keeps-Served :
    (s t : Server) (id : Text) (k : Sender) → Keeps s t → Served s id k → Served t id k
Keeps-Served s t id k v h = Or.elim ∨₁_prop h (v.pending id k) (λ m. Or.inr (v.answered k m))

pub unchanged-Keeps : (s t : Server) → t.requests ≡ s.requests → t.answered ≡ s.answered → Keeps s t
unchanged-Keeps s t r a = record { pending = λ id k w. Or.inl (rw r w); answered = λ k m. rw a m }

pub Keeps-trans : (s t u : Server) → Keeps s t → Keeps t u → Keeps s u
Keeps-trans s t u v w = record {
  pending = λ id k h. Keeps-Served t u id k w (v.pending id k h);
  answered = λ k m. w.answered k (v.answered k m);
}

other_request :
    (id j : Text) (e : ChatEventInner) (k : Sender) (s : Server)
    → same_key j id ≡ false
    → Pending s j k
    → Pending (respond id e s) j k
unfolding respond respond_to
other_request id j e k s q w = elim (Option-cases (get id s.requests)) [
  | inl n ↦ ground (arith, n, q, w, get-remove id j s.requests)
  | inr (none, n) ↦ ground (arith, n, q, w, get-remove id j s.requests)
  | inr (some r, n) ↦
      ground
        (arith, n, q, w, get-remove id j s.requests, get-insert id j none (remove id s.requests))
]

this_request :
    (id : Text) (e : ChatEventInner) (k : Sender) (s : Server)
    → Pending s id k
    → (respond id e s).answered ≡ s.answered ++ (k, e) ∷ []
unfolding respond respond_to
this_request id e k s w = ground (arith, w)

respond_sends :
    (id : Text) (e : ChatEventInner) (s : Server) (k : Sender)
    → Mem k (answered_on s)
    → Mem k (answered_on (respond id e s))
respond_sends id e s k m = elim (respond_cases id e s (get id s.requests) refl) [
  | inl f ↦ rw f.answered m
  | inr (l, f) ↦ rw (f.answered, map-append) (mem-append_left _ m)
]

pub respond-Keeps : (id : Text) (e : ChatEventInner) (s : Server) → Keeps s (respond id e s)
respond-Keeps id e s = record {
  pending = λ j k w. elim (Bool-cases (same_key j id)) [
    | inl q ↦ Or.inr (
        rw (this_request id e k s (rw (same_key-eq j id q) at w), map-append)
          (mem-append_right _ mem-cons_self))
    | inr q ↦ Or.inl (other_request id j e k s q w)
  ];
  answered = respond_sends id e s;
}

pub open_request-Keeps :
    (id : Text) (d : Delivery) (b : BackendId) (req : ChatRequestInner) (s : Server)
    → Keeps s (open_request id d b req s).1
open_request-Keeps id d b req s = record {
  pending = λ j k w. Or.inl (stays j k w (Bool-cases (contains_key id s.requests)));
  answered = λ k m. rw (open_request-Opened id d b req s).answered m;
}
  where
    stays :
        (j : Text) (k : Sender)
        → Pending s j k
        → (contains_key id s.requests ≡ true) ⊎ (contains_key id s.requests ≡ false)
        → Pending (open_request id d b req s).1 j k
    stays j k w (inl e) = ground (arith, w, e, requests-open_request id d b req s)
    stays j k w (inr e) = ground (
      arith,
      w,
      e,
      requests-open_request id d b req s,
      contains_key-get id s.requests,
      get-insert id j (some (record { sender = s.next })) s.requests,
      same_key-eq j id,
    )
