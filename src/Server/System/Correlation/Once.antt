-- ===== src/Server/System/Correlation/Once.antt =====
-- What holds of requests and answers, however the tasks interleave.
use mathlib.Core.List.{Mem, Nodup-nil, not-mem-nil}
use seabird_core.Prelude.{
  ℕ, Text, none, some, List, [], ◌∷◌, ◌++◌, Nodup, ◌≡◌, refl, sym, ap, arith, inl, inr, ◌∙◌, length,
  length-append, get, insert, remove, text_ord, same_key_refl, get-insert, get-remove,
}
use seabird_core.Id.Percent.{PercentEncoding}
use seabird_core.Proto.{ChatEventInner}
use seabird_core.Server.State.{Server, Sender, ChatRequestHandle, new}
use seabird_core.Server.Requests.{respond}
use seabird_core.Server.Requests.Answers.{Pending, respond_cases, answered_on}
use seabird_core.Server.System
use seabird_core.Server.System.{System, Step, Reach, booted}
use seabird_core.Server.System.Correlation.Replies.{Step-Correlated, InStep}

booted-Correlated : (host url : Text) (now : ℕ) → InStep (booted host url now)
unfolding new get
booted-Correlated host url now = record {
  below = λ id k h. cc;
  distinct = λ i j k h g. cc;
  unanswered = λ id k h m. not-mem-nil m;
  answered_below = λ k m. absurd (not-mem-nil m);
  answers_once = Nodup-nil;
  waits_below = λ h m. absurd (not-mem-nil m);
  routed = λ id h g m. absurd (not-mem-nil m);
}

Reach-keeps : (p : PercentEncoding) (σ τ : System) → Reach p σ τ → InStep σ → InStep τ
Reach-keeps p σ τ System.here v = v
Reach-keeps p σ τ (System.next {τ = υ} r st) v = Step-Correlated p υ τ st (Reach-keeps p σ υ r v)

-- Whatever the tasks do from the start of the server on, no oneshot channel is sent more than one
-- answer.
pub answers_at_most_once :
    (p : PercentEncoding) (host url : Text) (now : ℕ) (σ : System)
    → Reach p (booted host url now) σ
    → Nodup (answered_on σ.server)
answers_at_most_once p host url now σ r =
    (Reach-keeps p _ σ r (booted-Correlated host url now)).answers_once

append_cancel {ℓ} : {A : Type ℓ} (xs : List A) (a b : A) → xs ++ a ∷ [] ≡ xs ++ b ∷ [] → a ≡ b
append_cancel [] a b h = cc
append_cancel (x ∷ xs) a b h = append_cancel xs a b (cc)

append_grows {ℓ} : {A : Type ℓ} (xs : List A) (a : A) → xs ≡ xs ++ a ∷ [] → ⊥
append_grows xs a h = omega (arith, ap length h, length-append xs (a ∷ []))

-- Whatever the tasks did before: if an answer to the request `id` goes to the channel on which a
-- handler waits, then `id` is the request of that handler, and what it gets is that answer.
pub answer_is_routed :
    (p : PercentEncoding) (host url : Text) (now : ℕ) (σ : System) (h : ChatRequestHandle)
    (id : Text) (e got : ChatEventInner)
    → Reach p (booted host url now) σ
    → Mem h σ.waiting
    → (respond id e σ.server).answered ≡ σ.server.answered ++ (h.receiver, got) ∷ []
    → (id ≡ h.id) × (got ≡ e)
answer_is_routed p host url now σ h id e got r m a =
    let v = Reach-keeps p _ σ r (booted-Correlated host url now) in
    elim (respond_cases id e σ.server (get id σ.server.requests) refl) [
      | inl f ↦ absurd (append_grows σ.server.answered _ (sym f.answered ∙ a))
      | inr (k, f) ↦
          let same = append_cancel σ.server.answered _ _ (sym f.answered ∙ a) in
          (
            v.routed id h
                (f.waited
                  ∙ ap (λ (x : Sender × ChatEventInner). some (some (record { sender = x.0 })))
                      same)
                m,
            ap (λ (x : Sender × ChatEventInner). x.1) (sym same),
          )
    ]

-- Of the answers to one request that waits, the first is sent to its handler; the second is not, and
-- only takes the mark of the first away.
pub first_answer_counts :
    (s : Server) (id : Text) (k : Sender) (first second : ChatEventInner)
    → Pending s id k
    → let t = respond id first s in
      let u = respond id second t in
      (t.answered ≡ s.answered ++ (k, first) ∷ [])
      × (get id t.requests ≡ some none)
      × (u.answered ≡ t.answered)
      × (get id u.requests ≡ none)
unfolding respond
first_answer_counts s id k first second h = ground (
  arith,
  same_key_refl id,
  get-insert id id none (remove id s.requests),
  get-remove id id (insert id none (remove id s.requests)),
)
