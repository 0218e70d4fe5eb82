-- ===== src/Server/System/Correlation.antt =====
-- Requests and their answers: each oneshot channel gets one answer at most, and that of the request
-- whose handler waits on it.
pub mod Replies
pub mod Once
pub mod Kept
pub mod Waiting
pub mod Accounted
pub mod Entries
use mathlib.Core.List.{
  Mem, Nodup-cons, Nodup-nil, mem-append, mem-cons, mem-cons_self, mem-cons_of_mem, not-mem-nil,
  perm_append_singleton, map-append,
}
use mathlib.Core.List.Perm
use mathlib.Core.Logic.Or
use native.Mathlib.Bridge.{le_prop}
use seabird_core.Prelude.{
  ℕ, suc, ◌≤◌, ◌<◌, ◌+◌, Text, List, [], ◌∷◌, ◌++◌, map, Perm, Nodup, ◌≡◌, refl, sym, ap, arith,
  ◌⊎◌, inl, inr,
}
use seabird_core.Proto.{ChatEventInner}
use seabird_core.Server.State.{Server, Sender, ChatRequestHandle}
use seabird_core.Server.Requests.Answers.{Pending, Fewer, Answers, Opened, answered_on}

pub record Correlated (s : Server) (waiting : List ChatRequestHandle) : Type 0 where
  pub below : (id : Text) (k : Sender) → Pending s id k → k < s.next
  pub distinct : (i j : Text) (k : Sender) → Pending s i k → Pending s j k → i ≡ j
  pub unanswered : (id : Text) (k : Sender) → Pending s id k → ¬ Mem k (answered_on s)
  pub answered_below : (k : Sender) → Mem k (answered_on s) → k < s.next
  pub answers_once : Nodup (answered_on s)
  pub waits_below : (h : ChatRequestHandle) → Mem h waiting → h.receiver < s.next
  pub routed :
      (id : Text) (h : ChatRequestHandle) → Pending s id h.receiver → Mem h waiting → id ≡ h.id

module _ (s t : Server) (ws : List ChatRequestHandle) where
  pub Fewer-Correlated : Fewer s t → Correlated s ws → Correlated t ws
  Fewer-Correlated f v = record {
    below = λ id k h. omega (arith, v.below id k (f.pending id k h), f.grows);
    distinct = λ i j k h g. v.distinct i j k (f.pending i k h) (f.pending j k g);
    unanswered = λ id k h. rw f.answered (v.unanswered id k (f.pending id k h));
    answered_below = λ k h. omega (arith, v.answered_below k (rw (f.answered) at h), f.grows);
    answers_once = rw f.answered v.answers_once;
    waits_below = λ h m. omega (arith, v.waits_below h m, f.grows);
    routed = λ id h g m. v.routed id h (f.pending id h.receiver g) m;
  }

  answered_on-Answers :
      (id : Text) (k : Sender) (e : ChatEventInner)
      → Answers id k e s t
      → answered_on t ≡ answered_on s ++ k ∷ []
  answered_on-Answers id k e a = rw (a.answered, map-append) refl

  pub Answers-Correlated :
      (id : Text) (k : Sender) (e : ChatEventInner)
      → Answers id k e s t
      → Correlated s ws
      → Correlated t ws
  Answers-Correlated id k e a v =
      let on = answered_on-Answers id k e a in
      record {
        below = λ i l h. omega (arith, v.below i l (a.pending i l h).0, a.grows);
        distinct = λ i j l h g. v.distinct i j l (a.pending i l h).0 (a.pending j l g).0;
        unanswered = λ i l h m.
            Or.elim (λ x. absurd x) (mem-append.0 (rw on at m))
              (v.unanswered i l (a.pending i l h).0)
              (λ m.
                Or.elim (λ x. absurd x) (mem-cons.0 m)
                  (λ e. (a.pending i l h).1 (v.distinct i id l (a.pending i l h).0 (rw e a.waited)))
                  (λ m. not-mem-nil m));
        answered_below = λ l m.
            Or.elim le_prop (mem-append.0 (rw on at m))
              (λ (m : Mem l (answered_on s)). omega (arith, v.answered_below l m, a.grows))
              (λ m.
                Or.elim le_prop (mem-cons.0 m)
                  (λ e. omega (arith, e, v.below id k a.waited, a.grows))
                  (λ m. absurd (not-mem-nil m)));
        answers_once = rw on (
            Perm.nodup (Perm.symm (perm_append_singleton k (answered_on s)))
              (Nodup-cons.1 (v.unanswered id k a.waited, v.answers_once)));
        waits_below = λ h m. omega (arith, v.waits_below h m, a.grows);
        routed = λ i h g m. v.routed i h (a.pending i h.receiver g).0 m;
      }
