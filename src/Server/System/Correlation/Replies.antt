-- ===== src/Server/System/Correlation/Replies.antt =====
-- Every step keeps requests and answers together.
use mathlib.Core.List.{Mem, mem-cons, mem-cons_of_mem, List-discrete}
use mathlib.Core.List.Perm
use mathlib.Core.HLevel.{hedberg}
use mathlib.Core.Path.{subst}
use mathlib.Core.Logic.Or
use native.Mathlib.Bridge.{le_prop}
use native.Mathlib.Decide.{ℕ_discrete}
use seabird_core.Prelude.{
  ◌<◌, Text, List, [], ◌∷◌, ◌≡◌, refl, sym, ap, arith, ◌⊎◌, inl, inr, ◌∙◌, Entries,
}
use seabird_core.Id.Percent.{PercentEncoding}
use seabird_core.Proto.{CommandMetadata}
use seabird_core.Server.State.{
  Server, Sender, CommandsHandle, ChatRequestHandle, CleanupRequest, new,
}
use seabird_core.Server.Requests.{cleanup_turn, close_request}
use seabird_core.Server.Requests.Answers.{
  Pending, Fewer, Opened, open_request-Opened, open_request-handle, clean-Fewer,
}
use seabird_core.Server.Requests.Turns.{cleanup_turn-nil, cleanup_turn-cons}
use seabird_core.Server.Ingest.{IngestEvents, disconnect}
use seabird_core.Server.Ingest.Frame.{Quiet, Answering, turn-Answering, broadcast-Quiet}
use seabird_core.Server.Ingest.Start.{Started, start-Started, start_refused}
use seabird_core.Server.Grpc.Stream.{unsubscribe}
use seabird_core.Server.Grpc.Register.{Registered, stream_events-Registered, stream_events_denied}
use seabird_core.Server.System
use seabird_core.Server.System.{System, Step, Reach, booted}
use seabird_core.Server.System.Correlation.{Correlated, Fewer-Correlated, Answers-Correlated}

Text-set : IsSet Text
Text-set = hedberg (List-discrete ℕ_discrete)

module _ (id : Text) (s t : Server) (ws : List ChatRequestHandle) where
  Opened-Correlated : Opened id s t → Correlated s ws → Correlated t ws
  Opened-Correlated o v = record {
    below = λ j l h. elim (o.pending j l h) [
      | inl old ↦ omega (arith, v.below j l old, o.grows)
      | inr (_, fresh, room) ↦ omega (arith, fresh, room)
    ];
    distinct = λ i j l h g. same i j l (o.pending i l h) (o.pending j l g);
    unanswered = λ j l h m. elim (o.pending j l h) [
      | inl old ↦ v.unanswered j l old (rw (o.answered) at m)
      | inr (_, fresh, room) ↦ omega (arith, fresh, v.answered_below l (rw (o.answered) at m))
    ];
    answered_below = λ k m. omega (arith, v.answered_below k (rw (o.answered) at m), o.grows);
    answers_once = rw o.answered v.answers_once;
    waits_below = λ h m. omega (arith, v.waits_below h m, o.grows);
    routed = λ j h g m. elim (o.pending j h.receiver g) [
      | inl old ↦ v.routed j h old m
      | inr (_, fresh, room) ↦ absurd (omega (arith, fresh, v.waits_below h m))
    ];
  }
    where
      same :
          (i j : Text) (l : Sender)
          → Pending s i l ⊎ ((i ≡ id) × (l ≡ s.next) × (s.next < t.next))
          → Pending s j l ⊎ ((j ≡ id) × (l ≡ s.next) × (s.next < t.next))
          → i ≡ j
      same i j l (inl a) (inl b) = v.distinct i j l a b
      same i j l (inl a) (inr b) = absurd (omega (arith, v.below i l a, b.1))
      same i j l (inr a) (inl b) = absurd (omega (arith, v.below j l b, a.1))
      same i j l (inr a) (inr b) = a.0 ∙ sym (b.0)

  opens-Correlated :
      (h : ChatRequestHandle)
      → Opened id s t
      → (h.id ≡ id) × (h.receiver ≡ s.next) × (s.next < t.next)
      → Correlated s ws
      → Correlated t (h ∷ ws)
  opens-Correlated h o f v =
      let old = Opened-Correlated o v in
      record {
        below = old.below;
        distinct = old.distinct;
        unanswered = old.unanswered;
        answered_below = old.answered_below;
        answers_once = old.answers_once;
        waits_below = λ g m.
            Or.elim le_prop (mem-cons.0 m) (λ e. rw e (omega (arith, f.1, f.2)))
              (old.waits_below g);
        routed = λ j g w m.
            Or.elim (Text-set _ _) (mem-cons.0 m)
              (λ e. rw e (
                mine j g (o.pending j g.receiver w) (ap (λ (x : ChatRequestHandle). x.receiver) e)))
              (old.routed j g w);
      }
    where
      mine :
          (j : Text) (g : ChatRequestHandle)
          → Pending s j g.receiver ⊎ ((j ≡ id) × (g.receiver ≡ s.next) × (s.next < t.next))
          → g.receiver ≡ h.receiver
          → j ≡ h.id
      mine j g (inl a) e = absurd (omega (arith, v.below j g.receiver a, e, f.1))
      mine j g (inr a) e = a.0 ∙ sym (f.0)

Started-Fewer : (c : IngestEvents) (s t : Server) → Started c s t → Fewer s t
Started-Fewer c s t e = record {
  pending = λ id k h. rw (e.requests) at h;
  answered = e.answered;
  grows = omega (arith, e.next);
}

Registered-Fewer :
    (new : Entries Text CommandMetadata) (h : CommandsHandle) (s t : Server)
    → Registered new h s t
    → Fewer s t
Registered-Fewer new h s t e = record {
  pending = λ id k h. rw (e.requests) at h;
  answered = e.answered;
  grows = omega (arith, e.next);
}

Quiet-Fewer : (s t : Server) → Quiet s t → Fewer s t
Quiet-Fewer s t q = record {
  pending = λ id k h. rw (q.requests) at h;
  answered = q.answered;
  grows = omega (arith, q.next);
}

Answering-Correlated :
    (s t : Server) (ws : List ChatRequestHandle) → Answering s t → Correlated s ws → Correlated t ws
Answering-Correlated s t ws (inl f) v = Fewer-Correlated s t ws f v
Answering-Correlated s t ws (inr (id, k, e, a)) v = Answers-Correlated s t ws id k e a v

-- A queue that grew changes nothing here.
queued :
    (s : Server) (q : List CleanupRequest) (ws : List ChatRequestHandle)
    → Correlated s ws
    → Correlated (record s { cleanup = q }) ws
queued s q ws v =
    Fewer-Correlated s (record s { cleanup = q }) ws
      (record { pending = λ id k h. h; answered = refl; grows = omega arith }) v

cleanup-Correlated :
    (s : Server) (ws : List ChatRequestHandle) (q : List CleanupRequest)
    → s.cleanup ≡ q
    → Correlated s ws
    → Correlated (cleanup_turn s) ws
cleanup-Correlated s ws [] e v = subst (λ t. Correlated t ws) (sym (cleanup_turn-nil s e)) v
cleanup-Correlated s ws (r ∷ q) e v =
    subst (λ t. Correlated t ws) (sym (cleanup_turn-cons s r q e))
      (Fewer-Correlated (record s { cleanup = q }) _ ws (clean-Fewer r (record s { cleanup = q }))
        (queued s q ws v))

fewer_waiting :
    (s : Server) (ws rest : List ChatRequestHandle)
    → ((h : ChatRequestHandle) → Mem h rest → Mem h ws)
    → Correlated s ws
    → Correlated s rest
fewer_waiting s ws rest sub v = record {
  below = v.below;
  distinct = v.distinct;
  unanswered = v.unanswered;
  answered_below = v.answered_below;
  answers_once = v.answers_once;
  waits_below = λ h m. v.waits_below h (sub h m);
  routed = λ id h g m. v.routed id h g (sub h m);
}

abbrev pub InStep : System → Type 0
InStep σ = Correlated σ.server σ.waiting

-- Each step keeps requests and answers together.
pub Step-Correlated : (p : PercentEncoding) (σ τ : System) → Step p σ τ → InStep σ → InStep τ
unfolding close_request disconnect unsubscribe
Step-Correlated p σ τ (System.connects first c s e t) v =
    rw t (Fewer-Correlated _ s _ (Started-Fewer c _ s (start-Started first c σ.server s e)) v)
Step-Correlated p σ τ (System.refused first e s r t) v =
    rw (t, start_refused first e σ.server s r) v
Step-Correlated p σ τ (System.turns c rest x s m y e t) v =
    rw t (Answering-Correlated _ s _ (rw e at (turn-Answering p c x σ.server)) v)
Step-Correlated p σ τ (System.ends c rest x e s m y r t) v =
    rw t (queued s _ _ (Answering-Correlated _ s _ (rw r at (turn-Answering p c x σ.server)) v))
Step-Correlated p σ τ (System.subscribes new h s n e t) v = rw t (
    Fewer-Correlated _ s _
      (Registered-Fewer new h _ s (stream_events-Registered new h σ.server s e)) v)
Step-Correlated p σ τ (System.denied new e s r t) v =
    rw (t, stream_events_denied new e σ.server s r) v
Step-Correlated p σ τ (System.forwards h rest event m y t) v = rw t v
Step-Correlated p σ τ (System.unsubscribes h rest x r m y t) v = rw t (queued σ.server _ _ v)
Step-Correlated p σ τ (System.broadcasts i tags t) v =
    rw t (Fewer-Correlated _ _ _ (Quiet-Fewer _ _ (broadcast-Quiet i tags σ.server)) v)
Step-Correlated p σ τ (System.opens id d b req h s e t) v = rw t (
    opens-Correlated id σ.server s σ.waiting h (rw e at (open_request-Opened id d b req σ.server))
      (open_request-handle id d b req σ.server s h e) v)
Step-Correlated p σ τ (System.fails id d b req e s r t) v = rw t (
    Opened-Correlated id σ.server s σ.waiting (rw r at (open_request-Opened id d b req σ.server)) v)
Step-Correlated p σ τ (System.closes h rest a m d t) v = rw t (
    queued σ.server _ rest
      (fewer_waiting σ.server σ.waiting rest (λ g k. (Perm.mem_iff m).1 (mem-cons_of_mem h k)) v))
Step-Correlated p σ τ (System.reads_cleanup r q b e t) v = rw t v
Step-Correlated p σ τ (System.cleans b t) v =
    rw t (cleanup-Correlated σ.server _ σ.server.cleanup refl v)
