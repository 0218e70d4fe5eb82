-- ===== src/Server/Ingest/Session/Passed.antt =====
-- The requests that a run of the loop of src/server/ingest_events.rs passes on.
use seabird_core.Prelude.{
  ◌≡◌, refl, ap, ◌∙◌, Option, none, some, List, [], ◌∷◌, ◌++◌, map, append_assoc, Option-cases, inl,
  inr, Status,
}
use seabird_core.Proto.{ChatRequest as ChatRequestMessage}
use seabird_core.Server.State.{Sender}
use seabird_core.Server.Ingest.{Selected, request_passed}
use seabird_core.Server.Ingest.Session.{turn_end, unless_ended, loop_end, passed_loop, passed_turn}

abbrev pub requests_turn : Selected → List ChatRequestMessage
requests_turn (request_passed req) = req ∷ []
requests_turn _ = []

-- To the last turn.
abbrev pub requests_loop : List Selected → List ChatRequestMessage
requests_loop [] = []
requests_loop (x ∷ xs) = requests_turn x ++ unless_ended (turn_end x) (requests_loop xs)

passed_turn-requests_turn :
    (k : Sender) (x : Selected) (e : Option Status) (later : List ChatRequestMessage)
    → passed_turn k x ++ unless_ended e (map (λ r. (k, r)) later)
      ≡ map (λ r. (k, r)) (requests_turn x ++ unless_ended e later)
passed_turn-requests_turn k (request_passed req) none later = refl
passed_turn-requests_turn k (request_passed req) (some e) later = refl
passed_turn-requests_turn k x none later = refl
passed_turn-requests_turn k x (some e) later = refl

pub passed_loop-requests_loop :
    (k : Sender) (xs : List Selected) → passed_loop k xs ≡ map (λ r. (k, r)) (requests_loop xs)
passed_loop-requests_loop k [] = refl
passed_loop-requests_loop k (x ∷ xs) =
    rw (passed_loop-requests_loop k xs)
      (passed_turn-requests_turn k x (turn_end x) (requests_loop xs))

-- A loop that has not ended goes on with what comes next.
pub requests_loop-append :
    (xs ys : List Selected)
    → loop_end xs ≡ none
    → requests_loop (xs ++ ys) ≡ requests_loop xs ++ requests_loop ys
requests_loop-append [] ys h = refl
requests_loop-append (x ∷ xs) ys h = elim (Option-cases (turn_end x)) [
  | inl e ↦ rw e (
      ap (λ l. requests_turn x ++ l) (requests_loop-append xs ys (rw e at h))
      ∙ (cc (append_assoc (requests_turn x) (requests_loop xs) (requests_loop ys))))
  | inr (why, e) ↦ cc (rw e at h)
]

pub unless_ended-nil {ℓ} : {A : Type ℓ} (e : Option Status) → unless_ended {A = A} e [] ≡ []
unless_ended-nil none = refl
unless_ended-nil (some e) = refl
