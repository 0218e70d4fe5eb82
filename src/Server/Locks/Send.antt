-- ===== src/Server/Locks/Send.antt =====
-- A send to a full channel under the mutex of `requests`, while the one who would empty the channel
-- waits for that mutex.
use seabird_core.Prelude.{
  ℕ, ◌≡◌, ◌≢◌, refl, arith, some, List, [], ◌∷◌, ◌++◌, ◌==◌, All, ap, ◌∙◌, sym, Bool-cases, inl,
  inr,
}
use seabird_core.Server.State.{Sender}
use seabird_core.Server.Locks
use seabird_core.Server.Locks.{
  Locks, Op, lock, unlock, ask_read, get_read, drop_read, send, receive, pause, reader, update,
  Step, Reach, issued, issue_request_ops, respond_ops, answer_ops,
}
use seabird_core.Server.Locks.Stages.{IsIdle, at_ops, with_mutex, queued, reading}

-- The task takes nothing from the channel `k` any more.
abbrev pub NeverReceives : Sender → List Op → Type 0
NeverReceives k = All λ op. op ≢ receive k

-- `sender` holds the mutex and sends to the full channel `k`; `receiver`, the only one who takes from
-- `k`, waits for the mutex.
pub record SendBlocked (sender receiver : ℕ) (k : Sender) (after_send after_lock : List Op)
    (σ : Locks) : Type 0 where
  pub held : σ.mutex ≡ some sender
  pub full : σ.room k ≡ 0
  pub sending : σ.tasks sender ≡ send k ∷ after_send
  pub locking : σ.tasks receiver ≡ lock ∷ after_lock
  pub others : (j : ℕ) → j ≢ receiver → NeverReceives k (σ.tasks j)

module _ (sender receiver : ℕ) (k : Sender) (after_send after_lock : List Op) where
  abbrev Blocked : Locks → Type 0
  Blocked = SendBlocked sender receiver k after_send after_lock

  -- A task that is neither of the two goes on.
  moved :
      (σ τ : Locks) (i : ℕ) (op : Op) (rest : List Op)
      → σ.tasks i ≡ op ∷ rest
      → τ.tasks ≡ update i rest σ.tasks
      → i ≢ sender
      → i ≢ receiver
      → τ.mutex ≡ σ.mutex
      → τ.room k ≡ σ.room k
      → Blocked σ
      → Blocked τ
  moved σ τ i op rest t u s r m f v = record {
    held = m ∙ v.held;
    full = f ∙ v.full;
    sending = ground (arith, u, v.sending);
    locking = ground (arith, u, v.locking);
    others = λ j n. ground (arith, u, t, v.others j n, v.others i r);
  }

  not_sender :
      (σ : Locks) (i : ℕ) (op : Op) (rest : List Op)
      → Blocked σ
      → σ.tasks i ≡ op ∷ rest
      → op ≢ send k
      → i ≢ sender
  not_sender σ i op rest v t n q = n (cc (t, ap σ.tasks q, v.sending))

  not_receiver :
      (σ : Locks) (i : ℕ) (op : Op) (rest : List Op)
      → Blocked σ
      → σ.tasks i ≡ op ∷ rest
      → op ≢ lock
      → i ≢ receiver
  not_receiver σ i op rest v t n q = n (cc (t, ap σ.tasks q, v.locking))

  -- An operation that touches neither the mutex nor the channel.
  elsewhere :
      (σ τ : Locks) (i : ℕ) (op : Op) (rest : List Op)
      → Blocked σ
      → σ.tasks i ≡ op ∷ rest
      → op ≢ send k
      → op ≢ lock
      → τ.tasks ≡ update i rest σ.tasks
      → τ.mutex ≡ σ.mutex
      → τ.room k ≡ σ.room k
      → Blocked τ
  elsewhere σ τ i op rest v t n l u m f =
      moved σ τ i op rest t u (not_sender σ i op rest v t n) (not_receiver σ i op rest v t l) m f v

  Step-SendBlocked : (σ τ : Locks) → Step σ τ → Blocked σ → Blocked τ
  Step-SendBlocked σ τ (Locks.locks i rest t free e) v = ground (arith, v.held)
  Step-SendBlocked σ τ (Locks.unlocks i rest t owned e) v =
      absurd (not_sender σ i _ rest v t (λ q. cc) (cc (owned, v.held)))
  Step-SendBlocked σ τ (Locks.asks_read i rest t e) v =
      rw e (elsewhere σ _ i _ rest v t (λ q. cc) (λ q. cc) refl refl refl)
  Step-SendBlocked σ τ (Locks.gets_read i rest q t first free e) v =
      rw e (elsewhere σ _ i _ rest v t (λ q. cc) (λ q. cc) refl refl refl)
  Step-SendBlocked σ τ (Locks.drops_read i rest t e) v =
      rw e (elsewhere σ _ i _ rest v t (λ q. cc) (λ q. cc) refl refl refl)
  Step-SendBlocked σ τ (Locks.asks_write i rest t e) v =
      rw e (elsewhere σ _ i _ rest v t (λ q. cc) (λ q. cc) refl refl refl)
  Step-SendBlocked σ τ (Locks.gets_write i rest q t first none_reads free e) v =
      rw e (elsewhere σ _ i _ rest v t (λ q. cc) (λ q. cc) refl refl refl)
  Step-SendBlocked σ τ (Locks.drops_write i rest t owned e) v =
      rw e (elsewhere σ _ i _ rest v t (λ q. cc) (λ q. cc) refl refl refl)
  Step-SendBlocked σ τ (Locks.touches i rest t e) v =
      rw e (elsewhere σ _ i _ rest v t (λ q. cc) (λ q. cc) refl refl refl)
  Step-SendBlocked σ τ (Locks.pauses i rest t e) v =
      rw e (elsewhere σ _ i _ rest v t (λ q. cc) (λ q. cc) refl refl refl)
  Step-SendBlocked σ τ (Locks.sends i rest j n t room e) v =
      let other : j ≢ k = λ q. ground (arith, v.full, ap σ.room q, room) in
      rw e
        (elsewhere σ _ i _ rest v t (λ q. other (cc q)) (λ q. cc) refl refl (ground (arith, other)))
  Step-SendBlocked σ τ (Locks.receives i rest j t less e) v =
      let away : i ≢ receiver = not_receiver σ i _ rest v t (λ q. cc) in
      let other : j ≢ k = λ q. (rw t at (v.others i away)).0 (ap receive q) in
      rw e (elsewhere σ _ i _ rest v t (λ q. cc) (λ q. cc) refl refl (ground (arith, other)))

  Reach-SendBlocked : (σ τ : Locks) → Reach σ τ → Blocked σ → Blocked τ
  Reach-SendBlocked σ τ Locks.here v = v
  Reach-SendBlocked σ τ (Locks.next {τ = υ} r st) v =
      Step-SendBlocked υ τ st (Reach-SendBlocked σ υ r v)

-- A handler that calls `issue_request` for the backend with the full channel `k`, and the connection
-- of that backend, which reads an answer and then records it.
pub record Callers (sender receiver : ℕ) (k : Sender) (later later_receiver : List Op) (σ : Locks)
    : Type 0 where
  pub idle : IsIdle σ
  pub full : σ.room k ≡ 0
  pub two : receiver ≢ sender
  pub calls : σ.tasks sender ≡ issue_request_ops issued k ++ later
  pub reads_answer : σ.tasks receiver ≡ answer_ops ++ later_receiver
  pub others : (j : ℕ) → j ≢ receiver → NeverReceives k (σ.tasks j)

-- The handler is at its send, and the connection read the answer.
abbrev pub stuck_send : ℕ → ℕ → Sender → List Op → List Op → Locks → Locks
stuck_send sender receiver k later later_receiver σ =
    let sending = send k ∷ drop_read ∷ unlock ∷ pause ∷ later in
    at_ops receiver (respond_ops ++ later_receiver) (
      reading sender sending (
        queued sender (reader sender) (get_read ∷ sending)
          (with_mutex sender (ask_read ∷ get_read ∷ sending) σ)))

module _ (sender receiver : ℕ) (k : Sender) (later later_receiver : List Op) (σ : Locks)
    (c : Callers sender receiver k later later_receiver σ) where
  sender_not_receiver : sender ≢ receiver
  sender_not_receiver e = c.two (sym e)

  to_stuck_send : Reach σ (stuck_send sender receiver k later later_receiver σ)
  to_stuck_send =
      Locks.next
        (Locks.next
          (Locks.next (Locks.next Locks.here (Locks.locks sender _ c.calls c.idle.unlocked refl))
            (Locks.asks_read sender _ (ground arith) refl))
          (Locks.gets_read sender _ [] (ground arith) (ground (arith, c.idle.unasked))
            c.idle.unwritten refl))
        (Locks.pauses receiver _ (ground (arith, c.two, c.reads_answer)) refl)

  never_receives :
      (j : ℕ)
      → j ≢ receiver
      → NeverReceives k ((stuck_send sender receiver k later later_receiver σ).tasks j)
  never_receives j n = elim (Bool-cases (j == sender)) [
    | inl e ↦
        let calls : NeverReceives k (issue_request_ops issued k ++ later) =
          rw c.calls at (c.others sender sender_not_receiver) in
        ground (arith, e, n, calls.1.1.1)
    | inr e ↦ ground (arith, e, n, c.others j n)
  ]

  stuck_send-SendBlocked :
      SendBlocked sender receiver k
        (drop_read ∷ unlock ∷ pause ∷ later)
        (unlock ∷ later_receiver)
        (stuck_send sender receiver k later later_receiver σ)
  stuck_send-SendBlocked = record {
    held = refl;
    full = c.full;
    sending = ground (arith, sender_not_receiver);
    locking = ground arith;
    others = never_receives;
  }

-- The deadlock of `issue_request` with a full channel. Nobody holds or awaits a lock, a handler
-- calls `issue_request` for a backend whose channel `k` is full, and the connection that alone takes
-- from `k` reads an answer. Then the tasks can come to where the handler holds the mutex of
-- `requests` and sends to `k`, and whatever they do from there, the handler keeps the mutex and is at
-- the same send, the connection waits for the mutex to record its answer, and the channel stays full.
pub send_under_mutex_blocks :
    (sender receiver : ℕ) (k : Sender) (later later_receiver : List Op) (σ τ : Locks)
    → Callers sender receiver k later later_receiver σ
    → Reach (stuck_send sender receiver k later later_receiver σ) τ
    → Reach σ (stuck_send sender receiver k later later_receiver σ)
      × (τ.mutex ≡ some sender)
      × (τ.tasks sender ≡ send k ∷ drop_read ∷ unlock ∷ pause ∷ later)
      × (τ.tasks receiver ≡ respond_ops ++ later_receiver)
      × (τ.room k ≡ 0)
send_under_mutex_blocks sender receiver k later later_receiver σ τ c r =
    let w =
      Reach-SendBlocked sender receiver k _ _ _ τ r
        (stuck_send-SendBlocked sender receiver k later later_receiver σ c) in
    (to_stuck_send sender receiver k later later_receiver σ c, w.held, w.sending, w.locking, w.full)
