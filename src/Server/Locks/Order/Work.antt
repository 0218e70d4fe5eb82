-- ===== src/Server/Locks/Order/Work.antt =====
-- How much the tasks have still to do, and that every operation is one less.
use seabird_core.Prelude.{
  ℕ, zero, suc, ◌+◌, ◌≤◌, ◌<◌, ◌≡◌, ◌≢◌, refl, ap, arith, List, [], ◌∷◌, ◌==◌, length, Bool-cases,
  inl, inr,
}
use seabird_core.Server.State.{Sender}
use seabird_core.Server.Locks
use seabird_core.Server.Locks.{
  Locks, Op, lock, unlock, ask_read, get_read, drop_read, ask_write, get_write, drop_write, send,
  receive, pause, update, Step,
}
use seabird_core.Server.Locks.Order.{one_if}

-- The sum over the tasks below `n`.
abbrev pub total : ℕ → (ℕ → ℕ) → ℕ
total zero f = 0
total (suc n) f = total n f + f n

total_same : (n : ℕ) (f g : ℕ → ℕ) → ((j : ℕ) → j < n → f j ≡ g j) → total n f ≡ total n g
total_same zero f g h = refl
total_same (suc n) f g h =
    omega (arith, total_same n f g (λ j l. h j (omega (arith, l))), h n (omega arith))

-- One task has `d` less.
pub total_less :
    (n i d : ℕ) (f g : ℕ → ℕ)
    → i < n
    → f i ≡ g i + d
    → ((j : ℕ) → j ≢ i → f j ≡ g j)
    → total n f ≡ total n g + d
total_less zero i d f g l e h = absurd (omega (arith, l))
total_less (suc n) i d f g l e h = elim (Bool-cases (i == n)) [
  | inl q ↦
      let same : i ≡ n = ground (arith, q) in
      omega (arith, total_same n f g (λ j k. h j (λ p. omega (arith, p, k, same))), rw same at e)
  | inr q ↦
      let other : n ≢ i = λ p. ground (arith, q, p) in
      omega (arith, total_less n i d f g (omega (arith, l, other)) e h, h n other)
]

-- The operations left, and the sends left to one channel.
abbrev pub sends_in : Sender → List Op → ℕ
sends_in k [] = 0
sends_in k (send j ∷ ops) = one_if (j == k) + sends_in k ops
sends_in k (op ∷ ops) = sends_in k ops

abbrev pub work : ℕ → Locks → ℕ
work n σ = total n (λ i. length (σ.tasks i))

abbrev pub sends_left : ℕ → Sender → Locks → ℕ
sends_left n k σ = total n (λ i. sends_in k (σ.tasks i))

-- One task did its first operation; a channel lost room only by a send to it.
pub record Done (σ τ : Locks) : Type 0 where
  pub task : ℕ
  pub op : Op
  pub rest : List Op
  pub before : σ.tasks task ≡ op ∷ rest
  pub after : τ.tasks ≡ update task rest σ.tasks
  pub room : (k : Sender) → σ.room k ≤ τ.room k + sends_in k (op ∷ [])

quiet :
    (σ τ : Locks) (i : ℕ) (op : Op) (rest : List Op)
    → σ.tasks i ≡ op ∷ rest
    → τ.tasks ≡ update i rest σ.tasks
    → τ.room ≡ σ.room
    → Done σ τ
quiet σ τ i op rest t u r = record {
  task = i;
  op = op;
  rest = rest;
  before = t;
  after = u;
  room = λ k. omega (arith, ap (λ f. f k) r);
}

pub Step-Done : (σ τ : Locks) → Step σ τ → Done σ τ
Step-Done σ τ (Locks.locks i rest t free e) = rw e (quiet σ _ i _ rest t refl refl)
Step-Done σ τ (Locks.unlocks i rest t owned e) = rw e (quiet σ _ i _ rest t refl refl)
Step-Done σ τ (Locks.asks_read i rest t e) = rw e (quiet σ _ i _ rest t refl refl)
Step-Done σ τ (Locks.gets_read i rest q t first free e) = rw e (quiet σ _ i _ rest t refl refl)
Step-Done σ τ (Locks.drops_read i rest t e) = rw e (quiet σ _ i _ rest t refl refl)
Step-Done σ τ (Locks.asks_write i rest t e) = rw e (quiet σ _ i _ rest t refl refl)
Step-Done σ τ (Locks.gets_write i rest q t first unread free e) =
    rw e (quiet σ _ i _ rest t refl refl)
Step-Done σ τ (Locks.drops_write i rest t owned e) = rw e (quiet σ _ i _ rest t refl refl)
Step-Done σ τ (Locks.touches i rest t e) = rw e (quiet σ _ i _ rest t refl refl)
Step-Done σ τ (Locks.pauses i rest t e) = rw e (quiet σ _ i _ rest t refl refl)
Step-Done σ τ (Locks.sends i rest j n t room e) = rw e (record {
  task = i;
  op = send j;
  rest = rest;
  before = t;
  after = refl;
  room = λ k. ground (arith, room);
})
Step-Done σ τ (Locks.receives i rest j t less e) = rw e (record {
  task = i;
  op = receive j;
  rest = rest;
  before = t;
  after = refl;
  room = λ k. ground arith;
})
