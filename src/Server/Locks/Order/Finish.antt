-- ===== src/Server/Locks/Order/Finish.antt =====
-- Every run of tasks that keep the discipline ends, with all that they had to do done.
use seabird_core.Prelude.{
  ℕ, zero, suc, ◌+◌, ◌≤◌, ◌<◌, ◌≡◌, ◌≢◌, ◌⊎◌, sym, ap, ◌∙◌, arith, List, [], ◌∷◌, ◌==◌, length, ltb,
  Bool-cases, inl, inr,
}
use seabird_core.Server.State.{Sender}
use seabird_core.Server.Locks
use seabird_core.Server.Locks.{Locks, Op, pause, receive, send, update, Step, Reach}
use seabird_core.Server.Locks.Order.Places.{IsBusy}
use seabird_core.Server.Locks.Order.Progress.{Progress}
use seabird_core.Server.Locks.Order.Serving.{IsFresh, served_tasks_go_on}
use seabird_core.Server.Locks.Order.Work.{Done, Step-Done, total_less, sends_in, work, sends_left}

-- The number of operations done.
abbrev pub steps : {σ τ : Locks} → Reach σ τ → ℕ
steps Locks.here = 0
steps (Locks.next r s) = suc (steps r)

-- Only the tasks below `n` have something to do, and no channel can be filled by them.
pub record IsSmall (n : ℕ) (σ : Locks) : Type 0 where
  pub idle : (i : ℕ) → n ≤ i → σ.tasks i ≡ []
  pub roomy : (k : Sender) → sends_left n k σ < σ.room k

sends_in-cons :
    (k : Sender) (op : Op) (rest : List Op)
    → sends_in k (op ∷ rest) ≡ sends_in k rest + sends_in k (op ∷ [])
sends_in-cons k (send j) rest = omega arith
sends_in-cons k _ rest = omega arith

module _ (n : ℕ) (σ τ : Locks) (v : IsSmall n σ) (d : Done σ τ) where
  below : d.task < n
  below = elim (Bool-cases (ltb d.task n)) [
    | inl e ↦ ground (arith, e)
    | inr e ↦ absurd (cc (v.idle d.task (ground (arith, e)), d.before))
  ]

  others : (j : ℕ) → j ≢ d.task → τ.tasks j ≡ σ.tasks j
  others j e = rw d.after (ground (arith, e))

  done : τ.tasks d.task ≡ d.rest
  done = rw d.after (ground arith)

  less_work : work n σ ≡ suc (work n τ)
  less_work = omega (
    arith,
    total_less n d.task 1 (λ i. length (σ.tasks i)) (λ i. length (τ.tasks i)) below
        (rw (d.before, done) (omega arith)) (λ j e. ap length (sym (others j e))),
  )

  fewer_sends : (k : Sender) → sends_left n k σ ≡ sends_left n k τ + sends_in k (d.op ∷ [])
  fewer_sends k =
      total_less n d.task (sends_in k (d.op ∷ [])) (λ i. sends_in k (σ.tasks i))
        (λ i. sends_in k (τ.tasks i)) below (rw (d.before, done) (sends_in-cons k d.op d.rest))
        (λ j e. ap (sends_in k) (sym (others j e)))

  Done-IsSmall : IsSmall n τ
  Done-IsSmall = record {
    idle = λ i l. others i (λ e. omega (arith, e, l, below)) ∙ v.idle i l;
    roomy = λ k. omega (arith, v.roomy k, fewer_sends k, d.room k);
  }

Reach-work :
    (n : ℕ) (σ τ : Locks) (r : Reach σ τ)
    → IsSmall n σ
    → (steps r + work n τ ≡ work n σ) × IsSmall n τ
Reach-work n σ τ Locks.here v = (omega arith, v)
Reach-work n σ τ (Locks.next {τ = υ} r s) v =
    let (e, w) = Reach-work n σ υ r v in
    let d = Step-Done υ τ s in (omega (arith, e, less_work n υ τ w d), Done-IsSmall n υ τ w d)

IsBusy-cases : (ops : List Op) → IsBusy ops ⊎ (¬ IsBusy ops)
IsBusy-cases [] = inr (λ b. b)
IsBusy-cases (pause ∷ ops) = inr (λ b. b)
IsBusy-cases (receive k ∷ ops) = inr (λ b. b)
IsBusy-cases (op ∷ ops) = inl tt

find-IsBusy :
    (n : ℕ) (f : ℕ → List Op) → ((i : ℕ) × IsBusy (f i)) ⊎ ((i : ℕ) → i < n → ¬ IsBusy (f i))
find-IsBusy zero f = inr (λ i l. absurd (omega (arith, l)))
find-IsBusy (suc n) f = elim (IsBusy-cases (f n)) [
  | inl b ↦ inl (n, b)
  | inr q ↦ elim (find-IsBusy n f) [
    | inl b ↦ inl b
    | inr none_below ↦ inr (λ i l b. elim (Bool-cases (i == n)) [
      | inl e ↦ let same : i ≡ n = ground (arith, e) in q (rw same at b)
      | inr e ↦ none_below i (ground (arith, e, l)) b
    ])
  ]
]

-- Every run of tasks that call the functions that take locks, whichever way each call goes but for a
-- `get_backend_info` that finds its backend, from where the locks are free, comes to an end: each step
-- does one of the operations that the tasks had to do, so that no run has more steps than these are
-- many; and wherever a run has come to, some busy task can go on, or no task holds a lock, waits for one or sends any more. (`n` is above all tasks with
-- something to do, and each channel has more room than there are sends to it.)
pub every_run_finishes :
    (n : ℕ) (σ τ : Locks)
    → IsFresh σ
    → IsSmall n σ
    → (r : Reach σ τ)
    → (steps r + work n τ ≡ work n σ) × (Progress τ ⊎ ((i : ℕ) → ¬ IsBusy (τ.tasks i)))
every_run_finishes n σ τ f v r =
    let (e, w) = Reach-work n σ τ r v in
    (
      e,
      elim (find-IsBusy n τ.tasks) [
        | inl (i, b) ↦ inl (served_tasks_go_on σ τ f r (λ k z. omega (arith, w.roomy k, z)) i b)
        | inr idle ↦ inr (λ i b. elim (Bool-cases (ltb i n)) [
          | inl l ↦ idle i (ground (arith, l)) b
          | inr l ↦ rw (w.idle i (ground (arith, l))) at b
        ])
      ],
    )
