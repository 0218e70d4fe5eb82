-- ===== src/Server/Locks/Order/Standing.antt =====
-- Every operation keeps the tasks orderly.
use seabird_core.Prelude.{
  ℕ, ◌≡◌, ◌≢◌, refl, ap, ◌∙◌, arith, Bool, true, false, some, none, Option, List, ◌∷◌, Bool-cases,
  inl, inr, ◌==◌,
}
use seabird_core.Server.Locks
use seabird_core.Server.Locks.{
  Locks, Op, lock, unlock, ask_read, get_read, drop_read, ask_write, get_write, drop_write, send,
  receive, touch, pause, Waiter, reader, writer, update, erase, Step, Reach,
}
use seabird_core.Server.Locks.Order.{
  Rw, out, asks_read, reads, asks_write, writes, IsOrdered, IsOrderly, HasMutex, counts, counts_of,
}
use seabird_core.Server.Locks.Order.Counting.{
  reading_by-erase_ne, reading_by-erase, queue_by-append, eq_self,
}

-- A task that did nothing, and of whose locks and waits nothing changed.
record Same (σ τ : Locks) (j : ℕ) : Type 0 where
  same_counts : counts τ j ≡ counts σ j
  same_mutex : (b : Bool) → HasMutex b σ.mutex j → HasMutex b τ.mutex j
  same_ops : τ.tasks j ≡ σ.tasks j

kept : (σ τ : Locks) (j : ℕ) → Same σ τ j → IsOrderly σ j → IsOrderly τ j
kept σ τ j s v = record {
  holds = v.holds;
  stands = v.stands;
  mutex = s.same_mutex v.holds v.mutex;
  exactly = s.same_counts ∙ v.exactly;
  ordered = rw s.same_ops v.ordered;
}

-- The task `i` did its first operation, and the others nothing.
stepped :
    (σ τ : Locks) (i : ℕ)
    → ((j : ℕ) → IsOrderly σ j)
    → IsOrderly τ i
    → ((j : ℕ) → j ≢ i → Same σ τ j)
    → (j : ℕ) → IsOrderly τ j
stepped σ τ i v new same j = elim (Bool-cases (j == i)) [
  | inl e ↦ let same_task : j ≡ i = ground (arith, e) in rw same_task new
  | inr e ↦ kept σ τ j (same j (λ q. ground (arith, e, q))) (v j)
]

module _ (σ : Locks) (i : ℕ) (rest : List Op) (v : (j : ℕ) → IsOrderly σ j) where
  rest_done : update i rest σ.tasks i ≡ rest
  rest_done = rw (eq_self i) refl

  others_wait : (j : ℕ) → j ≢ i → update i rest σ.tasks j ≡ σ.tasks j
  others_wait j n = ground (arith, n)

  -- The mutex is as it was, and the read-write lock for the others.
  rw_step :
      (τ : Locks) (r : Rw)
      → counts τ i ≡ counts_of r
      → ((j : ℕ) → j ≢ i → counts τ j ≡ counts σ j)
      → τ.mutex ≡ σ.mutex
      → τ.tasks ≡ update i rest σ.tasks
      → IsOrdered (v i).holds r rest
      → (j : ℕ) → IsOrderly τ j
  rw_step τ r c others m t o =
      stepped σ τ i v
        (record {
          holds = (v i).holds;
          stands = r;
          mutex = rw m (v i).mutex;
          exactly = c;
          ordered = rw (t, rest_done) o;
        })
        λ j n. record {
          same_counts = others j n;
          same_mutex = λ b x. rw m x;
          same_ops = rw t (others_wait j n);
        }

  -- The read-write lock is as it was, and the mutex for the others.
  mutex_step :
      (τ : Locks) (b : Bool)
      → HasMutex b τ.mutex i
      → ((j : ℕ) → j ≢ i → (c : Bool) → HasMutex c σ.mutex j → HasMutex c τ.mutex j)
      → counts τ ≡ counts σ
      → τ.tasks ≡ update i rest σ.tasks
      → IsOrdered b (v i).stands rest
      → (j : ℕ) → IsOrderly τ j
  mutex_step τ b m others c t o =
      stepped σ τ i v
        (record {
          holds = b;
          stands = (v i).stands;
          mutex = m;
          exactly = ap (λ f. f i) c ∙ (v i).exactly;
          ordered = rw (t, rest_done) o;
        })
        λ j n. record {
          same_counts = ap (λ f. f j) c;
          same_mutex = others j n;
          same_ops = rw t (others_wait j n);
        }

  -- What the task is about to do, as the discipline has it.
  next_op : (op : Op) → σ.tasks i ≡ op ∷ rest → IsOrdered (v i).holds (v i).stands (op ∷ rest)
  next_op op t = rw t at (v i).ordered

  stood : (r : Rw) → (v i).stands ≡ r → counts σ i ≡ counts_of r
  stood r e = (v i).exactly ∙ ap counts_of e

-- Taking the free mutex, and freeing it, is nothing to the others.
taken :
    (o : Option ℕ) (i j : ℕ) (c : Bool) → j ≢ i → o ≡ none → HasMutex c o j → HasMutex c (some i) j
taken o i j true n e x = cc (e, x)
taken o i j false n e x = λ q. n (ground (arith, q))

freed :
    (o : Option ℕ) (i j : ℕ) (c : Bool) → j ≢ i → o ≡ some i → HasMutex c o j → HasMutex c none j
freed o i j true n e x = absurd (n (ground (arith, e, x)))
freed o i j false n e x = λ q. cc q

pub Step-IsOrderly : (σ τ : Locks) → ((j : ℕ) → IsOrderly σ j) → Step σ τ → (j : ℕ) → IsOrderly τ j
Step-IsOrderly σ τ v (Locks.locks i rest t free e) =
    let (m, h, o) = next_op σ i rest v lock t in
    rw e (
      mutex_step σ i rest v _ true refl (λ j n. λ c x. taken σ.mutex i j c n free x) refl refl
        (rw h o))
Step-IsOrderly σ τ v (Locks.unlocks i rest t owned e) =
    let (m, h, o) = next_op σ i rest v unlock t in
    rw e (
      mutex_step σ i rest v _ false (λ q. cc q) (λ j n. λ c x. freed σ.mutex i j c n owned x) refl
        refl (rw h o))
Step-IsOrderly σ τ v (Locks.asks_read i rest t e) =
    let (h, o) = next_op σ i rest v ask_read t in
    let c = stood σ i rest v out h in
    rw e (
      rw_step σ i rest v _ asks_read (ground (arith, c, queue_by-append i σ.queue (reader i)))
        (λ j n. ground (arith, n, queue_by-append j σ.queue (reader i))) refl refl o)
Step-IsOrderly σ τ v (Locks.gets_read i rest q t first free e) =
    let (h, o) = next_op σ i rest v get_read t in
    let c = stood σ i rest v asks_read h in
    rw e (
      rw_step σ i rest v _ reads (ground (arith, c, first)) (λ j n. ground (arith, n, first)) refl
        refl o)
Step-IsOrderly σ τ v (Locks.drops_read i rest t e) =
    let (h, o) = next_op σ i rest v drop_read t in
    let c = stood σ i rest v reads h in
    rw e (
      rw_step σ i rest v _ out (ground (arith, c, reading_by-erase i σ.readers))
        (λ j n. ground (arith, n, reading_by-erase_ne i j σ.readers)) refl refl o)
Step-IsOrderly σ τ v (Locks.asks_write i rest t e) =
    let (h, o) = next_op σ i rest v ask_write t in
    let c = stood σ i rest v out h in
    rw e (
      rw_step σ i rest v _ asks_write (ground (arith, c, queue_by-append i σ.queue (writer i)))
        (λ j n. ground (arith, n, queue_by-append j σ.queue (writer i))) refl refl o)
Step-IsOrderly σ τ v (Locks.gets_write i rest q t first none_reads free e) =
    let (h, o) = next_op σ i rest v get_write t in
    let c = stood σ i rest v asks_write h in
    rw e (
      rw_step σ i rest v _ writes (ground (arith, c, first))
        (λ j n. ground (arith, n, first, none_reads, free)) refl refl o)
Step-IsOrderly σ τ v (Locks.drops_write i rest t owned e) =
    let (h, o) = next_op σ i rest v drop_write t in
    let c = stood σ i rest v writes h in
    rw e (
      rw_step σ i rest v _ out (ground (arith, c, owned)) (λ j n. ground (arith, n, owned)) refl
        refl o)
Step-IsOrderly σ τ v (Locks.sends i rest k n t room e) =
    let (_, o) = next_op σ i rest v (send k) t in
    rw e (rw_step σ i rest v _ (v i).stands (v i).exactly (λ j n. refl) refl refl o)
Step-IsOrderly σ τ v (Locks.touches i rest t e) =
    let (_, o) = next_op σ i rest v touch t in
    rw e (rw_step σ i rest v _ (v i).stands (v i).exactly (λ j n. refl) refl refl o)
Step-IsOrderly σ τ v (Locks.receives i rest k t less e) =
    let (m, h, o) = next_op σ i rest v (receive k) t in
    rw e (mutex_step σ i rest v _ false (rw m at (v i).mutex) (λ j n. λ c x. x) refl refl (rw h o))
Step-IsOrderly σ τ v (Locks.pauses i rest t e) =
    let (m, h, o) = next_op σ i rest v pause t in
    rw e (mutex_step σ i rest v _ false (rw m at (v i).mutex) (λ j n. λ c x. x) refl refl (rw h o))
