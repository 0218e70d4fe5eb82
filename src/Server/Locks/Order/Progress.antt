-- ===== src/Server/Locks/Order/Progress.antt =====
-- Tasks that keep the discipline always go on, as long as the channels have room.
use seabird_core.Prelude.{
  ℕ, ◌≡◌, ◌≢◌, refl, sym, ap, ◌∙◌, arith, Bool, true, false, some, none, List, [], ◌∷◌,
  Option-cases, inl, inr,
}
use seabird_core.Server.State.{Sender}
use seabird_core.Server.Locks
use seabird_core.Server.Locks.{
  Locks, Op, lock, unlock, ask_read, get_read, drop_read, ask_write, get_write, drop_write, send,
  receive, touch, pause, Waiter, reader, writer, update, erase, Step, Reach, issue_request_ops,
  register_backend_ops, respond_ops, answer_ops, pass_on_ops,
}
use seabird_core.Server.Locks.Order.{
  Rw, out, asks_read, reads, asks_write, writes, IsOrdered, IsOrderly, HasMutex, Counts,
}
use seabird_core.Server.Locks.Order.Places.{
  IsBusy, IsOrdered-IsBusy, stands_writes, stands_reads, stands_asks_read, stands_asks_write,
  stands_out, owned, suc_of,
}

-- Some busy task does its next operation.
pub record Progress (σ : Locks) : Type 0 where
  pub task : ℕ
  pub after : Locks
  pub busy : IsBusy (σ.tasks task)
  pub step : Step σ after
  pub rest : List Op
  pub op : Op
  pub before_step : σ.tasks task ≡ op ∷ rest
  pub after_step : after.tasks task ≡ rest

done : (i : ℕ) (rest : List Op) (f : ℕ → List Op) → update i rest f i ≡ rest
done i rest f = ground arith

module _ (σ : Locks) (v : (j : ℕ) → IsOrderly σ j) (room : (k : Sender) → σ.room k ≢ 0) where
  goes :
      (i : ℕ) (op : Op) (rest : List Op) (τ : Locks)
      → σ.tasks i ≡ op ∷ rest
      → IsBusy (op ∷ rest)
      → Step σ τ
      → τ.tasks ≡ update i rest σ.tasks
      → Progress σ
  goes i op rest τ t b s u = record {
    task = i;
    after = τ;
    busy = rw t b;
    step = s;
    rest = rest;
    op = op;
    before_step = t;
    after_step = rw u (done i rest σ.tasks);
  }

  -- Whatever the task is at, the lock it is at is free for it.
  record Free (i : ℕ) (b : Bool) (r : Rw) : Type 0 where
    for_lock : b ≡ false → r ≡ out → σ.mutex ≡ none
    for_unlock : b ≡ true → σ.mutex ≡ some i
    for_read : r ≡ asks_read → (q : List Waiter) × (σ.queue ≡ reader i ∷ q) × (σ.writing ≡ none)
    for_write :
        r ≡ asks_write
        → (q : List Waiter) × (σ.queue ≡ writer i ∷ q) × (σ.readers ≡ []) × (σ.writing ≡ none)
    for_drop : r ≡ writes → σ.writing ≡ some i

  op_goes :
      (i : ℕ) (b : Bool) (r : Rw) (ops : List Op)
      → σ.tasks i ≡ ops
      → IsOrdered b r ops
      → IsBusy ops
      → Free i b r
      → Progress σ
  op_goes i b r [] t o y f = absurd y
  op_goes i b r (pause ∷ rest) t o y f = absurd y
  op_goes i b r (receive k ∷ rest) t o y f = absurd y
  op_goes i b r (lock ∷ rest) t (m, h, o) y f =
      goes i lock rest _ t tt (Locks.locks i rest t (f.for_lock m h) refl) refl
  op_goes i b r (unlock ∷ rest) t (m, h, o) y f =
      goes i unlock rest _ t tt (Locks.unlocks i rest t (f.for_unlock m) refl) refl
  op_goes i b r (ask_read ∷ rest) t o y f =
      goes i ask_read rest _ t tt (Locks.asks_read i rest t refl) refl
  op_goes i b r (get_read ∷ rest) t (h, o) y f =
      let (q, first, free) = f.for_read h in
      goes i get_read rest _ t tt (Locks.gets_read i rest q t first free refl) refl
  op_goes i b r (drop_read ∷ rest) t o y f =
      goes i drop_read rest _ t tt (Locks.drops_read i rest t refl) refl
  op_goes i b r (ask_write ∷ rest) t o y f =
      goes i ask_write rest _ t tt (Locks.asks_write i rest t refl) refl
  op_goes i b r (get_write ∷ rest) t (h, o) y f =
      let (q, first, unread, free) = f.for_write h in
      goes i get_write rest _ t tt (Locks.gets_write i rest q t first unread free refl) refl
  op_goes i b r (drop_write ∷ rest) t (h, o) y f =
      goes i drop_write rest _ t tt (Locks.drops_write i rest t (f.for_drop h) refl) refl
  op_goes i b r (touch ∷ rest) t o y f = goes i touch rest _ t tt (Locks.touches i rest t refl) refl
  op_goes i b r (send k ∷ rest) t o y f =
      let (n, e) = suc_of (σ.room k) (room k) in
      goes i (send k) rest _ t tt (Locks.sends i rest k n t e refl) refl

  task_goes : (i : ℕ) → IsBusy (σ.tasks i) → Free i (v i).holds (v i).stands → Progress σ
  task_goes i y f = op_goes i (v i).holds (v i).stands (σ.tasks i) refl (v i).ordered y f

  holder_goes : (i : ℕ) (r : Rw) → (v i).stands ≡ r → r ≢ out → Free i (v i).holds r → Progress σ
  holder_goes i r e n f =
      task_goes i (IsOrdered-IsBusy _ _ _ (v i).ordered (λ q. n (sym e ∙ q.1))) (rw e f)

  mutex_of : (i : ℕ) → (v i).holds ≡ true → σ.mutex ≡ some i
  mutex_of i = owned (v i).holds σ.mutex i (v i).mutex

  writer_goes : (i : ℕ) → σ.writing ≡ some i → Progress σ
  writer_goes i w =
      let e = stands_writes (v i).stands (λ z. ground (arith, ap Counts.w (v i).exactly, w, z)) in
      holder_goes i writes e (λ q. cc q)
        (record {
          for_lock = λ m h. cc h;
          for_unlock = mutex_of i;
          for_read = λ h. cc h;
          for_write = λ h. cc h;
          for_drop = λ h. w;
        })

  reader_goes : (i : ℕ) (l : List ℕ) → σ.readers ≡ i ∷ l → Progress σ
  reader_goes i l w =
      let e = stands_reads (v i).stands (λ z. ground (arith, ap Counts.r (v i).exactly, w, z)) in
      holder_goes i reads e (λ q. cc q)
        (record {
          for_lock = λ m h. cc h;
          for_unlock = mutex_of i;
          for_read = λ h. cc h;
          for_write = λ h. cc h;
          for_drop = λ h. cc h;
        })

  waiter_goes :
      (w : Waiter) (q : List Waiter)
      → σ.queue ≡ w ∷ q
      → σ.readers ≡ []
      → σ.writing ≡ none
      → Progress σ
  waiter_goes (reader i) q first unread free =
      let e =
        stands_asks_read (v i).stands (λ z. ground (arith, ap Counts.ar (v i).exactly, first, z)) in
      holder_goes i asks_read e (λ q. cc q)
        (record {
          for_lock = λ m h. cc h;
          for_unlock = mutex_of i;
          for_read = λ h. (q, first, free);
          for_write = λ h. cc h;
          for_drop = λ h. cc h;
        })
  waiter_goes (writer i) q first unread free =
      let e =
        stands_asks_write (v i).stands
          (λ z. ground (arith, ap Counts.aw (v i).exactly, first, z)) in
      holder_goes i asks_write e (λ q. cc q)
        (record {
          for_lock = λ m h. cc h;
          for_unlock = mutex_of i;
          for_read = λ h. cc h;
          for_write = λ h. (q, first, unread, free);
          for_drop = λ h. cc h;
        })

  -- Nobody has the read-write lock or waits for it: then nobody stands so.
  nobody : (i : ℕ) → σ.writing ≡ none → σ.readers ≡ [] → σ.queue ≡ [] → (v i).stands ≡ out
  nobody i w r q = stands_out (v i).stands (ground (arith, (v i).exactly, w, r, q))

  free_goes :
      (i : ℕ)
      → IsBusy (σ.tasks i)
      → ((v i).holds ≡ false → σ.mutex ≡ none)
      → (v i).stands ≡ out
      → Progress σ
  free_goes i y m e = task_goes i y (
      rw e (record {
        for_lock = λ h o. m h;
        for_unlock = mutex_of i;
        for_read = λ h. cc h;
        for_write = λ h. cc h;
        for_drop = λ h. cc h;
      }))

  not_owned : (b : Bool) (i : ℕ) → σ.mutex ≡ some i → HasMutex b σ.mutex i → b ≡ true
  not_owned true i m h = refl
  not_owned false i m h = absurd (h m)

  mutex_goes :
      (i : ℕ) → IsBusy (σ.tasks i) → σ.writing ≡ none → σ.readers ≡ [] → σ.queue ≡ [] → Progress σ
  mutex_goes i y w r q = elim (Option-cases σ.mutex) [
    | inl free ↦ free_goes i y (λ h. free) (nobody i w r q)
    | inr (j, m) ↦
        let held : (v j).holds ≡ true = not_owned (v j).holds j m (v j).mutex in
        free_goes j (IsOrdered-IsBusy _ _ _ (v j).ordered (λ p. cc (held, p.0))) (λ h. cc (held, h))
          (nobody j w r q)
  ]

  pub some_goes : (i : ℕ) → IsBusy (σ.tasks i) → Progress σ
  some_goes i y = elim (Option-cases σ.writing) [
    | inr (j, w) ↦ writer_goes j w
    | inl w ↦ from_readers σ.readers refl w
  ]
    where
      from_queue : (q : List Waiter) → σ.queue ≡ q → σ.writing ≡ none → σ.readers ≡ [] → Progress σ
      from_queue [] q w r = mutex_goes i y w r q
      from_queue (x ∷ q) first w r = waiter_goes x q first r w

      from_readers : (l : List ℕ) → σ.readers ≡ l → σ.writing ≡ none → Progress σ
      from_readers [] r w = from_queue σ.queue refl w r
      from_readers (j ∷ l) r w = reader_goes j l r
