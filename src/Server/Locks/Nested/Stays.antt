-- ===== src/Server/Locks/Nested/Stays.antt =====
-- A task that holds a read guard of `backends` and asks for a second one behind a writer: once it is so,
-- it stays so.
use mathlib.Core.List.{Mem, not-mem-nil, mem-cons, mem-cons_of_mem, mem-cons_self}
use mathlib.Core.Logic.Or
use seabird_core.Prelude.{
  ℕ, ◌≡◌, ◌≢◌, refl, arith, some, List, [], ◌∷◌, ◌++◌, ◌==◌, Bool-cases, inl, inr, ap, ◌∙◌, sym,
  append_assoc, append-nil,
}
use seabird_core.Server.Locks
use seabird_core.Server.Locks.{
  Locks, Op, lock, unlock, ask_read, get_read, drop_read, get_write, drop_write, send, pause,
  Waiter, reader, writer, update, erase, Step, Reach, issued, get_backend_info_ops,
  register_backend_ops,
}

mem-erase : (i j : ℕ) (l : List ℕ) → i ≢ j → Mem j l → Mem j (erase i l)
unfolding erase
mem-erase i j [] n m = m
mem-erase i j (h ∷ l) n m = elim (Bool-cases (h == i)) [
  | inl e ↦
      rw (e, erase)
        (Or.elim squash₁ (mem-cons.0 m) (λ p. absurd (n (ground (arith, e, p)))) (λ k. k))
  | inr e ↦
      rw (e, erase)
        (Or.elim squash₁ (mem-cons.0 m) (λ p. rw p mem-cons_self)
          (λ k. mem-cons_of_mem h (mem-erase i j l n k)))
]

-- `nested` has a read guard and waits for another, with the mutex in hand; `writing` waits to write,
-- and came first.
pub record NestedRead (nested writing : ℕ) (after_read after_write : List Op) (σ : Locks)
    : Type 0 where
  pub holds : Mem nested σ.readers
  pub mutex : σ.mutex ≡ some nested
  pub reading : σ.tasks nested ≡ get_read ∷ after_read
  pub waiting : σ.tasks writing ≡ get_write ∷ after_write
  pub before : List Waiter
  pub between : List Waiter
  pub behind : List Waiter
  pub once : ¬ Mem (reader nested) before
  pub queued : σ.queue ≡ before ++ writer writing ∷ (between ++ reader nested ∷ behind)

module _ (nested writing : ℕ) (after_read after_write : List Op) where
  abbrev Blocked : Locks → Type 0
  Blocked = NestedRead nested writing after_read after_write

  not_nested :
      (σ : Locks) (i : ℕ) (op : Op) (rest : List Op)
      → Blocked σ
      → σ.tasks i ≡ op ∷ rest
      → op ≢ get_read
      → i ≢ nested
  not_nested σ i op rest v t n q = n (cc (t, ap σ.tasks q, v.reading))

  not_writing :
      (σ : Locks) (i : ℕ) (op : Op) (rest : List Op)
      → Blocked σ
      → σ.tasks i ≡ op ∷ rest
      → op ≢ get_write
      → i ≢ writing
  not_writing σ i op rest v t n q = n (cc (t, ap σ.tasks q, v.waiting))

  -- Another task did something else than getting the lock.
  moved :
      (σ τ : Locks) (i : ℕ) (op : Op) (rest : List Op) (more : List Waiter)
      → Blocked σ
      → σ.tasks i ≡ op ∷ rest
      → i ≢ nested
      → i ≢ writing
      → Mem nested τ.readers
      → τ.tasks ≡ update i rest σ.tasks
      → τ.mutex ≡ σ.mutex
      → τ.queue ≡ σ.queue ++ more
      → Blocked τ
  moved σ τ i op rest more v t n w m u x q = record {
    holds = m;
    mutex = x ∙ v.mutex;
    reading = ground (arith, u, v.reading);
    waiting = ground (arith, u, v.waiting);
    before = v.before;
    between = v.between;
    behind = v.behind ++ more;
    once = v.once;
    queued = ground (
      arith,
      q,
      v.queued,
      append_assoc v.before (writer writing ∷ (v.between ++ reader nested ∷ v.behind)) more,
      append_assoc v.between (reader nested ∷ v.behind) more,
    );
  }

  -- The first of the queue got a read guard: it came before the writer.
  served :
      (σ : Locks) (i : ℕ) (rest : List Op) (q before : List Waiter)
      → (v : Blocked σ) → v.before ≡ before
      → σ.tasks i ≡ get_read ∷ rest
      → σ.queue ≡ reader i ∷ q
      → Blocked (record σ { readers = i ∷ σ.readers; queue = q; tasks = update i rest σ.tasks })
  served σ i rest q [] v b t first = ground (arith, v.queued, b, first)
  served σ i rest q (w ∷ before) v b t first =
      let front : w ≡ reader i = ground (arith, v.queued, b, first) in
      let other : i ≢ nested = λ p. v.once (rw b (rw (front, p) mem-cons_self)) in
      let away : i ≢ writing = not_writing σ i _ rest v t (λ x. cc) in
      record {
        holds = mem-cons_of_mem i v.holds;
        mutex = v.mutex;
        reading = ground (arith, other, v.reading);
        waiting = ground (arith, away, v.waiting);
        before = before;
        between = v.between;
        behind = v.behind;
        once = λ m. v.once (rw b (mem-cons_of_mem w m));
        queued = ground (arith, v.queued, b, first);
      }

  -- Another task did something that leaves the queue alone.
  elsewhere :
      (σ τ : Locks) (i : ℕ) (op : Op) (rest : List Op)
      → Blocked σ
      → σ.tasks i ≡ op ∷ rest
      → op ≢ get_read
      → op ≢ get_write
      → τ.readers ≡ σ.readers
      → τ.tasks ≡ update i rest σ.tasks
      → τ.mutex ≡ σ.mutex
      → τ.queue ≡ σ.queue
      → Blocked τ
  elsewhere σ τ i op rest v t r w e u x q =
      moved σ τ i op rest [] v t (not_nested σ i op rest v t r) (not_writing σ i op rest v t w)
        (rw e v.holds) u x (q ∙ sym (append-nil σ.queue))

  Step-NestedRead : (σ τ : Locks) → Step σ τ → Blocked σ → Blocked τ
  Step-NestedRead σ τ (Locks.locks i rest t free e) v = ground (arith, free, v.mutex)
  Step-NestedRead σ τ (Locks.unlocks i rest t owned e) v =
      absurd (not_nested σ i _ rest v t (λ q. cc) (cc (owned, v.mutex)))
  Step-NestedRead σ τ (Locks.asks_read i rest t e) v = rw e (
      moved σ _ i _ rest (reader i ∷ []) v t (not_nested σ i _ rest v t (λ q. cc))
        (not_writing σ i _ rest v t (λ q. cc)) v.holds refl refl refl)
  Step-NestedRead σ τ (Locks.gets_read i rest q t first free e) v =
      rw e (served σ i rest q v.before v refl t first)
  Step-NestedRead σ τ (Locks.drops_read i rest t e) v =
      let other : i ≢ nested = not_nested σ i _ rest v t (λ q. cc) in
      rw e (
        moved σ _ i _ rest [] v t other (not_writing σ i _ rest v t (λ q. cc))
          (mem-erase i nested σ.readers other v.holds) refl refl (sym (append-nil σ.queue)))
  Step-NestedRead σ τ (Locks.asks_write i rest t e) v = rw e (
      moved σ _ i _ rest (writer i ∷ []) v t (not_nested σ i _ rest v t (λ q. cc))
        (not_writing σ i _ rest v t (λ q. cc)) v.holds refl refl refl)
  Step-NestedRead σ τ (Locks.gets_write i rest q t first none_reads free e) v =
      absurd (not-mem-nil (rw none_reads at (v.holds)))
  Step-NestedRead σ τ (Locks.drops_write i rest t owned e) v =
      rw e (elsewhere σ _ i _ rest v t (λ q. cc) (λ q. cc) refl refl refl refl)
  Step-NestedRead σ τ (Locks.touches i rest t e) v =
      rw e (elsewhere σ _ i _ rest v t (λ q. cc) (λ q. cc) refl refl refl refl)
  Step-NestedRead σ τ (Locks.pauses i rest t e) v =
      rw e (elsewhere σ _ i _ rest v t (λ q. cc) (λ q. cc) refl refl refl refl)
  Step-NestedRead σ τ (Locks.sends i rest j n t room e) v =
      rw e (elsewhere σ _ i _ rest v t (λ q. cc) (λ q. cc) refl refl refl refl)
  Step-NestedRead σ τ (Locks.receives i rest j t less e) v =
      rw e (elsewhere σ _ i _ rest v t (λ q. cc) (λ q. cc) refl refl refl refl)

  pub Reach-NestedRead : (σ τ : Locks) → Reach σ τ → Blocked σ → Blocked τ
  Reach-NestedRead σ τ Locks.here v = v
  Reach-NestedRead σ τ (Locks.next {τ = υ} r st) v =
      Step-NestedRead υ τ st (Reach-NestedRead σ υ r v)
