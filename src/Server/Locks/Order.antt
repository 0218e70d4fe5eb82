-- ===== src/Server/Locks/Order.antt =====
-- The discipline that most functions of src/server/mod.rs keep: `requests` is locked before `backends`,
-- neither is taken twice, and the waits for an answer or a new request hold neither.
pub mod Counting
pub mod Standing
pub mod Places
pub mod Progress
pub mod Serving
pub mod Work
pub mod Finish
use seabird_core.Prelude.{
  ℕ, suc, ◌+◌, ◌≡◌, ◌≢◌, Bool, true, false, Option, some, none, List, [], ◌∷◌, ◌==◌, if◌then◌else◌,
}
use seabird_core.Server.Locks.{
  Locks, Op, lock, unlock, ask_read, get_read, drop_read, ask_write, get_write, drop_write, send,
  receive, touch, pause, Waiter, reader, writer,
}

-- How a task stands to the read-write lock.
pub data Rw : Type 0 where
  out asks_read reads asks_write writes : Rw

-- A task may send while it holds a read guard, but not between asking for the lock and getting it.
abbrev pub may_send : Rw → Bool
may_send out = true
may_send reads = true
may_send _ = false

-- What a task that holds the mutex or not, and stands so to the read-write lock, may still do.
abbrev pub IsOrdered : Bool → Rw → List Op → Type 0
IsOrdered m h [] = (m ≡ false) × (h ≡ out)
IsOrdered m h (lock ∷ ops) = (m ≡ false) × (h ≡ out) × IsOrdered true out ops
IsOrdered m h (unlock ∷ ops) = (m ≡ true) × (h ≡ out) × IsOrdered false out ops
IsOrdered m h (ask_read ∷ ops) = (h ≡ out) × IsOrdered m asks_read ops
IsOrdered m h (get_read ∷ ops) = (h ≡ asks_read) × IsOrdered m reads ops
IsOrdered m h (drop_read ∷ ops) = (h ≡ reads) × IsOrdered m out ops
IsOrdered m h (ask_write ∷ ops) = (h ≡ out) × IsOrdered m asks_write ops
IsOrdered m h (get_write ∷ ops) = (h ≡ asks_write) × IsOrdered m writes ops
IsOrdered m h (drop_write ∷ ops) = (h ≡ writes) × IsOrdered m out ops
IsOrdered m h (send k ∷ ops) = (may_send h ≡ true) × IsOrdered m h ops
IsOrdered m h (receive k ∷ ops) = (m ≡ false) × (h ≡ out) × IsOrdered false out ops
IsOrdered m h (touch ∷ ops) = (may_send h ≡ true) × IsOrdered m h ops
IsOrdered m h (pause ∷ ops) = (m ≡ false) × (h ≡ out) × IsOrdered false out ops

-- How often a task holds the lock, or waits for it.
abbrev pub one_if : Bool → ℕ
one_if true = 1
one_if false = 0

abbrev pub writing_by : ℕ → Option ℕ → ℕ
writing_by i none = 0
writing_by i (some j) = one_if (j == i)

abbrev pub reading_by : ℕ → List ℕ → ℕ
reading_by i [] = 0
reading_by i (j ∷ l) = one_if (j == i) + reading_by i l

abbrev pub readers_by : ℕ → List Waiter → ℕ
readers_by i [] = 0
readers_by i (reader j ∷ q) = one_if (j == i) + readers_by i q
readers_by i (writer j ∷ q) = readers_by i q

abbrev pub writers_by : ℕ → List Waiter → ℕ
writers_by i [] = 0
writers_by i (reader j ∷ q) = writers_by i q
writers_by i (writer j ∷ q) = one_if (j == i) + writers_by i q

-- A task stands so, and only so.
pub record Counts : Type 0 where
  pub w : ℕ
  pub r : ℕ
  pub aw : ℕ
  pub ar : ℕ

abbrev pub counts_of : Rw → Counts
counts_of out = record { w = 0; r = 0; aw = 0; ar = 0 }
counts_of asks_read = record { w = 0; r = 0; aw = 0; ar = 1 }
counts_of reads = record { w = 0; r = 1; aw = 0; ar = 0 }
counts_of asks_write = record { w = 0; r = 0; aw = 1; ar = 0 }
counts_of writes = record { w = 1; r = 0; aw = 0; ar = 0 }

abbrev pub counts : Locks → ℕ → Counts
counts σ i = record {
  w = writing_by i σ.writing;
  r = reading_by i σ.readers;
  aw = writers_by i σ.queue;
  ar = readers_by i σ.queue;
}

abbrev pub HasMutex : Bool → Option ℕ → ℕ → Type 0
HasMutex true o i = o ≡ some i
HasMutex false o i = o ≢ some i

-- The task holds and waits for what the discipline takes it to, and keeps it from here on.
pub record IsOrderly (σ : Locks) (i : ℕ) : Type 0 where
  pub holds : Bool
  pub stands : Rw
  pub mutex : HasMutex holds σ.mutex i
  pub exactly : counts σ i ≡ counts_of stands
  pub ordered : IsOrdered holds stands (σ.tasks i)
