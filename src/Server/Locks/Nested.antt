-- ===== src/Server/Locks/Nested.antt =====
-- A second read guard of `backends` asked for under the first, behind a writer that waits for the
-- first.
pub mod Stays
use mathlib.Core.List.{Mem, not-mem-nil, mem-cons, mem-cons_of_mem, mem-cons_self}
use mathlib.Core.Logic.Or
use seabird_core.Prelude.{
  ℕ, ◌≡◌, ◌≢◌, refl, arith, some, List, [], ◌∷◌, ◌++◌, ◌==◌, Bool-cases, inl, inr, ap, ◌∙◌, sym,
  append_assoc, append-nil,
}
use seabird_core.Server.Locks
use seabird_core.Server.Locks.{
  Locks, Op, lock, unlock, ask_read, get_read, drop_read, get_write, drop_write, send, pause,
  Waiter, reader, writer, update, erase, Step, Reach, issued, get_backend_info_ops,
  register_backend_ops,
}
use seabird_core.Server.Locks.Stages.{IsIdle, with_mutex, queued, reading}
use seabird_core.Server.State.{Sender}
use Stays.{NestedRead, Reach-NestedRead}

-- A handler that calls `get_backend_info` for a backend that is registered, and one whose hello
-- registers another.
pub record Callers (nested writing : ℕ) (k : Sender) (later later_writing : List Op) (σ : Locks)
    : Type 0 where
  pub idle : IsIdle σ
  pub two : writing ≢ nested
  pub calls : σ.tasks nested ≡ get_backend_info_ops (some issued) k ++ later
  pub registers : σ.tasks writing ≡ register_backend_ops ++ later_writing

abbrev after_second : Sender → List Op → List Op
after_second k later = send k ∷ drop_read ∷ unlock ∷ pause ∷ drop_read ∷ later

-- The first has the guard and the mutex, the second waits to write, and the first waits behind it.
abbrev pub stuck_read : ℕ → ℕ → Sender → List Op → List Op → Locks → Locks
stuck_read nested writing k later later_writing σ =
    let asking = ask_read ∷ get_read ∷ after_second k later in
    queued nested (reader nested) (get_read ∷ after_second k later) (
      queued writing (writer writing) (get_write ∷ drop_write ∷ later_writing) (
        with_mutex nested asking (
          reading nested (lock ∷ asking)
            (queued nested (reader nested) (get_read ∷ lock ∷ asking) σ))))

module _ (nested writing : ℕ) (k : Sender) (later later_writing : List Op) (σ : Locks)
    (c : Callers nested writing k later later_writing σ) where
  nested_not_writing : nested ≢ writing
  nested_not_writing e = c.two (sym e)

  to_stuck_read : Reach σ (stuck_read nested writing k later later_writing σ)
  to_stuck_read =
      Locks.next
        (Locks.next
          (Locks.next
            (Locks.next (Locks.next Locks.here (Locks.asks_read nested _ c.calls refl)) (
              Locks.gets_read nested _ [] (ground arith) (ground (arith, c.idle.unasked))
                c.idle.unwritten refl))
            (Locks.locks nested _ (ground arith) c.idle.unlocked refl))
          (Locks.asks_write writing _ (ground (arith, c.two, c.registers)) refl))
        (Locks.asks_read nested _ (ground (arith, nested_not_writing)) refl)

  stuck_read-NestedRead :
      NestedRead nested writing
        (after_second k later)
        (drop_write ∷ later_writing)
        (stuck_read nested writing k later later_writing σ)
  stuck_read-NestedRead = record {
    holds = mem-cons_self;
    mutex = refl;
    reading = ground arith;
    waiting = ground (arith, c.two);
    before = [];
    between = [];
    behind = [];
    once = not-mem-nil;
    queued = refl;
  }

-- The deadlock of `get_backend_info`. Nobody holds or awaits a lock, a handler calls
-- `get_backend_info` for a backend that is registered, and a hello registers another. Then the tasks
-- can come to where the handler has the read guard of `backends` and, inside `issue_request`, the
-- mutex of `requests`, and waits for a second read guard behind the writer, which waits for the
-- first; and whatever they do from there, both wait where they are and the mutex is never freed.
pub second_guard_blocks :
    (nested writing : ℕ) (k : Sender) (later later_writing : List Op) (σ τ : Locks)
    → Callers nested writing k later later_writing σ
    → Reach (stuck_read nested writing k later later_writing σ) τ
    → Reach σ (stuck_read nested writing k later later_writing σ)
      × (τ.mutex ≡ some nested)
      × (τ.tasks nested ≡ get_read ∷ send k ∷ drop_read ∷ unlock ∷ pause ∷ drop_read ∷ later)
      × (τ.tasks writing ≡ get_write ∷ drop_write ∷ later_writing)
second_guard_blocks nested writing k later later_writing σ τ c r =
    let w =
      Reach-NestedRead nested writing _ _ _ τ r
        (stuck_read-NestedRead nested writing k later later_writing σ c) in
    (to_stuck_read nested writing k later later_writing σ c, w.mutex, w.reading, w.waiting)
