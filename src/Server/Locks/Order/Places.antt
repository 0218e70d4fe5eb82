-- ===== src/Server/Locks/Order/Places.antt =====
-- What can be read off how a task stands to the locks: whether it is busy, and what it waits for.
use seabird_core.Prelude.{
  ℕ, suc, zero, ◌≡◌, ◌≢◌, refl, Bool, true, false, some, Option, List, [], ◌∷◌,
}
use seabird_core.Server.Locks.{
  Op, lock, unlock, ask_read, get_read, drop_read, ask_write, get_write, drop_write, send, receive,
  touch, pause,
}
use seabird_core.Server.Locks.Order.{
  Rw, out, asks_read, reads, asks_write, writes, IsOrdered, HasMutex, Counts, counts_of,
}

-- A task that holds a lock, waits for one or sends is at one of these operations.
abbrev pub IsBusy : List Op → Type 0
IsBusy [] = ⊥
IsBusy (pause ∷ ops) = ⊥
IsBusy (receive k ∷ ops) = ⊥
IsBusy (op ∷ ops) = Unit

-- A task that holds or waits for a lock is busy.
pub IsOrdered-IsBusy :
    (b : Bool) (r : Rw) (ops : List Op)
    → IsOrdered b r ops
    → ¬ ((b ≡ false) × (r ≡ out))
    → IsBusy ops
IsOrdered-IsBusy b r [] v n = n v
IsOrdered-IsBusy b r (pause ∷ ops) v n = n (v.0, v.1)
IsOrdered-IsBusy b r (receive k ∷ ops) v n = n (v.0, v.1)
IsOrdered-IsBusy b r (lock ∷ ops) v n = tt
IsOrdered-IsBusy b r (unlock ∷ ops) v n = tt
IsOrdered-IsBusy b r (ask_read ∷ ops) v n = tt
IsOrdered-IsBusy b r (get_read ∷ ops) v n = tt
IsOrdered-IsBusy b r (drop_read ∷ ops) v n = tt
IsOrdered-IsBusy b r (ask_write ∷ ops) v n = tt
IsOrdered-IsBusy b r (get_write ∷ ops) v n = tt
IsOrdered-IsBusy b r (drop_write ∷ ops) v n = tt
IsOrdered-IsBusy b r (touch ∷ ops) v n = tt
IsOrdered-IsBusy b r (send k ∷ ops) v n = tt

-- `counts_of` tells how a task stands.
pub stands_writes : (r : Rw) → Counts.w (counts_of r) ≢ 0 → r ≡ writes
stands_writes writes n = refl
stands_writes _ n = absurd (n refl)

pub stands_reads : (r : Rw) → Counts.r (counts_of r) ≢ 0 → r ≡ reads
stands_reads reads n = refl
stands_reads _ n = absurd (n refl)

pub stands_asks_read : (r : Rw) → Counts.ar (counts_of r) ≢ 0 → r ≡ asks_read
stands_asks_read asks_read n = refl
stands_asks_read _ n = absurd (n refl)

pub stands_asks_write : (r : Rw) → Counts.aw (counts_of r) ≢ 0 → r ≡ asks_write
stands_asks_write asks_write n = refl
stands_asks_write _ n = absurd (n refl)

pub stands_out : (r : Rw) → counts_of out ≡ counts_of r → r ≡ out
stands_out out e = refl
stands_out asks_read e = cc e
stands_out reads e = cc e
stands_out asks_write e = cc e
stands_out writes e = cc e

pub owned : (b : Bool) (o : Option ℕ) (i : ℕ) → HasMutex b o i → b ≡ true → o ≡ some i
owned true o i x e = x
owned false o i x e = cc e

pub suc_of : (n : ℕ) → n ≢ 0 → (p : ℕ) × (n ≡ suc p)
suc_of zero h = absurd (h refl)
suc_of (suc p) h = (p, refl)
