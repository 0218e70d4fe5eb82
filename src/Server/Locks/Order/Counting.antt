-- ===== src/Server/Locks/Order/Counting.antt =====
-- How often a task is among the readers and in the queue, after one more and after one less.
use seabird_core.Prelude.{ℕ, ◌+◌, ◌≡◌, ◌≢◌, refl, arith, true, false, List, [], ◌∷◌, ◌++◌, ◌==◌}
use seabird_core.Server.Locks.{Waiter, reader, writer, erase}
use seabird_core.Server.Locks.Order.{reading_by, readers_by, writers_by}

pub reading_by-erase_ne : (i j : ℕ) (l : List ℕ) → j ≢ i → reading_by j (erase i l) ≡ reading_by j l
unfolding erase
reading_by-erase_ne i j [] n = refl
reading_by-erase_ne i j (k ∷ l) n = ground (arith, reading_by-erase_ne i j l n)

pub reading_by-erase : (i : ℕ) (l : List ℕ) → reading_by i l ≡ 1 → reading_by i (erase i l) ≡ 0
unfolding erase
reading_by-erase i [] e = omega (arith, e)
reading_by-erase i (k ∷ l) e = ground (arith, e, reading_by-erase i l)

readers_by-append :
    (i : ℕ) (q p : List Waiter) → readers_by i (q ++ p) ≡ readers_by i q + readers_by i p
readers_by-append i [] p = omega arith
readers_by-append i (reader j ∷ q) p = omega (arith, readers_by-append i q p)
readers_by-append i (writer j ∷ q) p = readers_by-append i q p

writers_by-append :
    (i : ℕ) (q p : List Waiter) → writers_by i (q ++ p) ≡ writers_by i q + writers_by i p
writers_by-append i [] p = omega arith
writers_by-append i (reader j ∷ q) p = writers_by-append i q p
writers_by-append i (writer j ∷ q) p = omega (arith, writers_by-append i q p)

-- A waiter joins the end of the queue.
pub queue_by-append :
    (i : ℕ) (q : List Waiter) (w : Waiter)
    → (readers_by i (q ++ w ∷ []) ≡ readers_by i q + readers_by i (w ∷ []))
      × (writers_by i (q ++ w ∷ []) ≡ writers_by i q + writers_by i (w ∷ []))
queue_by-append i q w = (readers_by-append i q (w ∷ []), writers_by-append i q (w ∷ []))

pub eq_self : (i : ℕ) → (i == i) ≡ true
eq_self i = ground arith

pub eq_ne : (i j : ℕ) → j ≢ i → (i == j) ≡ false
eq_ne i j n = ground (arith, n)
