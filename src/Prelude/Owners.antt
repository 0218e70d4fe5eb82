-- ===== src/Prelude/Owners.antt =====
-- A registry's keys, divided among owners who hold them and a queue of keys that are to be removed.
use mathlib.Core.List.{
  List, [], ◌∷◌, ◌++◌, Mem, Nodup, Nodup-append, Disjoint-left, Nodup-cons, Nodup-nil, Perm,
  perm-append_left_iff, perm_append_comm, mem-append_right, mem-cons, mem-cons_self, not-mem-nil,
  append_assoc,
}
use mathlib.Core.List.Perm
use mathlib.Core.Logic.Or
use mathlib.Core.Path.{◌≡◌}
use Prim.Native.Nat.{Ordering}
use Prim.Native.Nat.Ordering.{lt, eq}
use seabird_core.Prelude.Order.{Ord}
use seabird_core.Prelude.Keys.{Above, IsIncreasing}

module _ {ℓ} {K : Type ℓ} where
  pub perm_rotate : (xs ys zs : List K) → Perm (xs ++ (ys ++ zs)) (ys ++ (xs ++ zs))
  perm_rotate xs ys zs =
      rw (← append_assoc xs ys zs, ← append_assoc ys xs zs)
        (Perm.append_right zs (perm_append_comm xs ys))

  -- New keys come with their owner.
  pub owned_adopt :
      (ks ls xs o q : List K) → Perm ks (o ++ q) → Perm ls (xs ++ ks) → Perm ls ((xs ++ o) ++ q)
  owned_adopt ks ls xs o q h k = rw (append_assoc xs o q) (Perm.trans k (Perm.append_left xs h))

  -- An owner goes, and its keys are queued.
  pub owned_retire :
      (ks xs o rest q : List K)
      → Perm ks (o ++ q)
      → Perm o (xs ++ rest)
      → Perm ks (rest ++ (q ++ xs))
  owned_retire ks xs o rest q h k =
      Perm.trans (Perm.trans h (Perm.append_right q k))
        (rw (append_assoc xs rest q, ← append_assoc rest q xs) (perm_append_comm xs (rest ++ q)))

  -- Queued keys are removed.
  pub owned_release :
      (ks ls xs o q : List K) → Perm ks (o ++ (xs ++ q)) → Perm ks (xs ++ ls) → Perm ls (o ++ q)
  owned_release ks ls xs o q h k =
      (perm-append_left_iff xs).0 (Perm.trans (Perm.symm k) (Perm.trans h (perm_rotate o xs q)))

  -- A queued key is a key of the registry.
  pub owned_mem : (ks o q : List K) (a : K) → Perm ks (o ++ (a ∷ q)) → Mem a ks
  owned_mem ks o q a h = (Perm.mem_iff h).1 (mem-append_right o mem-cons_self)

  -- No owner holds a queued key.
  pub owned_apart : (ks o q : List K) (a : K) → Nodup ks → Perm ks (o ++ (a ∷ q)) → ¬ Mem a o
  owned_apart ks o q a n h m = Disjoint-left.0 (Nodup-append.0 (Perm.nodup h n)).2 a m mem-cons_self

absurd_eq : {x : Ordering} → x ≡ eq → x ≡ lt → ⊥
absurd_eq p q = cc

module _ {ℓ} {K : Type ℓ} ⦃o : Ord K⦄ where
  not-mem-Above : (k : K) (ks : List K) → Above k ks → ¬ Mem k ks
  not-mem-Above k [] h m = not-mem-nil m
  not-mem-Above k (j ∷ ks) h m =
      Or.elim (λ x. absurd x) (mem-cons.0 m) (λ e. absurd_eq (o.reflexive k) (rw (← e) at (h.0)))
        (not-mem-Above k ks h.1)

  pub IsIncreasing-Nodup : (ks : List K) → IsIncreasing ks → Nodup ks
  IsIncreasing-Nodup [] h = Nodup-nil
  IsIncreasing-Nodup (k ∷ ks) h = Nodup-cons.1 (not-mem-Above k ks h.0, IsIncreasing-Nodup ks h.1)
