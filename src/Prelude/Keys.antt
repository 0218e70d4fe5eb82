-- ===== src/Prelude/Keys.antt =====
-- The keys of a map: which they are after an insertion or a removal, and that a `BTreeMap` keeps
-- them in increasing order.
use Prim.Native.Nat.Ordering.{lt, eq, gt}
use mathlib.Core.Path.{◌≡◌, refl, sym, subst}
use mathlib.Core.Bool.{Bool, true, false}
use mathlib.Core.List.{
  List, [], ◌∷◌, Mem, Nodup, Nodup-cons, Perm, mem-cons, mem-cons_self, not-mem-nil,
  mem-cons_of_mem,
}
use mathlib.Core.List.Perm
use mathlib.Core.Logic.{inl, inr}
use mathlib.Core.Logic.Or
use native.Mathlib.Omega.{arith}
use seabird_core.Prelude.Basic.{All, if◌then◌else◌, Bool-cases}
use seabird_core.Prelude.Order.{Ord, is_eq}
use seabird_core.Prelude.Maps.{
  Entries, keys, same_key, same_key_refl, same_key-eq, contains_key, insert, remove,
}

Bool-prop : (a b : Bool) → IsProp (a ≡ b)
Bool-prop a b = Bool-set a b
  where
    Bool-set : IsSet Bool
    Bool-set = hlevel

module _ {ℓ} {K : Type ℓ} ⦃o : Ord K⦄ where
  -- Every key of the list comes after `k`.
  abbrev pub Above : K → List K → Type 0
  Above k ks = All (λ j. o.cmp k j ≡ lt) ks

  abbrev pub IsIncreasing : List K → Type 0
  IsIncreasing [] = Unit
  IsIncreasing (k ∷ ks) = Above k ks × IsIncreasing ks

  Above-mono : (a b : K) (ks : List K) → o.cmp a b ≡ lt → Above b ks → Above a ks
  Above-mono a b [] h k = tt
  Above-mono a b (c ∷ ks) h k = (o.transitive a b c h k.0, Above-mono a b ks h k.1)

module _ {ℓ κ} {K : Type ℓ} {V : Type κ} ⦃o : Ord K⦄ where
  pub contains_key-mem : (k : K) (m : Entries K V) → Mem k (keys m) → contains_key k m ≡ true
  unfolding contains_key
  contains_key-mem k [] h = absurd (not-mem-nil h)
  contains_key-mem k ((j, v) ∷ m) h =
      Or.elim (Bool-prop _ true) (mem-cons.0 h) (λ e. rw (← e, same_key_refl k) refl)
        (λ h. ground (arith, contains_key-mem k m h))

  pub mem-contains_key : (k : K) (m : Entries K V) → contains_key k m ≡ true → Mem k (keys m)
  unfolding contains_key
  mem-contains_key k [] h = cc
  mem-contains_key k ((j, v) ∷ m) h = elim (Bool-cases (same_key k j)) [
    | inl e ↦ rw (same_key-eq k j e) mem-cons_self
    | inr e ↦ mem-cons_of_mem j (mem-contains_key k m (ground arith))
  ]

  pub keys-insert-perm :
      (k : K) (v : V) (m : Entries K V)
      → contains_key k m ≡ false
      → Perm (keys (insert k v m)) (k ∷ keys m)
  unfolding contains_key insert
  keys-insert-perm k v [] h = Perm.refl (k ∷ [])
  keys-insert-perm k v ((j, w) ∷ m) h =
      elim (o.cmp k j)
          as (λ c.
            (if is_eq c then true else contains_key k m) ≡ false
            → Perm
                (keys (elim c [
                  | lt ↦ (k, v) ∷ (j, w) ∷ m
                  | eq ↦ (k, v) ∷ m
                  | gt ↦ (j, w) ∷ insert k v m
                ]))
                (k ∷ j ∷ keys m)) [
                  | lt ↦ λ h. Perm.refl (k ∷ j ∷ keys m)
                  | eq ↦ λ h. cc
                  | gt ↦ λ h.
                      Perm.trans (Perm.cons j (keys-insert-perm k v m h)) (Perm.swap k j (keys m))
                ]
        h

  pub remove_absent : (k : K) (m : Entries K V) → contains_key k m ≡ false → remove k m ≡ m
  unfolding contains_key remove
  remove_absent k [] h = refl
  remove_absent k ((j, v) ∷ m) h = ground (arith, remove_absent k m)

  absent : (k : K) (m : Entries K V) → (¬ Mem k (keys m)) → contains_key k m ≡ false
  absent k m h = elim (Bool-cases (contains_key k m)) [
    | inl e ↦ absurd (h (mem-contains_key k m e))
    | inr e ↦ e
  ]

  pub keys-remove-perm :
      (k : K) (m : Entries K V)
      → Nodup (keys m)
      → contains_key k m ≡ true
      → Perm (keys m) (k ∷ keys (remove k m))
  unfolding contains_key remove
  keys-remove-perm k [] n h = cc
  keys-remove-perm k ((j, v) ∷ m) n h = elim (Bool-cases (same_key k j)) [
    | inl e ↦
        rw
          (
            e,
            remove_absent k m (
                absent k m
                  (subst (λ x. ¬ Mem x (keys m)) (sym (same_key-eq k j e)) (Nodup-cons.0 n).0)),
            same_key-eq k j e,
          )
          (Perm.refl (j ∷ keys m))
    | inr e ↦ rw e (
        Perm.trans (Perm.cons j (keys-remove-perm k m (Nodup-cons.0 n).1 (ground arith)))
          (Perm.swap k j _))
  ]

  keys-insert-Above :
      (a k : K) (v : V) (m : Entries K V)
      → o.cmp a k ≡ lt
      → Above a (keys m)
      → Above a (keys (insert k v m))
  unfolding insert
  keys-insert-Above a k v [] h n = (h, tt)
  keys-insert-Above a k v ((j, w) ∷ m) h n = ground (arith, keys-insert-Above a k v m h n.1)

  pub keys-insert-IsIncreasing :
      (k : K) (v : V) (m : Entries K V) → IsIncreasing (keys m) → IsIncreasing (keys (insert k v m))
  unfolding insert
  keys-insert-IsIncreasing k v [] h = (tt, tt)
  keys-insert-IsIncreasing k v ((j, w) ∷ m) h = ground (
    arith,
    o.same k j,
    o.flip_gt k j,
    Above-mono k j (keys m),
    keys-insert-Above j k v m,
    keys-insert-IsIncreasing k v m h.1,
  )

  keys-remove-Above : (a k : K) (m : Entries K V) → Above a (keys m) → Above a (keys (remove k m))
  unfolding remove
  keys-remove-Above a k [] n = tt
  keys-remove-Above a k ((j, w) ∷ m) n = ground (arith, keys-remove-Above a k m n.1)

  pub keys-remove-IsIncreasing :
      (k : K) (m : Entries K V) → IsIncreasing (keys m) → IsIncreasing (keys (remove k m))
  unfolding remove
  keys-remove-IsIncreasing k [] h = tt
  keys-remove-IsIncreasing k ((j, w) ∷ m) h =
      ground (arith, keys-remove-Above j k m h.0, keys-remove-IsIncreasing k m h.1)
