-- ===== src/Prelude/Maps.antt =====
-- `BTreeMap` and `HashMap` as association lists: a `BTreeMap` is kept in the order of its keys, and
-- a `HashMap` in some order, which the program never relies on.
use Prim.Native.Nat.Ordering.{lt, eq, gt}
use mathlib.Core.Path.{◌≡◌, refl}
use mathlib.Core.Bool.{Bool, true, false}
use mathlib.Core.Option.{Option, none, some}
use mathlib.Core.List.{List, [], ◌∷◌}
use native.Mathlib.Omega.{arith}
use seabird_core.Prelude.Basic.{if◌then◌else◌}
use seabird_core.Prelude.Order.{Ord, text_ord, is_eq}

abbrev pub is_some {ℓ} : {A : Type ℓ} → Option A → Bool
is_some none = false
is_some (some a) = true

-- Entries, each key once.
abbrev pub Entries {ℓ κ} : Type ℓ → Type κ → Type (ℓ ⊔ κ)
Entries K V = List (K × V)

abbrev pub keys {ℓ κ} : {K : Type ℓ} {V : Type κ} → Entries K V → List K
keys [] = []
keys ((k, v) ∷ m) = k ∷ keys m

abbrev pub values {ℓ κ} : {K : Type ℓ} {V : Type κ} → Entries K V → List V
values [] = []
values ((k, v) ∷ m) = v ∷ values m

module _ {ℓ} {K : Type ℓ} ⦃o : Ord K⦄ where
  abbrev pub same_key : K → K → Bool
  same_key a b = is_eq (o.cmp a b)

  pub same_key_refl : (a : K) → same_key a a ≡ true
  same_key_refl a = ground (arith, o.reflexive a)

  pub same_key-eq : (a b : K) → same_key a b ≡ true → a ≡ b
  same_key-eq a b h = ground (arith, o.same a b)

module _ {ℓ κ} {K : Type ℓ} {V : Type κ} ⦃o : Ord K⦄ where
  unfoldable pub get : K → Entries K V → Option V
  get k [] = none
  get k ((j, v) ∷ m) = if same_key k j then some v else get k m

  -- `contains_key`
  unfoldable pub contains_key : K → Entries K V → Bool
  contains_key k [] = false
  contains_key k ((j, v) ∷ m) = if same_key k j then true else contains_key k m

  -- `BTreeMap::insert`: in its place by the order, and over the value of an equal key.
  unfoldable pub insert : K → V → Entries K V → Entries K V
  insert k v [] = (k, v) ∷ []
  insert k v ((j, w) ∷ m) =
      let rest = (j, w) ∷ insert k v m in
      elim (o.cmp k j) [ lt ↦ (k, v) ∷ (j, w) ∷ m | eq ↦ (k, v) ∷ m | gt ↦ rest ]

  unfoldable pub remove : K → Entries K V → Entries K V
  remove k [] = []
  remove k ((j, v) ∷ m) = let rest = remove k m in if same_key k j then rest else (j, v) ∷ rest

  -- `HashMap::insert`: a new key goes anywhere, here to the end.
  unfoldable pub hash_insert : K → V → Entries K V → Entries K V
  hash_insert k v [] = (k, v) ∷ []
  hash_insert k v ((j, w) ∷ m) = if same_key k j then (k, v) ∷ m else (j, w) ∷ hash_insert k v m

  -- `HashMap::extend`
  unfoldable pub extend : Entries K V → Entries K V → Entries K V
  extend m [] = m
  extend m ((k, v) ∷ more) = extend (hash_insert k v m) more

  pub get-insert :
      (k j : K) (v : V) (m : Entries K V)
      → get j (insert k v m) ≡ (if same_key j k then some v else get j m)
  unfolding get insert
  get-insert k j v [] = refl
  get-insert k j v ((i, w) ∷ m) =
      ground (arith, o.same k i, o.reflexive k, o.same j k, o.same j i, get-insert k j v m)

  pub get-hash_insert :
      (k j : K) (v : V) (m : Entries K V)
      → get j (hash_insert k v m) ≡ (if same_key j k then some v else get j m)
  unfolding get hash_insert
  get-hash_insert k j v [] = refl
  get-hash_insert k j v ((i, w) ∷ m) =
      ground (arith, o.same k i, o.reflexive k, o.same j k, o.same j i, get-hash_insert k j v m)

  pub get-remove :
      (k j : K) (m : Entries K V) → get j (remove k m) ≡ (if same_key j k then none else get j m)
  unfolding get remove
  get-remove k j [] = ground arith
  get-remove k j ((i, w) ∷ m) =
      ground (arith, o.same k i, o.reflexive k, o.same j k, o.same j i, get-remove k j m)

  pub contains_key-get : (k : K) (m : Entries K V) → contains_key k m ≡ is_some (get k m)
  unfolding get contains_key
  contains_key-get k [] = refl
  contains_key-get k ((j, v) ∷ m) = ground (arith, contains_key-get k m)
