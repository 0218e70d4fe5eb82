-- ===== src/Prelude/Order.antt =====
-- `Ord`, by which `BTreeMap` sorts: of `String`, and the derived one of a struct of two fields.
use Prim.Native.Nat.{compare, Ordering}
use Prim.Native.Nat.Ordering.{lt, eq, gt}
use mathlib.Core.Path.{◌≡◌, refl}
use mathlib.Core.Bool.{Bool, true, false}
use mathlib.Core.List.{[], ◌∷◌}
use native.Mathlib.Omega.{arith}
use seabird_core.Prelude.Basic.{Text}

-- `cmp` with the laws that the trait asks for.
pub record Ord {ℓ} (K : Type ℓ) : Type ℓ where
  pub cmp : K → K → Ordering
  pub same : (a b : K) → cmp a b ≡ eq → a ≡ b
  pub reflexive : (a : K) → cmp a a ≡ eq
  pub flip_gt : (a b : K) → cmp a b ≡ gt → cmp b a ≡ lt
  pub transitive : (a b c : K) → cmp a b ≡ lt → cmp b c ≡ lt → cmp a c ≡ lt

abbrev pub is_eq : Ordering → Bool
is_eq eq = true
is_eq _ = false

-- `a.cmp(b).then(c.cmp(d))`
abbrev pub and_next : Ordering → Ordering → Ordering
and_next eq next = next
and_next lt next = lt
and_next gt next = gt

unfoldable pub cmp_text : Text → Text → Ordering
cmp_text [] [] = eq
cmp_text [] (y ∷ ys) = lt
cmp_text (x ∷ xs) [] = gt
cmp_text (x ∷ xs) (y ∷ ys) = and_next (compare x y) (cmp_text xs ys)

cmp_text-same : (a b : Text) → cmp_text a b ≡ eq → a ≡ b
unfolding cmp_text
cmp_text-same [] [] h = refl
cmp_text-same [] (y ∷ ys) h = cc
cmp_text-same (x ∷ xs) [] h = cc
cmp_text-same (x ∷ xs) (y ∷ ys) h = ground (arith, cmp_text-same xs ys)

cmp_text-refl : (a : Text) → cmp_text a a ≡ eq
unfolding cmp_text
cmp_text-refl [] = refl
cmp_text-refl (x ∷ xs) = ground (arith, cmp_text-refl xs)

cmp_text-flip : (a b : Text) → cmp_text a b ≡ gt → cmp_text b a ≡ lt
unfolding cmp_text
cmp_text-flip [] [] h = cc
cmp_text-flip [] (y ∷ ys) h = cc
cmp_text-flip (x ∷ xs) [] h = refl
cmp_text-flip (x ∷ xs) (y ∷ ys) h = ground (arith, cmp_text-flip xs ys)

cmp_text-trans : (a b c : Text) → cmp_text a b ≡ lt → cmp_text b c ≡ lt → cmp_text a c ≡ lt
unfolding cmp_text
cmp_text-trans a b [] h k = absurd (none_below b k)
  where
    none_below : (b : Text) → cmp_text b [] ≡ lt → ⊥
    none_below [] k = cc
    none_below (y ∷ ys) k = cc
cmp_text-trans [] b (z ∷ zs) h k = refl
cmp_text-trans (x ∷ xs) [] (z ∷ zs) h k = cc
cmp_text-trans (x ∷ xs) (y ∷ ys) (z ∷ zs) h k = ground (arith, cmp_text-trans xs ys zs)

instance unfoldable pub text_ord : Ord Text
unfolding cmp_text cmp_text-same cmp_text-refl cmp_text-flip cmp_text-trans
text_ord = record {
  cmp = cmp_text;
  same = cmp_text-same;
  reflexive = cmp_text-refl;
  flip_gt = cmp_text-flip;
  transitive = cmp_text-trans;
}
