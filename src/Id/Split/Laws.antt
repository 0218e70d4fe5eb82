-- ===== src/Id/Split/Laws.antt =====
-- What `splitn(2, sep)` yields: a separator that the text before it cannot hold is found, and what is
-- found is a separator.
use seabird_core.Prelude.{
  ℕ, ◌≡◌, ◌≢◌, refl, [], ◌∷◌, ◌++◌, none, some, Text, All, arith, Option-cases, inl, inr,
}
use seabird_core.Id.Split.{split_once, strip_prefix}

-- A text without the first character of the separator is not split.
abbrev pub Free : ℕ → Text → Type 0
Free c s = All (λ x. x ≢ c) s

pub strip_prefix-append : (sep rest : Text) → strip_prefix sep (sep ++ rest) ≡ some rest
unfolding strip_prefix
strip_prefix-append [] rest = refl
strip_prefix-append (x ∷ sep) rest = ground (arith, strip_prefix-append sep rest)

pub split_once-Free :
    (c : ℕ) (cs before after : Text)
    → Free c before
    → split_once (c ∷ cs) (before ++ ((c ∷ cs) ++ after)) ≡ (before, some after)
unfolding split_once
split_once-Free c cs [] after f = rw (strip_prefix-append (c ∷ cs) after) refl
split_once-Free c cs (x ∷ before) after f =
    ground (arith, f.0, split_once-Free c cs before after f.1)

pub split_once-whole : (c : ℕ) (cs s : Text) → Free c s → split_once (c ∷ cs) s ≡ (s, none)
unfolding split_once
split_once-whole c cs [] f = refl
split_once-whole c cs (x ∷ s) f = ground (arith, f.0, split_once-whole c cs s f.1)

strip_prefix_sound : (sep s rest : Text) → strip_prefix sep s ≡ some rest → s ≡ sep ++ rest
unfolding strip_prefix
strip_prefix_sound [] s rest h = cc
strip_prefix_sound (c ∷ cs) [] rest h = cc
strip_prefix_sound (c ∷ cs) (x ∷ xs) rest h = ground (arith, strip_prefix_sound cs xs rest)

-- The two parts, with the separator between them, are the text.
pub split_once_sound :
    (sep s before after : Text)
    → split_once sep s ≡ (before, some after)
    → s ≡ before ++ (sep ++ after)
unfolding split_once
split_once_sound sep [] before after h = ground (arith, strip_prefix_sound sep [] after)
split_once_sound sep (c ∷ s) before after h = elim (Option-cases (strip_prefix sep (c ∷ s))) [
  | inl e ↦ ground (arith, e, split_once_sound sep s (split_once sep s).0 after)
  | inr (rest, e) ↦ ground (arith, e, strip_prefix_sound sep (c ∷ s) after)
]

-- Without a second part, the first is all of it.
pub split_once-none : (sep s before : Text) → split_once sep s ≡ (before, none) → s ≡ before
unfolding split_once
split_once-none sep [] before h = ground arith
split_once-none sep (c ∷ s) before h = elim (Option-cases (strip_prefix sep (c ∷ s))) [
  | inl e ↦ ground (arith, e, split_once-none sep s (split_once sep s).0)
  | inr (rest, e) ↦ ground (arith, e)
]
