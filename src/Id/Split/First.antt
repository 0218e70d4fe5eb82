-- ===== src/Id/Split/First.antt =====
-- `splitn(2, sep)` splits at the first separator.
use seabird_core.Prelude.{
  ◌≡◌, refl, [], ◌∷◌, ◌++◌, Option, none, some, Text, arith, ◌≤◌, length, Option-cases, inl, inr,
}
use seabird_core.Id.Split.{splitn_2, split_once, strip_prefix}
use seabird_core.Id.Split.Laws.{split_once_sound, split_once-none, strip_prefix-append}

pub record FirstAt (sep s before after : Text) : Type 0 where
  pub split : s ≡ before ++ (sep ++ after)
  pub first : (a b : Text) → s ≡ a ++ (sep ++ b) → length before ≤ length a

abbrev pub Absent : Text → Text → Type 0
Absent sep s = (a b : Text) → ¬ (s ≡ a ++ (sep ++ b))

pub data Parts (sep s : Text) : Option Text × Option Text → Type 0 where
  whole : Absent sep s → Parts sep s (some s, none)
  apart : {before after : Text} → FirstAt sep s before after → Parts sep s (some before, some after)

starts : (sep s b : Text) → s ≡ sep ++ b → strip_prefix sep s ≡ some b
starts sep s b h = rw h (strip_prefix-append sep b)

-- Where a separator is, or before it, the text is split.
split_once-found :
    (sep s a b : Text)
    → s ≡ a ++ (sep ++ b)
    → (after : Text) × ((split_once sep s).1 ≡ some after)
      × (length (split_once sep s).0 ≤ length a)
unfolding split_once
split_once-found sep [] [] b h = (b, starts sep [] b h, omega arith)
split_once-found sep [] (x ∷ a) b h = absurd (cc)
split_once-found sep (c ∷ s) [] b h =
    (b, ground (arith, starts sep (c ∷ s) b h), ground (arith, starts sep (c ∷ s) b h))
split_once-found sep (c ∷ s) (x ∷ a) b h = elim (Option-cases (strip_prefix sep (c ∷ s))) [
  | inl e ↦
      let (after, q, l) = split_once-found sep s a b (cc) in
      (after, ground (arith, e, q), ground (arith, e, l))
  | inr (rest, e) ↦ (rest, ground (arith, e), ground (arith, e))
]

pub splitn_2-Parts : (sep s : Text) → Parts sep s (splitn_2 sep s)
unfolding splitn_2
splitn_2-Parts sep s = from (split_once sep s) refl
  where
    from : (p : Text × Option Text) → split_once sep s ≡ p → Parts sep s (some p.0, p.1)
    from (before, none) e =
        rw (← split_once-none sep s before e)
          (whole λ a b h. cc (e, (split_once-found sep s a b h).1))
    from (before, some after) e = apart (record {
      split = split_once_sound sep s before after e;
      first = λ a b h. let (k, q, l) = split_once-found sep s a b h in rw e at l;
    })
