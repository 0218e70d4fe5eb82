-- ===== src/Id/Split.antt =====
-- `str::splitn(2, sep)`, of which src/id.rs and src/server/auth.rs take the first two items.
pub mod Laws
pub mod First
use seabird_core.Prelude.{ℕ, [], ◌∷◌, Option, none, some, Text, ◌==◌, if◌then◌else◌}

unfoldable pub strip_prefix : Text → Text → Option Text
strip_prefix [] s = some s
strip_prefix (c ∷ cs) [] = none
strip_prefix (c ∷ cs) (x ∷ xs) = if c == x then strip_prefix cs xs else none

-- The text before the separator, and that after it.
before_after : Option Text → ℕ → Text × Option Text → Text × Option Text
before_after (some rest) c later = ([], some rest)
before_after none c (before, after) = (c ∷ before, after)

unfoldable pub split_once : Text → Text → Text × Option Text
unfolding before_after strip_prefix
split_once sep [] = ([], strip_prefix sep [])
split_once sep (c ∷ s) = before_after (strip_prefix sep (c ∷ s)) c (split_once sep s)

-- The first two items of `splitn(2, sep)`: the first is always there.
unfoldable pub splitn_2 : Text → Text → Option Text × Option Text
unfolding split_once
splitn_2 sep s = let (first, second) = split_once sep s in (some first, second)
