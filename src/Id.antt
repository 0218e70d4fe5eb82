-- ===== src/Id.antt =====
-- src/id.rs: identifiers of chat backends and of what belongs to one, their text form and its parser.
pub mod Percent
pub mod Split
pub mod RoundTrip
pub mod Named
pub mod Outcome
use seabird_core.Prelude.{
  Text, text, Result, ok, err, map_err, Option, none, some, ◌++◌, Ord, text_ord, and_next, cmp_text,
  ◌≡◌, refl, ap, arith,
}
use Prim.Native.Nat.{Ordering}
use Prim.Native.Nat.Ordering.{lt, eq, gt}
use Percent.{PercentEncoding}
use Split.{splitn_2}

pub record BackendId : Type 0 where
  pub scheme : Text
  pub id : Text

pub record FullId : Type 0 where
  pub backend : BackendId
  pub path : Text

unfoldable pub into_inner : FullId → BackendId × Text
into_inner f = (f.backend, f.path)

unfoldable pub relative : BackendId → Text → FullId
relative b path = record { backend = b; path = path }

-- The `anyhow` errors of the two parsers, and that of `decode_utf8`.
pub data ParseError : Type 0 where
  missing_id invalid_id missing_path invalid_utf8 : ParseError

-- The derived `Ord`: by `scheme`, then by `id`.
unfoldable pub cmp_backend_id : BackendId → BackendId → Ordering
cmp_backend_id a b = and_next (cmp_text a.scheme b.scheme) (cmp_text a.id b.id)

cmp_backend_id-same : (a b : BackendId) → cmp_backend_id a b ≡ eq → a ≡ b
unfolding cmp_backend_id text_ord
cmp_backend_id-same a b h = ground (arith, text_ord.same a.scheme b.scheme, text_ord.same a.id b.id)

cmp_backend_id-refl : (a : BackendId) → cmp_backend_id a a ≡ eq
unfolding cmp_backend_id text_ord
cmp_backend_id-refl a = ground (arith, text_ord.reflexive a.scheme, text_ord.reflexive a.id)

cmp_backend_id-flip : (a b : BackendId) → cmp_backend_id a b ≡ gt → cmp_backend_id b a ≡ lt
unfolding cmp_backend_id text_ord
cmp_backend_id-flip a b h = ground (
  arith,
  text_ord.same a.scheme b.scheme,
  text_ord.reflexive a.scheme,
  text_ord.flip_gt a.scheme b.scheme,
  text_ord.flip_gt a.id b.id,
)

cmp_backend_id-trans :
    (a b c : BackendId)
    → cmp_backend_id a b ≡ lt
    → cmp_backend_id b c ≡ lt
    → cmp_backend_id a c ≡ lt
unfolding cmp_backend_id text_ord
cmp_backend_id-trans a b c h k = ground (
  arith,
  text_ord.same a.scheme b.scheme,
  text_ord.same b.scheme c.scheme,
  text_ord.transitive a.scheme b.scheme c.scheme,
  text_ord.transitive a.id b.id c.id,
)

instance unfoldable pub backend_id_ord : Ord BackendId
unfolding cmp_backend_id cmp_backend_id-same cmp_backend_id-refl cmp_backend_id-flip
    cmp_backend_id-trans
backend_id_ord = record {
  cmp = cmp_backend_id;
  same = cmp_backend_id-same;
  reflexive = cmp_backend_id-refl;
  flip_gt = cmp_backend_id-flip;
  transitive = cmp_backend_id-trans;
}

module _ (p : PercentEncoding) where
  open p use {percent_encode, percent_decode}

  -- `impl Display for BackendId`
  unfoldable pub show_backend_id : BackendId → Text
  show_backend_id b = percent_encode b.scheme ++ (text "://" ++ percent_encode b.id)

  -- `impl Display for FullId`
  unfoldable pub show_full_id : FullId → Text
  show_full_id f = show_backend_id f.backend ++ (text "/" ++ percent_encode f.path)

  -- `percent_decode(s).decode_utf8()?.into_owned()`
  unfoldable pub decode : Text → Result ParseError Text
  decode s = elim (percent_decode s) [ none ↦ err invalid_utf8 | some t ↦ ok t ]

  infixl 10 ◌>>=◌
  abbrev ◌>>=◌ :
      {A B : Type 0} → Result ParseError A → (A → Result ParseError B) → Result ParseError B
  ok a >>= f = f a
  err e >>= f = err e

  parse_backend_parts : Option Text × Option Text → Result ParseError BackendId
  parse_backend_parts (some scheme, some id) = do
    s ← decode scheme
    i ← decode id
    ok (record { scheme = s; id = i })
  parse_backend_parts (some scheme, none) = err missing_id
  parse_backend_parts (none, second) = err invalid_id

  -- `impl FromStr for BackendId`
  unfoldable pub parse_backend_id : Text → Result ParseError BackendId
  unfolding parse_backend_parts
  parse_backend_id s = parse_backend_parts (splitn_2 (text "://") s)

  parse_path_parts : Text → Option Text × Option Text → Result ParseError FullId
  parse_path_parts scheme (some id, some rel) = do
    s ← decode scheme
    i ← decode id
    r ← decode rel
    ok (record { backend = record { scheme = s; id = i }; path = r })
  parse_path_parts scheme (some id, none) = err missing_path
  parse_path_parts scheme (none, second) = err missing_id

  parse_full_parts : Option Text × Option Text → Result ParseError FullId
  parse_full_parts (some scheme, some id) = parse_path_parts scheme (splitn_2 (text "/") id)
  parse_full_parts (some scheme, none) = err missing_id
  parse_full_parts (none, second) = err invalid_id

  -- `impl FromStr for FullId`
  unfoldable pub parse_full_id : Text → Result ParseError FullId
  unfolding parse_full_parts parse_path_parts
  parse_full_id s = parse_full_parts (splitn_2 (text "://") s)
