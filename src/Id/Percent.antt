-- ===== src/Id/Percent.antt =====
-- The crate `percent_encoding`, as src/id.rs uses it: `percent_encode` with the set
-- NON_ALPHANUMERIC, and `percent_decode` followed by `decode_utf8`, which fails on bytes that are
-- no UTF-8. It is a parameter, with its documented behaviour as `Laws`.
use seabird_core.Prelude.{ℕ, ◌≡◌, ◌≢◌, Option, some, Text, All}

pub record PercentEncoding : Type 0 where
  pub percent_encode : Text → Text
  pub percent_decode : Text → Option Text

-- The encoding holds only ASCII letters, digits and `%`, so neither `:` nor `/`.
pub record IsPlain (c : ℕ) : Type 0 where
  pub ne_colon : c ≢ b':'
  pub ne_slash : c ≢ b'/'

-- Decoding undoes encoding, and the encoding is plain.
pub record Laws (p : PercentEncoding) : Type 0 where
  pub decode-encode : (s : Text) → p.percent_decode (p.percent_encode s) ≡ some s
  pub encode-IsPlain : (s : Text) → All IsPlain (p.percent_encode s)
