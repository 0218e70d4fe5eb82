-- ===== src/Tests/Samples.antt =====
-- Stand-ins for the crates: a percent encoding and a header map that obey the laws asked of them.
use mathlib.Core.Bool.{true, false}
use native.Mathlib.Nat.{zero-add}
use seabird_core.Prelude.{
  ◌⊎◌, ℕ, zero, suc, ◌+◌, ◌≡◌, ◌≢◌, refl, ap, ◌∙◌, Text, Option, none, some, [], ◌∷◌, All, arith,
  get, hash_insert, get-hash_insert, Entries, text_ord, same_key, same_key-eq, same_key_refl,
  Bool-cases, inl, inr, ◌==◌, if◌then◌else◌,
}
use seabird_core.Id.Percent.{PercentEncoding, IsPlain}
use seabird_core.Id.Percent
use seabird_core.Auth.Headers.{HeaderMap}
use seabird_core.Auth.Headers

-- A code point `n` is written as `n` ones and a percent sign.
ones : ℕ → Text → Text
ones zero s = b'%' ∷ s
ones (suc n) s = b'1' ∷ ones n s

unfoldable pub encode : Text → Text
unfolding ones
encode [] = []
encode (c ∷ s) = ones c (encode s)

abbrev bind_cons : ℕ → Option Text → Option Text
bind_cons n none = none
bind_cons n (some s) = some (n ∷ s)

-- `n` ones were read.
decode_from : ℕ → Text → Option Text
decode_from n [] = if n == 0 then some [] else none
decode_from n (c ∷ s) = elim (c == b'%') [
  | true ↦ bind_cons n (decode_from 0 s)
  | false ↦ decode_from (suc n) s
]

unfoldable pub decode : Text → Option Text
unfolding decode_from
decode = decode_from 0

decode-ones :
    (k n : ℕ) (s t : Text)
    → decode_from 0 s ≡ some t
    → decode_from k (ones n s) ≡ some ((k + n) ∷ t)
unfolding decode_from ones
decode-ones k zero s t h = ground (arith, h)
decode-ones k (suc n) s t h = ground (arith, decode-ones (suc k) n s t h)

decode-encode : (s : Text) → decode (encode s) ≡ some s
unfolding decode encode
decode-encode [] = refl
decode-encode (c ∷ s) =
    decode-ones 0 c (encode s) s (decode-encode s) ∙ ap (λ n. some (n ∷ s)) (zero-add c)

ones-IsPlain : (n : ℕ) (s : Text) → All IsPlain s → All IsPlain (ones n s)
unfolding ones
ones-IsPlain zero s h = (record { ne_colon = omega arith; ne_slash = omega arith }, h)
ones-IsPlain (suc n) s h =
    (record { ne_colon = omega arith; ne_slash = omega arith }, ones-IsPlain n s h)

encode-IsPlain : (s : Text) → All IsPlain (encode s)
unfolding encode
encode-IsPlain [] = tt
encode-IsPlain (c ∷ s) = ones-IsPlain c (encode s) (encode-IsPlain s)

abbrev pub codec : PercentEncoding
codec = record { percent_encode = encode; percent_decode = decode }

pub codec-Laws : Percent.Laws codec
codec-Laws = record { decode-encode = decode-encode; encode-IsPlain = encode-IsPlain }

-- Headers as a map from names to texts.
abbrev pub headers : HeaderMap
headers = record {
  Headers = Entries Text Text;
  HeaderValue = Text;
  header = λ k h. get k h;
  insert_header = λ k v h. hash_insert k v h;
  to_str = λ v. some v;
  from_str = λ s. some s;
}

pub headers-Laws : Headers.Laws headers
headers-Laws = record {
  header-insert_self = λ k v h. ground (arith, get-hash_insert k k v h, same_key_refl k);
  header-insert_ne = λ j k v h n. other j k v h n (Bool-cases (same_key j k));
}
  where
    other :
        (j k v : Text) (h : Entries Text Text)
        → j ≢ k
        → (same_key j k ≡ true) ⊎ (same_key j k ≡ false)
        → get j (hash_insert k v h) ≡ get j h
    other j k v h n (inl e) = absurd (n (same_key-eq j k e))
    other j k v h n (inr e) = ground (arith, get-hash_insert k j v h, e)
