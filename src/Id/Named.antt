-- ===== src/Id/Named.antt =====
-- What the parser of a backend's identifier, in src/id.rs, makes of any text.
use seabird_core.Prelude.{
  ◌≡◌, refl, Text, text, Option, none, some, Result, ok, err, ◌⊎◌, inl, inr, Option-cases,
}
use seabird_core.Id.Percent.{PercentEncoding}
use seabird_core.Id.Split.First.{FirstAt, Absent, Parts, whole, apart, splitn_2-Parts}
use seabird_core.Id.{
  BackendId, ParseError, missing_id, invalid_utf8, parse_backend_id, decode, parse_backend_parts,
}

module _ (p : PercentEncoding) where
  open p use {percent_decode}

  -- The result of parsing a text as a backend's identifier: its scheme ends at the first "://".
  pub data Named (s : Text) : Result ParseError BackendId → Type 0 where
    unnamed : Absent (text "://") s → Named s (err missing_id)
    undecoded :
        {scheme id : Text}
        → FirstAt (text "://") s scheme id
        → (percent_decode scheme ≡ none) ⊎ (percent_decode id ≡ none)
        → Named s (err invalid_utf8)
    named :
        {scheme id : Text} {b : BackendId}
        → FirstAt (text "://") s scheme id
        → percent_decode scheme ≡ some b.scheme
        → percent_decode id ≡ some b.id
        → Named s (ok b)

  pub decode-some : (s t : Text) → percent_decode s ≡ some t → decode p s ≡ ok t
  unfolding decode
  decode-some s t e = rw (e, decode) refl

  pub decode-none : (s : Text) → percent_decode s ≡ none → decode p s ≡ err invalid_utf8
  unfolding decode
  decode-none s e = rw (e, decode) refl

  decoded_id :
      (s scheme id : Text)
      → FirstAt (text "://") s scheme id
      → Named s (parse_backend_parts p (some scheme, some id))
  unfolding parse_backend_parts
  decoded_id s scheme id f = elim (Option-cases (percent_decode scheme)) [
    | inl e ↦ rw (decode-none scheme e) (undecoded f (inl e))
    | inr (a, e) ↦ elim (Option-cases (percent_decode id)) [
      | inl h ↦ rw (decode-some scheme a e, decode-none id h) (undecoded f (inr h))
      | inr (b, h) ↦ rw (decode-some scheme a e, decode-some id b h) (named f e h)
    ]
  ]

  id_after :
      (s : Text) (parts : Option Text × Option Text)
      → Parts (text "://") s parts
      → Named s (parse_backend_parts p parts)
  unfolding parse_backend_parts
  id_after s _ (whole a) = unnamed a
  id_after s _ (apart {before = scheme} {after = id} f) = decoded_id s scheme id f

  pub parse_backend_id-Named : (s : Text) → Named s (parse_backend_id p s)
  unfolding parse_backend_id
  parse_backend_id-Named s = id_after s _ (splitn_2-Parts (text "://") s)
