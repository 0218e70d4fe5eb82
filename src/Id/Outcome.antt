-- ===== src/Id/Outcome.antt =====
-- What the parsers of src/id.rs make of any text.
use seabird_core.Prelude.{
  ◌≡◌, Text, text, Option, none, some, Result, ok, err, ◌⊎◌, inl, inr, Option-cases,
}
use seabird_core.Id.Percent.{PercentEncoding}
use seabird_core.Id.Named.{Named, parse_backend_id-Named, decode-some, decode-none}
use seabird_core.Id.Split.First.{FirstAt, Absent, Parts, whole, apart, splitn_2-Parts}
use seabird_core.Id.{
  FullId, ParseError, missing_id, missing_path, invalid_utf8, parse_backend_id, parse_full_id,
  parse_full_parts, parse_path_parts,
}

module _ (p : PercentEncoding) where
  open p use {percent_decode}

  -- The result of parsing a text as a full identifier: its scheme ends at the first "://", and the
  -- identifier at the first slash after that.
  pub data Parsed (s : Text) : Result ParseError FullId → Type 0 where
    no_scheme : Absent (text "://") s → Parsed s (err missing_id)
    no_path :
        {scheme rest : Text}
        → FirstAt (text "://") s scheme rest
        → Absent (text "/") rest
        → Parsed s (err missing_path)
    no_utf8 :
        {scheme rest id path : Text}
        → FirstAt (text "://") s scheme rest
        → FirstAt (text "/") rest id path
        → (percent_decode scheme ≡ none) ⊎ (percent_decode id ≡ none) ⊎ (percent_decode path ≡ none)
        → Parsed s (err invalid_utf8)
    parsed :
        {scheme rest id path : Text} {f : FullId}
        → FirstAt (text "://") s scheme rest
        → FirstAt (text "/") rest id path
        → percent_decode scheme ≡ some f.backend.scheme
        → percent_decode id ≡ some f.backend.id
        → percent_decode path ≡ some f.path
        → Parsed s (ok f)

  decoded :
      (s scheme rest id path : Text)
      → FirstAt (text "://") s scheme rest
      → FirstAt (text "/") rest id path
      → Parsed s (parse_path_parts p scheme (some id, some path))
  unfolding parse_path_parts
  decoded s scheme rest id path f g = elim (Option-cases (percent_decode scheme)) [
    | inl e ↦ rw (decode-none p scheme e) (no_utf8 f g (inl e))
    | inr (a, e) ↦ elim (Option-cases (percent_decode id)) [
      | inl h ↦ rw (decode-some p scheme a e, decode-none p id h) (no_utf8 f g (inr (inl h)))
      | inr (b, h) ↦ elim (Option-cases (percent_decode path)) [
        | inl k ↦
            rw (decode-some p scheme a e, decode-some p id b h, decode-none p path k)
              (no_utf8 f g (inr (inr k)))
        | inr (c, k) ↦
            rw (decode-some p scheme a e, decode-some p id b h, decode-some p path c k)
              (parsed f g e h k)
      ]
    ]
  ]

  with_path :
      (s scheme rest : Text) (parts : Option Text × Option Text)
      → FirstAt (text "://") s scheme rest
      → Parts (text "/") rest parts
      → Parsed s (parse_path_parts p scheme parts)
  unfolding parse_path_parts
  with_path s scheme rest _ f (whole a) = no_path f a
  with_path s scheme rest _ f (apart {before = id} {after = path} g) =
      decoded s scheme rest id path f g

  with_scheme :
      (s : Text) (parts : Option Text × Option Text)
      → Parts (text "://") s parts
      → Parsed s (parse_full_parts p parts)
  unfolding parse_full_parts
  with_scheme s _ (whole a) = no_scheme a
  with_scheme s _ (apart {before = scheme} {after = rest} f) =
      with_path s scheme rest _ f (splitn_2-Parts (text "/") rest)

  full_id-Parsed : (s : Text) → Parsed s (parse_full_id p s)
  unfolding parse_full_id
  full_id-Parsed s = with_scheme s _ (splitn_2-Parts (text "://") s)

  -- What parsing any text gives. As a backend's identifier: the one whose parts are the decoded texts
  -- before and after the first "://". As a full identifier: the one whose parts are the decoded texts
  -- before the first "://", between it and the first slash after it, and after that slash. Each
  -- parser fails for a missing identifier exactly if there is no "://", that of full identifiers for
  -- a missing path if there is no slash after it, and both for invalid UTF-8 if a part does not
  -- decode.
  pub parse_id-Parsed : (s : Text) → Named p s (parse_backend_id p s) × Parsed s (parse_full_id p s)
  parse_id-Parsed s = (parse_backend_id-Named p s, full_id-Parsed s)
