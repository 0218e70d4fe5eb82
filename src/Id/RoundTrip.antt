-- ===== src/Id/RoundTrip.antt =====
-- The text form of an identifier is parsed back to it, and texts that are no identifier are refused.
use seabird_core.Prelude.{
  ◌≡◌, refl, [], ◌∷◌, ◌++◌, none, some, Text, text, All, ok, err, append_assoc,
}
use seabird_core.Id.Percent.{PercentEncoding, Laws, IsPlain}
use seabird_core.Id.Split.{splitn_2}
use seabird_core.Id.Split.Laws.{Free, split_once-Free, split_once-whole}
use seabird_core.Id.{
  BackendId, FullId, missing_path, show_backend_id, show_full_id, parse_backend_id, parse_full_id,
  decode,
}

no_colon : (s : Text) → All IsPlain s → Free b':' s
no_colon [] h = tt
no_colon (x ∷ s) h = (h.0.ne_colon, no_colon s h.1)

no_slash : (s : Text) → All IsPlain s → Free b'/' s
no_slash [] h = tt
no_slash (x ∷ s) h = (h.0.ne_slash, no_slash s h.1)

module _ (p : PercentEncoding) (laws : Laws p) where
  open p use {percent_encode}

  decode-percent_encode : (s : Text) → decode p (percent_encode s) ≡ ok s
  unfolding decode
  decode-percent_encode s = rw (laws.decode-encode s, decode)

  split_scheme :
      (s rest : Text)
      → splitn_2 (text "://") (percent_encode s ++ (text "://" ++ rest))
        ≡ (some (percent_encode s), some rest)
  unfolding splitn_2 text
  split_scheme s rest =
      rw
        (split_once-Free b':' (b'/' ∷ b'/' ∷ []) (percent_encode s) rest
          (no_colon _ (laws.encode-IsPlain s)))
        refl

  split_path :
      (s rest : Text)
      → splitn_2 (text "/") (percent_encode s ++ (text "/" ++ rest))
        ≡ (some (percent_encode s), some rest)
  unfolding splitn_2 text
  split_path s rest =
      rw (split_once-Free b'/' [] (percent_encode s) rest (no_slash _ (laws.encode-IsPlain s))) refl

  -- A backend's identifier, printed and parsed, is the same identifier.
  pub parse_backend_id-show : (b : BackendId) → parse_backend_id p (show_backend_id p b) ≡ ok b
  unfolding parse_backend_id show_backend_id
  parse_backend_id-show b = simp (split_scheme, decode-percent_encode)

  -- A full identifier, printed and parsed, is the same identifier.
  pub parse_full_id-show : (f : FullId) → parse_full_id p (show_full_id p f) ≡ ok f
  unfolding parse_full_id show_full_id show_backend_id
  parse_full_id-show f = simp (append_assoc, split_scheme, split_path, decode-percent_encode)

  unsplit : (s : Text) → splitn_2 (text "/") (percent_encode s) ≡ (some (percent_encode s), none)
  unfolding splitn_2 text
  unsplit s =
      rw (split_once-whole b'/' [] (percent_encode s) (no_slash _ (laws.encode-IsPlain s))) refl

  -- A backend's identifier is no full identifier: the path part is missing.
  pub parse_full_id-show_backend_id :
      (b : BackendId) → parse_full_id p (show_backend_id p b) ≡ err missing_path
  unfolding parse_full_id show_backend_id
  parse_full_id-show_backend_id b = simp (split_scheme, unsplit)
