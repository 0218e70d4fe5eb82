-- ===== src/Auth/Service/Outcome.antt =====
-- What every caller of the middleware in src/server/auth.rs gets: the inner service's answer, or the
-- status of a refusal.
use seabird_core.Prelude.{
  Text, text, ◌≡◌, ◌≢◌, refl, false, ap, ◌∙◌, ◌⊎◌, ◌++◌, Option, none, some, List, Result, ok, err,
  Status, text_ord, same_key, same_key-eq, same_key_refl, arith, Bool-cases, Option-cases, inl, inr,
}
use seabird_core.Id.Split.{split_once, splitn_2}
use seabird_core.Id.Split.Laws.{split_once_sound, split_once-none}
use seabird_core.Auth.{
  AuthToken, select_token, get_auth_token, row_name, token_name, header_name, call, x_auth_username,
  authorization,
}
use seabird_core.Auth.Headers.{HeaderMap}
use seabird_core.Auth.Admission.{
  Admission, call_admits, join_bearer, select_token-some, select_token-none,
}
use seabird_core.Auth.Service.Refusals.{
  Sends, Refusal, no_header, unreadable, no_token, other_method, no_rows, unknown_token, bad_name,
  unreadable_name,
}
use seabird_core.Auth.Service.{AuthedService, serve}

module _ (m : HeaderMap) where
  open m use {Headers, HeaderValue, header, insert_header, to_str, from_str}

  -- What becomes of a caller.
  Verdict : Result Text (List AuthToken) → Headers → Type 0
  Verdict db headers =
      Admission m db headers ⊎ ((e : Status) × Refusal m db headers e × (call m db headers ≡ err e))

  header_name-Sends :
      (db : Result Text (List AuthToken)) (headers : Headers) (s : Text)
      → Sends m headers s
      → header_name m db (header authorization headers) ≡ token_name m db (splitn_2 (text " ") s)
  unfolding header_name
  header_name-Sends db headers s q = ground (arith, q.sent, q.reads)

  header_name-token :
      (db : Result Text (List AuthToken)) (headers : Headers) (token : Text)
      → Sends m headers (text "Bearer" ++ (text " " ++ token))
      → header_name m db (header authorization headers) ≡ row_name m (get_auth_token db token)
  unfolding token_name
  header_name-token db headers token s =
      ground (
        arith,
        header_name-Sends db headers _ s,
        join_bearer m token,
        same_key_refl (text "Bearer"),
      )

  -- A caller with the token of a row.
  row-Verdict :
      (rows : List AuthToken) (headers : Headers) (token : Text) (row : AuthToken)
      → Sends m headers (text "Bearer" ++ (text " " ++ token))
      → select_token token rows ≡ some row
      → Verdict (ok rows) headers
  unfolding Verdict row_name get_auth_token call
  row-Verdict rows headers token row s q =
      let same = header_name-token (ok rows) headers token s in
      let (key, listed) = select_token-some token rows row q in
      elim (Option-cases (from_str row.name)) [
        | inl none_name ↦ inr (
          _,
          bad_name token rows row s refl listed key none_name,
          ground (arith, same, q, none_name),
        )
        | inr (name, named) ↦ elim (Option-cases (to_str name)) [
          | inl none_text ↦ inr (
            _,
            unreadable_name token rows row name s refl listed key named none_text,
            ground (arith, same, q, named, none_text),
          )
          | inr (username, readable) ↦ inl (record {
            value = s.value;
            sent = s.sent;
            token = token;
            bearer = s.reads;
            rows = rows;
            read = refl;
            row = row;
            found = q;
            key = key;
            listed = listed;
            name = name;
            named = named;
            username = username;
            readable = readable;
          })
        ]
      ]

  token-Verdict :
      (db : Result Text (List AuthToken)) (headers : Headers) (token : Text)
      → Sends m headers (text "Bearer" ++ (text " " ++ token))
      → Verdict db headers
  unfolding Verdict row_name get_auth_token call
  token-Verdict (err why) headers token s =
      inr (_, no_rows token why s refl, ground (arith, header_name-token (err why) headers token s))
  token-Verdict (ok rows) headers token s = elim (Option-cases (select_token token rows)) [
    | inl q ↦ inr (
      _,
      unknown_token token rows s refl (select_token-none token rows q),
      ground (arith, header_name-token (ok rows) headers token s, q),
    )
    | inr (row, q) ↦ row-Verdict rows headers token row s q
  ]

  other_key : (method : Text) → same_key method (text "Bearer") ≡ false → method ≢ text "Bearer"
  other_key method n p = ground (arith, n, p, same_key_refl (text "Bearer"))

  other_method-Verdict :
      (db : Result Text (List AuthToken)) (headers : Headers) (s method : Text)
      (second : Option Text)
      → Sends m headers s
      → splitn_2 (text " ") s ≡ (some method, second)
      → same_key method (text "Bearer") ≡ false
      → Verdict db headers
  unfolding Verdict token_name call
  other_method-Verdict db headers s method none q e n = inr (
    _,
    other_method s method none q e (other_key method n),
    ground (arith, header_name-Sends db headers s q, e, n),
  )
  other_method-Verdict db headers s method (some second) q e n = inr (
    _,
    other_method s method (some second) q e (other_key method n),
    ground (arith, header_name-Sends db headers s q, e, n),
  )

  -- A caller whose header holds the text `s`, split in two at the first space.
  parts-Verdict :
      (db : Result Text (List AuthToken)) (headers : Headers) (s first : Text)
      (second : Option Text)
      → Sends m headers s
      → split_once (text " ") s ≡ (first, second)
      → Verdict db headers
  unfolding Verdict token_name call splitn_2
  parts-Verdict db headers s first none q e = elim (Bool-cases (same_key first (text "Bearer"))) [
    | inl same ↦
        let whole : s ≡ text "Bearer" =
          split_once-none (text " ") s first e ∙ same_key-eq first (text "Bearer") same in
        inr (_, no_token (rw whole at q), ground (arith, header_name-Sends db headers s q, e, same))
    | inr other ↦ other_method-Verdict db headers s first none q (ap (λ r. (some r.0, r.1)) e) other
  ]
  parts-Verdict db headers s first (some token) q e =
      elim (Bool-cases (same_key first (text "Bearer"))) [
        | inl same ↦
            let parts : s ≡ text "Bearer" ++ (text " " ++ token) =
              split_once_sound (text " ") s (text "Bearer") token
                (rw (same_key-eq first (text "Bearer") same) at e) in
            token-Verdict db headers token (rw parts at q)
        | inr other ↦
            other_method-Verdict db headers s first (some token) q (ap (λ r. (some r.0, r.1)) e)
              other
      ]

  verdict : (db : Result Text (List AuthToken)) (headers : Headers) → Verdict db headers
  unfolding Verdict header_name call
  verdict db headers = elim (Option-cases (header authorization headers)) [
    | inl absent ↦ inr (_, no_header absent, ground (arith, absent))
    | inr (value, sent) ↦ elim (Option-cases (to_str value)) [
      | inl opaque ↦ inr (_, unreadable value sent opaque, ground (arith, sent, opaque))
      | inr (s, reads) ↦
          parts-Verdict db headers s _ _ (record { value = value; sent = sent; reads = reads }) refl
    ]
  ]

  -- A caller with `Bearer` and the key of a row gets what the inner service answers, and that service
  -- sees the caller's headers with the row's name under `x-auth-username`; every other caller gets a
  -- response with the status of the reason `Refusal`, whatever the inner service is. No caller is both
  -- admitted and refused.
  pub serve-Outcome :
      (s : AuthedService m) (headers : Headers)
      → ((a : Admission m s.db headers) × (serve m s headers
            ≡ s.inner.respond (insert_header x_auth_username a.name headers)))
        ⊎ ((e : Status) × Refusal m s.db headers e
            × (serve m s headers ≡ ok (s.inner.to_http e))
            × ¬ Admission m s.db headers)
  unfolding serve Verdict
  serve-Outcome s headers = elim (verdict s.db headers) [
    | inl a ↦ inl (a, rw (call_admits m s.db headers a) refl)
    | inr (e, why, c) ↦ inr (e, why, rw c refl, λ a. cc (c, call_admits m s.db headers a))
  ]
