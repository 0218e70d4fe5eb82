-- ===== src/Auth/Admission.antt =====
-- Who gets past `AuthedService::call` of src/server/auth.rs, and as whom.
use mathlib.Core.List.{Mem, mem-cons, mem-cons_self, mem-cons_of_mem, not-mem-nil}
use mathlib.Core.Logic.Or
use seabird_core.Prelude.{
  Text, text, ◌≡◌, refl, ap, ◌∙◌, ◌≢◌, [], ◌∷◌, Option, none, some, List, ◌++◌, Result, ok, err,
  status, internal, and_then-eq-ok, ok_or, text_ord, same_key, same_key-eq, same_key_refl, arith,
  Bool-cases, Option-cases, inl, inr,
}
use seabird_core.Id.Split.{splitn_2}
use seabird_core.Id.Split.Laws.{split_once_sound}
use seabird_core.Auth.{
  AuthToken, select_token, get_auth_token, extract_auth_username, row_name, token_name, header_name,
  call, x_auth_username, authorization,
}
use seabird_core.Auth.Headers.{HeaderMap, Laws}

-- The row that the table gives for a key is one of its rows, and has that key.
pub select_token-some :
    (key : Text) (rows : List AuthToken) (row : AuthToken)
    → select_token key rows ≡ some row
    → (row.key ≡ key) × Mem row rows
unfolding select_token
select_token-some key [] row h = cc
select_token-some key (r ∷ rows) row h = elim (Bool-cases (same_key r.key key)) [
  | inl e ↦
      let same : r ≡ row = ground (arith, e, h) in
      rw (← same) (same_key-eq r.key key e, mem-cons_self)
  | inr e ↦
      let (k, m) = select_token-some key rows row (ground (arith, e, h)) in (k, mem-cons_of_mem r m)
]

-- A key for which the table gives no row is the key of none.
pub select_token-none :
    (key : Text) (rows : List AuthToken)
    → select_token key rows ≡ none
    → (row : AuthToken) → Mem row rows
    → row.key ≢ key
unfolding select_token
select_token-none key [] h row m q = absurd (not-mem-nil m)
select_token-none key (r ∷ rows) h row m q = elim (Bool-cases (same_key r.key key)) [
  | inl e ↦ ground (arith, e, h)
  | inr e ↦
      Or.elim (λ x. absurd x) (mem-cons.0 m)
        (λ (same : row ≡ r). ground (arith, e, same, q, same_key_refl key))
        (λ k. select_token-none key rows (ground (arith, e, h)) row k q)
]

ok_or-eq-ok {ℓ κ} :
    {E : Type ℓ} {A : Type κ} (e : E) (o : Option A) {a : A} → ok_or e o ≡ ok a → o ≡ some a
ok_or-eq-ok e none h = cc
ok_or-eq-ok e (some b) h = cc

module _ (m : HeaderMap) where
  open m use {Headers, HeaderValue, header, insert_header, to_str, from_str}

  -- The caller's header holds `Bearer`, a space and the key of a row, whose name is a header value
  -- that reads as text.
  pub record Admission (db : Result Text (List AuthToken)) (headers : Headers) : Type 0 where
    pub value : HeaderValue
    pub sent : header authorization headers ≡ some value
    pub token : Text
    pub bearer : to_str value ≡ some (text "Bearer" ++ (text " " ++ token))
    pub rows : List AuthToken
    pub read : db ≡ ok rows
    pub row : AuthToken
    pub found : select_token token rows ≡ some row
    pub key : row.key ≡ token
    pub listed : Mem row rows
    pub name : HeaderValue
    pub named : from_str row.name ≡ some name
    pub username : Text
    pub readable : to_str name ≡ some username

  split_bearer :
      (s token : Text)
      → splitn_2 (text " ") s ≡ (some (text "Bearer"), some token)
      → s ≡ text "Bearer" ++ (text " " ++ token)
  unfolding splitn_2
  split_bearer s token h = split_once_sound (text " ") s (text "Bearer") token (ground arith)

  pub join_bearer :
      (token : Text)
      → splitn_2 (text " ") (text "Bearer" ++ (text " " ++ token))
        ≡ (some (text "Bearer"), some token)
  unfolding splitn_2 text
  join_bearer token = refl

  row_name-eq-ok :
      (r : Result Text (Option AuthToken)) (v : HeaderValue)
      → row_name m r ≡ ok v
      → (row : AuthToken) × (r ≡ ok (some row)) × (from_str row.name ≡ some v)
  unfolding row_name
  row_name-eq-ok (ok (some row)) v h = (row, refl, ok_or-eq-ok _ _ h)
  row_name-eq-ok (ok none) v h = cc
  row_name-eq-ok (err e) v h = cc

  get_auth_token-eq-ok :
      (db : Result Text (List AuthToken)) (token : Text) (row : AuthToken)
      → get_auth_token db token ≡ ok (some row)
      → (rows : List AuthToken) × (db ≡ ok rows) × (select_token token rows ≡ some row)
  unfolding get_auth_token
  get_auth_token-eq-ok (ok rows) token row h = (rows, refl, cc)
  get_auth_token-eq-ok (err e) token row h = cc

  token_name-eq-ok :
      (db : Result Text (List AuthToken)) (parts : Option Text × Option Text) (v : HeaderValue)
      → token_name m db parts ≡ ok v
      → (token : Text) × (parts ≡ (some (text "Bearer"), some token))
        × (row_name m (get_auth_token db token) ≡ ok v)
  unfolding token_name
  token_name-eq-ok db (some method, some token) v h =
      elim (Bool-cases (same_key method (text "Bearer"))) [
        | inl e ↦ (token, rw (same_key-eq method (text "Bearer") e) refl, ground (arith, e))
        | inr e ↦ ground (arith, e)
      ]
  token_name-eq-ok db (some method, none) v h =
      elim (Bool-cases (same_key method (text "Bearer"))) [
        | inl e ↦ ground (arith, e)
        | inr e ↦ ground (arith, e)
      ]
  token_name-eq-ok db (none, second) v h = cc

  header_name-eq-ok :
      (db : Result Text (List AuthToken)) (o : Option HeaderValue) (v : HeaderValue)
      → header_name m db o ≡ ok v
      → (value : HeaderValue) × (s : Text) × (o ≡ some value)
        × (to_str value ≡ some s)
        × (token_name m db (splitn_2 (text " ") s) ≡ ok v)
  unfolding header_name
  header_name-eq-ok db none v h = cc
  header_name-eq-ok db (some value) v h = elim (Option-cases (to_str value)) [
    | inl e ↦ ground (arith, e)
    | inr (s, e) ↦ (value, s, refl, e, ground (arith, e))
  ]

  -- A call that is passed on was admitted, and the inner service sees the caller's headers with the
  -- name of the caller's row under `x-auth-username`.
  call-Admission :
      (db : Result Text (List AuthToken)) (headers passed : Headers)
      → call m db headers ≡ ok passed
      → (a : Admission db headers) × (passed ≡ insert_header x_auth_username a.name headers)
  unfolding call
  call-Admission db headers passed h =
      let (v, found, h₁) = and_then-eq-ok (header_name m db (header authorization headers)) _ h in
      let (u, readable, h₂) =
        and_then-eq-ok (ok_or (status internal (text "failed to parse tag")) (to_str v)) _ h₁ in
      let (value, s, sent, str, t) = header_name-eq-ok db (header authorization headers) v found in
      let (token, parts, named) = token_name-eq-ok db (splitn_2 (text " ") s) v t in
      let (row, got, from) = row_name-eq-ok (get_auth_token db token) v named in
      let (rows, read, sel) = get_auth_token-eq-ok db token row got in
      (
        record {
          value = value;
          sent = sent;
          token = token;
          bearer = str ∙ ap some (split_bearer s token parts);
          rows = rows;
          read = read;
          row = row;
          found = sel;
          key = (select_token-some token rows row sel).0;
          listed = (select_token-some token rows row sel).1;
          name = v;
          named = from;
          username = u;
          readable = ok_or-eq-ok _ _ readable;
        },
        cc h₂,
      )

  token_name_admits :
      (db : Result Text (List AuthToken)) (headers : Headers) (a : Admission db headers)
      → token_name m db (some (text "Bearer"), some a.token) ≡ ok a.name
  unfolding token_name row_name get_auth_token
  token_name_admits db headers a =
      ground (arith, same_key_refl (text "Bearer"), a.read, a.found, a.named)

  header_name_admits :
      (db : Result Text (List AuthToken)) (headers : Headers) (a : Admission db headers)
      → header_name m db (header authorization headers) ≡ ok a.name
  unfolding header_name
  header_name_admits db headers a =
      ground (arith, a.sent, a.bearer, join_bearer a.token, token_name_admits db headers a)

  -- Every caller that sends `Bearer` and the key of a row of the table, whose name can stand in a
  -- header, is passed on, with the row's name under `x-auth-username`.
  pub call_admits :
      (db : Result Text (List AuthToken)) (headers : Headers) (a : Admission db headers)
      → call m db headers ≡ ok (insert_header x_auth_username a.name headers)
  unfolding call
  call_admits db headers a = ground (arith, header_name_admits db headers a, a.readable)

  -- A call that is passed on was admitted: the caller sent `Bearer` and the key of a row. The inner
  -- service sees the caller's headers with the row's name under `x-auth-username`, and so a handler
  -- reads that name, whatever `x-auth-username` the caller sent.
  pub extract-call :
      Laws m
      → (db : Result Text (List AuthToken)) (headers passed : Headers)
      → call m db headers ≡ ok passed
      → (a : Admission db headers) × (passed ≡ insert_header x_auth_username a.name headers)
        × (extract_auth_username m passed ≡ ok a.username)
  unfolding extract_auth_username
  extract-call laws db headers passed h =
      let (a, e) = call-Admission db headers passed h in
      (a, e, ground (arith, e, laws.header-insert_self x_auth_username a.name headers, a.readable))
