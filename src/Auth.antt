-- ===== src/Auth.antt =====
-- src/server/auth.rs and the query of src/db.rs: who may call, and under which name.
pub mod Headers
pub mod Admission
pub mod Service
use seabird_core.Prelude.{
  Text, text, ◌≡◌, Option, none, some, List, [], ◌∷◌, Result, ok, err, RpcResult, Status, status,
  internal, unauthenticated, and_then, ok_or, Ord, text_ord, same_key, if◌then◌else◌, ℕ,
}
use seabird_core.Id.Split.{splitn_2}
use Headers.{HeaderMap}

abbrev pub x_auth_username : Text
x_auth_username = text "x-auth-username"

abbrev pub authorization : Text
authorization = text "authorization"

-- `db::AuthToken`
pub record AuthToken : Type 0 where
  pub id : ℕ
  pub name : Text
  pub key : Text

-- `SELECT * FROM seabird_auth_tokens WHERE key = ? LIMIT 1` over the rows of the table.
unfoldable pub select_token : Text → List AuthToken → Option AuthToken
select_token key [] = none
select_token key (row ∷ rows) = if same_key row.key key then some row else select_token key rows

-- `DB::get_auth_token`: the database gives its rows, or an error.
unfoldable pub get_auth_token {ℓ} :
    {E : Type ℓ} → Result E (List AuthToken) → Text → Result E (Option AuthToken)
unfolding select_token
get_auth_token (ok rows) key = ok (select_token key rows)
get_auth_token (err e) key = err e

module _ (m : HeaderMap) where
  open m use {Headers, HeaderValue, header, insert_header, to_str, from_str}

  unfoldable pub extract_auth_username : Headers → RpcResult Text
  extract_auth_username headers =
      and_then
        (ok_or (status internal (text "missing auth username")) (header x_auth_username headers))
        λ value. ok_or (status internal (text "failed to decode auth username")) (to_str value)

  -- The name in a row that the query found.
  unfoldable pub row_name : Result Text (Option AuthToken) → RpcResult HeaderValue
  row_name (ok (some row)) =
      ok_or (status unauthenticated (text "invalid auth token username")) (from_str row.name)
  row_name (ok none) = err (status unauthenticated (text "invalid auth token"))
  row_name (err e) = err (status unauthenticated (text "invalid auth token"))

  -- the match on the two parts of the header
  unfoldable pub token_name :
      Result Text (List AuthToken) → Option Text × Option Text → RpcResult HeaderValue
  token_name db (some method, some token) =
      if same_key method (text "Bearer")
      then row_name (get_auth_token db token)
      else err (status unauthenticated (text "unknown auth method"))
  token_name db (some method, none) =
      if same_key method (text "Bearer")
      then err (status unauthenticated (text "missing auth token"))
      else err (status unauthenticated (text "unknown auth method"))
  token_name db (none, second) = err (status unauthenticated (text "missing auth method"))

  -- the match on the header
  unfoldable pub header_name :
      Result Text (List AuthToken) → Option HeaderValue → RpcResult HeaderValue
  header_name db none = err (status unauthenticated (text "missing authorization header"))
  header_name db (some value) = elim (to_str value) [
    | none ↦ err (status unauthenticated (text "invalid token data"))
    | some token ↦ token_name db (splitn_2 (text " ") token)
  ]

  -- `AuthedService::call`: a refusal, or the headers with which the inner service is called.
  unfoldable pub call : Result Text (List AuthToken) → Headers → RpcResult Headers
  call db headers = and_then (header_name db (header authorization headers)) λ username.
      and_then (ok_or (status internal (text "failed to parse tag")) (to_str username))
        λ username_str. ok (insert_header x_auth_username username headers)
