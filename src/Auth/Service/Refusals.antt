-- ===== src/Auth/Service/Refusals.antt =====
-- Every reason for which `AuthedService::call` of src/server/auth.rs refuses a caller, and the status
-- it gives for it.
use mathlib.Core.List.{Mem}
use seabird_core.Prelude.{
  Text, text, ◌≡◌, ◌≢◌, ◌++◌, Option, none, some, List, Result, ok, err, Status, status, internal,
  unauthenticated,
}
use seabird_core.Id.Split.{splitn_2}
use seabird_core.Auth.{AuthToken, authorization}
use seabird_core.Auth.Headers.{HeaderMap}

module _ (m : HeaderMap) where
  open m use {Headers, HeaderValue, header, insert_header, to_str, from_str}

  -- The caller's `authorization` header is this text.
  pub record Sends (headers : Headers) (s : Text) : Type 0 where
    pub value : HeaderValue
    pub sent : header authorization headers ≡ some value
    pub reads : to_str value ≡ some s

  pub data Refusal (db : Result Text (List AuthToken)) (headers : Headers) : Status → Type 0 where
    no_header :
        header authorization headers ≡ none
        → Refusal db headers (status unauthenticated (text "missing authorization header"))
    unreadable :
        (value : HeaderValue)
        → header authorization headers ≡ some value
        → to_str value ≡ none
        → Refusal db headers (status unauthenticated (text "invalid token data"))
    no_token :
        Sends headers (text "Bearer")
        → Refusal db headers (status unauthenticated (text "missing auth token"))
    other_method :
        (s method : Text) (second : Option Text)
        → Sends headers s
        → splitn_2 (text " ") s ≡ (some method, second)
        → method ≢ text "Bearer"
        → Refusal db headers (status unauthenticated (text "unknown auth method"))
    no_rows :
        (token why : Text)
        → Sends headers (text "Bearer" ++ (text " " ++ token))
        → db ≡ err why
        → Refusal db headers (status unauthenticated (text "invalid auth token"))
    unknown_token :
        (token : Text) (rows : List AuthToken)
        → Sends headers (text "Bearer" ++ (text " " ++ token))
        → db ≡ ok rows
        → ((row : AuthToken) → Mem row rows → row.key ≢ token)
        → Refusal db headers (status unauthenticated (text "invalid auth token"))
    bad_name :
        (token : Text) (rows : List AuthToken) (row : AuthToken)
        → Sends headers (text "Bearer" ++ (text " " ++ token))
        → db ≡ ok rows
        → Mem row rows
        → row.key ≡ token
        → from_str row.name ≡ none
        → Refusal db headers (status unauthenticated (text "invalid auth token username"))
    unreadable_name :
        (token : Text) (rows : List AuthToken) (row : AuthToken) (name : HeaderValue)
        → Sends headers (text "Bearer" ++ (text " " ++ token))
        → db ≡ ok rows
        → Mem row rows
        → row.key ≡ token
        → from_str row.name ≡ some name
        → to_str name ≡ none
        → Refusal db headers (status internal (text "failed to parse tag"))
