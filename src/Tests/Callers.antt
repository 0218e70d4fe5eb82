-- ===== src/Tests/Callers.antt =====
-- Callers with and without a token.
use seabird_core.Prelude.{
  ◌≡◌, refl, Text, text, List, [], ◌∷◌, Result, ok, err, status, Status, ◌⊎◌, inl, inr,
  unauthenticated, Entries, text_ord, hash_insert, cmp_text, get,
}
use seabird_core.Id.Split.{splitn_2}
use seabird_core.Auth.{
  AuthToken, call, header_name, token_name, row_name, get_auth_token, select_token,
  extract_auth_username, x_auth_username,
}
use seabird_core.Auth.Admission.{Admission, extract-call}
use seabird_core.Auth.Service.{Service, AuthedService, authed, serve}
use seabird_core.Auth.Service.Refusals.{Refusal}
use seabird_core.Auth.Service.Outcome.{serve-Outcome}
use seabird_core.Wrapped.Tokio.{pending}
use seabird_core.Tests.Samples.{headers, headers-Laws}

abbrev row : AuthToken
row = record { id = 1; name = text "alice"; key = text "k 1" }

abbrev table : Result Text (List AuthToken)
table = ok (row ∷ [])

-- A caller that also claims another name.
abbrev sent : Entries Text Text
sent = (text "authorization", text "Bearer k 1") ∷ (text "x-auth-username", text "root") ∷ []

abbrev passed : Entries Text Text
passed = hash_insert x_auth_username (text "alice") sent

abbrev inner : Service headers
inner = record {
  Response = Entries Text Text ⊎ Status;
  Error = Text;
  poll_ready = pending;
  respond = λ h. ok (inl h);
  to_http = λ e. inr e;
}

abbrev guarded : AuthedService headers
guarded = authed headers table inner

serve-Outcome_example :
    ((a : Admission headers table sent) × (serve headers guarded sent
        ≡ ok (inl (hash_insert x_auth_username a.name sent))))
    ⊎ ((e : Status) × Refusal headers table sent e
        × (serve headers guarded sent ≡ ok (inr e))
        × ¬ Admission headers table sent)
serve-Outcome_example = serve-Outcome headers guarded sent

call_passed : call headers table sent ≡ ok passed
unfolding call header_name token_name row_name get_auth_token splitn_2 select_token get text
    text_ord cmp_text hash_insert
call_passed = refl

extract-call_example :
    extract_auth_username headers passed
    ≡ ok (extract-call headers headers-Laws table sent passed call_passed).0.username
extract-call_example = (extract-call headers headers-Laws table sent passed call_passed).2

basic_refused :
    call headers table ((text "authorization", text "Basic k 1") ∷ [])
    ≡ err (status unauthenticated (text "unknown auth method"))
unfolding call header_name token_name splitn_2 get text text_ord cmp_text
basic_refused = refl
