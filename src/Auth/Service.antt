-- ===== src/Auth/Service.antt =====
-- The middleware `AuthedService` of src/server/auth.rs around the service it guards, and what a caller
-- gets from it.
pub mod Refusals
pub mod Outcome
use seabird_core.Prelude.{Text, List, Result, ok, err, RpcResult, Status}
use seabird_core.Auth.{AuthToken, call}
use seabird_core.Auth.Headers.{HeaderMap}
use seabird_core.Wrapped.Tokio.{Poll}

-- A service of the crate tower, and tonic's `Status::to_http`: what a request with these headers is
-- answered, or how it fails.
pub record Service (m : HeaderMap) : Type 1 where
  pub Response : Type 0
  pub Error : Type 0
  pub poll_ready : Poll (Result Error (Unit {0}))
  pub respond : m.Headers → Result Error Response
  pub to_http : Status → Response

module _ (m : HeaderMap) where
  pub record AuthedService : Type 1 where
    pub db : Result Text (List AuthToken)
    pub inner : Service m

  -- `AuthedService::new`
  abbrev pub authed : Result Text (List AuthToken) → Service m → AuthedService
  authed db inner = record { db = db; inner = inner }

  abbrev answer_of : (inner : Service m) → RpcResult m.Headers → Result inner.Error inner.Response
  answer_of inner (ok headers) = inner.respond headers
  answer_of inner (err refusal) = ok (inner.to_http refusal)

  -- `Service::call` with the response it ends in: a refusal is a response too.
  unfoldable pub serve : (s : AuthedService) → m.Headers → Result s.inner.Error s.inner.Response
  serve s headers = answer_of s.inner (call m s.db headers)

  -- `Service for AuthedService`: it is ready when the inner service is.
  unfoldable pub as_service : AuthedService → Service m
  as_service s = record {
    Response = s.inner.Response;
    Error = s.inner.Error;
    poll_ready = s.inner.poll_ready;
    respond = serve s;
    to_http = s.inner.to_http;
  }
