-- ===== src/Setup/Crates.antt =====
-- The crates that src/main.rs, src/db.rs and `run_grpc_server` of src/server/mod.rs set the server up
-- with: sqlx, tonic's transport, its generated servers, and futures. They are a parameter; the laws
-- are what `try_join` documents: it is done well when both are, and it fails when one does.
use seabird_core.Prelude.{Text, ◌≡◌, List, Bool, Result, ok, err}
use seabird_core.Auth.{AuthToken}
use seabird_core.Auth.Headers.{HeaderMap}
use seabird_core.Auth.Service.{Service}
use seabird_core.Server.State.{Server}
use seabird_core.Wrapped.Tokio.{Poll, ready}

-- How a `Future` stands that ends in nothing, or in an error.
abbrev pub Task : Type 0
Task = Poll (Result Text (Unit {0}))

-- `rows` is what the table of a pool holds when it is queried.
pub record SetupCrates (m : HeaderMap) : Type 1 where
  pub Address : Type 0
  pub Options : Type 0
  pub Pool : Type 0
  pub parse_address : Text → Result Text Address
  pub parse_options : Text → Result Text Options
  pub create_if_missing : Bool → Options → Options
  pub connect_with : Options → Poll (Result Text Pool)
  pub migrate : Pool → Task
  pub rows : Pool → Result Text (List AuthToken)
  pub chat_ingest_server : Server → Service m
  pub seabird_server : Server → Service m
  pub serve : List (Service m) → Address → Task
  pub try_join : Task → Task → Task

pub record Laws {m : HeaderMap} (c : SetupCrates m) : Type 0 where
  pub try_join-ok : (a b : Task) → c.try_join a b ≡ ready (ok tt) → a ≡ ready (ok tt)
  pub try_join-err :
      (a b : Task) (e : Text)
      → a ≡ ready (err e)
      → (why : Text) × (c.try_join a b ≡ ready (err why))
