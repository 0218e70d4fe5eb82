-- ===== src/Setup.antt =====
-- src/main.rs, `DB::new` of src/db.rs, and `run`, `run_grpc_server` and the end of `cleanup_task` of
-- src/server/mod.rs: how the process starts and ends.
pub mod Crates
pub mod Outcome
use seabird_core.Prelude.{
  Text, text, ℕ, Bool, true, false, Option, none, some, List, [], ◌∷◌, Result, ok, err, and_then,
  Entries, text_ord, get, hash_insert, contains_key, if◌then◌else◌,
}
use seabird_core.Auth.Headers.{HeaderMap}
use seabird_core.Auth.Service.{Service, authed, as_service}
use seabird_core.Server.State.{Server, new}
use seabird_core.Wrapped.Tokio.{Poll, pending, ready}
use Crates.{SetupCrates, Task}

-- `.await?`
abbrev pub await {ℓ κ} :
    {A : Type ℓ} {B : Type κ}
    → Poll (Result Text A)
    → (A → Poll (Result Text B))
    → Poll (Result Text B)
await pending f = pending
await (ready (err e)) f = ready (err e)
await (ready (ok a)) f = f a

-- What `dotenvy::dotenv` returns: the path of the file it loaded, that there is none, or another
-- error.
pub data EnvError : Type 0 where
  io_not_found : EnvError
  other_error : Text → EnvError

-- The match on `env_res`.
abbrev pub check_env : Result EnvError Text → Result Text (Unit {0})
check_env (ok path) = ok tt
check_env (err io_not_found) = ok tt
check_env (err (other_error why)) = err why

abbrev pub or_default {ℓ} : {A : Type ℓ} → A → Option A → A
or_default d none = d
or_default d (some a) = a

abbrev pub default_bind_host : Text
default_bind_host = text "0.0.0.0:11235"

-- `RUST_LOG` is set where it is not.
unfoldable pub set_log : Entries Text Text → Entries Text Text
set_log env =
    if contains_key (text "RUST_LOG") env
    then env
    else hash_insert (text "RUST_LOG") (text "info,seabird::server=trace") env

-- What `main` asks of the builder of the logger.
pub data LogOption : Type 0 where
  json compact with_file with_line_number with_thread_ids without_target : LogOption

-- The logger, by whether standard output is a terminal.
abbrev pub log_options : Bool → List LogOption
log_options false = json ∷ []
log_options true = compact ∷ with_file ∷ with_line_number ∷ with_thread_ids ∷ without_target ∷ []

-- The logger as it was initialized, with these options, and the paths that were logged as loaded.
pub record Logger : Type 0 where
  pub options : List LogOption
  pub loaded : List Text

abbrev loaded_path : Result EnvError Text → List Text
loaded_path (ok path) = path ∷ []
loaded_path (err e) = []

unfoldable pub init_logger : Result EnvError Text → Bool → Logger
init_logger env_res is_terminal = record {
  options = log_options is_terminal;
  loaded = loaded_path env_res;
}

-- `Server::new`, with the clock that may be before the epoch.
abbrev pub new_server : Text → Text → Result Text ℕ → Result Text Server
new_server bind_host database_url clock = and_then clock λ now. ok (new bind_host database_url now)

-- How the cleanup task goes: its lock is taken, it waits, or its channel was closed.
pub data Cleanup : Type 0 where
  lock_fails : Text → Cleanup
  reads closed : Cleanup

abbrev pub cleanup_task : Cleanup → Task
cleanup_task (lock_fails why) = ready (err why)
cleanup_task reads = pending
cleanup_task closed = ready (err (text "cleanup_receiver closed unexpectedly"))

-- How the process stands: it panicked, it ended, or it runs this server.
pub data Process : Type 0 where
  panicked : Process
  exited : Result Text (Unit {0}) → Process
  running : Server → Process

module _ {m : HeaderMap} (c : SetupCrates m) where
  open c use {
    Pool, parse_address, parse_options, create_if_missing, connect_with, migrate, rows,
    chat_ingest_server, seabird_server, serve, try_join,
  }

  -- `DB::new`
  unfoldable pub new_db : Text → Poll (Result Text Pool)
  new_db database_url = await (ready (parse_options database_url)) λ opts.
      await (connect_with (create_if_missing true opts))
        λ inner. await (migrate inner) λ _. ready (ok inner)

  -- The two services, behind the middleware.
  unfoldable pub services : Pool → Server → List (Service m)
  services pool s =
      as_service m (authed m (rows pool) (seabird_server s))
      ∷ as_service m (authed m (rows pool) (chat_ingest_server s))
      ∷ []

  unfoldable pub run_grpc_server : Server → Task
  unfolding new_db services
  run_grpc_server s = await (ready (parse_address s.bind_host)) λ addr.
      await (new_db s.database_url) λ db_pool.
        await (serve (services db_pool s) addr)
          λ _. ready (err (text "run_grpc_server exited early"))

  unfoldable pub run : Server → Cleanup → Task
  unfolding run_grpc_server
  run s cleanup = try_join (run_grpc_server s) (cleanup_task cleanup)

  abbrev process_of : Server → Task → Process
  process_of s pending = running s
  process_of s (ready r) = exited r

  -- `main` from `Server::new` on.
  unfoldable pub start_server : Entries Text Text → Text → Result Text ℕ → Cleanup → Process
  unfolding run
  start_server env database_url clock cleanup =
      elim (new_server (or_default default_bind_host (get (text "SEABIRD_BIND_HOST") env))
        database_url clock) [ err e ↦ exited (err e) | ok s ↦ process_of s (run s cleanup) ]

  -- `main` from the match on `env_res` on. The missing `DATABASE_URL` panics.
  unfoldable pub after_logger :
      Result EnvError Text → Entries Text Text → Result Text ℕ → Cleanup → Process
  unfolding start_server
  after_logger env_res env clock cleanup = elim (check_env env_res) [
    | err e ↦ exited (err e)
    | ok _ ↦ elim (get (text "DATABASE_URL") env) [
      | none ↦ panicked
      | some database_url ↦ start_server env database_url clock cleanup
    ]
  ]

  -- `main`: `env` is the environment with what dotenv loaded. The first of the result is the
  -- environment as `main` leaves it.
  unfoldable pub main :
      Result EnvError Text
      → Bool
      → Entries Text Text
      → Result Text ℕ
      → Cleanup
      → Entries Text Text × Logger × Process
  unfolding set_log init_logger after_logger
  main env_res is_terminal env clock cleanup =
      let env = set_log env in
      (env, init_logger env_res is_terminal, after_logger env_res env clock cleanup)
