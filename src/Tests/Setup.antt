-- ===== src/Tests/Setup.antt =====
-- A process that starts with an environment of two variables.
use seabird_core.Prelude.{
  Text, text, ◌≡◌, refl, ◌⊎◌, none, [], ◌∷◌, Result, ok, err, Entries, text_ord, same_key,
  if◌then◌else◌, get, contains_key, hash_insert, cmp_text, some, true, false, ◌↔◌,
}
use mathlib.Core.List.{Mem}
use seabird_core.Auth.Service.{Service}
use seabird_core.Server.State.{Server, new}
use seabird_core.Wrapped.Tokio.{pending, ready}
use seabird_core.Setup.{
  io_not_found, reads, closed, panicked, exited, running, main, set_log, start_server, run,
  run_grpc_server, new_db, init_logger, after_logger, json, or_default, Logger, Process,
}
use seabird_core.Setup.Crates.{SetupCrates, Laws, Task}
use seabird_core.Setup.Outcome.{IsSetUp, main-Outcome}
use seabird_core.Tests.Samples.{headers}

abbrev failed_or_pending : Task → Task
failed_or_pending (ready (err e)) = ready (err e)
failed_or_pending _ = pending

abbrev both : Task → Task → Task
both pending b = failed_or_pending b
both (ready (ok t)) b = b
both (ready (err e)) b = ready (err e)

both-ok : (a b : Task) → both a b ≡ ready (ok tt) → a ≡ ready (ok tt)
both-ok pending pending h = cc
both-ok pending (ready (ok tt)) h = cc
both-ok pending (ready (err e)) h = cc
both-ok (ready (ok tt)) b h = refl
both-ok (ready (err e)) b h = cc

both-err : (a b : Task) (e : Text) → a ≡ ready (err e) → (why : Text) × (both a b ≡ ready (err why))
both-err a b e h = (e, rw h refl)

abbrev echo : Service headers
echo = record {
  Response = Unit {0};
  Error = Text;
  poll_ready = pending;
  respond = λ h. ok tt;
  to_http = λ e. tt;
}

-- Every setting is well-formed but the empty one.
abbrev nonempty : Text → Result Text Text
nonempty [] = err []
nonempty (x ∷ s) = ok (x ∷ s)

abbrev crates : SetupCrates headers
crates = record {
  Address = Text;
  Options = Text;
  Pool = Text;
  parse_address = nonempty;
  parse_options = nonempty;
  create_if_missing = λ b o. o;
  connect_with = λ o. ready (ok o);
  migrate = λ p. ready (ok tt);
  rows = λ p. ok [];
  chat_ingest_server = λ s. echo;
  seabird_server = λ s. echo;
  serve = λ l a. pending;
  try_join = both;
}

crates-Laws : Laws crates
crates-Laws = record { try_join-ok = both-ok; try_join-err = both-err }

abbrev env : Entries Text Text
env = (text "DATABASE_URL", text "db") ∷ (text "SEABIRD_BIND_HOST", text "host") ∷ []

abbrev life : Entries Text Text × Logger × Process
life = main crates (err io_not_found) false env (ok 7) reads

main-Outcome_example :
    ((k : Text)
      → get k life.0 ≡ (
          if same_key k (text "RUST_LOG")
          then some (or_default (text "info,seabird::server=trace") (get (text "RUST_LOG") env))
          else get k env))
    × (Mem json life.1.options ↔ (false ≡ false))
    × (((e : Text) × (life.2 ≡ exited (err e)))
        ⊎ (((life.2 ≡ panicked) × (get (text "DATABASE_URL") env ≡ none))
            ⊎ ((s : Server) × (life.2 ≡ running s)
                × IsSetUp crates (err io_not_found) env (ok 7) s)))
main-Outcome_example = main-Outcome crates crates-Laws (err io_not_found) false env (ok 7) reads

stays_up : life ≡ (
  hash_insert (text "RUST_LOG") (text "info,seabird::server=trace") env,
  record { options = json ∷ []; loaded = [] },
  running (new (text "host") (text "db") 7),
)
unfolding main set_log start_server run run_grpc_server new_db get contains_key hash_insert text
    text_ord cmp_text new init_logger after_logger
stays_up = refl

panics_without_database : (main crates (ok []) true [] (ok 7) reads).2 ≡ panicked
unfolding main set_log get contains_key hash_insert text text_ord cmp_text after_logger
panics_without_database = refl

ends_with_cleanup :
    (main crates (err io_not_found) false env (ok 7) closed).2
    ≡ exited (err (text "cleanup_receiver closed unexpectedly"))
unfolding main set_log start_server run run_grpc_server new_db get contains_key hash_insert text
    text_ord cmp_text new after_logger
ends_with_cleanup = refl
