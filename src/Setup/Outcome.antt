-- ===== src/Setup/Outcome.antt =====
-- How the process of src/main.rs may start and end.
use seabird_core.Prelude.{
  Text, text, ℕ, ◌≡◌, ◌≢◌, refl, ap, ◌⊎◌, inl, inr, arith, none, some, Result, ok, err, Entries,
  text_ord, get, contains_key, get-hash_insert, same_key, Bool-cases, Option-cases, Result-cases,
  false, true, Bool, ◌↔◌, same_key_refl, contains_key-get, same_key-eq, if◌then◌else◌,
}
use mathlib.Core.List.{Mem, mem-cons, mem-cons_self, not-mem-nil, List, ◌∷◌}
use mathlib.Core.Logic.Or
use mathlib.Core.Bool.{true≢false}
use seabird_core.Auth.Headers.{HeaderMap}
use seabird_core.Server.State.{Server, new}
use seabird_core.Wrapped.Tokio.{Poll, pending, ready}
use seabird_core.Setup.{
  await, EnvError, check_env, or_default, default_bind_host, set_log, Cleanup, cleanup_task,
  Process, panicked, exited, running, new_db, run_grpc_server, run, process_of, start_server, main,
  after_logger, init_logger, json, log_options, LogOption, compact, with_file, with_line_number,
  with_thread_ids, without_target,
}
use seabird_core.Setup.Crates.{SetupCrates, Laws, Task}

await_fails {ℓ κ} :
    {A : Type ℓ} {B : Type κ} (p : Poll (Result Text A)) (f : A → Poll (Result Text B)) {b : B}
    → ((a : A) → f a ≢ ready (ok b))
    → await p f ≢ ready (ok b)
await_fails pending f n h = cc
await_fails (ready (ok a)) f n h = n a h
await_fails (ready (err e)) f n h = cc

bails {ℓ κ} :
    {E : Type ℓ} {A : Type κ} {e : E} {a : A}
    → ◌≢◌ {A = Poll (Result E A)} (ready (err e)) (ready (ok a))
bails h = cc h

Task-cases : (t : Task) → (t ≡ pending) ⊎ ((t ≡ ready (ok tt)) ⊎ ((e : Text) × (t ≡ ready (err e))))
Task-cases pending = inl refl
Task-cases (ready (ok tt)) = inr (inl refl)
Task-cases (ready (err e)) = inr (inr (e, refl))

-- Setting the log's variable leaves the others.
get-set_log :
    (k : Text) (env : Entries Text Text)
    → same_key k (text "RUST_LOG") ≡ false
    → get k (set_log env) ≡ get k env
unfolding set_log
get-set_log k env n = elim (Bool-cases (contains_key (text "RUST_LOG") env)) [
  | inl e ↦ ground (arith, e)
  | inr e ↦
      ground
        (arith, e, get-hash_insert (text "RUST_LOG") k (text "info,seabird::server=trace") env, n)
]

other_variable : same_key (text "DATABASE_URL") (text "RUST_LOG") ≡ false
unfolding text text_ord
other_variable = refl

other_host : same_key (text "SEABIRD_BIND_HOST") (text "RUST_LOG") ≡ false
unfolding text text_ord
other_host = refl

log_variable :
    (env : Entries Text Text)
    → get (text "RUST_LOG") (set_log env)
      ≡ some (or_default (text "info,seabird::server=trace") (get (text "RUST_LOG") env))
unfolding set_log
log_variable env = ground (
  arith,
  contains_key-get (text "RUST_LOG") env,
  get-hash_insert (text "RUST_LOG") (text "RUST_LOG") (text "info,seabird::server=trace") env,
  same_key_refl (text "RUST_LOG"),
)

-- Every variable after it.
variables :
    (env : Entries Text Text) (k : Text)
    → get k (set_log env) ≡ (
        if same_key k (text "RUST_LOG")
        then some (or_default (text "info,seabird::server=trace") (get (text "RUST_LOG") env))
        else get k env)
variables env k = elim (Bool-cases (same_key k (text "RUST_LOG"))) [
  | inl e ↦ rw e (rw (same_key-eq k (text "RUST_LOG") e) (log_variable env))
  | inr e ↦ rw e (get-set_log k env e)
]

not_among :
    (o : LogOption) (rest : List LogOption) → json ≢ o → ¬ Mem json rest → ¬ Mem json (o ∷ rest)
not_among o rest n h m = Or.elim (λ x. absurd x) (mem-cons.0 m) n h

json_off : (is_terminal : Bool) → Mem json (log_options is_terminal) ↔ (is_terminal ≡ false)
json_off false = ((λ m. refl), λ h. mem-cons_self)
json_off true = (
  λ m. absurd (
      not_among compact _ (λ e. cc e)
        (not_among with_file _ (λ e. cc e)
          (not_among with_line_number _ (λ e. cc e)
            (not_among with_thread_ids _ (λ e. cc e)
              (not_among without_target _ (λ e. cc e) not-mem-nil))))
        m),
  λ h. absurd (true≢false h),
)

module _ {m : HeaderMap} (c : SetupCrates m) where
  -- A server that runs: where its fields come from, and that its two settings are readable.
  pub record IsSetUp (env_res : Result EnvError Text) (env : Entries Text Text)
      (clock : Result Text ℕ) (s : Server) : Type 0 where
    pub env_accepted : check_env env_res ≡ ok tt
    pub database : get (text "DATABASE_URL") env ≡ some s.database_url
    pub host : s.bind_host ≡ or_default default_bind_host (get (text "SEABIRD_BIND_HOST") env)
    pub started : clock ≡ ok s.startup_timestamp
    pub address : c.Address
    pub address_read : c.parse_address s.bind_host ≡ ok address
    pub options : c.Options
    pub options_read : c.parse_options s.database_url ≡ ok options

  module _ (laws : Laws c) where
    run_fails : (s : Server) (cleanup : Cleanup) → run c s cleanup ≢ ready (ok tt)
    unfolding run run_grpc_server
    run_fails s cleanup h =
        await_fails (ready (c.parse_address s.bind_host)) _
          (λ addr.
            await_fails (new_db c s.database_url) _ (λ pool. await_fails _ _ (λ done. bails)))
          (laws.try_join-ok (run_grpc_server c s) (cleanup_task cleanup) h)

    -- Both settings are read before anything is waited for.
    bad_setting :
        (s : Server) (cleanup : Cleanup) (e : Text)
        → run_grpc_server c s ≡ ready (err e)
        → run c s cleanup ≢ pending
    unfolding run
    bad_setting s cleanup e q h =
        let (why, w) = laws.try_join-err (run_grpc_server c s) (cleanup_task cleanup) e q in
        cc (w, h)

    readable :
        (s : Server) (cleanup : Cleanup)
        → run c s cleanup ≡ pending
        → ((a : c.Address) × (c.parse_address s.bind_host ≡ ok a))
          × ((o : c.Options) × (c.parse_options s.database_url ≡ ok o))
    unfolding run_grpc_server new_db
    readable s cleanup h = elim (Result-cases (c.parse_address s.bind_host)) [
      | inr (e, bad) ↦ absurd (bad_setting s cleanup e (ground (arith, bad)) h)
      | inl (a, good) ↦ elim (Result-cases (c.parse_options s.database_url)) [
        | inr (e, bad) ↦ absurd (bad_setting s cleanup e (ground (arith, good, bad)) h)
        | inl (o, fine) ↦ ((a, good), (o, fine))
      ]
    ]

    -- How the process stands, over what it was given.
    Ends : Result EnvError Text → Entries Text Text → Result Text ℕ → Process → Type 0
    Ends env_res env clock p =
        ((e : Text) × (p ≡ exited (err e)))
        ⊎ (((p ≡ panicked) × (get (text "DATABASE_URL") env ≡ none))
            ⊎ ((s : Server) × (p ≡ running s) × IsSetUp env_res env clock s))

    start-Ends :
        (env_res : Result EnvError Text) (env : Entries Text Text) (clock : Result Text ℕ)
        (cleanup : Cleanup) (url : Text)
        → check_env env_res ≡ ok tt
        → get (text "DATABASE_URL") env ≡ some url
        → Ends env_res env clock (start_server c (set_log env) url clock cleanup)
    unfolding Ends start_server new
    start-Ends env_res env (err e) cleanup url v u = inl (e, refl)
    start-Ends env_res env (ok now) cleanup url v u =
        let host = or_default default_bind_host (get (text "SEABIRD_BIND_HOST") (set_log env)) in
        let s = new host url now in
        elim (Task-cases (run c s cleanup)) [
          | inl waits ↦
              let (address, options) = readable s cleanup waits in
              inr (
                inr (
                  s,
                  ap (process_of c s) waits,
                  record {
                    env_accepted = v;
                    database = u;
                    host = ap (or_default default_bind_host) (get-set_log _ env other_host);
                    started = refl;
                    address = address.0;
                    address_read = address.1;
                    options = options.0;
                    options_read = options.1;
                  },
                ))
          | inr (inl done) ↦ absurd (run_fails s cleanup done)
          | inr (inr (e, failed)) ↦ inl (e, ap (process_of c s) failed)
        ]

    started_by :
        (env_res : Result EnvError Text) (env : Entries Text Text) (clock : Result Text ℕ)
        (cleanup : Cleanup) (url : Text)
        → check_env env_res ≡ ok tt
        → get (text "DATABASE_URL") env ≡ some url
        → after_logger c env_res (set_log env) clock cleanup
          ≡ start_server c (set_log env) url clock cleanup
    unfolding after_logger
    started_by env_res env clock cleanup url good u =
        ground (arith, good, get-set_log _ env other_variable, u)

    after_logger-Ends :
        (env_res : Result EnvError Text) (env : Entries Text Text) (clock : Result Text ℕ)
        (cleanup : Cleanup)
        → Ends env_res env clock (after_logger c env_res (set_log env) clock cleanup)
    unfolding after_logger Ends
    after_logger-Ends env_res env clock cleanup = elim (Result-cases (check_env env_res)) [
      | inr (e, bad) ↦ inl (e, ground (arith, bad))
      | inl (_, good) ↦ elim (Option-cases (get (text "DATABASE_URL") env)) [
        | inl none_url ↦
            inr (inl (ground (arith, good, none_url, get-set_log _ env other_variable), none_url))
        | inr (url, u) ↦
            rw (started_by env_res env clock cleanup url good u)
              (start-Ends env_res env clock cleanup url good u)
      ]
    ]

    pub main-Outcome :
        (env_res : Result EnvError Text) (is_terminal : Bool) (env : Entries Text Text)
        (clock : Result Text ℕ) (cleanup : Cleanup)
        → let (left, logger, process) = main c env_res is_terminal env clock cleanup in
          ((k : Text)
            → get k left ≡ (
                if same_key k (text "RUST_LOG")
                then some
                    (or_default (text "info,seabird::server=trace") (get (text "RUST_LOG") env))
                else get k env))
          × (Mem json logger.options ↔ (is_terminal ≡ false))
          × (((e : Text) × (process ≡ exited (err e)))
              ⊎ (((process ≡ panicked) × (get (text "DATABASE_URL") env ≡ none))
                  ⊎ ((s : Server) × (process ≡ running s) × IsSetUp env_res env clock s)))
    unfolding main Ends init_logger
    main-Outcome env_res is_terminal env clock cleanup =
        (variables env, json_off is_terminal, after_logger-Ends env_res env clock cleanup)
