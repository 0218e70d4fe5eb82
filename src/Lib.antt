-- ===== src/Lib.antt =====
-- seabird-core: the hub between chat backends (which connect to a chat network) and plugins (which
-- react to events and send commands), as a gRPC server.
--
-- Id models src/id.rs: `BackendId` and `FullId`, their text form (`show_backend_id` and
-- `show_full_id` are the two `Display`s) and its parsers (`parse_backend_id` and `parse_full_id`
-- are the two `FromStr`s). A string is the list of its code points, `Text`.
-- Block models src/utils.rs: `normalize_block`, the recursive `normalize_block_inner` and
-- `render_inner_block`. Block.Described says independently of it how a block reads.
-- Proto models what src/proto.rs re-exports, with the fields that the source names, and its two
-- `into_relative`s.
-- Auth models src/server/auth.rs and `DB::get_auth_token` of src/db.rs: what `call` passes on to
-- the service, and `extract_auth_username`; Auth.Service the middleware around a service.
-- Wrapped models src/wrapped.rs over Wrapped.Tokio, the channels of tokio.
-- Setup models `main` of src/main.rs, `DB::new` of src/db.rs, and `run`, `run_grpc_server` and the
-- ends of `cleanup_task` of src/server/mod.rs, over Setup.Crates.
-- Server.State and Server.Requests model src/server/mod.rs: the state, the three `Drop`s,
-- `register_backend`, `respond`, `issue_request` and the cleanup task. Server.Ingest models
-- src/server/ingest_events.rs: the hello of a backend, `handle_event` and the loop of `run`; below
-- it, Life the whole task of a connection, with `spawn` of src/main.rs, and Handle the stream that
-- `ingest_events` returns, and the `select` of `run` over the bounded channels of tokio.
-- Server.Grpc models src/server/grpc.rs: the handlers that talk to a backend; Server.Grpc.Queries
-- those that report on the state, and Server.Grpc.Stream `stream_events`, with its `select` over
-- the wrapped channel in Server.Grpc.Select.
-- Server.System puts the tasks together: `Step` is what one task does between two waits, and
-- `Reach` any interleaving of such steps. The mutex and the read-write locks of src/server/mod.rs
-- make each step atomic. The cleanup task reads an entry in one step and carries it out in another,
-- when it has the lock; `cleaning` says that it is between the two, and the entry is the first of
-- `cleanup` until it is carried out. Below it, Ownership is about the registries and the cleanup queue,
-- Correlation about requests and their answers (Correlation.Waiting.drawn lists the UUIDs that the
-- handlers drew, Correlation.Accounted.failed those of requests that could not be sent), Channels
-- about the `Arc` that a connection writes and the handlers read, Queues about what is asked of
-- backends and passed on, Broadcast about what plugins are sent, and Protocol is an abstract
-- specification, the lives of the identifiers of requests and backends, with its refinement.
-- Server.Locks keeps of each function only the order in which it takes and frees the locks of
-- `Server` and sends on a backend's channel; there a step is one such operation. The
-- mutex excludes, in any order of those that wait; the read-write lock is given to its
-- waiters first come, first served (the documented fairness of tokio); no client gives up.
-- Server.Locks.Order is about the order of locks that these functions, but for `get_backend_info`,
-- keep. A lock under which nothing is awaited, that of the commands or of a backend's channels, is
-- taken and freed in one operation. An early return is a way of its own (`Way`), with the operations
-- to there.
-- Tests holds stand-ins for the crates and runs of the definitions.
--
-- Server holds the maps of `Server`, and what goes through its channels as logs: `sender` what was
-- broadcast, `cleanup` what the cleanup task has still to do, `asked` and `answered` what was
-- sent on the channels to backends and to waiting handlers, `passed` what connections passed on. An
-- `Arc<ChatBackend>` is a number, by which `arcs` finds the backend, so that a connection and the
-- registry share its channels; a channel is a number too. A `BTreeMap` is a list of entries in the
-- order of their keys, a `HashMap` a list of entries in its order of iteration. A handler is a
-- function of the state that returns a result or a gRPC status (`Rpc`).
--
-- What other code decides is an argument. `Wait` holds what surrounds one call of `issue_request`:
-- the UUID drawn, how the send to the backend ends, what the other tasks do meanwhile, and how the
-- wait ends (an answer, a dropped sender, or REQUEST_TIMEOUT elapsed). `Selected` is what the
-- `select` of a loop yields; in Server.System a channel yields what was sent on it, in order, and
-- the broadcast channel only to a reader that is at most BROADCAST_BUFFER behind, whose place in it
-- (`next`) each event that it yields moves on. The clock is an
-- argument. Id.Percent.PercentEncoding stands for the crate percent_encoding, with `Laws`: what was
-- encoded decodes to what it was, and its text has no colon and no slash (NON_ALPHANUMERIC).
-- Auth.Headers.HeaderMap stands for the header map of the crate http, with `Laws`: what is inserted
-- is found, and other names are left as they were.
--
-- Fuel: only the digits of a timestamp are computed on fuel (Block.Decimal.show_ℕ); a number `n` is
-- given `suc n`, more than it has digits. Seconds are ℤ, of which an i64 is a part, since they are
-- only printed. In Server.System lists of tasks and queues are unbounded: the sizes of the bounded
-- channels, CHAT_INGEST_RECEIVE_BUFFER, CHAT_INGEST_SEND_BUFFER and BROADCAST_BUFFER, only make a
-- sender wait or a plugin lag, and a lag is a value of `Selected`. In Server.Ingest.Handle the
-- channel to the client has its size, CHAT_INGEST_SEND_BUFFER, and in Server.Locks a channel may be
-- full.
--
-- The channels of tokio are a parameter with laws: a oneshot fires when it is sent on, and a send
-- on an mpsc channel whose receiver is dropped gives its value back; for Server.Ingest.Handle, an
-- mpsc channel is a queue of bounded size (`Fifo`), a poll of which may be pending at any time. The crates of Setup are one too, with the laws
-- of `try_join`; what is awaited there either stays pending or ends in a result.
--
-- Not modelled: what the logger prints but for the errors of `spawn` and the environment's path,
-- what sqlx does with a pool and its migrations, the wakers of the poll functions, how long a task
-- waits for a lock, src/prelude.rs, which only passes names on, and build.rs, which generates code.
-- The generated protobuf types are not in the repository; the source of a private action is taken
-- to be a `User`, as that of a private message.
pub mod Prelude
pub mod Id
pub mod Block
pub mod Proto
pub mod Auth
pub mod Wrapped
pub mod Server
pub mod Setup
pub mod Tests
