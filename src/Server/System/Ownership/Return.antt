-- ===== src/Server/System/Ownership/Return.antt =====
-- Who may come back: a backend or a plugin that ended, once the cleanup task has read its queue.
use mathlib.Core.Bool.{true≢false}
use mathlib.Core.List.{Mem}
use mathlib.Core.List.Perm
use seabird_core.Prelude.{
  ℕ, Text, text, Option, some, ◌++◌, ◌≡◌, refl, sym, ◌∙◌, arith, Perm, keys, text_ord, length, true,
  false, contains_key, contains_key-mem, mem-contains_key, get, get-insert, same_key_refl,
  Bool-cases, ◌⊎◌, append-nil, RpcResult, ok, err, status, already_exists, Entries, Option-cases,
  inl, inr,
}
use seabird_core.Id.{BackendId, backend_id_ord}
use seabird_core.Id.Percent.{PercentEncoding}
use seabird_core.Proto.{ChatEvent, BackendInfo, CommandMetadata}
use seabird_core.Server.State.{Server}
use seabird_core.Server.Requests.{register_backend}
use seabird_core.Server.Requests.Turns.{turns}
use seabird_core.Server.Ingest.{IngestEvents, read_hello, connect, start}
use seabird_core.Server.Grpc.Stream.{stream_events, first_taken}
use seabird_core.Server.Grpc.Register.{taken-mem, free-mem}
use seabird_core.Server.System.{System, Reach, booted}
use seabird_core.Server.System.Ownership.{connected, subscribed}
use seabird_core.Server.System.Ownership.Always.{Reach-Inv, drains}

-- The server after the cleanup task read all that was queued, with no other task between.
abbrev pub caught_up : System → Server
caught_up σ = turns (length σ.server.cleanup) σ.server

module _ (p : PercentEncoding) (host url : Text) (now : ℕ) (σ : System)
    (r : Reach p (booted host url now) σ) where
  -- Then the registries hold what the live tasks own, and nothing else.
  caught_up_backends : Perm (keys (caught_up σ).backends) (connected σ.connections)
  caught_up_backends =
      let (v, e) = drains σ σ.server.cleanup refl (Reach-Inv p host url now σ r) in
      rw append-nil at (rw e at v.backends_owned)

  caught_up_commands : Perm (keys (caught_up σ).commands) (subscribed σ.streams)
  caught_up_commands =
      let (v, e) = drains σ σ.server.cleanup refl (Reach-Inv p host url now σ r) in
      rw append-nil at (rw e at v.commands_owned)

  held_backend :
      (id : BackendId)
      → (contains_key id (caught_up σ).backends ≡ true) × Mem id (connected σ.connections)
        ⊎ (contains_key id (caught_up σ).backends ≡ false) × (¬ Mem id (connected σ.connections))
  held_backend id =
      let b = (caught_up σ).backends in
      elim (Bool-cases (contains_key id b)) [
        | inl e ↦ inl (e, (Perm.mem_iff caught_up_backends).0 (mem-contains_key id b e))
        | inr e ↦ inr (
          e,
          λ k. true≢false (sym (contains_key-mem id b ((Perm.mem_iff caught_up_backends).1 k)) ∙ e),
        )
      ]

-- Once the cleanup task has caught up, whatever was done before, a backend that says hello is
-- connected under its identifier exactly if no live connection has that identifier: one that went
-- away may come back, and one that is still there keeps its place, with an error for the other and
-- nothing changed.
pub backend_may_return :
    (p : PercentEncoding) (host url : Text) (now : ℕ) (σ : System)
    (first : RpcResult (Option ChatEvent)) (info : BackendInfo)
    → Reach p (booted host url now) σ
    → read_hello first ≡ ok info
    → let id : BackendId = record { scheme = info.type; id = info.id } in
      (Mem id (connected σ.connections)
        × (start first (caught_up σ)
            ≡ (err (status already_exists (text "id already exists")), caught_up σ)))
      ⊎ ((¬ Mem id (connected σ.connections))
          × (c : IngestEvents) × ((start first (caught_up σ)).0 ≡ ok c)
          × (c.backend_handle.id ≡ id)
          × (get id (start first (caught_up σ)).1.backends ≡ some c.backend))
unfolding start connect register_backend
backend_may_return p host url now σ first info r h =
    let id : BackendId = record { scheme = info.type; id = info.id } in
    let s = caught_up σ in
    elim (held_backend p host url now σ r id) [
      | inl (e, here) ↦ inl (here, ground (arith, h, e))
      | inr (e, gone) ↦ inr (
        gone,
        record {
          id = id;
          backend = s.next;
          backend_handle = record { id = id; receiver = s.next };
        },
        ground (arith, h, e),
        refl,
        ground (arith, h, e, get-insert id id s.next s.backends, same_key_refl id),
      )
    ]

-- Once the cleanup task has caught up, whatever was done before, a plugin's commands are registered
-- exactly if no live stream has one of them: those of a plugin that went away are free again.
-- Otherwise the error names a command that a live stream has, and nothing is changed.
pub commands_may_return :
    (p : PercentEncoding) (host url : Text) (now : ℕ) (σ : System)
    (new : Entries Text CommandMetadata)
    → Reach p (booted host url now) σ
    → ((name : Text) × Mem name (keys new)
        × Mem name (subscribed σ.streams)
        × (stream_events new (caught_up σ) ≡ (
          err (
              status already_exists
                (text "command \"" ++ (name ++ text "\" already registered by another plugin"))),
          caught_up σ,
        )))
      ⊎ (((name : Text) → Mem name (keys new) → ¬ Mem name (subscribed σ.streams))
          × ((stream_events new (caught_up σ)).0 ≡ ok (record { commands = keys new })))
unfolding stream_events
commands_may_return p host url now σ new r =
    let s = caught_up σ in
    elim (Option-cases (first_taken (keys new) s.commands)) [
      | inl e ↦ inr (
        λ name here there. true≢false (
            sym (
              contains_key-mem name s.commands
                ((Perm.mem_iff (caught_up_commands p host url now σ r)).1 there))
            ∙ free-mem (keys new) s.commands name e here),
        ground (arith, e),
      )
      | inr (name, e) ↦
          let (here, held) = taken-mem (keys new) s.commands name e in
          inl (
            name,
            here,
            (Perm.mem_iff (caught_up_commands p host url now σ r)).0
                (mem-contains_key name s.commands held),
            ground (arith, e),
          )
    ]
