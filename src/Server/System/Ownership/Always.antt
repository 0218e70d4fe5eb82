-- ===== src/Server/System/Ownership/Always.antt =====
-- What the ownership of the registries' entries gives, however the tasks interleave.
use mathlib.Core.List.{Mem}
use mathlib.Core.List.Perm
use seabird_core.Prelude.{
  ℕ, Text, List, [], ◌∷◌, ◌≡◌, refl, keys, text_ord, IsIncreasing-Nodup, true, owned_mem,
  owned_apart, contains_key, contains_key-mem, length, Entries,
}
use seabird_core.Id.{BackendId, backend_id_ord}
use seabird_core.Id.Percent.{PercentEncoding}
use seabird_core.Server.State.{CleanupRequest, backend, new}
use seabird_core.Server.Requests.{cleanup_turn}
use seabird_core.Server.Requests.Turns.{turns, cleanup-turn}
use seabird_core.Server.System
use seabird_core.Server.System.{System, Step, Reach, booted}
use seabird_core.Server.System.Ownership.{Inv, connected, queued_backends}
use seabird_core.Server.System.Ownership.Steps.{Step-Inv, turn_of_cleanup}

booted-Inv : (host url : Text) (now : ℕ) → Inv (booted host url now)
unfolding new
booted-Inv host url now = record {
  backends_owned = Perm.nil;
  backends_sorted = tt;
  commands_owned = Perm.nil;
  commands_sorted = tt;
}

Reach-keeps : (p : PercentEncoding) (σ τ : System) → Reach p σ τ → Inv σ → Inv τ
Reach-keeps p σ τ System.here v = v
Reach-keeps p σ τ (System.next {τ = υ} r st) v = Step-Inv p υ τ st (Reach-keeps p σ υ r v)

-- Whatever the tasks do from the start of the server on, the backends in the registry are exactly
-- those of the live connections and those queued for cleanup, each counted once, and the commands
-- exactly those of the live streams and those queued; both registries are in increasing order of
-- their keys.
pub Reach-Inv :
    (p : PercentEncoding) (host url : Text) (now : ℕ) (σ : System)
    → Reach p (booted host url now) σ
    → Inv σ
Reach-Inv p host url now σ r = Reach-keeps p _ σ r (booted-Inv host url now)

-- When the cleanup task reads that a backend is gone, the backend is still registered, and no live
-- connection has its identifier: a cleanup never removes the registration of a connection that came
-- later.
pub cleanup_is_due :
    (p : PercentEncoding) (host url : Text) (now : ℕ) (σ : System) (id : BackendId)
    (q : List CleanupRequest)
    → Reach p (booted host url now) σ
    → σ.server.cleanup ≡ backend id ∷ q
    → (contains_key id σ.server.backends ≡ true) × (¬ Mem id (connected σ.connections))
cleanup_is_due p host url now σ id q r e =
    let v = Reach-Inv p host url now σ r in
    let owned = rw e at (v.backends_owned) in
    (
      contains_key-mem id σ.server.backends
          (owned_mem _ (connected σ.connections) (queued_backends q) id owned),
      owned_apart _ (connected σ.connections) (queued_backends q) id
          (IsIncreasing-Nodup _ v.backends_sorted) owned,
    )

keys-nil {ℓ κ} : {K : Type ℓ} {V : Type κ} (m : Entries K V) → keys m ≡ [] → m ≡ []
keys-nil [] e = refl
keys-nil ((k, v) ∷ m) e = cc

-- With no task left and nothing queued, both registries are empty.
unowned :
    (σ : System)
    → Inv σ
    → σ.connections ≡ []
    → σ.streams ≡ []
    → σ.server.cleanup ≡ []
    → (σ.server.backends ≡ []) × (σ.server.commands ≡ [])
unowned σ v c t e = (
  keys-nil σ.server.backends (Perm.eq-nil (rw (c, e) at (v.backends_owned))),
  keys-nil σ.server.commands (Perm.eq-nil (rw (t, e) at (v.commands_owned))),
)

pub drains :
    (σ : System) (q : List CleanupRequest)
    → σ.server.cleanup ≡ q
    → Inv σ
    → Inv (record σ { server = turns (length q) σ.server })
      × ((turns (length q) σ.server).cleanup ≡ [])
unfolding turns
drains σ [] e v = (v, e)
drains σ (r ∷ q) e v =
    drains (record σ { server = cleanup_turn σ.server }) q (cleanup-turn σ.server r q e)
      (turn_of_cleanup σ (r ∷ q) e v)

-- Once every connection and every stream has ended, however that came about, as many turns of the
-- cleanup task as there are requests in its queue leave both registries empty: nothing stays
-- registered for ever.
pub registries_drain :
    (p : PercentEncoding) (host url : Text) (now : ℕ) (σ : System)
    → Reach p (booted host url now) σ
    → σ.connections ≡ []
    → σ.streams ≡ []
    → ((turns (length σ.server.cleanup) σ.server).backends ≡ [])
      × ((turns (length σ.server.cleanup) σ.server).commands ≡ [])
registries_drain p host url now σ r c t =
    let (v, e) = drains σ σ.server.cleanup refl (Reach-Inv p host url now σ r) in
    unowned (record σ { server = turns (length σ.server.cleanup) σ.server }) v c t e
