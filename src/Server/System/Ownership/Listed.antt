-- ===== src/Server/System/Ownership/Listed.antt =====
-- What `list_backends` of src/server/grpc.rs tells of the connections, however the tasks interleave.
use mathlib.Core.Logic.Or
use mathlib.Core.List.{
  Mem, not-mem-nil, mem-cons, mem-cons_self, mem-cons_of_mem, mem-cast, Nodup-nil, Nodup-cons,
  mem-append, mem-append_left, mem-map_of_mem, exists_of_mem-map,
}
use mathlib.Core.List.Perm
use mathlib.Core.Logic.{◌∨₁◌, ∥∥₁_map, ∥∥₁_prop}
use seabird_core.Prelude.{
  ℕ, Text, List, [], ◌∷◌, map, Nodup, ◌≡◌, refl, sym, ok, keys, IsIncreasing-Nodup, text_ord,
}
use seabird_core.Id.{BackendId, backend_id_ord, show_backend_id}
use seabird_core.Id.Percent.{PercentEncoding, Laws}
use seabird_core.Id.RoundTrip.{parse_backend_id-show}
use seabird_core.Server.Grpc.Queries.{Backend, list_backends, backend_response}
use seabird_core.Server.Grpc.{backend_id_of}
use seabird_core.Server.Grpc.Routing.{list_backends_answer}
use seabird_core.Server.System.{System, Reach, booted}
use seabird_core.Server.System.Ownership.{connected, queued_backends}
use seabird_core.Server.System.Ownership.Always.{Reach-Inv}

module _ (p : PercentEncoding) (laws : Laws p) where
  show_backend_id-injective : (a b : BackendId) → show_backend_id p a ≡ show_backend_id p b → a ≡ b
  show_backend_id-injective a b e =
      cc (parse_backend_id-show p laws a, parse_backend_id-show p laws b, e)

  ids : List BackendId → List Text
  ids ks = map (λ (b : Backend). b.id) (map (backend_response p) ks)

  id-Mem : (k : BackendId) (ks : List BackendId) → Mem (show_backend_id p k) (ids ks) → Mem k ks
  unfolding ids backend_response
  id-Mem k [] m = absurd (not-mem-nil m)
  id-Mem k (j ∷ ks) m =
      Or.elim ∥∥₁_prop (mem-cons.0 m)
        (λ e. mem-cast (show_backend_id-injective k j e) mem-cons_self)
        (λ l. mem-cons_of_mem j (id-Mem k ks l))

  ids-Nodup : (ks : List BackendId) → Nodup ks → Nodup (ids ks)
  unfolding ids backend_response
  ids-Nodup [] n = Nodup-nil
  ids-Nodup (k ∷ ks) n =
      let (absent, rest) = Nodup-cons.0 n in
      Nodup-cons.1 ((λ m. absent (id-Mem k ks m)), ids-Nodup ks rest)

  -- Whatever the tasks did before: `list_backends` lists each backend that is connected, no two under
  -- one identifier, and besides them only backends that are queued for cleanup; the handlers read
  -- each listed identifier as the backend that it is listed for.
  pub listed_backends :
      (host url : Text) (now : ℕ) (σ : System)
      → Reach p (booted host url now) σ
      → (backends : List Backend) × (list_backends p σ.server ≡ (ok backends, σ.server))
        × Nodup (map (λ b. b.id) backends)
        × ((b : BackendId) → Mem b (connected σ.connections) → Mem (backend_response p b) backends)
        × ((x : Backend)
            → Mem x backends
            → ∥ (
                (b : BackendId) × (x ≡ backend_response p b)
                × (backend_id_of p x.id ≡ ok b)
                × (Mem b (connected σ.connections) ∨₁ Mem b (queued_backends σ.server.cleanup))) ∥₁)
  unfolding list_backends backend_response ids
  listed_backends host url now σ r =
      let v = Reach-Inv p host url now σ r in
      (
        map (backend_response p) (keys σ.server.backends),
        refl,
        ids-Nodup _ (IsIncreasing-Nodup _ v.backends_sorted),
        λ b m.
            mem-map_of_mem (backend_response p)
              ((Perm.mem_iff v.backends_owned).1 (mem-append_left _ m)),
        λ x m.
            ∥∥₁_map (exists_of_mem-map m)
              (λ ((k, held, same) : (k : BackendId) × Mem k (keys σ.server.backends)
                  × (backend_response p k ≡ x)).
                (
                  k,
                  sym same,
                  rw (← same) (list_backends_answer p laws k σ.server held).1,
                  mem-append.0 ((Perm.mem_iff v.backends_owned).0 held),
                )),
      )
