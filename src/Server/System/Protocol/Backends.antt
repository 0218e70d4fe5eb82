-- ===== src/Server/System/Protocol/Backends.antt =====
-- The life of a backend's identifier: its connection starts, ends and is cleaned up after.
use mathlib.Core.Bool.{true≢false}
use mathlib.Core.List.{
  Mem, mem-cons, mem-cons_self, mem-cons_of_mem, not-mem-nil, Nodup-cons, Nodup-append,
}
use mathlib.Core.List.Perm
use mathlib.Core.Logic.Or
use seabird_core.Prelude.{
  ◌≡◌, refl, ap, sym, ◌∙◌, arith, Bool, Bool-cases, Option-cases, inl, inr, true, false, some, List,
  [], ◌∷◌, Perm, get, remove, get-insert, get-remove, contains_key, contains_key-get, same_key,
  same_key-eq, same_key_refl, IsIncreasing-Nodup,
}
use seabird_core.Id.{BackendId, backend_id_ord}
use seabird_core.Server.State.{Server}
use seabird_core.Server.Ingest.{IngestEvents}
use seabird_core.Server.Ingest.Start.{Started}
use seabird_core.Server.System.{System}
use seabird_core.Server.System.Ownership.{Inv, connected}
use seabird_core.Server.System.Channels.{Wired}
use seabird_core.Server.System.Protocol.{PresenceMove, elem, presence_at, presence_of}

elem-mem : (k : BackendId) (l : List BackendId) → elem k l ≡ true → Mem k l
elem-mem k [] h = cc
elem-mem k (j ∷ l) h = elim (Bool-cases (same_key k j)) [
  | inl e ↦ rw (same_key-eq k j e) mem-cons_self
  | inr e ↦ mem-cons_of_mem j (elem-mem k l (ground (arith, e)))
]

Bool_set : IsSet Bool
Bool_set = hlevel

mem-elem : (k : BackendId) (l : List BackendId) → Mem k l → elem k l ≡ true
mem-elem k [] h = absurd (not-mem-nil h)
mem-elem k (j ∷ l) h =
    Or.elim (Bool_set _ _) (mem-cons.0 h) (λ e. rw (e, same_key_refl j) refl)
      (λ m. ground (arith, mem-elem k l m))

not-mem-elem : (k : BackendId) (l : List BackendId) → (¬ Mem k l) → elem k l ≡ false
not-mem-elem k l n = elim (Bool-cases (elem k l)) [
  | inl e ↦ absurd (n (elem-mem k l e))
  | inr e ↦ e
]

elem-Perm : (k : BackendId) (l m : List BackendId) → Perm l m → elem k l ≡ elem k m
elem-Perm k l m p = elim (Bool-cases (elem k l)) [
  | inl e ↦ e ∙ sym (mem-elem k m ((Perm.mem_iff p).0 (elem-mem k l e)))
  | inr e ↦
      e ∙ sym (not-mem-elem k m (λ h. true≢false (sym (mem-elem k l ((Perm.mem_iff p).1 h)) ∙ e)))
]

-- Every backend stays or makes one move.
abbrev pub AllGo : System → System → Type 0
AllGo σ τ = (id : BackendId) → PresenceMove (presence_of σ id) (presence_of τ id)

pub same_backends :
    (σ : System) (t : Server) → t.backends ≡ σ.server.backends → AllGo σ (record σ { server = t })
same_backends σ t e id =
    PresenceMove.stays (ap (λ m. presence_at (elem id (connected σ.connections)) (get id m)) e)

pub starts_go :
    (σ : System) (c : IngestEvents) (t : Server)
    → Started c σ.server t
    → AllGo σ (record σ { server = t; connections = c ∷ σ.connections })
starts_go σ c t e id =
    let after = get-insert c.id id σ.server.next σ.server.backends in
    elim (Bool-cases (same_key id c.id)) [
      | inl p ↦
          let same : id ≡ c.id = same_key-eq id c.id p in
          PresenceMove.arrives σ.server.next
            (ground (arith, same, e.absent, contains_key-get c.id σ.server.backends))
            (ground (arith, e.backends, e.handle, after, p))
      | inr p ↦ PresenceMove.stays (ground (arith, e.backends, e.handle, after, p))
    ]

-- A connection that ends was here, and no other has its identifier.
ending :
    (σ : System) (c : IngestEvents) (rest : List IngestEvents)
    → Perm σ.connections (c ∷ rest)
    → Inv σ
    → ¬ Mem c.backend_handle.id (connected rest)
ending σ c rest m v =
    let owned = Perm.nodup v.backends_owned (IsIncreasing-Nodup _ v.backends_sorted) in
    let one_each = (Nodup-append.0 owned).0 in
    (Nodup-cons.0 (Perm.nodup (Perm.map (λ (d : IngestEvents). d.backend_handle.id) m) one_each)).0

pub ends_go :
    (σ : System) (c : IngestEvents) (rest : List IngestEvents) (t : Server)
    → Perm σ.connections (c ∷ rest)
    → Inv σ
    → Wired σ.server σ.connections
    → t.backends ≡ σ.server.backends
    → AllGo σ (record σ { server = t; connections = rest })
ends_go σ c rest t m v w e id =
    let mine : Mem c σ.connections = (Perm.mem_iff m).1 mem-cons_self in
    let before : elem id (connected σ.connections) ≡ elem id (connected (c ∷ rest)) =
      elem-Perm id _ _ (Perm.map (λ (d : IngestEvents). d.backend_handle.id) m) in
    elim (Bool-cases (same_key id c.backend_handle.id)) [
      | inl p ↦
          let same : id ≡ c.id = same_key-eq id c.backend_handle.id p ∙ w.named c mine in
          let found : get id σ.server.backends ≡ some c.backend = rw same (w.held c mine) in
          let gone : elem id (connected rest) ≡ false =
            not-mem-elem id (connected rest)
              (rw (same_key-eq id c.backend_handle.id p) (ending σ c rest m v)) in
          PresenceMove.leaves c.backend (ground (arith, before, p, found))
            (ground (arith, e, gone, found))
      | inr p ↦ PresenceMove.stays (ground (arith, e, before, p))
    ]

pub clean_goes :
    (σ : System) (gone : BackendId) (t : Server)
    → (contains_key gone σ.server.backends ≡ true) × (¬ Mem gone (connected σ.connections))
    → t.backends ≡ remove gone σ.server.backends
    → AllGo σ (record σ { server = t })
clean_goes σ gone t (held, away) e id =
    let after = get-remove gone id σ.server.backends in
    elim (Bool-cases (same_key id gone)) [
      | inr p ↦ PresenceMove.stays (ground (arith, e, after, p))
      | inl p ↦
          let same : id ≡ gone = same_key-eq id gone p in
          let apart : elem id (connected σ.connections) ≡ false =
            not-mem-elem id (connected σ.connections) (rw same away) in
          elim (Option-cases (get gone σ.server.backends)) [
            | inl none_there ↦
                ground (arith, held, none_there, contains_key-get gone σ.server.backends)
            | inr (a, found) ↦
                PresenceMove.goes a (ground (arith, apart, same, found))
                  (ground (arith, e, after, p))
          ]
    ]
