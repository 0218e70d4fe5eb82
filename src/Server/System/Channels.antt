-- ===== src/Server/System/Channels.antt =====
-- The `Arc<ChatBackend>` that a connection of src/server/ingest_events.rs writes and that the
-- handlers of src/server/grpc.rs read is one and the same, however the tasks interleave.
pub mod Events
pub mod Shown
pub mod Tables
pub mod Agree
use mathlib.Core.List.{Mem, mem-cons, mem-map_of_mem}
use mathlib.Core.List.Perm
use mathlib.Core.Logic.Or
use mathlib.Core.Path.{subst}
use seabird_core.Prelude.{
  ℕ, suc, ◌≡◌, ◌≢◌, refl, sym, ap, ◌∙◌, Option, none, some, List, [], ◌∷◌, arith, get, insert,
  remove, get-insert, get-remove, same_key, same_key-eq, same_key_refl, contains_key-get,
  contains_key, false, true, Bool-cases, inl, inr, is_some, Entries, ◌<◌, ◌≤◌, ◌⊎◌,
}
use seabird_core.Id.{BackendId, backend_id_ord}
use seabird_core.Server.State.{Server, CleanupRequest, backend, request, commands}
use seabird_core.Server.Requests.{clean, cleanup_turn}
use seabird_core.Server.Requests.Turns.{cleanup_turn-nil, cleanup_turn-cons}
use seabird_core.Server.Ingest.{IngestEvents}
use seabird_core.Server.Ingest.Start.{Started}
use seabird_core.Server.System.Ownership.{connected}

-- A connection's backend is the registered one, and no two registered backends share an `Arc`.
pub record Wired (s : Server) (cs : List IngestEvents) : Type 0 where
  pub held : (c : IngestEvents) → Mem c cs → get c.id s.backends ≡ some c.backend
  pub named : (c : IngestEvents) → Mem c cs → c.backend_handle.id ≡ c.id
  pub below : (k : BackendId) (a : ℕ) → get k s.backends ≡ some a → a < s.next
  pub apart :
      (j k : BackendId) (a : ℕ) → get j s.backends ≡ some a → get k s.backends ≡ some a → j ≡ k

pub Wired-kept :
    (s t : Server) (cs : List IngestEvents)
    → t.backends ≡ s.backends
    → s.next ≤ t.next
    → Wired s cs
    → Wired t cs
Wired-kept s t cs b n v = record {
  held = λ c m. rw b (v.held c m);
  named = v.named;
  below = λ k a h. omega (arith, n, v.below k a (rw b at h));
  apart = λ j k a h g. v.apart j k a (rw b at h) (rw b at g);
}

pub fewer_connections :
    (s : Server) (cs rest : List IngestEvents)
    → ((c : IngestEvents) → Mem c rest → Mem c cs)
    → Wired s cs
    → Wired s rest
fewer_connections s cs rest sub v = record {
  held = λ c m. v.held c (sub c m);
  named = λ c m. v.named c (sub c m);
  below = v.below;
  apart = v.apart;
}

-- What holds of the entry of `j` in a map to which `id` was added with a number not in use.
pub added :
    (id j : BackendId) (n a : ℕ) (m : Entries BackendId ℕ)
    → get j (insert id n m) ≡ some a
    → ((j ≡ id) × (a ≡ n)) ⊎ (get j m ≡ some a)
added id j n a m h = elim (Bool-cases (same_key j id)) [
  | inl e ↦ inl (same_key-eq j id e, ground (arith, e, get-insert id j n m))
  | inr e ↦ inr (ground (arith, e, get-insert id j n m))
]

free_key :
    (j k : BackendId) (a : ℕ) (m : Entries BackendId ℕ)
    → contains_key k m ≡ false
    → get j m ≡ some a
    → same_key j k ≡ false
free_key j k a m f h = elim (Bool-cases (same_key j k)) [
  | inl e ↦ ground (arith, ap (λ x. get x m) (same_key-eq j k e), contains_key-get k m)
  | inr e ↦ e
]

new_entry : (k : BackendId) (n : ℕ) (m : Entries BackendId ℕ) → get k (insert k n m) ≡ some n
new_entry k n m = ground (arith, get-insert k k n m, same_key_refl k)

kept_entry :
    (j k : BackendId) (n a : ℕ) (m : Entries BackendId ℕ)
    → contains_key k m ≡ false
    → get j m ≡ some a
    → get j (insert k n m) ≡ some a
kept_entry j k n a m f h = ground (arith, get-insert k j n m, free_key j k a m f h, h)

Option-ℕ_set : IsSet (Option ℕ)
Option-ℕ_set = hlevel

BackendId_set : IsSet BackendId
BackendId_set = hlevel

pub starts-Wired :
    (c : IngestEvents) (s t : Server) (cs : List IngestEvents)
    → Started c s t
    → Wired s cs
    → Wired t (c ∷ cs)
starts-Wired c s t cs e v = record {
  held = λ d m.
      Or.elim (Option-ℕ_set _ _) (mem-cons.0 m)
        (λ same. rw (same, e.backends, e.arc) (new_entry c.id s.next s.backends))
        (λ old.
          rw e.backends (kept_entry d.id c.id s.next d.backend s.backends e.absent (v.held d old)));
  named = λ d m. Or.elim (BackendId_set _ _) (mem-cons.0 m) (λ same. rw same e.handle) (v.named d);
  below = λ k a h. elim (added c.id k s.next a s.backends (rw e.backends at h)) [
    | inl (_, fresh) ↦ omega (arith, fresh, e.next)
    | inr old ↦ omega (arith, v.below k a old, e.next)
  ];
  apart = λ j k a h g. elim (added c.id j s.next a s.backends (rw e.backends at h)) [
    | inl (p, fresh) ↦ elim (added c.id k s.next a s.backends (rw e.backends at g)) [
      | inl (q, _) ↦ p ∙ sym q
      | inr old ↦ absurd (omega (arith, fresh, v.below k a old))
    ]
    | inr old ↦ elim (added c.id k s.next a s.backends (rw e.backends at g)) [
      | inl (_, fresh) ↦ absurd (omega (arith, fresh, v.below j a old))
      | inr old_too ↦ v.apart j k a old old_too
    ]
  ];
}

pub clean-Wired :
    (s : Server) (r : CleanupRequest) (cs : List IngestEvents)
    → ((id : BackendId) → r ≡ backend id → ¬ Mem id (connected cs))
    → Wired s cs
    → Wired (clean r s) cs
unfolding clean
clean-Wired s (request id) cs n v = Wired-kept s _ cs refl (omega arith) v
clean-Wired s (commands names) cs n v = Wired-kept s _ cs refl (omega arith) v
clean-Wired s (backend id) cs n v = record {
  held = λ c m. elim (Bool-cases (same_key c.id id)) [
    | inl e ↦ absurd (
        n id refl (
          rw (← same_key-eq c.id id e, ← v.named c m)
            (mem-map_of_mem (λ (d : IngestEvents). d.backend_handle.id) m)))
    | inr e ↦ ground (arith, e, get-remove id c.id s.backends, v.held c m)
  ];
  named = v.named;
  below = λ k a h. v.below k a (ground (arith, get-remove id k s.backends));
  apart = λ j k a h g.
      v.apart j k a (ground (arith, get-remove id j s.backends))
        (ground (arith, get-remove id k s.backends));
}
