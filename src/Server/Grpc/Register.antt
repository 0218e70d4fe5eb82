-- ===== src/Server/Grpc/Register.antt =====
-- The registration of a plugin's commands in `stream_events` of src/server/grpc.rs: all or nothing.
use mathlib.Core.Bool.{true≢false}
use mathlib.Core.Logic.Or
use mathlib.Core.List.{
  Mem, mem-cons, not-mem-nil, Nodup-cons, mem-cons_self, mem-cons_of_mem, perm_middle,
}
use mathlib.Core.List.Perm
use seabird_core.Prelude.{
  ◌≡◌, refl, sym, ap, ◌∙◌, Text, text, Option, none, some, List, [], ◌∷◌, ◌++◌, RpcResult, ok, err,
  arith, Status, status, already_exists, false, true, insert, contains_key, get, inl, inr,
  Bool-cases, Option-cases, Entries, keys, Nodup, Perm, text_ord, if◌then◌else◌, IsIncreasing,
  keys-insert-perm, keys-insert-IsIncreasing, contains_key-get, get-insert, same_key, same_key-eq,
  mem-contains_key,
}
use seabird_core.Proto.{CommandMetadata}
use seabird_core.Server.State.{Server, CommandsHandle}
use seabird_core.Server.Grpc.Stream.{first_taken, insert_all, stream_events}

abbrev Registry : Type 0
Registry = Entries Text CommandMetadata

contains_key-insert :
    (k j : Text) (v : CommandMetadata) (m : Registry)
    → contains_key j (insert k v m) ≡ (if same_key j k then true else contains_key j m)
contains_key-insert k j v m =
    ground (arith, contains_key-get j (insert k v m), contains_key-get j m, get-insert k j v m)

free_after_insert :
    (k : Text) (v : CommandMetadata) (names : List Text) (m : Registry)
    → (¬ Mem k names)
    → first_taken names m ≡ none
    → first_taken names (insert k v m) ≡ none
unfolding first_taken
free_after_insert k v [] m n h = refl
free_after_insert k v (j ∷ names) m n h = elim (Bool-cases (same_key j k)) [
  | inl e ↦ absurd (n (rw (same_key-eq j k e) mem-cons_self))
  | inr e ↦ ground (
    arith,
    e,
    contains_key-insert k j v m,
    free_after_insert k v names m (λ x. n (mem-cons_of_mem j x)),
  )
]

-- The registry has the plugin's commands besides its own.
pub keys-insert_all :
    (new m : Registry)
    → Nodup (keys new)
    → first_taken (keys new) m ≡ none
    → Perm (keys (insert_all new m)) (keys new ++ keys m)
unfolding insert_all first_taken
keys-insert_all [] m n h = Perm.refl (keys m)
keys-insert_all ((k, v) ∷ new) m n h = elim (Bool-cases (contains_key k m)) [
  | inl e ↦ ground (arith, e)
  | inr e ↦
      let (fresh, rest) = Nodup-cons.0 n in
      Perm.trans
        (keys-insert_all new (insert k v m) rest
          (free_after_insert k v (keys new) m fresh (ground (arith, e))))
        (Perm.trans (Perm.append_left (keys new) (keys-insert-perm k v m e))
          (perm_middle (keys new) (keys m)))
]

pub keys-insert_all-IsIncreasing :
    (new m : Registry) → IsIncreasing (keys m) → IsIncreasing (keys (insert_all new m))
unfolding insert_all
keys-insert_all-IsIncreasing [] m h = h
keys-insert_all-IsIncreasing ((k, v) ∷ new) m h =
    keys-insert_all-IsIncreasing new (insert k v m) (keys-insert-IsIncreasing k v m h)

-- What an accepted registration did.
pub record Registered (new : Registry) (h : CommandsHandle) (s t : Server) : Type 0 where
  pub free : first_taken (keys new) s.commands ≡ none
  pub held : h.commands ≡ keys new
  pub commands : t.commands ≡ insert_all new s.commands
  pub backends : t.backends ≡ s.backends
  pub arcs : t.arcs ≡ s.arcs
  pub requests : t.requests ≡ s.requests
  pub answered : t.answered ≡ s.answered
  pub next : t.next ≡ s.next
  pub cleanup : t.cleanup ≡ s.cleanup

pub stream_events-Registered :
    (new : Registry) (h : CommandsHandle) (s t : Server)
    → stream_events new s ≡ (ok h, t)
    → Registered new h s t
unfolding stream_events
stream_events-Registered new h s t e = elim (Option-cases (first_taken (keys new) s.commands)) [
  | inl f ↦ ground (arith, f)
  | inr (name, f) ↦ ground (arith, f)
]

pub stream_events_denied :
    (new : Registry) (e : Status) (s t : Server) → stream_events new s ≡ (err e, t) → t ≡ s
unfolding stream_events
stream_events_denied new e s t h = ground arith

abbrev pub or_old {ℓ} : {A : Type ℓ} → Option A → Option A → Option A
or_old none old = old
or_old (some a) old = some a

absent_key : (k : Text) (m : Registry) → (¬ Mem k (keys m)) → get k m ≡ none
absent_key k m n = elim (Bool-cases (contains_key k m)) [
  | inl e ↦ absurd (n (mem-contains_key k m e))
  | inr e ↦ ground (arith, e, contains_key-get k m)
]

get-insert_all :
    (new m : Registry) (j : Text)
    → Nodup (keys new)
    → get j (insert_all new m) ≡ or_old (get j new) (get j m)
unfolding insert_all get
get-insert_all [] m j n = refl
get-insert_all ((k, v) ∷ new) m j n =
    let (fresh, rest) = Nodup-cons.0 n in
    ground (
      arith,
      get-insert_all new (insert k v m) j rest,
      get-insert k j v m,
      absent_key k new fresh,
      text_ord.same j k,
    )

pub taken-mem :
    (names : List Text) (m : Registry) (name : Text)
    → first_taken names m ≡ some name
    → Mem name names × (contains_key name m ≡ true)
unfolding first_taken
taken-mem [] m name h = cc
taken-mem (k ∷ names) m name h = elim (Bool-cases (contains_key k m)) [
  | inl e ↦ let same : k ≡ name = ground (arith, e) in (rw (← same) mem-cons_self, rw (← same) e)
  | inr e ↦
      let (here, held) = taken-mem names m name (ground (arith, e)) in
      (mem-cons_of_mem k here, held)
]

-- What became of a plugin's registration.
pub data Outcome (new : Registry) (s : Server) : RpcResult CommandsHandle × Server → Type 0 where
  all :
      (h : CommandsHandle) (t : Server)
      → h.commands ≡ keys new
      → ((j : Text) → get j t.commands ≡ or_old (get j new) (get j s.commands))
      → ((j : Text) → Mem j (keys new) → contains_key j s.commands ≡ false)
      → Outcome new s (ok h, t)
  nothing :
      (name : Text)
      → Mem name (keys new)
      → contains_key name s.commands ≡ true
      → Outcome new s (
        err (
            status already_exists
              (text "command \"" ++ (name ++ text "\" already registered by another plugin"))),
        s,
      )

pub free-mem :
    (names : List Text) (m : Registry) (j : Text)
    → first_taken names m ≡ none
    → Mem j names
    → contains_key j m ≡ false
unfolding first_taken
free-mem [] m j h l = absurd (not-mem-nil l)
free-mem (k ∷ names) m j h l = elim (Bool-cases (contains_key j m)) [
  | inr e ↦ e
  | inl e ↦ elim (Bool-cases (contains_key k m)) [
    | inl f ↦ ground (arith, f)
    | inr f ↦ absurd (
        Or.elim (λ x. absurd x) (mem-cons.0 l)
          (λ p. true≢false (sym e ∙ ap (λ x. contains_key x m) p ∙ f))
          (λ rest. true≢false (sym e ∙ free-mem names m j (ground (arith, f)) rest)))
  ]
]

-- A plugin's commands, whose names are distinct, are registered all or none. Either every name was free, and the registry then
-- has the plugin's metadata under its names and is as it was elsewhere; or some name of the plugin
-- was taken, the error names it, and nothing is changed.
pub stream_events-Outcome :
    (new : Registry) (s : Server) → Nodup (keys new) → Outcome new s (stream_events new s)
unfolding stream_events
stream_events-Outcome new s n = elim (Option-cases (first_taken (keys new) s.commands)) [
  | inl e ↦
      rw (e, stream_events)
        (all _ _ refl (λ j. get-insert_all new s.commands j n)
          (λ j l. free-mem (keys new) s.commands j e l))
  | inr (name, e) ↦
      let (here, held) = taken-mem (keys new) s.commands name e in
      rw (e, stream_events) (nothing name here held)
]
