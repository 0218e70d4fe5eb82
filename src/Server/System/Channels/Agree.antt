-- ===== src/Server/System/Channels/Agree.antt =====
-- `list_channels` and `get_channel_info` of src/server/grpc.rs tell the same, however the tasks
-- interleave.
use mathlib.Core.List.{
  Mem, mem-map_of_mem, exists_of_mem-map, mem-cons_self, mem-cons_of_mem, mem-cast,
}
use mathlib.Core.Logic.{∥∥₁_elim}
use seabird_core.Prelude.{
  ℕ, Text, text, ◌≡◌, ◌↔◌, sym, ap, ◌∙◌, none, some, List, [], ◌∷◌, map, arith, inl, inr,
  Option-cases, Bool-cases, ok, keys, values, get, text_ord, same_key, Entries, RpcResult,
  contains_key-mem, contains_key-get,
}
use seabird_core.Id.{BackendId, FullId, backend_id_ord, relative, show_backend_id, show_full_id}
use seabird_core.Id.Percent.{PercentEncoding, Laws}
use seabird_core.Id.RoundTrip.{parse_full_id-show, parse_backend_id-show}
use seabird_core.Proto.{Channel}
use seabird_core.Server.State.{Server}
use seabird_core.Server.Ingest.Channels.{IsTable, get_listed, IsKeyed-get}
use seabird_core.Server.Grpc.{backend_id_of}
use seabird_core.Server.Grpc.Queries.{
  list_channels, get_channel_info, channel_response, channels_of,
}
use seabird_core.Server.Grpc.Routing.{full_id_of-show}
use seabird_core.Server.System.{System, Reach, booted}
use seabird_core.Server.System.Channels.Tables.{Reach-AreTables}

front : {c d : Channel} → some d ≡ some c → c ≡ d
front h = cc h

get-Mem : (k : Text) (c : Channel) (m : Entries Text Channel) → get k m ≡ some c → Mem c (values m)
unfolding get
get-Mem k c [] e = cc
get-Mem k c ((j, d) ∷ m) e = elim (Bool-cases (same_key k j)) [
  | inl q ↦ mem-cast (front (ground (arith, q))) mem-cons_self
  | inr q ↦ mem-cons_of_mem d (get-Mem k c m (ground (arith, q)))
]

module _ (p : PercentEncoding) (laws : Laws p) where
  show_full_id-injective : (f g : FullId) → show_full_id p f ≡ show_full_id p g → f ≡ g
  show_full_id-injective f g e = cc (parse_full_id-show p laws f, parse_full_id-show p laws g, e)

  channel_info :
      (b : BackendId) (a : ℕ) (k : Text) (s : Server)
      → get b s.backends ≡ some a
      → (c : Channel) → get k (s.arcs a).channels ≡ some c
      → (get_channel_info p (show_full_id p (relative b k)) s).0 ≡ ok (channel_response p b c)
  unfolding get_channel_info channels_of
  channel_info b a k s e c h =
      ground (arith, e, h, full_id_of-show p laws (text "failed to parse channel_id") b k)

  no_channel_info :
      (b : BackendId) (a : ℕ) (k : Text) (s : Server) (x : Channel)
      → get b s.backends ≡ some a
      → get k (s.arcs a).channels ≡ none
      → ¬ ((get_channel_info p (show_full_id p (relative b k)) s).0 ≡ ok x)
  unfolding get_channel_info channels_of
  no_channel_info b a k s x e h q =
      ground (arith, e, h, full_id_of-show p laws (text "failed to parse channel_id") b k)

  -- The two queries about the channels of a registered backend.
  info-listed :
      (b : BackendId) (a : ℕ) (s : Server) (k : Text) (x : Channel)
      → get b s.backends ≡ some a
      → IsTable (s.arcs a).channels
      → (get_channel_info p (show_full_id p (relative b k)) s).0 ≡ ok x
      → Mem x (map (channel_response p b) (values (s.arcs a).channels))
        × (x.id ≡ show_full_id p (relative b k))
  unfolding channel_response
  info-listed b a s k x e t h = elim (Option-cases (get k (s.arcs a).channels)) [
    | inl absent ↦ absurd (no_channel_info b a k s x e absent h)
    | inr (c, found) ↦
        let same : x ≡ channel_response p b c = told (sym h ∙ channel_info b a k s e c found) in
        rw same (
          mem-map_of_mem (channel_response p b) (get-Mem k c (s.arcs a).channels found),
          ap (λ i. show_full_id p (relative b i))
              (IsKeyed-get k c (s.arcs a).channels t.keyed found),
        )
  ]
    where
      told : {x y : Channel} → ◌≡◌ {A = RpcResult Channel} (ok x) (ok y) → x ≡ y
      told h = cc h

  Result-set : IsSet (RpcResult Channel)
  Result-set = hlevel

  listed-info :
      (b : BackendId) (a : ℕ) (s : Server) (k : Text) (x : Channel)
      → get b s.backends ≡ some a
      → IsTable (s.arcs a).channels
      → Mem x (map (channel_response p b) (values (s.arcs a).channels))
      → x.id ≡ show_full_id p (relative b k)
      → (get_channel_info p (show_full_id p (relative b k)) s).0 ≡ ok x
  unfolding channel_response relative
  listed-info b a s k x e t l q =
      ∥∥₁_elim (exists_of_mem-map l) (Result-set _ _)
        (λ ((c, held, same) : (c : Channel) × Mem c (values (s.arcs a).channels)
            × (channel_response p b c ≡ x)).
          let own : c.id ≡ k =
            ap (λ (f : FullId). f.path)
              (show_full_id-injective (relative b c.id) (relative b k)
                (ap (λ (y : Channel). y.id) same ∙ q)) in
          channel_info b a k s e c (
            sym (ap (λ i. get i (s.arcs a).channels) own) ∙ get_listed c (s.arcs a).channels t held)
          ∙ ap ok same)

  pub channel_queries_agree :
      (host url : Text) (now : ℕ) (σ : System) (b : BackendId)
      → Reach p (booted host url now) σ
      → Mem b (keys σ.server.backends)
      → (channels : List Channel) × (list_channels p (show_backend_id p b) σ.server
          ≡ (ok channels, σ.server))
        × ((k : Text) (x : Channel)
            → (Mem x channels × (x.id ≡ show_full_id p (relative b k)))
              ↔ ((get_channel_info p (show_full_id p (relative b k)) σ.server).0 ≡ ok x))
  unfolding list_channels channels_of backend_id_of
  channel_queries_agree host url now σ b r l = elim (Option-cases (get b σ.server.backends)) [
    | inl absent ↦ ground (
      arith,
      absent,
      contains_key-mem b σ.server.backends l,
      contains_key-get b σ.server.backends,
    )
    | inr (a, e) ↦
        let t = Reach-AreTables p host url now σ r a in
        (
          map (channel_response p b) (values (σ.server.arcs a).channels),
          ground (arith, e, parse_backend_id-show p laws b),
          λ k x.
              ((λ m. listed-info b a σ.server k x e t m.0 m.1), info-listed b a σ.server k x e t),
        )
  ]
