-- ===== src/Api/Cache/Bounds.antt =====
-- A bound of 0 and no bound have one key in the cache.
use akave_crosschain_archive.Base.{
  ℕ, ◌+◌, ◌<◌, ◌≤◌, String, Bool, false, Option, none, some, [], ◌∷◌, str_eq, ltb, ◌≡◌, ◌≢◌, refl,
  ◌∙◌, arith, eq_refl, str_ne, lt→ltb, le→ltb, inl, inr, Bool-cases, some_inj, ok,
}
use akave_crosschain_archive.Base.Int.{pos}
use akave_crosschain_archive.Base.Table.{Table, lookup, upsert, lookup-upsert, merged}
use akave_crosschain_archive.Database.{Db}
use akave_crosschain_archive.Api.Cache.{
  CacheEntry, Cache, cache_get, cache_set, cache_evict, store_stats, get_protocol_stats,
}
use akave_crosschain_archive.Api.Stats.{
  Floats, StatsFilter, ProtocolStats, cache_key, compute_protocol_stats,
}

-- An entry that has not expired survives the eviction.
lookup-cache_evict :
    {V : Type 0} (now : ℕ) (key : String) (e : CacheEntry V) (entries : Table (CacheEntry V))
    → lookup key entries ≡ some e
    → now ≤ e.expires_at
    → lookup key (cache_evict now entries) ≡ some e
unfolding lookup cache_evict
lookup-cache_evict now key e [] h l = ground (arith, h)
lookup-cache_evict now key e ((k, x) ∷ entries) h l = elim (Bool-cases (str_eq k key)) [
  | inl here ↦
      let known : some x ≡ some e = (rw here at h) in
      let fresh : ltb x.expires_at now ≡ false = le→ltb x.expires_at now (rw (some_inj known) l) in
      rw (fresh, here) known
  | inr other ↦
      let later = lookup-cache_evict now key e entries (rw other at h) l in
      elim (Bool-cases (ltb x.expires_at now)) [
        | inl old ↦ rw old later
        | inr fresh ↦ rw (fresh, other) later
      ]
]

merged_same {ℓ} : {V : Type ℓ} (v : V) (o : Option V) → merged v (λ _. v) o ≡ v
merged_same v none = refl
merged_same v (some w) = refl

-- What was stored is found until it expires.
cache_get-stored :
    {V : Type 0} (ttl now later : ℕ) (key : String) (v : V) (entries : Table (CacheEntry V))
    → later < now + ttl
    → cache_get later key (cache_evict now (cache_set ttl now key v entries)) ≡ some v
unfolding cache_get cache_set
cache_get-stored {V} ttl now later key v entries h =
    let e : CacheEntry V = record { value = v; expires_at = now + ttl } in
    let there : lookup key (upsert key e (λ _. e) entries) ≡ some e =
      lookup-upsert key key e (λ _. e) entries
      ∙ rw (eq_refl key, merged_same e (lookup key entries)) refl in
    rw (lookup-cache_evict now key e _ there (omega arith), lt→ltb later (now + ttl) h) refl

-- The filter with an upper bound of 0, in the place of none.
abbrev pub until_zero : StatsFilter → StatsFilter
until_zero f = record f { to_ts = some (pos 0) }

key_until_zero :
    (protocol : String) (f : StatsFilter)
    → f.to_ts ≡ none
    → cache_key "proto" protocol (until_zero f) ≡ cache_key "proto" protocol f
unfolding cache_key
key_until_zero protocol f h = simp h refl

module _ (F : Type 0) (floats : Floats F) (ttl : ℕ) where
  -- Once the statistics of a protocol without an upper bound are computed, a request for those up to
  -- the time 0 is answered with them until they expire, whatever the database holds by then.
  pub until_zero_shares_cache :
      (now later : ℕ) (protocol : String) (f : StatsFilter) (db db' : Db) (cache : Cache F)
      (stats : ProtocolStats F) (fails again : Bool)
      → protocol ≢ ""
      → f.to_ts ≡ none
      → cache_get now (cache_key "proto" protocol f) cache ≡ none
      → compute_protocol_stats F floats false false now protocol f db ≡ ok stats
      → later < now + ttl
      → let (cache', first) = get_protocol_stats F floats ttl false false now protocol f db cache in
        (first ≡ ok stats)
        × (get_protocol_stats F floats ttl fails again later protocol (until_zero f) db' cache'
            ≡ (cache', ok stats))
  unfolding get_protocol_stats store_stats
  until_zero_shares_cache now later protocol f db db' cache stats fails again named free missed
        computed h =
      let found = cache_get-stored ttl now later (cache_key "proto" protocol f) stats cache h in
      rw (str_ne protocol "" named, missed, computed)
        (refl, rw (key_until_zero protocol f free, found) refl)
