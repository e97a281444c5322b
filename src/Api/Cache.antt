-- ===== src/Api/Cache.antt =====
-- The cache of the statistics, of internal/api/stats_querier.go, and the query through it.
pub mod Bounds
use akave_crosschain_archive.Base.{
  ℕ, ◌+◌, String, Bool, Option, none, some, List, [], ◌∷◌, str_eq, ltb, if◌then◌else◌, Result, ok,
  err, failure,
}
use akave_crosschain_archive.Base.Table.{Table, lookup, upsert}
use akave_crosschain_archive.Database.{Db}
use akave_crosschain_archive.Api.Routes.{compute_routes_stats}
use akave_crosschain_archive.Api.Stats.{
  Floats, StatsFilter, ProtocolStats, RoutesStatsResult, cache_key, compute_protocol_stats,
}

-- `cacheEntry`. The keys of the two queries begin differently, so the entries of one query are a
-- cache of their own.
pub record CacheEntry (V : Type 0) : Type 0 where
  pub value : V
  pub expires_at : ℕ

module _ {V : Type 0} where
  abbrev pub valid_entry : ℕ → Option (CacheEntry V) → Option V
  valid_entry now none = none
  valid_entry now (some e) = if ltb now e.expires_at then some e.value else none

  -- `statsCache.get`
  unfoldable pub cache_get : ℕ → String → Table (CacheEntry V) → Option V
  cache_get now key entries = valid_entry now (lookup key entries)

  -- `statsCache.set`
  unfoldable pub cache_set : ℕ → ℕ → String → V → Table (CacheEntry V) → Table (CacheEntry V)
  cache_set ttl now key v entries =
      let e : CacheEntry V = record { value = v; expires_at = now + ttl } in
      upsert key e (λ _. e) entries

  -- `statsCache.evict`
  unfoldable pub cache_evict : ℕ → Table (CacheEntry V) → Table (CacheEntry V)
  cache_evict now [] = []
  cache_evict now ((key, e) ∷ entries) =
      if ltb e.expires_at now then cache_evict now entries else (key, e) ∷ cache_evict now entries

  -- `q.cache.set(key, stats); q.cache.evict()`
  unfoldable pub store_stats :
      ℕ → ℕ → String → Result V → Table (CacheEntry V) → Table (CacheEntry V) × Result V
  store_stats ttl now key (err e) cache = (cache, err e)
  store_stats ttl now key (ok stats) cache =
      (cache_evict now (cache_set ttl now key stats cache), ok stats)

  abbrev pub cached_or :
      Option V
      → Table (CacheEntry V)
      → Table (CacheEntry V) × Result V
      → Table (CacheEntry V) × Result V
  cached_or none cache computed = computed
  cached_or (some stats) cache computed = (cache, ok stats)

abbrev pub Cache : Type 0 → Type 0
Cache F = Table (CacheEntry (ProtocolStats F))

abbrev pub RoutesCache : Type 0 → Type 0
RoutesCache F = Table (CacheEntry (RoutesStatsResult F))

module _ (F : Type 0) (floats : Floats F) (ttl : ℕ) where
  -- `GetProtocolStats`
  unfoldable pub get_protocol_stats :
      Bool → Bool → ℕ → String → StatsFilter → Db → Cache F → Cache F × Result (ProtocolStats F)
  get_protocol_stats fails again now protocol f db cache =
      let key = cache_key "proto" protocol f in
      if str_eq protocol ""
      then (cache, err (failure "protocol is required"))
      else cached_or (cache_get now key cache) cache (
          store_stats ttl now key (compute_protocol_stats F floats fails again now protocol f db)
            cache)

  -- `GetRoutesStats`
  unfoldable pub get_routes_stats :
      Bool → ℕ → StatsFilter → Db → RoutesCache F → RoutesCache F × Result (RoutesStatsResult F)
  get_routes_stats fails now f db cache =
      let key = cache_key "routes" "" f in
      cached_or (cache_get now key cache) cache
        (store_stats ttl now key (compute_routes_stats F floats fails now f db) cache)
