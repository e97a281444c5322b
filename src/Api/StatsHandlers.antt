-- ===== src/Api/StatsHandlers.antt =====
-- The handlers of the statistics, of internal/api/stats_handler.go.
use akave_crosschain_archive.Base.{
  ℕ, String, Bool, false, not, Option, none, some, str_eq, if◌then◌else◌, Result, ok, err, failure,
}
use akave_crosschain_archive.Base.Int.{ℤ, pos, leℤ}
use akave_crosschain_archive.Database.{Db}
use akave_crosschain_archive.Decoder.Axelar.{is_name}
use akave_crosschain_archive.Api.Cache.{Cache, RoutesCache, get_protocol_stats, get_routes_stats}
use akave_crosschain_archive.Api.Params.{
  Params, Response, reply, refuse, or_refuse, parse_int64_param, limit_param,
}
use akave_crosschain_archive.Api.Stats.{Floats, StatsFilter, ProtocolStats, RoutesStatsResult}

-- `strings.ToLower(s)` where it is in `knownProtocols`
unfoldable pub known_protocol : String → Option String
known_protocol s =
    if is_name s "layerzero_v2"
    then some "layerzero_v2"
    else if is_name s "wormhole"
    then some "wormhole"
    else if is_name s "axelar"
    then some "axelar"
    else if is_name s "ccip"
    then some "ccip"
    else none

-- `*fromTS > *toTS`, where both are given
unfoldable pub is_after : Option ℤ → Option ℤ → Bool
is_after none to = false
is_after (some from) none = false
is_after (some from) (some to) = not (leℤ from to)

-- The time window of a request.
unfoldable pub window_param {ℓ} :
    {A : Type ℓ} → Params → (Option ℤ → Option ℤ → Response A) → Response A
window_param q next =
    or_refuse 400 "invalid from_ts: must be a Unix timestamp" (parse_int64_param (q "from_ts"))
      λ from.
        or_refuse 400 "invalid to_ts: must be a Unix timestamp" (parse_int64_param (q "to_ts"))
          λ to.
            if is_after from to
            then refuse 400 "from_ts must not be greater than to_ts"
            else next from to

-- `protocol` of the routes: "" asks for all of them.
unfoldable pub routes_protocol : String → Result String
routes_protocol s =
    if str_eq s ""
    then ok ""
    else elim (known_protocol s) [ none ↦ err (failure "invalid protocol") | some name ↦ ok name ]

-- What a request asks of the querier, or how it is refused.
unfoldable pub protocol_asked : String → Params → Response (String × StatsFilter)
protocol_asked name q =
    if str_eq name "" then refuse 400 "protocol is required" else elim (known_protocol name) [
      | none ↦ refuse 404 "unknown protocol: must be one of layerzero_v2, wormhole, axelar, ccip"
      | some protocol ↦ window_param q λ from to.
          reply 200 (protocol, record { from_ts = from; to_ts = to; protocol = ""; limit = pos 0 })
    ]

unfoldable pub routes_asked : Params → Response StatsFilter
routes_asked q = window_param q λ from to.
    or_refuse 400 "invalid protocol: must be one of layerzero_v2, wormhole, axelar, ccip"
      (routes_protocol (q "protocol"))
      λ protocol.
        or_refuse 400 "invalid limit: must be a positive integer" (limit_param (q "limit")) λ limit.
          reply 200 (record { from_ts = from; to_ts = to; protocol = protocol; limit = pos limit })

-- The querier's answer to what is asked; a refusal leaves the cache alone.
abbrev pub answered {ℓ κ μ} :
    {A : Type ℓ} {B : Type κ} {S : Type μ}
    → String
    → (A → S × Result B)
    → S
    → Response A
    → S × Response B
answered msg ask cache (refuse code why) = (cache, refuse code why)
answered msg ask cache (reply code a) =
    let (cache', r) = ask a in (cache', or_refuse 500 msg r (reply 200))

module _ (F : Type 0) (floats : Floats F) (ttl : ℕ) where
  -- `GetProtocolStatsHandler`
  unfoldable pub get_protocol_stats_handler :
      Bool → Bool → ℕ → String → Params → Db → Cache F → Cache F × Response (ProtocolStats F)
  get_protocol_stats_handler fails again now name q db cache =
      answered "failed to compute protocol stats"
        (λ a. get_protocol_stats F floats ttl fails again now a.0 a.1 db cache) cache
        (protocol_asked name q)

  -- `GetRoutesStatsHandler`
  unfoldable pub get_routes_stats_handler :
      Bool → ℕ → Params → Db → RoutesCache F → RoutesCache F × Response (RoutesStatsResult F)
  get_routes_stats_handler fails now q db cache =
      answered "failed to compute routes stats"
        (λ f. get_routes_stats F floats ttl fails now f db cache) cache (routes_asked q)
