-- ===== src/Api/Stats.antt =====
-- The statistics of internal/api/stats_querier.go. Floating-point numbers are an argument: how an
-- average, a percentile and a rate come out of whole numbers.
use Prim.Native.String.{◌++◌ as ◌⧺◌}
use akave_crosschain_archive.Base.{
  ℕ, suc, ◌+◌, String, Bool, true, false, ◌&&◌, Option, none, some, List, [], ◌∷◌, str_eq, ltb,
  if◌then◌else◌, Result, ok, ◌>>=◌,
}
use akave_crosschain_archive.Base.Decimal.{print_uint}
use akave_crosschain_archive.Base.Int.{ℤ, pos, negsuc, is_positive}
use akave_crosschain_archive.Base.Table.{Table, lookup}
use akave_crosschain_archive.Database.{Db, MessageRow, exec}
use akave_crosschain_archive.Types.{MessageStatus, pending, executed, failed, Metadata}
use akave_crosschain_archive.Api.Messages.{is_from, is_until}
use akave_crosschain_archive.Api.Rows.{status_text}

pub record Floats (F : Type 0) : Type 0 where
  pub average : List ℤ → Option F
  pub median : List ℤ → Option F
  pub percentile95 : List ℤ → Option F
  pub ratio : ℕ → ℕ → F

-- `StatusBreakdown`
pub record StatusBreakdown : Type 0 where
  pub executed_count : ℕ
  pub pending_count : ℕ
  pub failed_count : ℕ
  pub total : ℕ

-- `StatsFilter`
pub record StatsFilter : Type 0 where
  pub from_ts : Option ℤ
  pub to_ts : Option ℤ
  pub protocol : String
  pub limit : ℤ

-- `ProtocolStats`
pub record ProtocolStats (F : Type 0) : Type 0 where
  pub protocol : String
  pub counts : StatusBreakdown
  pub success_rate : Option F
  pub avg_latency_seconds : Option F
  pub p50_latency_seconds : Option F
  pub p95_latency_seconds : Option F
  pub window_start : Option ℤ
  pub window_end : Option ℤ
  pub computed_at : ℕ

-- `RouteStats`
pub record RouteStats (F : Type 0) : Type 0 where
  pub src_chain_id : ℕ
  pub dst_chain_id : ℕ
  pub protocol : String
  pub counts : StatusBreakdown
  pub success_rate : Option F
  pub avg_latency_seconds : Option F

-- `RoutesStatsResult`
pub record RoutesStatsResult (F : Type 0) : Type 0 where
  pub routes : List (RouteStats F)
  pub total_routes : ℕ
  pub computed_at : ℕ

abbrev pub is_open : Option ℤ → Bool
is_open none = true
is_open (some t) = false

-- The time window: without one, the sources are not joined.
unfoldable pub in_window : StatsFilter → Db → String → Bool
in_window f db id =
    if is_open f.from_ts && is_open f.to_ts then true else elim (lookup id db.sources) [
      | none ↦ false
      | some src ↦ is_from f.from_ts src.timestamp && is_until f.to_ts src.timestamp
    ]

-- The messages of a protocol in the window with a status, for `COUNT(*) … GROUP BY m.status`.
unfoldable pub count_status : String → StatsFilter → Db → MessageStatus → Table MessageRow → ℕ
count_status protocol f db wanted [] = 0
count_status protocol f db wanted ((id, row) ∷ t) =
    (if str_eq row.protocol protocol
        && in_window f db id
        && str_eq (status_text row.status) (status_text wanted)
      then 1
      else 0)
    + count_status protocol f db wanted t

unfoldable pub status_counts : String → StatsFilter → Db → StatusBreakdown
status_counts protocol f db =
    let e = count_status protocol f db executed db.messages in
    let p = count_status protocol f db pending db.messages in
    let x = count_status protocol f db failed db.messages in
    record { executed_count = e; pending_count = p; failed_count = x; total = e + p + x }

abbrev pub is_executed : Option MessageRow → String → Bool
is_executed none protocol = false
is_executed (some row) protocol =
    str_eq row.protocol protocol && str_eq (status_text row.status) "executed"

-- The positive latencies of executed messages.
unfoldable pub latencies : String → StatsFilter → Db → Table Metadata → List ℤ
latencies protocol f db [] = []
latencies protocol f db ((id, md) ∷ t) =
    let rest = latencies protocol f db t in
    if is_executed (lookup id db.messages) protocol
      && in_window f db id
      && is_positive md.latency_seconds
    then md.latency_seconds ∷ rest
    else rest

-- "%d" of an int64
abbrev pub print_int : ℤ → String
print_int (pos n) = print_uint n
print_int (negsuc n) = "-" ⧺ print_uint (suc n)

-- The bound as the key has it: 0 where there is none.
abbrev pub key_bound : Option ℤ → ℤ
key_bound none = pos 0
key_bound (some t) = t

-- `cacheKey`
unfoldable pub cache_key : String → String → StatsFilter → String
cache_key prefix protocol f =
    prefix
    ⧺ (":"
        ⧺ (protocol
            ⧺ (":"
                ⧺ (f.protocol
                    ⧺ (":"
                        ⧺ (print_int (key_bound f.from_ts)
                            ⧺ (":"
                                ⧺ (print_int (key_bound f.to_ts) ⧺ (":" ⧺ print_int f.limit)))))))))

module _ (F : Type 0) (floats : Floats F) where
  abbrev pub rate_of : StatusBreakdown → Option F
  rate_of c =
      if ltb 0 (c.executed_count + c.failed_count)
      then some (floats.ratio c.executed_count (c.executed_count + c.failed_count))
      else none

  -- What `GetProtocolStats` computes where the cache has nothing: two queries, each of which may fail.
  unfoldable pub compute_protocol_stats :
      Bool → Bool → ℕ → String → StatsFilter → Db → Result (ProtocolStats F)
  compute_protocol_stats fails again now protocol f db = do
    counts ← exec "querying protocol status counts" fails (ok (status_counts protocol f db))
    seconds ← exec "querying protocol latency" again (ok (latencies protocol f db db.metadata))
    ok (record {
      protocol = protocol;
      counts = counts;
      success_rate = rate_of counts;
      avg_latency_seconds = floats.average seconds;
      p50_latency_seconds = floats.median seconds;
      p95_latency_seconds = floats.percentile95 seconds;
      window_start = f.from_ts;
      window_end = f.to_ts;
      computed_at = now;
    })
