-- ===== src/Api/Routes.antt =====
-- The statistics of routes, `GetRoutesStats` of internal/api/stats_querier.go, behind the cache. Routes
-- of equal totals stay in the order of their groups, which the query leaves open.
pub mod Counted
pub mod Order
pub mod Numbers
pub mod Shown
use akave_crosschain_archive.Base.{
  ℕ, zero, suc, ◌+◌, String, Bool, true, false, ◌&&◌, Option, none, some, List, [], ◌∷◌, length,
  take, map, leb, ◌==◌, str_eq, if◌then◌else◌, Result, ok, ◌>>=◌,
}
use akave_crosschain_archive.Base.Int.{ℤ, is_positive}
use akave_crosschain_archive.Base.Table.{Table, lookup}
use akave_crosschain_archive.Database.{Db, MessageRow, exec}
use akave_crosschain_archive.Types.{
  MessageStatus, executed, pending, failed, Source, Destination, Metadata,
}
use akave_crosschain_archive.Api.Messages.{text_is, is_from, is_until, page_limit}
use akave_crosschain_archive.Api.Rows.{status_text}
use akave_crosschain_archive.Api.Stats.{
  Floats, StatusBreakdown, StatsFilter, RouteStats, RoutesStatsResult, rate_of,
}

-- A row of the joined tables.
pub record RouteRow : Type 0 where
  pub src_chain_id : ℕ
  pub dst_chain_id : ℕ
  pub status : MessageStatus
  pub latency : Option ℤ

-- A group of the query: `latencies` are the values that AVG reads.
pub record Route : Type 0 where
  pub src_chain_id : ℕ
  pub dst_chain_id : ℕ
  pub counts : StatusBreakdown
  pub latencies : List ℤ

abbrev pub latency_of : Option Metadata → Option ℤ
latency_of none = none
latency_of (some md) = if is_positive md.latency_seconds then some md.latency_seconds else none

-- WHERE, with the joins: a message without a destination is left out.
unfoldable pub route_row : StatsFilter → Db → String → MessageRow → Option RouteRow
route_row f db id row = elim (lookup id db.sources) [
  | none ↦ none
  | some src ↦ elim (lookup id db.destinations) [
    | none ↦ none
    | some dst ↦
        if text_is f.protocol row.protocol
          && is_from f.from_ts src.timestamp
          && is_until f.to_ts src.timestamp
        then some (record {
          src_chain_id = src.chain_id;
          dst_chain_id = dst.chain_id;
          status = row.status;
          latency = latency_of (lookup id db.metadata);
        })
        else none
  ]
]

abbrev pub and_row : Option RouteRow → List RouteRow → List RouteRow
and_row none rows = rows
and_row (some r) rows = r ∷ rows

unfoldable pub route_rows : StatsFilter → Db → Table MessageRow → List RouteRow
route_rows f db [] = []
route_rows f db ((id, row) ∷ t) = and_row (route_row f db id row) (route_rows f db t)

-- CASE WHEN m.status = … THEN 1 ELSE 0 END
abbrev pub one_if : MessageStatus → MessageStatus → ℕ
one_if wanted found = if str_eq (status_text found) (status_text wanted) then 1 else 0

abbrev pub and_latency : Option ℤ → List ℤ → List ℤ
and_latency none ls = ls
and_latency (some l) ls = l ∷ ls

abbrev pub counted_row : RouteRow → StatusBreakdown → StatusBreakdown
counted_row r c = record {
  executed_count = one_if executed r.status + c.executed_count;
  pending_count = one_if pending r.status + c.pending_count;
  failed_count = one_if failed r.status + c.failed_count;
  total = 1 + c.total;
}

abbrev pub no_counts : StatusBreakdown
no_counts = record { executed_count = 0; pending_count = 0; failed_count = 0; total = 0 }

abbrev pub new_route : RouteRow → Route
new_route r = record {
  src_chain_id = r.src_chain_id;
  dst_chain_id = r.dst_chain_id;
  counts = counted_row r no_counts;
  latencies = and_latency r.latency [];
}

abbrev pub is_on : ℕ → ℕ → Route → Bool
is_on src dst g = g.src_chain_id == src && g.dst_chain_id == dst

unfoldable pub add_row : RouteRow → List Route → List Route
add_row r [] = new_route r ∷ []
add_row r (g ∷ gs) =
    if is_on r.src_chain_id r.dst_chain_id g
    then record g { counts = counted_row r g.counts; latencies = and_latency r.latency g.latencies }
      ∷ gs
    else g ∷ add_row r gs

-- GROUP BY s.chain_id, d.chain_id
unfoldable pub group_rows : List RouteRow → List Route
group_rows [] = []
group_rows (r ∷ rows) = add_row r (group_rows rows)

unfoldable pub insert_route : Route → List Route → List Route
insert_route g [] = g ∷ []
insert_route g (h ∷ hs) =
    if leb h.counts.total g.counts.total then g ∷ h ∷ hs else h ∷ insert_route g hs

-- ORDER BY total DESC
unfoldable pub sort_routes : List Route → List Route
sort_routes [] = []
sort_routes (g ∷ gs) = insert_route g (sort_routes gs)

unfoldable pub top_routes : StatsFilter → Db → List Route
top_routes f db = take (page_limit f.limit) (sort_routes (group_rows (route_rows f db db.messages)))

module _ (F : Type 0) (floats : Floats F) where
  abbrev pub route_stats : String → Route → RouteStats F
  route_stats protocol g = record {
    src_chain_id = g.src_chain_id;
    dst_chain_id = g.dst_chain_id;
    protocol = protocol;
    counts = g.counts;
    success_rate = rate_of F floats g.counts;
    avg_latency_seconds = floats.average g.latencies;
  }

  -- What `GetRoutesStats` computes where the cache has nothing.
  unfoldable pub compute_routes_stats : Bool → ℕ → StatsFilter → Db → Result (RoutesStatsResult F)
  compute_routes_stats fails now f db = do
    groups ← exec "querying routes stats" fails (ok (top_routes f db))
    let routes = map (route_stats f.protocol) groups
    ok (record { routes = routes; total_routes = length routes; computed_at = now })
