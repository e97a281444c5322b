-- ===== src/Tests/Api.antt =====
-- Runs of the queries and handlers of the API.
use akave_crosschain_archive.Base.{
  ℕ, true, false, none, some, [], ◌∷◌, str_eq, if◌then◌else◌, ◌≡◌, refl, arith, ok, eq_iff,
}
use akave_crosschain_archive.Base.Int.{pos}
use akave_crosschain_archive.Base.Table.{lookup, upsert}
use akave_crosschain_archive.Base.Decimal.{parse_uint}
use akave_crosschain_archive.Correlator.Consistency.{Reachable}
use akave_crosschain_archive.Database.{
  Db, MessageRow, empty, no_faults, insert_message, insert_payload, insert_metadata, insert_source,
}
use akave_crosschain_archive.Correlator.{postgres, process, process_normalized}
use akave_crosschain_archive.Normalizer.{normalize, normalize_packet_sent, parse_uint64}
use akave_crosschain_archive.Store.{upsert_message, upsert_in_tx}
use akave_crosschain_archive.Api.Cache.{Cache, cache_get, get_protocol_stats}
use akave_crosschain_archive.Api.Cache.Bounds.{until_zero, until_zero_shares_cache}
use akave_crosschain_archive.Api.Handlers.{list_messages_handler}
use akave_crosschain_archive.Api.Handlers.Bounds.{IsListing, list_messages_handler-IsListing}
use akave_crosschain_archive.Api.Messages.{
  MessageFilter, list_condition, sort_order_of, list_messages,
}
use akave_crosschain_archive.Api.Messages.Complete.{ReadsAll, list_messages-ReadsAll}
use akave_crosschain_archive.Api.Routes.{compute_routes_stats}
use akave_crosschain_archive.Api.Routes.Numbers.{number_of, is_executed, is_waiting}
use akave_crosschain_archive.Api.Routes.Shown.{AreStatsOf, compute_routes_stats-AreStatsOf}
use akave_crosschain_archive.Api.Params.{Params}
use akave_crosschain_archive.Api.Stats.{
  Floats, StatsFilter, ProtocolStats, RoutesStatsResult, compute_protocol_stats, status_counts,
  count_status, in_window, cache_key,
}
use akave_crosschain_archive.Api.Trace.{TraceResponse, get_trace}
use akave_crosschain_archive.Api.Trace.Events.{IsTraceOf, get_trace-IsTraceOf}
use akave_crosschain_archive.Tests.Data.{packet_sent, waiting, place}
use akave_crosschain_archive.Tests.Listing.{by_characters, unary}
use akave_crosschain_archive.Types.{message, pending}

abbrev filter : MessageFilter
filter = record {
  src_chain = some 1;
  dst_chain = none;
  protocol = "layerzero_v2";
  status = "";
  sender = "";
  receiver = "";
  from_ts = none;
  to_ts = none;
  cursor = "";
  limit = pos 1;
  sort_order = "asc";
}

abbrev ask : Params
ask name = if str_eq name "limit" then "5" else ""

list_messages_handler-IsListing_example :
    IsListing ask (list_messages_handler by_characters unary false ask (waiting "ccip"))
list_messages_handler-IsListing_example =
    list_messages_handler-IsListing by_characters unary false ask (waiting "ccip")

abbrev constant : Floats ℕ
constant = record {
  average = λ xs. none;
  median = λ xs. none;
  percentile95 = λ xs. none;
  ratio = λ m n. n;
}

abbrev no_bounds : StatsFilter
no_bounds = record { from_ts = none; to_ts = none; protocol = ""; limit = pos 0 }

abbrev no_cache : Cache ℕ
no_cache = []

abbrev one_pending : ProtocolStats ℕ
one_pending = record {
  protocol = "ccip";
  counts = record { executed_count = 0; pending_count = 1; failed_count = 0; total = 1 };
  success_rate = none;
  avg_latency_seconds = none;
  p50_latency_seconds = none;
  p95_latency_seconds = none;
  window_start = none;
  window_end = none;
  computed_at = 100;
}

one_pending-computed :
    compute_protocol_stats ℕ constant false false 100 "ccip" no_bounds (waiting "ccip")
    ≡ ok one_pending
unfolding compute_protocol_stats status_counts count_status in_window
one_pending-computed = refl

not_cached : cache_get 100 (cache_key "proto" "ccip" no_bounds) no_cache ≡ none
unfolding cache_get lookup
not_cached = refl

-- The statistics of one pending message, in the place of those of a database that is empty by then.
until_zero_shares_cache_example :
    let (cache, first) =
      get_protocol_stats ℕ constant 60 false false 100 "ccip" no_bounds (waiting "ccip") no_cache in
    (first ≡ ok one_pending)
    × (get_protocol_stats ℕ constant 60 true true 130 "ccip" (until_zero no_bounds) empty cache
        ≡ (cache, ok one_pending))
until_zero_shares_cache_example =
    until_zero_shares_cache ℕ constant 60 100 130 "ccip" no_bounds (waiting "ccip") empty no_cache
      one_pending true true (ground (arith, eq_iff "ccip" "")) refl not_cached one_pending-computed
      (omega arith)

abbrev after_sending : Db
after_sending = (process (postgres no_faults 7) 5 packet_sent empty).0

after_sending-Reachable : Reachable after_sending
after_sending-Reachable = Reachable.next no_faults 7 5 packet_sent Reachable.start

list_messages-ReadsAll_example :
    ReadsAll by_characters (sort_order_of true) (list_condition filter) after_sending (λ token.
      list_messages by_characters unary false (record filter { cursor = token }) after_sending)
list_messages-ReadsAll_example =
    list_messages-ReadsAll by_characters unary after_sending-Reachable filter

abbrev row : MessageRow
row = record {
  protocol = "layerzero_v2";
  type = message;
  status = pending;
  created_at = 5;
  updated_at = 5;
}

after_sending-stored : lookup "0x01" after_sending.messages ≡ some row
unfolding lookup process process_normalized normalize normalize_packet_sent parse_uint64 parse_uint
    upsert_message upsert_in_tx insert_message insert_payload insert_metadata insert_source upsert
after_sending-stored = refl

get_trace-IsTraceOf_example :
    (t : TraceResponse) × (get_trace false "0x01" after_sending ≡ ok (some t))
    × IsTraceOf after_sending "0x01" row t
get_trace-IsTraceOf_example =
    get_trace-IsTraceOf after_sending-Reachable "0x01" row (ground (arith, eq_iff "0x01" ""))
      after_sending-stored

-- One message that has arrived.
abbrev arrived : Db
arrived = record (waiting "ccip") { destinations = ("0x01", place) ∷ [] }

compute_routes_stats-AreStatsOf_example :
    (r : RoutesStatsResult ℕ) × (compute_routes_stats ℕ constant false 100 no_bounds arrived ≡ ok r)
    × AreStatsOf ℕ no_bounds arrived r
compute_routes_stats-AreStatsOf_example =
    compute_routes_stats-AreStatsOf ℕ constant 100 no_bounds arrived

routes_counted :
    (number_of is_waiting no_bounds arrived 1 10 arrived.messages ≡ 1)
    × (number_of is_executed no_bounds arrived 1 10 arrived.messages ≡ 0)
unfolding number_of lookup
routes_counted = (refl, refl)
