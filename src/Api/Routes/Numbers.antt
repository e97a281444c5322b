-- ===== src/Api/Routes/Numbers.antt =====
-- The messages of a route, counted in the tables, against the counts of the query of
-- internal/api/stats_querier.go.
use akave_crosschain_archive.Base.{
  ℕ, suc, String, Bool, true, false, ◌&&◌, Option, none, some, [], ◌∷◌, ◌==◌, if◌then◌else◌, ◌≡◌,
  refl, inl, inr, arith, Option-cases,
}
use akave_crosschain_archive.Base.Table.{Table, lookup}
use akave_crosschain_archive.Database.{Db, MessageRow}
use akave_crosschain_archive.Types.{
  MessageStatus, no_status, pending, executed, failed, Source, Destination,
}
use akave_crosschain_archive.Api.Messages.{text_is, is_from, is_until}
use akave_crosschain_archive.Api.Routes.{route_row, route_rows, one_if}
use akave_crosschain_archive.Api.Routes.Counted.{counts_on}
use akave_crosschain_archive.Api.Stats.{StatsFilter, StatusBreakdown}

-- The message has a source on the one chain and a destination on the other, and meets the filter.
abbrev pub goes : StatsFilter → ℕ → ℕ → String → Option Source → Option Destination → Bool
goes f src dst protocol none _ = false
goes f src dst protocol (some s) none = false
goes f src dst protocol (some s) (some d) =
    s.chain_id == src
    && d.chain_id == dst
    && text_is f.protocol protocol
    && is_from f.from_ts s.timestamp
    && is_until f.to_ts s.timestamp

abbrev pub is_executed : MessageStatus → Bool
is_executed executed = true
is_executed _ = false

abbrev pub is_waiting : MessageStatus → Bool
is_waiting pending = true
is_waiting _ = false

abbrev pub is_failed : MessageStatus → Bool
is_failed failed = true
is_failed _ = false

abbrev pub is_any : MessageStatus → Bool
is_any _ = true

-- The number of messages of the tables from one chain to the other, by their status.
unfoldable pub number_of : (MessageStatus → Bool) → StatsFilter → Db → ℕ → ℕ → Table MessageRow → ℕ
number_of wanted f db src dst [] = 0
number_of wanted f db src dst ((id, row) ∷ t) =
    let rest = number_of wanted f db src dst t in
    if goes f src dst row.protocol (lookup id db.sources) (lookup id db.destinations)
      && wanted row.status
    then suc rest
    else rest

-- Counts by status, and their numbers in the tables.
pub record AreNumbersOf (f : StatsFilter) (db : Db) (src dst : ℕ) (t : Table MessageRow)
    (c : StatusBreakdown) : Type 0 where
  pub executed_is : c.executed_count ≡ number_of is_executed f db src dst t
  pub pending_is : c.pending_count ≡ number_of is_waiting f db src dst t
  pub failed_is : c.failed_count ≡ number_of is_failed f db src dst t
  pub total_is : c.total ≡ number_of is_any f db src dst t

one_if-executed : (s : MessageStatus) → one_if executed s ≡ (if is_executed s then 1 else 0)
one_if-executed no_status = refl
one_if-executed pending = refl
one_if-executed executed = refl
one_if-executed failed = refl

one_if-pending : (s : MessageStatus) → one_if pending s ≡ (if is_waiting s then 1 else 0)
one_if-pending no_status = refl
one_if-pending pending = refl
one_if-pending executed = refl
one_if-pending failed = refl

one_if-failed : (s : MessageStatus) → one_if failed s ≡ (if is_failed s then 1 else 0)
one_if-failed no_status = refl
one_if-failed pending = refl
one_if-failed executed = refl
one_if-failed failed = refl

pub counts_on-AreNumbersOf :
    (f : StatsFilter) (db : Db) (src dst : ℕ) (t : Table MessageRow)
    → AreNumbersOf f db src dst t (counts_on src dst (route_rows f db t))
unfolding counts_on route_rows number_of route_row
counts_on-AreNumbersOf f db src dst [] = ground arith
counts_on-AreNumbersOf f db src dst ((id, row) ∷ t) =
    let rest = counts_on-AreNumbersOf f db src dst t in
    let on_executed = one_if-executed row.status in
    let on_pending = one_if-pending row.status in
    let on_failed = one_if-failed row.status in
    elim (Option-cases (lookup id db.sources)) [
      | inl no_source ↦ ground (arith, rest)
      | inr (s, has_source) ↦ elim (Option-cases (lookup id db.destinations)) [
        | inl no_destination ↦ ground (arith, rest)
        | inr (d, has_destination) ↦ ground (arith, rest)
      ]
    ]
