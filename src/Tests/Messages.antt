-- ===== src/Tests/Messages.antt =====
-- Runs of the normalizer, the store and the correlator.
use akave_crosschain_archive.Base.{
  String, some, ◌≡◌, ◌≢◌, refl, inl, inr, arith, eq_iff, ok, err, failure,
}
use akave_crosschain_archive.Base.Table.{lookup}
use akave_crosschain_archive.Base.Decimal.{parse_uint, parse_loop}
use akave_crosschain_archive.Correlator.Complete.{IsWaiting, state_changed_settles}
use akave_crosschain_archive.Correlator.Consistency.{
  Reachable, IsConsistent, Reachable-IsConsistent,
}
use akave_crosschain_archive.Correlator.Frozen.{IsKept, process-IsKept}
use akave_crosschain_archive.Correlator.Lifecycle.{Move, status_of, process-Move}
use akave_crosschain_archive.Correlator.Wormhole.{WormholeRun, IsDecoded, wormhole_never_correlates}
use akave_crosschain_archive.Correlator.{postgres, process}
use akave_crosschain_archive.Database.{
  Db, insert_message, insert_source, insert_payload, insert_metadata, empty, no_faults,
}
use akave_crosschain_archive.Normalizer.{
  parse_uint64, new_message, source_of, CorrelationKey, Normalized, destination_of,
}
use akave_crosschain_archive.Store.Effects.{stored, settled, Atomic, update-Atomic}
use akave_crosschain_archive.Store.Upsert.{UpsertEffect, upsert_message-effect}
use akave_crosschain_archive.Store.Find.{IsPendingMatch, find-IsPendingMatch}
use akave_crosschain_archive.Store.Repeat.{upsert_again, type_of, both, upsert_message-type_order}
use akave_crosschain_archive.Store.{
  matches, scan_row, upsert_in_tx, find_in, find_at, upsert_message, update_destination,
  find_by_correlation_key,
}
use akave_crosschain_archive.Tests.Data.{
  packet_sent, packet_received, state_changed, published, redeemed, waiting, waiting_row, sender,
  stored_payload, place, general, general_payload, transfer, transfer_payload,
}
use akave_crosschain_archive.Types.{executed, failed, message, no_metadata, no_payload}

Reachable-IsConsistent_example : IsConsistent (process (postgres no_faults 7) 5 packet_sent empty).0
Reachable-IsConsistent_example =
    Reachable-IsConsistent (Reachable.next no_faults 7 5 packet_sent Reachable.start)

process-Move_example : Move (status_of (lookup "0x01" (waiting "layerzero_v2").messages)) (
    status_of (
      lookup "0x01"
        (process (postgres no_faults 7) 5 packet_received (waiting "layerzero_v2")).0.messages))
process-Move_example = process-Move no_faults 7 5 packet_received (waiting "layerzero_v2") "0x01"

process-IsKept_example :
    IsKept "0x01"
      (waiting "layerzero_v2")
      (process (postgres no_faults 7) 5 packet_received (waiting "layerzero_v2")).0
process-IsKept_example =
    process-IsKept no_faults 7 5 packet_received (waiting "layerzero_v2") "0x01"

abbrev layerzero_key : CorrelationKey
layerzero_key = record {
  protocol = "layerzero_v2";
  message_id = "";
  nonce = 7;
  sender = "0xaa";
  src_chain_id = 1;
}

read_numbers :
    (parse_uint64 "7" ≡ ok 7)
    × (parse_uint64 "1" ≡ ok 1)
    × (parse_uint64 "3" ≡ ok 3)
    × (parse_uint64 "5" ≡ ok 5)
    × (parse_uint64 "" ≡ err (failure "empty string"))
    × (parse_uint64 "7x" ≡ err (failure "invalid syntax"))
    × (parse_uint64 "18446744073709551616" ≡ err (failure "value out of range"))
unfolding parse_uint64 parse_uint parse_loop
read_numbers = (refl, refl, refl, refl, refl, refl, refl)

abbrev IsText : String → Type 0
IsText s = s ≢ ""

texts : IsText "0xaa" × IsText "0x01" × IsText "3"
texts = (
  λ e. ground (arith, (eq_iff "0xaa" "").1 e),
  λ e. ground (arith, (eq_iff "0x01" "").1 e),
  λ e. ground (arith, (eq_iff "3" "").1 e),
)

is_waiting : IsWaiting "ccip" "0x01" (waiting "ccip")
is_waiting = record {
  row = waiting_row "ccip";
  source = sender;
  payload = stored_payload;
  has_row = unfold lookup in refl;
  has_source = unfold lookup in refl;
  has_payload = unfold lookup in refl;
  protocol_of = refl;
  is_waiting = refl;
  named = texts.1;
}

state_changed_settles_example :
    process (postgres no_faults 7) 5 state_changed (waiting "ccip")
    ≡ (settled 7 "0x01" (destination_of state_changed "") failed (waiting "ccip"), ok tt)
state_changed_settles_example =
    state_changed_settles 7 5 3 failed state_changed (waiting "ccip") refl texts.2 read_numbers.2
      (inr (refl, refl)) is_waiting

upsert_message-effect_example :
    UpsertEffect general general_payload no_metadata empty (upsert_message no_faults general empty)
    × ((upsert_message no_faults general empty).1 ≡ ok tt)
upsert_message-effect_example =
    upsert_message-effect no_faults general empty general_payload no_metadata refl refl refl refl

update-Atomic_example :
    Atomic
      (waiting "ccip")
      (settled 7 "0x01" place executed (waiting "ccip"))
      (update_destination no_faults 7 "0x01" place executed (waiting "ccip")).0
      (update_destination no_faults 7 "0x01" place executed (waiting "ccip")).1
update-Atomic_example = update-Atomic no_faults 7 "0x01" place executed (waiting "ccip")

upsert_once :
    upsert_message no_faults general empty
    ≡ (stored general general_payload no_metadata empty, ok tt)
unfolding upsert_message upsert_in_tx insert_message insert_source insert_payload insert_metadata
upsert_once = refl

abbrev with_general : Db
with_general = stored general general_payload no_metadata empty

upsert_again_example :
    ((upsert_message no_faults general with_general).0 ≡ with_general)
    × (upsert_message no_faults general with_general ≡ (with_general, ok tt))
upsert_again_example =
    upsert_again no_faults no_faults general empty with_general general_payload no_metadata refl
      refl refl refl upsert_once

upsert_message-type_order_example :
    type_of "0x01" (both general transfer empty) ≡ type_of "0x01" (both transfer general empty)
upsert_message-type_order_example =
    upsert_message-type_order general transfer general_payload transfer_payload no_metadata
      no_metadata empty (refl, refl) (refl, refl) (refl, refl) (refl, refl) refl (inl refl)

found_waiting :
    find_by_correlation_key no_faults layerzero_key (waiting "layerzero_v2")
    ≡ ok (some (scan_row "0x01" (waiting_row "layerzero_v2") sender stored_payload))
unfolding find_by_correlation_key find_in find_at lookup matches
found_waiting = refl

find-IsPendingMatch_example :
    IsPendingMatch layerzero_key
      (waiting "layerzero_v2")
      (scan_row "0x01" (waiting_row "layerzero_v2") sender stored_payload)
find-IsPendingMatch_example =
    find-IsPendingMatch no_faults layerzero_key (waiting "layerzero_v2")
      (scan_row "0x01" (waiting_row "layerzero_v2") sender stored_payload) found_waiting

abbrev sent_message : Normalized
sent_message =
    new_message 5 packet_sent "0x01" message (source_of packet_sent "0xaa")
      (record no_payload { nonce = 7 })

redeemed-IsDecoded : IsDecoded published
redeemed-IsDecoded = record { wormhole = λ e. inl refl }

wormhole_never_correlates_example :
    (process
      (postgres no_faults 7)
      6
      redeemed
      (process (postgres no_faults 7) 5 published empty).0).0
    ≡ (process (postgres no_faults 7) 5 published empty).0
wormhole_never_correlates_example =
    wormhole_never_correlates no_faults 7 6 redeemed 4
      (WormholeRun.next no_faults 7 5 published redeemed-IsDecoded WormholeRun.start) refl refl
      read_numbers.3
