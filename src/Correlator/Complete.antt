-- ===== src/Correlator/Complete.antt =====
-- A destination event whose key one pending message matches settles that message.
use akave_crosschain_archive.Base.{
  ◌⊎◌, ℕ, String, true, some, ◌≡◌, ◌≢◌, refl, ◌∙◌, arith, eq_iff, ok, str_ne,
}
use akave_crosschain_archive.Base.Table.{lookup}
use akave_crosschain_archive.Correlator.{
  postgres, process, process_normalized, correlate_with, correlate_found, update_existing,
  default_status,
}
use akave_crosschain_archive.Database.{Db, MessageRow, PayloadRow, no_faults, is_status}
use akave_crosschain_archive.Decoder.{RawEvent}
use akave_crosschain_archive.Normalizer.{
  CorrelationKey, normalize, parse_uint64, normalize_packet_received,
  normalize_ccip_execution_state_changed, ccip_status, destination_of, correlation,
}
use akave_crosschain_archive.Store.Effects.{settled, update_succeeds}
use akave_crosschain_archive.Store.Find.{IsMatch, find-IsMatch, find_total}
use akave_crosschain_archive.Store.{matches, find_by_correlation_key}
use akave_crosschain_archive.Types.{
  MessageStatus, no_status, pending, executed, failed, Source, Destination, Message,
}

-- The tables hold one message, under `id`, that the key matches, and no other.
pub record IsOnlyMatch (key : CorrelationKey) (db : Db) (id : String) : Type 0 where
  pub row : MessageRow
  pub source : Source
  pub payload : PayloadRow
  pub has_row : lookup id db.messages ≡ some row
  pub has_source : lookup id db.sources ≡ some source
  pub has_payload : lookup id db.payloads ≡ some payload
  pub matched : matches key id row source payload ≡ true
  pub only : (m : Message) → IsMatch key db m → m.message_id ≡ id

find_only :
    (key : CorrelationKey) (db : Db) (id : String)
    → IsOnlyMatch key db id
    → (m : Message) × (find_by_correlation_key no_faults key db ≡ ok (some m)) × (m.message_id ≡ id)
find_only key db id h =
    let (m, found) =
      find_total no_faults key db id h.row h.source h.payload refl h.has_row h.has_source
        h.has_payload h.matched in
    (m, found, h.only m (find-IsMatch no_faults key db m found))

-- The processing of a correlation, from the key that it carries.
pub correlation_settles :
    (clock : ℕ) (key : CorrelationKey) (outcome : MessageStatus) (dest : Destination) (db : Db)
    (id : String)
    → IsOnlyMatch key db id
    → is_status (default_status outcome) ≡ true
    → process_normalized (postgres no_faults clock) (ok (correlation key outcome dest)) db
      ≡ (settled clock id dest (default_status outcome) db, ok tt)
unfolding process_normalized correlate_with correlate_found update_existing
correlation_settles clock key outcome dest db id h valid =
    let (m, found, same) = find_only key db id h in
    let done = update_succeeds clock id dest (default_status outcome) db h.row h.has_row valid in
    rw found (rw same (rw done refl))

pub normalize_received :
    (now nonce src : ℕ) (e : RawEvent)
    → e.event_type ≡ "PacketReceived"
    → parse_uint64 (e.fields "nonce") ≡ ok nonce
    → parse_uint64 (e.fields "src_chain_id") ≡ ok src
    → e.fields "sender" ≢ ""
    → normalize now (some e)
      ≡ ok (
          correlation
            (record {
              protocol = e.protocol;
              message_id = "";
              nonce = nonce;
              sender = e.fields "sender";
              src_chain_id = src;
            })
            no_status
            (destination_of e (e.fields "receiver")))
unfolding normalize normalize_packet_received
normalize_received now nonce src e kind hn hs sender =
    simp (kind, hn, hs, str_ne (e.fields "sender") "" sender)

-- A pending message under its own identifier, which is not empty.
pub record IsWaiting (protocol id : String) (db : Db) : Type 0 where
  pub row : MessageRow
  pub source : Source
  pub payload : PayloadRow
  pub has_row : lookup id db.messages ≡ some row
  pub has_source : lookup id db.sources ≡ some source
  pub has_payload : lookup id db.payloads ≡ some payload
  pub protocol_of : row.protocol ≡ protocol
  pub is_waiting : row.status ≡ pending
  pub named : id ≢ ""

direct_match :
    (protocol id : String) (db : Db)
    → IsWaiting protocol id db
    → IsOnlyMatch
        (record { protocol = protocol; message_id = id; nonce = 0; sender = ""; src_chain_id = 0 })
        db
        id
unfolding matches
direct_match protocol id db w = record {
  row = w.row;
  source = w.source;
  payload = w.payload;
  has_row = w.has_row;
  has_source = w.has_source;
  has_payload = w.has_payload;
  matched = ground (arith, eq_iff id "", eq_iff w.row.protocol protocol, eq_iff id id, w.named);
  only = λ m hit. ground (arith, eq_iff id "", eq_iff m.message_id id, hit.matched, w.named);
}

normalize_changed :
    (now state : ℕ) (outcome : MessageStatus) (e : RawEvent)
    → e.event_type ≡ "ExecutionStateChanged"
    → e.fields "message_id" ≢ ""
    → e.fields "state" ≢ ""
    → parse_uint64 (e.fields "state") ≡ ok state
    → ccip_status state ≡ ok outcome
    → normalize now (some e)
      ≡ ok (
          correlation
            (record {
              protocol = e.protocol;
              message_id = e.fields "message_id";
              nonce = 0;
              sender = "";
              src_chain_id = 0;
            })
            outcome
            (destination_of e ""))
unfolding normalize normalize_ccip_execution_state_changed
normalize_changed now state outcome e kind hid hstate hs final =
    simp
      (kind, hs, final, str_ne (e.fields "message_id") "" hid, str_ne (e.fields "state") "" hstate)

ccip_status-is_status :
    (state : ℕ) (outcome : MessageStatus)
    → ccip_status state ≡ ok outcome
    → (is_status (default_status outcome) ≡ true) × (default_status outcome ≡ outcome)
unfolding ccip_status
ccip_status-is_status state outcome h = ground arith

-- The two final states of CCIP and what they mean.
abbrev pub IsOutcome : ℕ → MessageStatus → Type 0
IsOutcome state outcome = (state ≡ 2) × (outcome ≡ executed) ⊎ (state ≡ 3) × (outcome ≡ failed)

IsOutcome-ccip_status :
    (state : ℕ) (outcome : MessageStatus) → IsOutcome state outcome → ccip_status state ≡ ok outcome
unfolding ccip_status
IsOutcome-ccip_status state outcome h = ground arith

-- CCIP: a change to state 2 settles the pending message of that identifier as executed, and a
-- change to state 3 settles it as failed, each with the destination and no error.
pub state_changed_settles :
    (clock now state : ℕ) (outcome : MessageStatus) (e : RawEvent) (db : Db)
    → e.event_type ≡ "ExecutionStateChanged"
    → e.fields "state" ≢ ""
    → parse_uint64 (e.fields "state") ≡ ok state
    → IsOutcome state outcome
    → IsWaiting e.protocol (e.fields "message_id") db
    → process (postgres no_faults clock) now e db
      ≡ (settled clock (e.fields "message_id") (destination_of e "") outcome db, ok tt)
unfolding process
state_changed_settles clock now state outcome e db kind hstate hs final w =
    let mapped = IsOutcome-ccip_status state outcome final in
    let (valid, same) = ccip_status-is_status state outcome mapped in
    rw (normalize_changed now state outcome e kind w.named hstate hs mapped) (
      correlation_settles clock _ outcome _ db _ (direct_match e.protocol _ db w) valid
      ∙ rw same refl)
