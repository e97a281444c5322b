-- ===== src/Api/Trace.antt =====
-- One message and its life, of internal/api/message_querier.go (`GetByID`) and
-- address_trace_querier.go (`GetTrace`).
pub mod Events
use akave_crosschain_archive.Base.{
  ℕ, String, Bool, true, false, Option, none, some, List, [], ◌∷◌, ◌++◌, str_eq, if◌then◌else◌,
  Result, ok, err, failure, ◌>>=◌,
}
use akave_crosschain_archive.Base.Int.{ℤ, is_positive}
use akave_crosschain_archive.Base.Table.{lookup}
use akave_crosschain_archive.Database.{Db, MessageRow, exec}
use akave_crosschain_archive.Types.{
  MessageStatus, MessageType, Source, Destination, Payload, Metadata, Message,
}
use akave_crosschain_archive.Api.Rows.{full_message}

-- WHERE m.message_id = $1
unfoldable pub find_message : String → Db → Option Message
find_message id db = elim (lookup id db.messages) [
  | none ↦ none
  | some row ↦ full_message db id row
]

-- `GetByID`: none is nil
unfoldable pub get_by_id : Bool → String → Db → Result (Option Message)
get_by_id fails id db = exec "querying message by id" fails (ok (find_message id db))

-- `TraceEvent`
pub record TraceEvent : Type 0 where
  pub type : String
  pub chain_id : ℕ
  pub tx_hash : String
  pub block_number : ℕ
  pub timestamp : ℤ
  pub log_index : ℕ
  pub address : String

-- `TraceResponse`
pub record TraceResponse : Type 0 where
  pub message_id : String
  pub protocol : String
  pub type : MessageType
  pub status : MessageStatus
  pub events : List TraceEvent
  pub latency_seconds : Option ℤ
  pub payload : Option Payload
  pub metadata : Option Metadata
  pub created_at : ℕ
  pub updated_at : ℕ

abbrev pub sent_event : Source → TraceEvent
sent_event s = record {
  type = "sent";
  chain_id = s.chain_id;
  tx_hash = s.tx_hash;
  block_number = s.block_number;
  timestamp = s.timestamp;
  log_index = s.log_index;
  address = s.sender;
}

abbrev pub received_event : Destination → TraceEvent
received_event d = record {
  type = "received";
  chain_id = d.chain_id;
  tx_hash = d.tx_hash;
  block_number = d.block_number;
  timestamp = d.timestamp;
  log_index = d.log_index;
  address = d.receiver;
}

-- `if msg.Destination != nil && msg.Destination.TxHash != ""`
unfoldable pub received_events : Option Destination → List TraceEvent
received_events none = []
received_events (some d) = if str_eq d.tx_hash "" then [] else received_event d ∷ []

-- `if msg.Metadata != nil && msg.Metadata.LatencySeconds > 0`
unfoldable pub shown_latency : Option Metadata → Option ℤ
shown_latency none = none
shown_latency (some md) = if is_positive md.latency_seconds then some md.latency_seconds else none

unfoldable pub trace_of : Message → TraceResponse
trace_of m = record {
  message_id = m.message_id;
  protocol = m.protocol;
  type = m.type;
  status = m.status;
  events = sent_event m.source ∷ received_events m.destination;
  latency_seconds = shown_latency m.metadata;
  payload = m.payload;
  metadata = m.metadata;
  created_at = m.created_at;
  updated_at = m.updated_at;
}

abbrev pub traced : Option Message → Option TraceResponse
traced none = none
traced (some m) = some (trace_of m)

-- `GetTrace`
unfoldable pub get_trace : Bool → String → Db → Result (Option TraceResponse)
get_trace fails id db =
    if str_eq id ""
    then err (failure "message_id is required")
    else (exec "querying trace for message" fails (ok (find_message id db)) >>= λ o. ok (traced o))
