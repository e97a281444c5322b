-- ===== src/Normalizer.antt =====
-- From decoded events to messages, of internal/normalizer/normalizer.go. `now` is `time.Now()`.
pub mod Shape
pub mod Sending
pub mod Numbers
use akave_crosschain_archive.Base.{
  ℕ, String, Bool, true, false, not, ◌&&◌, Option, none, some, str_eq, ◌==◌, if◌then◌else◌, Result,
  ok, err, failure, context, ◌>>=◌, ◌>>◌,
}
use akave_crosschain_archive.Base.Decimal.{parse_uint, value_of, to_result}
use akave_crosschain_archive.Decoder.{RawEvent}
use akave_crosschain_archive.Types.{
  MessageStatus, no_status, pending, executed, failed, MessageType, no_type, token_transfer,
  message, contract_call, Source, Destination, Payload, Message, no_source, no_payload, no_metadata,
}

pub record CorrelationKey : Type 0 where
  pub protocol : String
  pub message_id : String
  pub nonce : ℕ
  pub sender : String
  pub src_chain_id : ℕ

-- `Result` of the source: the key is nil where the event makes a new message.
pub record Normalized : Type 0 where
  pub message : Message
  pub is_correlation : Bool
  pub correlation_key : Option CorrelationKey

-- `parseUint64`: the test for "" is that of `strconv.ParseUint` too.
unfoldable pub parse_uint64 : String → Result ℕ
parse_uint64 s = if str_eq s "" then err (failure "empty string") else to_result (parse_uint s)

-- `if s == "" { return fmt.Errorf(m) }`
abbrev pub require : String → String → Result (Unit {0})
require m s = if str_eq s "" then err (failure m) else ok tt

-- The source of an event seen on the chain that sends.
abbrev pub source_of : RawEvent → String → Source
source_of e sender = record {
  chain_id = e.chain_id;
  tx_hash = e.tx_hash;
  block_number = e.block_number;
  timestamp = e.timestamp;
  sender = sender;
  log_index = e.log_index;
}

-- The chain where the event is observed is the destination chain.
abbrev pub destination_of : RawEvent → String → Destination
destination_of e receiver = record {
  chain_id = e.chain_id;
  tx_hash = e.tx_hash;
  block_number = e.block_number;
  timestamp = e.timestamp;
  receiver = receiver;
  log_index = e.log_index;
}

-- A result for a new pending message.
abbrev pub new_message : ℕ → RawEvent → String → MessageType → Source → Payload → Normalized
new_message now e id type source payload = record {
  message = record {
    message_id = id;
    protocol = e.protocol;
    type = type;
    status = pending;
    source = source;
    destination = none;
    payload = some payload;
    metadata = some no_metadata;
    created_at = now;
    updated_at = now;
  };
  is_correlation = false;
  correlation_key = none;
}

-- A result that updates an existing message with the destination.
abbrev pub correlation : CorrelationKey → MessageStatus → Destination → Normalized
correlation key status destination = record {
  message = record {
    message_id = "";
    protocol = "";
    type = no_type;
    status = status;
    source = no_source;
    destination = some destination;
    payload = none;
    metadata = none;
    created_at = 0;
    updated_at = 0;
  };
  is_correlation = true;
  correlation_key = some key;
}

unfoldable pub normalize_packet_sent : ℕ → RawEvent → Result Normalized
normalize_packet_sent now e = do
  require "PacketSent missing guid" (e.fields "guid")
  nonce ← context "PacketSent invalid nonce" (parse_uint64 (e.fields "nonce"))
  ok (
      new_message now e (e.fields "guid") message (source_of e (e.fields "sender"))
        (record no_payload { content = e.fields "message"; nonce = nonce }))

unfoldable pub normalize_packet_received : RawEvent → Result Normalized
normalize_packet_received e = do
  nonce ← context "PacketReceived invalid nonce" (parse_uint64 (e.fields "nonce"))
  require "PacketReceived missing sender" (e.fields "sender")
  src ← context "PacketReceived invalid src_chain_id" (parse_uint64 (e.fields "src_chain_id"))
  ok (
      correlation
        (record {
          protocol = e.protocol;
          message_id = "";
          nonce = nonce;
          sender = e.fields "sender";
          src_chain_id = src;
        })
        no_status (destination_of e (e.fields "receiver")))

unfoldable pub normalize_oft_sent : ℕ → RawEvent → Result Normalized
normalize_oft_sent now e = do
  require "OFTSent missing guid" (e.fields "guid")
  ok (
      new_message now e (e.fields "guid") token_transfer (source_of e (e.fields "from_address"))
        (record no_payload { amount = e.fields "amount_sent" }))

unfoldable pub normalize_axelar_contract_call : ℕ → RawEvent → Result Normalized
normalize_axelar_contract_call now e = do
  require "ContractCall missing payload_hash" (e.fields "payload_hash")
  require "ContractCall missing sender" (e.fields "sender")
  ok (
      new_message now e (e.fields "payload_hash") contract_call (source_of e (e.fields "sender"))
        (record no_payload { content = e.fields "payload" }))

-- `srcChainID, _ := parseUint64(…)`: the error is dropped, and the number that comes with it kept.
unfoldable pub normalize_axelar_contract_call_approved : ℕ → RawEvent → Result Normalized
normalize_axelar_contract_call_approved now e = do
  require "ContractCallApproved missing command_id" (e.fields "command_id")
  let src = value_of (parse_uint (e.fields "src_chain_id"))
  ok (
      new_message now e (e.fields "command_id") contract_call
        (record {
          chain_id = src;
          tx_hash = e.fields "source_tx_hash";
          block_number = e.block_number;
          timestamp = e.timestamp;
          sender = e.fields "source_address";
          log_index = e.log_index;
        })
        no_payload)

unfoldable pub normalize_axelar_executed : RawEvent → Result Normalized
normalize_axelar_executed e = do
  require "Executed missing command_id" (e.fields "command_id")
  ok (
      correlation
        (record {
          protocol = e.protocol;
          message_id = e.fields "command_id";
          nonce = 0;
          sender = "";
          src_chain_id = 0;
        })
        no_status (destination_of e ""))

unfoldable pub normalize_log_message_published : ℕ → RawEvent → Result Normalized
normalize_log_message_published now e = do
  require "LogMessagePublished missing message_id" (e.fields "message_id")
  ok (
      new_message now e (e.fields "message_id") message (source_of e (e.fields "sender"))
        (record no_payload { content = e.fields "payload" }))

-- The message_id is asked for, and is not part of the key.
unfoldable pub normalize_transfer_redeemed : RawEvent → Result Normalized
normalize_transfer_redeemed e = do
  require "TransferRedeemed missing message_id" (e.fields "message_id")
  require "TransferRedeemed missing sender" (e.fields "sender")
  src ← context "TransferRedeemed invalid src_chain_id" (parse_uint64 (e.fields "src_chain_id"))
  sequence ← context "TransferRedeemed invalid sequence" (parse_uint64 (e.fields "sequence"))
  ok (
      correlation
        (record {
          protocol = e.protocol;
          message_id = "";
          nonce = sequence;
          sender = e.fields "sender";
          src_chain_id = src;
        })
        no_status (destination_of e (e.fields "receiver")))

-- `tc != "" && tc != "0"`
unfoldable pub ccip_message_type : String → MessageType
ccip_message_type tc = if not (str_eq tc "") && not (str_eq tc "0") then token_transfer else message

unfoldable pub normalize_ccip_send_requested : ℕ → RawEvent → Result Normalized
normalize_ccip_send_requested now e = do
  require "CCIPSendRequested missing message_id" (e.fields "message_id")
  require "CCIPSendRequested missing sender" (e.fields "sender")
  src ← context "CCIPSendRequested invalid src_chain_id" (parse_uint64 (e.fields "src_chain_id"))
  nonce ← context "CCIPSendRequested invalid nonce" (parse_uint64 (e.fields "nonce"))
  let created =
      new_message now e (e.fields "message_id") (ccip_message_type (e.fields "token_count"))
        (record (source_of e (e.fields "sender")) { chain_id = src })
        (record {
          token = e.fields "token";
          amount = e.fields "amount";
          content = e.fields "data";
          nonce = nonce;
        })
  ok (record created {
    message = record (created.message) {
      metadata = some (record no_metadata { fee = e.fields "fee_token_amount" });
    };
  })

-- The execution states of CCIP: 2 is success, 3 is failure, all others are not final.
unfoldable pub ccip_status : ℕ → Result MessageStatus
ccip_status state =
    if state == 2
    then ok executed
    else if state == 3
    then ok failed
    else err (failure "ExecutionStateChanged non-terminal state, skipping")

unfoldable pub normalize_ccip_execution_state_changed : RawEvent → Result Normalized
normalize_ccip_execution_state_changed e = do
  require "ExecutionStateChanged missing message_id" (e.fields "message_id")
  require "ExecutionStateChanged missing state" (e.fields "state")
  state ← context "ExecutionStateChanged invalid state" (parse_uint64 (e.fields "state"))
  status ← ccip_status state
  ok (
      correlation
        (record {
          protocol = e.protocol;
          message_id = e.fields "message_id";
          nonce = 0;
          sender = "";
          src_chain_id = 0;
        })
        status (destination_of e ""))

-- The switch on the event type.
unfoldable pub normalize_event : ℕ → RawEvent → Result Normalized
normalize_event now e =
    if str_eq e.event_type "PacketSent"
    then normalize_packet_sent now e
    else if str_eq e.event_type "PacketReceived"
    then normalize_packet_received e
    else if str_eq e.event_type "OFTSent"
    then normalize_oft_sent now e
    else if str_eq e.event_type "ContractCall"
    then normalize_axelar_contract_call now e
    else if str_eq e.event_type "ContractCallApproved"
    then normalize_axelar_contract_call_approved now e
    else if str_eq e.event_type "Executed"
    then normalize_axelar_executed e
    else if str_eq e.event_type "CCIPSendRequested"
    then normalize_ccip_send_requested now e
    else if str_eq e.event_type "ExecutionStateChanged"
    then normalize_ccip_execution_state_changed e
    else if str_eq e.event_type "LogMessagePublished"
    then normalize_log_message_published now e
    else if str_eq e.event_type "TransferRedeemed"
    then normalize_transfer_redeemed e
    else err (failure "unsupported event type")

-- A nil event is refused first.
unfoldable pub normalize : ℕ → Option RawEvent → Result Normalized
unfolding normalize_event
normalize now none = err (failure "nil event")
normalize now (some e) = normalize_event now e
