-- ===== src/Normalizer/Sending.antt =====
-- The new messages of internal/normalizer/normalizer.go, by the events of the sending side.
use akave_crosschain_archive.Base.{
  ap, ℕ, String, false, ◌||◌, none, some, ◌≡◌, ◌≢◌, refl, subst, arith, str_eq, eq_iff, ok,
  if◌then◌else◌,
}
use akave_crosschain_archive.Decoder.{RawEvent}
use akave_crosschain_archive.Normalizer.{
  Normalized, new_message, ccip_message_type, parse_uint64, normalize_packet_sent,
  normalize_oft_sent, normalize_axelar_contract_call, normalize_axelar_contract_call_approved,
  normalize_log_message_published, normalize_ccip_send_requested,
}
use akave_crosschain_archive.Types.{
  pending, MessageType, Source, Payload, Metadata, no_payload, no_metadata, token_transfer, message,
  contract_call,
}
use akave_crosschain_archive.Base.Decimal.{parse_uint, value_of}

-- The field that holds the identifier of the message, by the type of the event.
abbrev pub id_field : String → String
id_field t =
    if str_eq t "PacketSent" || str_eq t "OFTSent"
    then "guid"
    else if str_eq t "ContractCall"
    then "payload_hash"
    else if str_eq t "ContractCallApproved"
    then "command_id"
    else "message_id"

abbrev pub sender_field : String → String
sender_field t =
    if str_eq t "OFTSent"
    then "from_address"
    else if str_eq t "ContractCallApproved"
    then "source_address"
    else "sender"

-- The transaction that sends: an approval names it, and is itself seen on the other chain.
abbrev pub sending_tx : String → RawEvent → String
sending_tx t e = if str_eq t "ContractCallApproved" then e.fields "source_tx_hash" else e.tx_hash

-- The chain that sends: two events name it in a field.
abbrev pub sending_chain : String → RawEvent → ℕ
sending_chain t e =
    if str_eq t "ContractCallApproved" || str_eq t "CCIPSendRequested"
    then value_of (parse_uint (e.fields "src_chain_id"))
    else e.chain_id

-- A message of CCIP moves tokens if their number is given and not 0.
abbrev pub sending_type : String → RawEvent → MessageType
sending_type t e =
    if str_eq t "OFTSent"
    then token_transfer
    else if str_eq t "ContractCall" || str_eq t "ContractCallApproved"
    then contract_call
    else if str_eq t "CCIPSendRequested"
    then (if str_eq (e.fields "token_count") "" || str_eq (e.fields "token_count") "0"
        then message
        else token_transfer)
    else message

-- A new pending message of an event of type t: identifier, protocol, type and source are those of
-- the event, and its times are that of the normalization.
pub record IsNew (now : ℕ) (t : String) (e : RawEvent) (n : Normalized) : Type 0 where
  pub flag : n.is_correlation ≡ false
  pub key : n.correlation_key ≡ none
  pub named : n.message.message_id ≢ ""
  pub id : n.message.message_id ≡ e.fields (id_field t)
  pub protocol : n.message.protocol ≡ e.protocol
  pub type : n.message.type ≡ sending_type t e
  pub status : n.message.status ≡ pending
  pub chain_id : n.message.source.chain_id ≡ sending_chain t e
  pub tx_hash : n.message.source.tx_hash ≡ sending_tx t e
  pub block_number : n.message.source.block_number ≡ e.block_number
  pub timestamp : n.message.source.timestamp ≡ e.timestamp
  pub sender : n.message.source.sender ≡ e.fields (sender_field t)
  pub log_index : n.message.source.log_index ≡ e.log_index
  pub destination : n.message.destination ≡ none
  pub payload : n.message.payload ≢ none
  pub metadata : n.message.metadata ≢ none
  pub created_at : n.message.created_at ≡ now
  pub updated_at : n.message.updated_at ≡ now

-- The source that an event of type t names.
abbrev source_named : String → RawEvent → Source
source_named t e = record {
  chain_id = sending_chain t e;
  tx_hash = sending_tx t e;
  block_number = e.block_number;
  timestamp = e.timestamp;
  sender = e.fields (sender_field t);
  log_index = e.log_index;
}

module _ (now : ℕ) (e : RawEvent) where
  -- A new message with metadata.
  abbrev made : String → MessageType → Source → Payload → Metadata → Normalized
  made id type source payload metadata =
      let created = new_message now e id type source payload in
      record created { message = record (created.message) { metadata = some metadata } }

  made-IsNew :
      (t : String) (type : MessageType) (source : Source) (payload : Payload) (md : Metadata)
      → e.fields (id_field t) ≢ ""
      → type ≡ sending_type t e
      → source ≡ source_named t e
      → IsNew now t e (made (e.fields (id_field t)) type source payload md)
  made-IsNew t type source payload md named typed sent = record {
    flag = refl;
    key = refl;
    named = named;
    id = refl;
    protocol = refl;
    type = typed;
    status = refl;
    chain_id = ap (λ s. s.chain_id) sent;
    tx_hash = ap (λ s. s.tx_hash) sent;
    block_number = ap (λ s. s.block_number) sent;
    timestamp = ap (λ s. s.timestamp) sent;
    sender = ap (λ s. s.sender) sent;
    log_index = ap (λ s. s.log_index) sent;
    destination = refl;
    payload = λ h. cc;
    metadata = λ h. cc;
    created_at = refl;
    updated_at = refl;
  }

  module _ (n : Normalized) where
    packet_sent-made :
        normalize_packet_sent now e ≡ ok n
        → (e.fields "guid" ≢ "")
          × (made
                (e.fields "guid")
                message
                (source_named "PacketSent" e)
                (record no_payload {
                  content = e.fields "message";
                  nonce = value_of (parse_uint (e.fields "nonce"));
                })
                no_metadata
              ≡ n)
    unfolding normalize_packet_sent parse_uint64
    packet_sent-made h = ground (arith, eq_iff (e.fields "guid") "")

    pub packet_sent-IsNew : normalize_packet_sent now e ≡ ok n → IsNew now "PacketSent" e n
    packet_sent-IsNew h =
        let (named, is) = packet_sent-made h in
        subst (IsNew now "PacketSent" e) is (
          made-IsNew "PacketSent" message (source_named "PacketSent" e) _ no_metadata named refl
            refl)

    oft_sent-made :
        normalize_oft_sent now e ≡ ok n
        → (e.fields "guid" ≢ "")
          × (made
                (e.fields "guid")
                token_transfer
                (source_named "OFTSent" e)
                (record no_payload { amount = e.fields "amount_sent" })
                no_metadata
              ≡ n)
    unfolding normalize_oft_sent
    oft_sent-made h = ground (arith, eq_iff (e.fields "guid") "")

    pub oft_sent-IsNew : normalize_oft_sent now e ≡ ok n → IsNew now "OFTSent" e n
    oft_sent-IsNew h =
        let (named, is) = oft_sent-made h in
        subst (IsNew now "OFTSent" e) is (
          made-IsNew "OFTSent" token_transfer (source_named "OFTSent" e) _ no_metadata named refl
            refl)

    contract_call-made :
        normalize_axelar_contract_call now e ≡ ok n
        → (e.fields "payload_hash" ≢ "")
          × (made
                (e.fields "payload_hash")
                contract_call
                (source_named "ContractCall" e)
                (record no_payload { content = e.fields "payload" })
                no_metadata
              ≡ n)
    unfolding normalize_axelar_contract_call
    contract_call-made h = ground (arith, eq_iff (e.fields "payload_hash") "")

    pub contract_call-IsNew :
        normalize_axelar_contract_call now e ≡ ok n → IsNew now "ContractCall" e n
    contract_call-IsNew h =
        let (named, is) = contract_call-made h in
        subst (IsNew now "ContractCall" e) is (
          made-IsNew "ContractCall" contract_call (source_named "ContractCall" e) _ no_metadata
            named refl refl)

    contract_call_approved-made :
        normalize_axelar_contract_call_approved now e ≡ ok n
        → (e.fields "command_id" ≢ "")
          × (made
                (e.fields "command_id")
                contract_call
                (source_named "ContractCallApproved" e)
                no_payload
                no_metadata
              ≡ n)
    unfolding normalize_axelar_contract_call_approved
    contract_call_approved-made h = ground (arith, eq_iff (e.fields "command_id") "")

    pub contract_call_approved-IsNew :
        normalize_axelar_contract_call_approved now e ≡ ok n → IsNew now "ContractCallApproved" e n
    contract_call_approved-IsNew h =
        let (named, is) = contract_call_approved-made h in
        subst (IsNew now "ContractCallApproved" e) is (
          made-IsNew "ContractCallApproved" contract_call (source_named "ContractCallApproved" e) _
            no_metadata named refl refl)

    log_message_published-made :
        normalize_log_message_published now e ≡ ok n
        → (e.fields "message_id" ≢ "")
          × (made
                (e.fields "message_id")
                message
                (source_named "LogMessagePublished" e)
                (record no_payload { content = e.fields "payload" })
                no_metadata
              ≡ n)
    unfolding normalize_log_message_published
    log_message_published-made h = ground (arith, eq_iff (e.fields "message_id") "")

    pub log_message_published-IsNew :
        normalize_log_message_published now e ≡ ok n → IsNew now "LogMessagePublished" e n
    log_message_published-IsNew h =
        let (named, is) = log_message_published-made h in
        subst (IsNew now "LogMessagePublished" e) is (
          made-IsNew "LogMessagePublished" message (source_named "LogMessagePublished" e) _
            no_metadata named refl refl)

    ccip_send_requested-made :
        normalize_ccip_send_requested now e ≡ ok n
        → (e.fields "message_id" ≢ "")
          × (made
                (e.fields "message_id")
                (ccip_message_type (e.fields "token_count"))
                (source_named "CCIPSendRequested" e)
                (record {
                  token = e.fields "token";
                  amount = e.fields "amount";
                  content = e.fields "data";
                  nonce = value_of (parse_uint (e.fields "nonce"));
                })
                (record no_metadata { fee = e.fields "fee_token_amount" })
              ≡ n)
    unfolding normalize_ccip_send_requested parse_uint64
    ccip_send_requested-made h = ground (arith, eq_iff (e.fields "message_id") "")

    ccip_type : ccip_message_type (e.fields "token_count") ≡ sending_type "CCIPSendRequested" e
    unfolding ccip_message_type
    ccip_type = ground arith

    pub ccip_send_requested-IsNew :
        normalize_ccip_send_requested now e ≡ ok n → IsNew now "CCIPSendRequested" e n
    ccip_send_requested-IsNew h =
        let (named, is) = ccip_send_requested-made h in
        subst (IsNew now "CCIPSendRequested" e) is (
          made-IsNew "CCIPSendRequested" _ (source_named "CCIPSendRequested" e) _ _ named ccip_type
            refl)
