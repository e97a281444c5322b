-- ===== src/Decoder/LayerZero.antt =====
-- The decoder of LayerZero V2, of internal/decoder/layerzero/decoder.go. The packages of go-ethereum
-- are arguments: the names of events by their topic, the unpacking of ABI data, and the text of an
-- address or a hash. `data` is the map that a log's fields are written to.
pub mod Packet
pub mod RoundTrip
use akave_crosschain_archive.Base.{
  ℕ, ◌+◌, ◌-◌, String, Bool, true, false, Option, none, some, List, [], ◌∷◌, length, take, drop,
  ltb, leb, ◌==◌, if◌then◌else◌, Result, ok, err, failure, context, ◌>>=◌, ◌>>◌,
}
use akave_crosschain_archive.Base.Bytes.{Bytes, slice, big_endian, prefixed_hex}
use akave_crosschain_archive.Base.Decimal.{print_loop, print_uint}
use akave_crosschain_archive.Base.Int.{pos}
use akave_crosschain_archive.Decoder.{RawEvent, Fields, no_fields, put}

-- `EndpointToChainID`
unfoldable pub endpoint_to_chain_id : ℕ → Option ℕ
endpoint_to_chain_id eid =
    if eid == 30101
    then some 1
    else if eid == 30102
    then some 56
    else if eid == 30106
    then some 43114
    else if eid == 30109
    then some 137
    else if eid == 30110
    then some 42161
    else if eid == 30111
    then some 10
    else if eid == 30112
    then some 250
    else if eid == 30184
    then some 8453
    else if eid == 30183
    then some 59144
    else if eid == 30181
    then some 5000
    else if eid == 30214
    then some 534352
    else none

-- `if chainID, ok := …; ok { data[key] = … }`, and with an else branch
abbrev pub put_known : String → Option ℕ → Fields → Fields
put_known key none d = d
put_known key (some n) d = put d key (print_uint n)

abbrev pub chain_text : Option ℕ → String
chain_text none = "unknown"
chain_text (some n) = print_uint n

-- `String()` of a `big.Int` below 2^256, which has at most 78 digits
abbrev pub print_big : ℕ → String
print_big n = print_loop 78 n ""

module _ (address_hex : Bytes → String) where
  -- `decodeEncodedPayload`
  unfoldable pub decode_encoded_payload : Bytes → Fields → Result Fields
  decode_encoded_payload payload d₀ =
      let src_eid = big_endian (slice 9 13 payload) in
      let dst_eid = big_endian (slice 45 49 payload) in
      let d₁ = put d₀ "version" (print_uint (big_endian (take 1 payload))) in
      let d₂ = put d₁ "nonce" (print_uint (big_endian (slice 1 9 payload))) in
      let d₃ = put d₂ "src_eid" (print_uint src_eid) in
      let d₄ = put_known "src_chain_id" (endpoint_to_chain_id src_eid) d₃ in
      let d₅ = put d₄ "sender" (address_hex (drop 12 (slice 13 45 payload))) in
      let d₆ = put d₅ "dst_eid" (print_uint dst_eid) in
      let d₇ = put_known "dst_chain_id" (endpoint_to_chain_id dst_eid) d₆ in
      let d₈ = put d₇ "receiver" (address_hex (drop 12 (slice 49 81 payload))) in
      let d₉ = put d₈ "guid" (prefixed_hex (slice 81 113 payload)) in
      if ltb (length payload) 113
      then err (failure "payload too short")
      else ok (
          put d₉ "message"
            (if ltb 113 (length payload) then prefixed_hex (drop 113 payload) else "0x"))

-- What the decoder reads of a log.
pub record EthLog : Type 0 where
  pub topics : List Bytes
  pub content : Bytes
  pub block_number : ℕ
  pub tx_hash : String
  pub index : ℕ

pub data LayerZeroEvent : Type 0 where
  packet_sent packet_delivered packet_received oft_sent : LayerZeroEvent

pub record PacketOrigin : Type 0 where
  pub src_eid : ℕ
  pub sender : Bytes
  pub nonce : ℕ

pub record PacketReceiveData : Type 0 where
  pub origin : PacketOrigin
  pub receiver : String

pub record OftSentData : Type 0 where
  pub dst_eid : ℕ
  pub amount_sent : Option ℕ
  pub amount_received : Option ℕ

-- The packages of go-ethereum as far as the decoder calls them.
pub record Ethereum : Type 0 where
  pub event_of : Bytes → Option LayerZeroEvent
  pub unpack_packet_sent : Bytes → Result Bytes
  pub unpack_packet_received : Bytes → Result PacketReceiveData
  pub unpack_oft_sent : Bytes → Result OftSentData
  pub address_hex : Bytes → String
  pub hash_hex : Bytes → String

abbrev pub event_name : LayerZeroEvent → String
event_name packet_sent = "PacketSent"
event_name packet_delivered = "PacketReceived"
event_name packet_received = "PacketReceived"
event_name oft_sent = "OFTSent"

abbrev pub put_amount : String → Option ℕ → Fields → Fields
put_amount key none d = d
put_amount key (some n) d = put d key (print_big n)

module _ (eth : Ethereum) where
  -- The case of the two receiving events.
  unfoldable pub received_fields : PacketReceiveData → Fields
  received_fields r =
      let d₁ = put no_fields "src_eid" (print_uint r.origin.src_eid) in
      let d₂ = put d₁ "src_chain_id" (chain_text (endpoint_to_chain_id r.origin.src_eid)) in
      let d₃ = put d₂ "sender" (eth.address_hex (drop 12 r.origin.sender)) in
      let d₄ = put d₃ "nonce" (print_uint r.origin.nonce) in put d₄ "receiver" r.receiver

  -- The indexed fields of OFTSent, where there are topics for both.
  unfoldable pub oft_topics : List Bytes → Fields
  oft_topics (_ ∷ guid ∷ from ∷ _) =
      put (put no_fields "guid" (eth.hash_hex guid)) "from_address" (eth.address_hex (drop 12 from))
  oft_topics _ = no_fields

  unfoldable pub oft_fields : List Bytes → OftSentData → Fields
  oft_fields topics sent =
      let d₁ = put (oft_topics topics) "dst_eid" (print_uint sent.dst_eid) in
      let d₂ = put d₁ "dst_chain_id" (chain_text (endpoint_to_chain_id sent.dst_eid)) in
      put_amount "amount_received" sent.amount_received
        (put_amount "amount_sent" sent.amount_sent d₂)

  -- The switch on the event.
  unfoldable pub event_fields : LayerZeroEvent → EthLog → Result Fields
  event_fields packet_sent log = do
    payload ← context "failed to unpack PacketSent" (eth.unpack_packet_sent log.content)
    context "failed to decode encodedPayload"
        (decode_encoded_payload eth.address_hex payload no_fields)
  event_fields oft_sent log = do
    sent ← context "failed to unpack OFTSent" (eth.unpack_oft_sent log.content)
    ok (oft_fields log.topics sent)
  event_fields _ log = do
    received ← context "failed to unpack PacketReceived" (eth.unpack_packet_received log.content)
    ok (received_fields received)

  abbrev pub raw_event : LayerZeroEvent → EthLog → ℕ → Fields → RawEvent
  raw_event event log chain fields = record {
    protocol = "layerzero_v2";
    chain_id = chain;
    block_number = log.block_number;
    tx_hash = log.tx_hash;
    log_index = log.index;
    timestamp = pos 0;
    event_type = event_name event;
    fields = fields;
  }

  unfoldable pub decode_event : Option LayerZeroEvent → EthLog → ℕ → Result RawEvent
  decode_event none log chain = err (failure "unknown event topic")
  decode_event (some event) log chain = do
    fields ← event_fields event log
    ok (raw_event event log chain fields)

  unfoldable pub decode_topics : List Bytes → EthLog → ℕ → Result RawEvent
  decode_topics [] log chain = err (failure "no topics in log")
  decode_topics (topic ∷ _) log chain = decode_event (eth.event_of topic) log chain

  -- `Decode`
  unfoldable pub decode : EthLog → ℕ → Result RawEvent
  decode log chain = decode_topics log.topics log chain
