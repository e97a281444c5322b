-- ===== src/Correlator/Delivery.antt =====
-- A LayerZero packet from its two logs to the match in the store.
use akave_crosschain_archive.Base.{
  ℕ, ◌<◌, ◌^◌, ◌≡◌, ◌≢◌, refl, ap, ◌∙◌, String, true, some, arith, eq_iff, eq_refl, str_ne, drop,
  List, ◌∷◌, ok,
}
use akave_crosschain_archive.Base.Bytes.{Bytes, prefixed_hex, cons_named}
use akave_crosschain_archive.Correlator.Complete.{normalize_received}
use akave_crosschain_archive.Database.{message_row, payload_row}
use akave_crosschain_archive.Decoder.LayerZero.Packet.{Packet, IsPacket, encode}
use akave_crosschain_archive.Decoder.LayerZero.RoundTrip.{HasFields, decode-encode}
use akave_crosschain_archive.Decoder.LayerZero.{
  Ethereum, EthLog, LayerZeroEvent, PacketReceiveData, packet_sent, packet_received,
  packet_delivered, oft_sent, endpoint_to_chain_id, raw_event, received_fields, event_fields,
  decode_event, decode_topics, decode,
}
use akave_crosschain_archive.Decoder.{RawEvent, Fields, no_fields}
use akave_crosschain_archive.Normalizer.Numbers.{parse_uint64-print_uint}
use akave_crosschain_archive.Normalizer.{
  CorrelationKey, Normalized, normalize, normalize_packet_sent, new_message, correlation, source_of,
  destination_of,
}
use akave_crosschain_archive.Store.{matches}
use akave_crosschain_archive.Types.{no_status, message, Payload, no_payload}

-- A log whose first topic is that of an event.
pub record IsLog (eth : Ethereum) (event : LayerZeroEvent) (log : EthLog) : Type 0 where
  pub topic : Bytes
  pub more : List Bytes
  pub topics : log.topics ≡ topic ∷ more
  pub known : eth.event_of topic ≡ some event

decode-event_fields :
    (eth : Ethereum) (event : LayerZeroEvent) (log : EthLog) (chain : ℕ) (fields : Fields)
    → IsLog eth event log
    → event_fields eth event log ≡ ok fields
    → decode eth log chain ≡ ok (raw_event eth event log chain fields)
unfolding decode decode_topics decode_event
decode-event_fields eth event log chain fields is read = simp (is.topics, is.known, read) refl

-- The two events by which an endpoint reports that it has a packet.
abbrev pub IsReceipt : LayerZeroEvent → Type 0
IsReceipt packet_sent = ⊥
IsReceipt packet_delivered = Unit
IsReceipt packet_received = Unit
IsReceipt oft_sent = ⊥

event_fields-receipt :
    (eth : Ethereum) (event : LayerZeroEvent) (log : EthLog)
    → IsReceipt event
    → event_fields eth event log ≡ event_fields eth packet_received log
unfolding event_fields
event_fields-receipt eth packet_sent log h = absurd h
event_fields-receipt eth packet_delivered log h = refl
event_fields-receipt eth packet_received log h = refl
event_fields-receipt eth oft_sent log h = absurd h

raw_event-receipt :
    (eth : Ethereum) (event : LayerZeroEvent) (log : EthLog) (chain : ℕ) (fields : Fields)
    → IsReceipt event
    → raw_event eth event log chain fields ≡ raw_event eth packet_received log chain fields
raw_event-receipt eth packet_sent log chain fields h = absurd h
raw_event-receipt eth packet_delivered log chain fields h = refl
raw_event-receipt eth packet_received log chain fields h = refl
raw_event-receipt eth oft_sent log chain fields h = absurd h

-- Two logs decode, normalize and lead to a key that matches the stored message.
pub record PacketMatch (eth : Ethereum) (now later chain here : ℕ) (sent received : EthLog)
    : Type 0 where
  pub sent_event : RawEvent
  pub received_event : RawEvent
  pub created : Normalized
  pub update : Normalized
  pub payload : Payload
  pub key : CorrelationKey
  pub decodes_sent : decode eth sent chain ≡ ok sent_event
  pub decodes_received : decode eth received here ≡ ok received_event
  pub creates : normalize now (some sent_event) ≡ ok created
  pub updates : normalize later (some received_event) ≡ ok update
  pub has_payload : created.message.payload ≡ some payload
  pub has_key : update.correlation_key ≡ some key
  pub matched :
      matches key created.message.message_id
        (message_row created.message)
        created.message.source
        (payload_row payload)
      ≡ true

endpoint_bound : (eid n : ℕ) → endpoint_to_chain_id eid ≡ some n → n < 2 ^ 64
unfolding endpoint_to_chain_id
endpoint_bound eid n h = ground arith

module _ (eth : Ethereum) (p : Packet) (sizes : IsPacket p) where
  abbrev sender_text : String
  sender_text = eth.address_hex (drop 12 p.sender)

  abbrev sent_payload : Payload
  sent_payload = record no_payload { content = prefixed_hex p.message; nonce = p.nonce }

  sent_normalized :
      (now chain : ℕ) (log : EthLog) (fields : Fields)
      → HasFields eth.address_hex p fields
      → normalize now (some (raw_event eth packet_sent log chain fields))
        ≡ ok (
            new_message now
              (raw_event eth packet_sent log chain fields)
              (prefixed_hex p.guid)
              message
              (source_of (raw_event eth packet_sent log chain fields) sender_text)
              sent_payload)
  unfolding normalize normalize_packet_sent
  sent_normalized now chain log fields h =
      let small : p.nonce < 2 ^ 64 = sizes.nonce in
      let named = str_ne (prefixed_hex p.guid) "" (cons_named _ _) in
      simp (h.guid, h.nonce, h.sender, h.message, parse_uint64-print_uint p.nonce small, named) refl

  abbrev delivered : String → PacketReceiveData
  delivered receiver = record {
    origin = record { src_eid = p.src_eid; sender = p.sender; nonce = p.nonce };
    receiver = receiver;
  }

  abbrev packet_key : ℕ → CorrelationKey
  packet_key chain = record {
    protocol = "layerzero_v2";
    message_id = "";
    nonce = p.nonce;
    sender = sender_text;
    src_chain_id = chain;
  }

  received_normalized :
      (now chain here : ℕ) (log : EthLog) (receiver : String)
      → endpoint_to_chain_id p.src_eid ≡ some chain
      → sender_text ≢ ""
      → normalize now
          (some (raw_event eth packet_received log here (received_fields eth (delivered receiver))))
        ≡ ok (
            correlation (packet_key chain) no_status (
              destination_of
                (raw_event eth packet_received log here (received_fields eth (delivered receiver)))
                receiver))
  unfolding received_fields
  received_normalized now chain here log receiver known named =
      normalize_received now p.nonce chain
        (raw_event eth packet_received log here (received_fields eth (delivered receiver))) refl
        (parse_uint64-print_uint p.nonce sizes.nonce)
        (rw known (parse_uint64-print_uint chain (endpoint_bound p.src_eid chain known))) named

  -- The row of a sent packet is what the key of its receipt asks for.
  sent_matches :
      (now chain : ℕ) (e : RawEvent)
      → e.protocol ≡ "layerzero_v2"
      → e.chain_id ≡ chain
      → matches
          (packet_key chain)
          (prefixed_hex p.guid)
          (message_row
            (new_message now e
              (prefixed_hex p.guid)
              message
              (source_of e sender_text)
              sent_payload).message)
          (source_of e sender_text)
          (payload_row sent_payload)
        ≡ true
  unfolding matches
  sent_matches now chain e protocol here =
      ground (arith, eq_refl "", eq_refl sender_text, eq_iff e.protocol "layerzero_v2")

  -- For every packet whose source endpoint is in the table, as that of the sending chain, the log
  -- that sends it and the log that reports its arrival on another chain, a PacketReceived or a
  -- PacketDelivered, decode and normalize, and the key of the arrival matches the message of the
  -- sending, as it is stored. The ABI unpacking gives the packet's bytes and its origin, and the text
  -- of the sender is not empty.
  pub delivered_packet_matches :
      (now later chain here : ℕ) (sent received : EthLog) (receiver : String)
      (event : LayerZeroEvent)
      → IsLog eth packet_sent sent
      → eth.unpack_packet_sent sent.content ≡ ok (encode p)
      → IsReceipt event
      → IsLog eth event received
      → eth.unpack_packet_received received.content ≡ ok (delivered receiver)
      → endpoint_to_chain_id p.src_eid ≡ some chain
      → sender_text ≢ ""
      → PacketMatch eth now later chain here sent received
  unfolding event_fields
  delivered_packet_matches now later chain here sent received receiver event is_sent unpacked
        receipt is_received origin known named =
      let (fields, decoded, holds) = decode-encode eth.address_hex p sizes no_fields in
      let e = raw_event eth packet_sent sent chain fields in
      record {
        sent_event = e;
        received_event =
            raw_event eth packet_received received here (received_fields eth (delivered receiver));
        created =
            new_message now e (prefixed_hex p.guid) message (source_of e sender_text) sent_payload;
        update = correlation (packet_key chain) no_status (
            destination_of
              (raw_event eth packet_received received here
                (received_fields eth (delivered receiver)))
              receiver);
        payload = sent_payload;
        key = packet_key chain;
        decodes_sent =
            decode-event_fields eth packet_sent sent chain fields is_sent
              (simp (unpacked, decoded) refl);
        decodes_received =
            decode-event_fields eth event received here _ is_received
              (event_fields-receipt eth event received receipt ∙ simp origin refl)
            ∙ ap ok (raw_event-receipt eth event received here _ receipt);
        creates = sent_normalized now chain sent fields holds;
        updates = received_normalized later chain here received receiver known named;
        has_payload = refl;
        has_key = refl;
        matched = sent_matches now chain e refl refl;
      }
