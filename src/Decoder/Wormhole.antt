-- ===== src/Decoder/Wormhole.antt =====
-- The decoder of Wormhole, of internal/decoder/wormhole/decoder.go and vaa.go. The packages of
-- go-ethereum are arguments: the names of events by their topic, the unpacking of ABI data, and the
-- text of an address or a hash.
pub mod Identity
pub mod Payload
use Prim.Native.String.{◌++◌ as ◌⧺◌}
use akave_crosschain_archive.Base.{
  ℕ, ◌+◌, ◌-◌, ◌%◌, ◌^◌, ◌<◌, String, Bool, true, false, ◌||◌, not, Option, none, some, List, [],
  ◌∷◌, length, take, drop, ltb, ◌==◌, str_eq, if◌then◌else◌, Result, ok, err, failure, context,
  ◌>>=◌, ◌>>◌,
}
use akave_crosschain_archive.Base.Bytes.{Bytes, slice, big_endian, prefixed_hex}
use akave_crosschain_archive.Base.Decimal.{print_uint}
use akave_crosschain_archive.Base.Int.{pos}
use akave_crosschain_archive.Decoder.{RawEvent, Fields, no_fields, put}

-- `WormholeChainIDToEVM` as its pairs
abbrev pub chain_pairs : List (ℕ × ℕ)
chain_pairs =
    (2, 1)
    ∷ (4, 56)
    ∷ (5, 137)
    ∷ (6, 43114)
    ∷ (10, 250)
    ∷ (13, 8217)
    ∷ (14, 42220)
    ∷ (16, 1284)
    ∷ (23, 42161)
    ∷ (24, 10)
    ∷ (30, 8453)
    ∷ (35, 534352)
    ∷ []

abbrev pub evm_in : ℕ → List (ℕ × ℕ) → Option ℕ
evm_in n [] = none
evm_in n ((wh, evm) ∷ rest) = if wh == n then some evm else evm_in n rest

abbrev pub wormhole_in : ℕ → List (ℕ × ℕ) → Option ℕ
wormhole_in n [] = none
wormhole_in n ((wh, evm) ∷ rest) = if evm == n then some wh else wormhole_in n rest

unfoldable pub wormhole_to_evm : ℕ → Option ℕ
wormhole_to_evm n = evm_in n chain_pairs

-- `EVMToWormholeChainID`, as `init` fills it: no chain occurs twice among the pairs.
unfoldable pub evm_to_wormhole : ℕ → Option ℕ
evm_to_wormhole n = wormhole_in n chain_pairs

-- `TokenTransferPayload`
pub record TokenTransfer : Type 0 where
  pub payload_type : ℕ
  pub amount : String
  pub token_address : String
  pub token_chain : ℕ
  pub token_chain_evm : ℕ
  pub to_address : String
  pub to_chain : ℕ
  pub to_chain_evm : ℕ
  pub fee : String
  pub extra_payload : Bytes

-- 0 stands for an unknown chain.
abbrev pub or_zero : Option ℕ → ℕ
or_zero none = 0
or_zero (some n) = n

-- The first byte of a payload, which is not empty.
abbrev pub first_byte : Bytes → ℕ
first_byte [] = 0
first_byte (b ∷ _) = b

module _ (address_hex : Bytes → String) where
  -- The fields of a transfer, of type 1 or 3, that is long enough.
  unfoldable pub read_transfer : ℕ → Bytes → TokenTransfer
  read_transfer type payload =
      let token_chain = big_endian (slice 65 67 payload) in
      let to_chain = big_endian (slice 99 101 payload) in
      record {
        payload_type = type;
        amount = prefixed_hex (slice 1 33 payload);
        token_address = address_hex (drop 12 (slice 33 65 payload));
        token_chain = token_chain;
        token_chain_evm = or_zero (wormhole_to_evm token_chain);
        to_address = address_hex (drop 12 (slice 67 99 payload));
        to_chain = to_chain;
        to_chain_evm = or_zero (wormhole_to_evm to_chain);
        fee =
            if type == 1
            then (if ltb (length payload) 133 then "" else prefixed_hex (slice 101 133 payload))
            else "";
        extra_payload = if type == 3 then drop 101 payload else [];
      }

  -- `ParseTokenBridgePayload`: none where the payload is no transfer.
  unfoldable pub parse_token_bridge_payload : Bytes → Result (Option TokenTransfer)
  parse_token_bridge_payload payload =
      let type = first_byte payload in
      if length payload == 0
      then ok none
      else if not ((type == 1) || (type == 3))
      then ok none
      else if ltb (length payload) 101
      then err (failure "wormhole token bridge payload too short")
      else ok (some (read_transfer type payload))

-- What the decoder reads of a log.
pub record WormholeLog : Type 0 where
  pub topics : List Bytes
  pub content : Bytes
  pub block_number : ℕ
  pub tx_hash : String
  pub index : ℕ
  pub address : String

pub data WormholeEvent : Type 0 where
  log_message_published transfer_redeemed : WormholeEvent

pub record LogMessageData : Type 0 where
  pub sequence : ℕ
  pub nonce : ℕ
  pub payload : Bytes
  pub consistency_level : ℕ

pub record WormholePackages : Type 0 where
  pub event_of : Bytes → Option WormholeEvent
  pub unpack_message : Bytes → Result LogMessageData
  pub address_hex : Bytes → String
  pub hash_hex : Bytes → String

-- `if v > 0 { data[key] = "%d" }` and `if v != "" { data[key] = v }`
abbrev pub put_positive : String → ℕ → Fields → Fields
put_positive key n d = if ltb 0 n then put d key (print_uint n) else d

abbrev pub put_text : String → String → Fields → Fields
put_text key s d = if str_eq s "" then d else put d key s

abbrev pub chain_or_unknown : Option ℕ → String
chain_or_unknown none = "unknown"
chain_or_unknown (some n) = print_uint n

-- "%s/%s/%s"
abbrev pub vaa_id : String → String → String → String
vaa_id chain address sequence = chain ⧺ ("/" ⧺ (address ⧺ ("/" ⧺ sequence)))

-- The fields of a decoded transfer.
unfoldable pub put_transfer : Result (Option TokenTransfer) → Fields → Fields
put_transfer (err _) d = put d "payload_parse_error" "wormhole token bridge payload too short"
put_transfer (ok none) d = d
put_transfer (ok (some t)) d =
    let d₁ = put d "token_address" t.token_address in
    let d₂ = put d₁ "token_chain" (print_uint t.token_chain) in
    let d₃ = put_positive "token_chain_evm" t.token_chain_evm d₂ in
    let d₄ = put d₃ "to_address" t.to_address in
    let d₅ = put d₄ "to_chain" (print_uint t.to_chain) in
    let d₆ = put_positive "to_chain_evm" t.to_chain_evm d₅ in
    let d₇ = put d₆ "token_amount" t.amount in
    let d₈ = put_text "relayer_fee" t.fee d₇ in
    let d₉ =
      if length t.extra_payload == 0
      then d₈
      else put d₈ "extra_payload" (prefixed_hex t.extra_payload) in
    put d₉ "payload_type" (print_uint t.payload_type)

abbrev pub wormhole_event : String → WormholeLog → ℕ → Fields → RawEvent
wormhole_event type log chain fields = record {
  protocol = "wormhole";
  chain_id = chain;
  block_number = log.block_number;
  tx_hash = log.tx_hash;
  log_index = log.index;
  timestamp = pos 0;
  event_type = type;
  fields = fields;
}

module _ (eth : WormholePackages) where
  -- The fields of `decodeLogMessagePublished` once the log is unpacked.
  unfoldable pub published_fields : ℕ → Bytes → LogMessageData → Fields
  published_fields chain sender m =
      let d₁ = put no_fields "sender" (eth.address_hex (drop 12 sender)) in
      let d₂ = put d₁ "emitter_address" (eth.hash_hex sender) in
      let d₃ = put d₂ "sequence" (print_uint m.sequence) in
      let d₄ = put d₃ "nonce" (print_uint m.nonce) in
      let d₅ = put d₄ "consistency_level" (print_uint m.consistency_level) in
      let d₆ =
        if length m.payload == 0
        then put d₅ "payload" "0x"
        else put_transfer (parse_token_bridge_payload eth.address_hex m.payload)
            (put d₅ "payload" (prefixed_hex m.payload)) in
      let emitter = chain_or_unknown (evm_to_wormhole chain) in
      put (put d₆ "emitter_chain" emitter) "message_id"
        (vaa_id emitter (eth.hash_hex sender) (print_uint m.sequence))

  unfoldable pub decode_log_message_published : WormholeLog → ℕ → List Bytes → Result Fields
  decode_log_message_published log chain (_ ∷ sender ∷ _) = do
    m ← context "LogMessagePublished: failed to unpack" (eth.unpack_message log.content)
    ok (published_fields chain sender m)
  decode_log_message_published log chain _ =
      err (failure "LogMessagePublished: missing sender topic")

  -- The fields of `decodeTransferRedeemed`: the topics hold numbers in 32 bytes, cut to 16 and 64 bits.
  unfoldable pub redeemed_fields : String → Bytes → Bytes → Bytes → Fields
  redeemed_fields contract emitter address sequence =
      let chain = big_endian emitter % 2 ^ 16 in
      let number = big_endian sequence % 2 ^ 64 in
      let d₁ = put no_fields "emitter_chain" (print_uint chain) in
      let d₂ = put d₁ "src_chain_id" (chain_or_unknown (wormhole_to_evm chain)) in
      let d₃ = put d₂ "emitter_address" (eth.hash_hex address) in
      let d₄ = put d₃ "sender" (eth.address_hex (drop 12 address)) in
      let d₅ = put d₄ "sequence" (print_uint number) in
      let d₆ =
        put d₅ "message_id"
          (vaa_id (print_uint chain) (eth.hash_hex address) (print_uint number)) in
      put d₆ "receiver" contract

  unfoldable pub decode_transfer_redeemed : WormholeLog → List Bytes → Result Fields
  decode_transfer_redeemed log (_ ∷ emitter ∷ address ∷ sequence ∷ _) =
      ok (redeemed_fields log.address emitter address sequence)
  decode_transfer_redeemed log _ = err (failure "TransferRedeemed: expected 4 topics")

  unfoldable pub decode_known : Option WormholeEvent → WormholeLog → ℕ → Result RawEvent
  decode_known none log chain = err (failure "unknown event topic")
  decode_known (some log_message_published) log chain = do
    fields ← decode_log_message_published log chain log.topics
    ok (wormhole_event "LogMessagePublished" log chain fields)
  decode_known (some transfer_redeemed) log chain = do
    fields ← decode_transfer_redeemed log log.topics
    ok (wormhole_event "TransferRedeemed" log chain fields)

  unfoldable pub decode_by_topic : List Bytes → WormholeLog → ℕ → Result RawEvent
  decode_by_topic [] log chain = err (failure "no topics in log")
  decode_by_topic (topic ∷ _) log chain = decode_known (eth.event_of topic) log chain

  -- `Decode` of the Wormhole decoder
  unfoldable pub decode_wormhole : WormholeLog → ℕ → Result RawEvent
  decode_wormhole log chain = decode_by_topic log.topics log chain
