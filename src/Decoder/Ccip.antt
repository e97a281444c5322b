-- ===== src/Decoder/Ccip.antt =====
-- The decoder of Chainlink CCIP, of internal/decoder/ccip/decoder.go. The packages of go-ethereum are
-- arguments: the names of events by their topic, the unpacking of ABI data, and the texts of
-- addresses and hashes. The fields that the source reads by reflection are options: none where the
-- struct has no field of the name and type.
pub mod Contracts
pub mod Sent
use Prim.Native.String.{◌++◌ as ◌⧺◌}
use akave_crosschain_archive.Base.{
  ℕ, ◌%◌, ◌^◌, String, Option, none, some, List, [], ◌∷◌, length, ◌==◌, if◌then◌else◌, Result, ok,
  err, failure, context, ◌>>=◌,
}
use akave_crosschain_archive.Base.Bytes.{Bytes, big_endian, prefixed_hex}
use akave_crosschain_archive.Base.Decimal.{print_loop, print_uint}
use akave_crosschain_archive.Base.Int.{pos}
use akave_crosschain_archive.Decoder.{RawEvent, Fields, no_fields, put}

-- `ChainSelectorToEVM` as its pairs
abbrev pub selector_pairs : List (ℕ × ℕ)
selector_pairs =
    (5009297550715157269, 1)
    ∷ (4949039107694359620, 42161)
    ∷ (3734403246176062136, 10)
    ∷ (15971525489660198786, 8453)
    ∷ (4051577828743386545, 137)
    ∷ (6433500567565415381, 43114)
    ∷ (11344663589394136015, 56)
    ∷ (6101244977088475029, 59144)
    ∷ (1346049177634351622, 534352)
    ∷ (16015286601757825753, 11155111)
    ∷ (3478487238524512106, 421614)
    ∷ (5224473277236331295, 84532)
    ∷ (2664363617261496610, 80001)
    ∷ (14767482510784806043, 43113)
    ∷ []

abbrev pub chain_in : ℕ → List (ℕ × ℕ) → Option ℕ
chain_in n [] = none
chain_in n ((selector, chain) ∷ rest) = if selector == n then some chain else chain_in n rest

unfoldable pub chain_of_selector : ℕ → Option ℕ
chain_of_selector n = chain_in n selector_pairs

-- `ExecutionState.String`
unfoldable pub state_name : ℕ → String
state_name s =
    if s == 0
    then "untouched"
    else if s == 1
    then "in_progress"
    else if s == 2
    then "success"
    else if s == 3
    then "failure"
    else "unknown(" ⧺ (print_uint s ⧺ ")")

-- `evmTokenAmount`
pub record TokenAmount : Type 0 where
  pub token : Option Bytes
  pub amount : Option ℕ

-- `evm2EVMMessage`
pub record SentMessage : Type 0 where
  pub message_id : Option Bytes
  pub sequence_number : Option ℕ
  pub sender : Option Bytes
  pub receiver : Option Bytes
  pub nonce : Option ℕ
  pub source_chain_selector : Option ℕ
  pub fee_token : Option Bytes
  pub fee_token_amount : Option ℕ
  pub gas_limit : Option ℕ
  pub content : Option Bytes
  pub token_amounts : Option (List TokenAmount)

-- A value that unpacking yields, by its Go type.
pub data Argument : Type 0 where
  struct_value : SentMessage → Argument
  uint8_value : ℕ → Argument
  bytes_value : Bytes → Argument
  other_value : Argument

pub data CcipEvent : Type 0 where
  send_requested execution_state_changed : CcipEvent

-- What the decoder reads of a log.
pub record CcipLog : Type 0 where
  pub topics : List Bytes
  pub content : Bytes
  pub block_number : ℕ
  pub tx_hash : String
  pub index : ℕ

pub record CcipPackages : Type 0 where
  pub event_of : Bytes → Option CcipEvent
  pub unpack_sent : Bytes → Result (List Argument)
  pub unpack_state_changed : Bytes → Result (List Argument)
  pub address_hex : Bytes → String
  pub hash_hex : Bytes → String

abbrev pub ccip_event_name : CcipEvent → String
ccip_event_name send_requested = "CCIPSendRequested"
ccip_event_name execution_state_changed = "ExecutionStateChanged"

abbrev pub ccip_event : CcipEvent → CcipLog → ℕ → Fields → RawEvent
ccip_event event log chain fields = record {
  protocol = "ccip";
  chain_id = chain;
  block_number = log.block_number;
  tx_hash = log.tx_hash;
  log_index = log.index;
  timestamp = pos 0;
  event_type = ccip_event_name event;
  fields = fields;
}

-- `if f := getField(name); f.IsValid() { data[key] = text(f) }`
unfoldable pub put_field {ℓ} : {A : Type ℓ} → String → (A → String) → Option A → Fields → Fields
put_field key text none d = d
put_field key text (some a) d = put d key (text a)

-- `big.Int.String` of a number below 2^256, which has at most 78 digits.
abbrev pub print_big : ℕ → String
print_big n = print_loop 78 n ""

-- "0x" and the bytes in hexadecimal; "0x" alone where there are none.
abbrev pub bytes_text : Option Bytes → String
bytes_text none = "0x"
bytes_text (some bs) = prefixed_hex bs

abbrev pub bytes_of : Argument → Option Bytes
bytes_of (bytes_value bs) = some bs
bytes_of _ = none

-- The chain of the selector, or the chain of the log.
abbrev pub source_chain : ℕ → Option ℕ → ℕ
source_chain chain none = chain
source_chain chain (some id) = id

unfoldable pub put_source_chain : ℕ → Option ℕ → Fields → Fields
put_source_chain chain none d = put d "src_chain_id" (print_uint chain)
put_source_chain chain (some selector) d =
    put (put d "source_chain_selector" (print_uint selector)) "src_chain_id"
      (print_uint (source_chain chain (chain_of_selector selector)))

module _ (eth : CcipPackages) where
  unfoldable pub put_tokens : Option (List TokenAmount) → Fields → Fields
  put_tokens none d = put d "token_count" "0"
  put_tokens (some []) d = put d "token_count" (print_uint 0)
  put_tokens (some (first ∷ rest)) d =
      let d₁ = put d "token_count" (print_uint (length (first ∷ rest))) in
      let d₂ = put_field "token" eth.address_hex first.token d₁ in
      put_field "amount" print_big first.amount d₂

  unfoldable pub sent_fields : ℕ → SentMessage → Fields
  sent_fields chain m =
      let d₁ = put_field "message_id" eth.hash_hex m.message_id no_fields in
      let d₂ = put_field "sequence_number" print_uint m.sequence_number d₁ in
      let d₃ = put_field "sender" eth.address_hex m.sender d₂ in
      let d₄ = put_field "receiver" eth.address_hex m.receiver d₃ in
      let d₅ = put_field "nonce" print_uint m.nonce d₄ in
      let d₆ = put_source_chain chain m.source_chain_selector d₅ in
      let d₇ = put_field "fee_token" eth.address_hex m.fee_token d₆ in
      let d₈ = put_field "fee_token_amount" print_big m.fee_token_amount d₇ in
      let d₉ = put_field "gas_limit" print_big m.gas_limit d₈ in
      put_tokens m.token_amounts (put d₉ "data" (bytes_text m.content))

  -- The struct that unpacking yields.
  unfoldable pub sent_message : List Argument → Result SentMessage
  sent_message [] = err (failure "CCIPSendRequested: expected 1 argument")
  sent_message (struct_value m ∷ rest) = ok m
  sent_message (_ ∷ rest) = err (failure "CCIPSendRequested: expected struct")

  -- `decodeCCIPSendRequested`
  unfoldable pub decode_send_requested : CcipLog → ℕ → Result Fields
  decode_send_requested log chain = do
    arguments ← context "CCIPSendRequested: failed to unpack" (eth.unpack_sent log.content)
    m ← sent_message arguments
    ok (sent_fields chain m)

  unfoldable pub state_fields : List Argument → Fields → Result Fields
  state_fields (uint8_value state ∷ returned ∷ rest) d =
      let d₁ = put d "state" (print_uint state) in
      let d₂ = put d₁ "state_name" (state_name state) in
      ok (put d₂ "return_data" (bytes_text (bytes_of returned)))
  state_fields (_ ∷ returned ∷ rest) d = err (failure "ExecutionStateChanged: state is not uint8")
  state_fields _ d = err (failure "ExecutionStateChanged: expected 2 non-indexed fields")

  -- `log.Topics[1].Big().Uint64()`: the low 64 bits
  unfoldable pub state_topics : List Bytes → Result Fields
  state_topics (_ ∷ sequence ∷ id ∷ _) =
      let d₁ = put no_fields "sequence_number" (print_uint (big_endian sequence % 2 ^ 64)) in
      ok (put d₁ "message_id" (eth.hash_hex id))
  state_topics _ = err (failure "ExecutionStateChanged: expected at least 3 topics")

  -- `decodeExecutionStateChanged`
  unfoldable pub decode_execution_state_changed : CcipLog → Result Fields
  decode_execution_state_changed log = do
    d ← state_topics log.topics
    arguments ←
        context "ExecutionStateChanged: failed to unpack" (eth.unpack_state_changed log.content)
    state_fields arguments d

  -- The switch on the event.
  unfoldable pub ccip_fields : CcipEvent → CcipLog → ℕ → Result Fields
  ccip_fields send_requested log chain = decode_send_requested log chain
  ccip_fields execution_state_changed log chain = decode_execution_state_changed log

  unfoldable pub decode_ccip_event : Option CcipEvent → CcipLog → ℕ → Result RawEvent
  decode_ccip_event none log chain = err (failure "unknown event topic")
  decode_ccip_event (some event) log chain = do
    fields ← ccip_fields event log chain
    ok (ccip_event event log chain fields)

  unfoldable pub decode_ccip_topics : List Bytes → CcipLog → ℕ → Result RawEvent
  decode_ccip_topics [] log chain = err (failure "no topics in log")
  decode_ccip_topics (topic ∷ _) log chain = decode_ccip_event (eth.event_of topic) log chain

  -- `Decode` of the CCIP decoder
  unfoldable pub decode_ccip : CcipLog → ℕ → Result RawEvent
  decode_ccip log chain = decode_ccip_topics log.topics log chain
