-- ===== src/Decoder/Axelar.antt =====
-- The decoder of Axelar, of internal/decoder/axelar/decoder.go. The packages of go-ethereum are
-- arguments: the names of events by their topic, the unpacking of ABI data, and the texts of
-- addresses, hashes and bytes.
use Prim.Native.Char.{code}
use akave_crosschain_archive.Base.{
  ℕ, ◌+◌, String, Bool, true, false, ◌&&◌, Option, none, some, List, [], ◌∷◌, drop, ltb, ◌==◌,
  if◌then◌else◌, Result, ok, err, failure, context, ◌>>=◌,
}
use akave_crosschain_archive.Base.Bytes.{Bytes}
use akave_crosschain_archive.Base.Decimal.{print_loop, print_uint}
use akave_crosschain_archive.Base.Int.{pos}
use akave_crosschain_archive.Decoder.{RawEvent, Fields, no_fields, put}

-- `unicode.ToLower` as far as its result is ASCII: the capitals, the dotted capital I and the sign
-- of the kelvin.
abbrev pub lower_code : ℕ → ℕ
lower_code n =
    if ltb n 65
    then n
    else if ltb n 91
    then n + 32
    else if n == 304
    then 105
    else if n == 8490
    then 107
    else n

-- `strings.ToLower(s) == name` for a name in ASCII
unfoldable pub is_name : String → String → Bool
is_name String.[] String.[] = true
is_name String.[] (String.◌∷◌ d t) = false
is_name (String.◌∷◌ c s) String.[] = false
is_name (String.◌∷◌ c s) (String.◌∷◌ d t) = (lower_code (code c) == code d) && is_name s t

-- `ChainNameToID`
abbrev pub chain_names : List (String × ℕ)
chain_names =
    ("ethereum", 1)
    ∷ ("avalanche", 43114)
    ∷ ("polygon", 137)
    ∷ ("binance", 56)
    ∷ ("arbitrum", 42161)
    ∷ ("optimism", 10)
    ∷ ("base", 8453)
    ∷ ("fantom", 250)
    ∷ ("linea", 59144)
    ∷ ("moonbeam", 1284)
    ∷ ("filecoin", 314)
    ∷ ("mantle", 5000)
    ∷ ("scroll", 534352)
    ∷ []

unfoldable pub id_in : String → List (String × ℕ) → Option ℕ
id_in s [] = none
id_in s ((name, id) ∷ rest) = if is_name s name then some id else id_in s rest

abbrev pub chain_id_text : Option ℕ → String
chain_id_text none = "unknown"
chain_id_text (some n) = print_uint n

-- What the decoder reads of a log.
pub record AxelarLog : Type 0 where
  pub topics : List Bytes
  pub content : Bytes
  pub block_number : ℕ
  pub tx_hash : String
  pub index : ℕ

pub data AxelarEvent : Type 0 where
  contract_call contract_call_approved executed : AxelarEvent

-- The fields that are not indexed, as ABI unpacking gives them.
pub record CallData : Type 0 where
  pub destination_chain : String
  pub destination_contract_address : String
  pub payload : Bytes

pub record ApprovalData : Type 0 where
  pub source_chain : String
  pub source_address : String
  pub payload_hash : Bytes
  pub source_event_index : ℕ

pub record AxelarPackages : Type 0 where
  pub event_of : Bytes → Option AxelarEvent
  pub unpack_call : Bytes → Result CallData
  pub unpack_approval : Bytes → Result ApprovalData
  pub address_hex : Bytes → String
  pub hash_hex : Bytes → String
  pub bytes_hex : Bytes → String

abbrev pub axelar_event_name : AxelarEvent → String
axelar_event_name contract_call = "ContractCall"
axelar_event_name contract_call_approved = "ContractCallApproved"
axelar_event_name executed = "Executed"

abbrev pub axelar_event : AxelarEvent → AxelarLog → ℕ → Fields → RawEvent
axelar_event event log chain fields = record {
  protocol = "axelar";
  chain_id = chain;
  block_number = log.block_number;
  tx_hash = log.tx_hash;
  log_index = log.index;
  timestamp = pos 0;
  event_type = axelar_event_name event;
  fields = fields;
}

module _ (eth : AxelarPackages) where
  unfoldable pub call_topics : List Bytes → Fields
  call_topics (_ ∷ sender ∷ hash ∷ _) =
      put (put no_fields "sender" (eth.address_hex (drop 12 sender))) "payload_hash"
        (eth.hash_hex hash)
  call_topics _ = no_fields

  -- `decodeContractCall`
  unfoldable pub decode_contract_call : AxelarLog → Result Fields
  decode_contract_call log = do
    call ← context "failed to unpack ContractCall" (eth.unpack_call log.content)
    let d₁ = put (call_topics log.topics) "destination_chain" call.destination_chain
    let d₂ = put d₁ "dst_chain_id" (chain_id_text (id_in call.destination_chain chain_names))
    let d₃ = put d₂ "destination_contract_address" call.destination_contract_address
    ok (put d₃ "payload" (eth.bytes_hex call.payload))

  unfoldable pub approval_topics : List Bytes → Fields
  approval_topics (_ ∷ command ∷ contract ∷ source ∷ _) =
      let d₁ = put no_fields "command_id" (eth.hash_hex command) in
      let d₂ = put d₁ "contract_address" (eth.address_hex (drop 12 contract)) in
      put d₂ "source_tx_hash" (eth.hash_hex source)
  approval_topics _ = no_fields

  unfoldable pub approval_fields : List Bytes → ApprovalData → Fields
  approval_fields topics a =
      let d₁ = put (approval_topics topics) "source_chain" a.source_chain in
      let d₂ = put d₁ "src_chain_id" (chain_id_text (id_in a.source_chain chain_names)) in
      let d₃ = put d₂ "source_address" a.source_address in
      let d₄ = put d₃ "payload_hash" (eth.hash_hex a.payload_hash) in
      put d₄ "source_event_index" (print_loop 78 a.source_event_index "")

  -- `decodeContractCallApproved`
  unfoldable pub decode_contract_call_approved : AxelarLog → Result Fields
  decode_contract_call_approved log = do
    a ← context "failed to unpack ContractCallApproved" (eth.unpack_approval log.content)
    ok (approval_fields log.topics a)

  -- `decodeExecuted`
  unfoldable pub decode_executed : List Bytes → Fields
  decode_executed (_ ∷ command ∷ _) = put no_fields "command_id" (eth.hash_hex command)
  decode_executed _ = no_fields

  -- The switch on the event.
  unfoldable pub axelar_fields : AxelarEvent → AxelarLog → Result Fields
  axelar_fields contract_call log = decode_contract_call log
  axelar_fields contract_call_approved log = decode_contract_call_approved log
  axelar_fields executed log = ok (decode_executed log.topics)

  unfoldable pub decode_axelar_event : Option AxelarEvent → AxelarLog → ℕ → Result RawEvent
  decode_axelar_event none log chain = err (failure "unknown event topic")
  decode_axelar_event (some event) log chain = do
    fields ← axelar_fields event log
    ok (axelar_event event log chain fields)

  unfoldable pub decode_axelar_topics : List Bytes → AxelarLog → ℕ → Result RawEvent
  decode_axelar_topics [] log chain = err (failure "no topics in log")
  decode_axelar_topics (topic ∷ _) log chain = decode_axelar_event (eth.event_of topic) log chain

  -- `Decode` of the Axelar decoder
  unfoldable pub decode_axelar : AxelarLog → ℕ → Result RawEvent
  decode_axelar log chain = decode_axelar_topics log.topics log chain
