-- ===== src/Decoder.antt =====
-- The event between a protocol's decoder and the normalizer, of internal/decoder/types.go.
pub mod Registry
pub mod LayerZero
pub mod Wormhole
pub mod Axelar
pub mod Ccip
use akave_crosschain_archive.Base.{ℕ, String, str_eq, if◌then◌else◌}
use akave_crosschain_archive.Base.Int.{ℤ}

-- `map[string]string`, of which the program only reads single keys: a missing key reads as "".
abbrev pub Fields : Type 0
Fields = String → String

abbrev pub no_fields : Fields
no_fields k = ""

-- `data[k] = v`
abbrev pub put : Fields → String → String → Fields
put d k v j = if str_eq k j then v else d j

pub record RawEvent : Type 0 where
  pub protocol : String
  pub chain_id : ℕ
  pub block_number : ℕ
  pub tx_hash : String
  pub log_index : ℕ
  pub timestamp : ℤ
  pub event_type : String
  pub fields : Fields
