-- ===== src/Types.antt =====
-- The unified cross-chain message, of internal/types/message.go.
use akave_crosschain_archive.Base.{ℕ, String, Option}
use akave_crosschain_archive.Base.Int.{ℤ, pos}

-- `no_status` and `no_type` are the empty strings that Go's zero values hold.
pub data MessageStatus : Type 0 where
  no_status pending executed failed : MessageStatus

pub data MessageType : Type 0 where
  no_type token_transfer message contract_call : MessageType

pub record Source : Type 0 where
  pub chain_id : ℕ
  pub tx_hash : String
  pub block_number : ℕ
  pub timestamp : ℤ
  pub sender : String
  pub log_index : ℕ

pub record Destination : Type 0 where
  pub chain_id : ℕ
  pub tx_hash : String
  pub block_number : ℕ
  pub timestamp : ℤ
  pub receiver : String
  pub log_index : ℕ

pub record Payload : Type 0 where
  pub token : String
  pub amount : String
  pub content : String
  pub nonce : ℕ

pub record Metadata : Type 0 where
  pub fee : String
  pub relayer : String
  pub gas_used : ℕ
  pub latency_seconds : ℤ

-- A pointer that may be nil is an `Option`; a time is a number of its own clock.
pub record Message : Type 0 where
  pub message_id : String
  pub protocol : String
  pub type : MessageType
  pub status : MessageStatus
  pub source : Source
  pub destination : Option Destination
  pub payload : Option Payload
  pub metadata : Option Metadata
  pub created_at : ℕ
  pub updated_at : ℕ

-- Go's zero values.
abbrev pub no_source : Source
no_source = record {
  chain_id = 0;
  tx_hash = "";
  block_number = 0;
  timestamp = pos 0;
  sender = "";
  log_index = 0;
}

abbrev pub no_payload : Payload
no_payload = record { token = ""; amount = ""; content = ""; nonce = 0 }

abbrev pub no_metadata : Metadata
no_metadata = record { fee = ""; relayer = ""; gas_used = 0; latency_seconds = pos 0 }
