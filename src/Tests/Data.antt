-- ===== src/Tests/Data.antt =====
-- The events and tables that the tests share.
use akave_crosschain_archive.Base.{ℕ, String, false, none, some, [], ◌∷◌}
use akave_crosschain_archive.Base.Int.{pos}
use akave_crosschain_archive.Database.{Db, MessageRow, PayloadRow}
use akave_crosschain_archive.Decoder.{RawEvent, Fields, no_fields, put}
use akave_crosschain_archive.Indexer.Storage.{StorageFaults}
use akave_crosschain_archive.Types.{
  pending, message, token_transfer, Source, Destination, Payload, Message, no_metadata,
}

abbrev pub event : String → String → ℕ → Fields → RawEvent
event protocol type chain fields = record {
  protocol = protocol;
  chain_id = chain;
  block_number = 10;
  tx_hash = "0xaa";
  log_index = 2;
  timestamp = pos 100;
  event_type = type;
  fields = fields;
}

abbrev pub packet_sent : RawEvent
packet_sent =
    event "layerzero_v2" "PacketSent" 1
      (put (put (put no_fields "guid" "0x01") "nonce" "7") "sender" "0xaa")

abbrev pub packet_received : RawEvent
packet_received =
    event "layerzero_v2" "PacketReceived" 10
      (put (put (put no_fields "nonce" "7") "sender" "0xaa") "src_chain_id" "1")

abbrev pub state_changed : RawEvent
state_changed =
    event "ccip" "ExecutionStateChanged" 10 (put (put no_fields "message_id" "0x01") "state" "3")

abbrev pub published : RawEvent
published = event "wormhole" "LogMessagePublished" 1 (put no_fields "message_id" "2/aa/5")

abbrev pub redeemed : RawEvent
redeemed = event "wormhole" "TransferRedeemed" 10 (
    put (put (put (put no_fields "message_id" "2/aa/5") "sender" "0xaa") "src_chain_id" "1")
      "sequence" "5")

abbrev pub waiting_row : String → MessageRow
waiting_row protocol = record {
  protocol = protocol;
  type = message;
  status = pending;
  created_at = 1;
  updated_at = 1;
}

abbrev pub sender : Source
sender = record {
  chain_id = 1;
  tx_hash = "0xbb";
  block_number = 5;
  timestamp = pos 50;
  sender = "0xaa";
  log_index = 0;
}

abbrev pub stored_payload : PayloadRow
stored_payload = record { token = some ""; amount = some ""; content = some "hi"; nonce = 7 }

-- One pending message, under "0x01".
abbrev pub waiting : String → Db
waiting protocol = record {
  messages = ("0x01", waiting_row protocol) ∷ [];
  sources = ("0x01", sender) ∷ [];
  destinations = [];
  payloads = ("0x01", stored_payload) ∷ [];
  metadata = ("0x01", no_metadata) ∷ [];
}

abbrev pub place : Destination
place = record {
  chain_id = 10;
  tx_hash = "0xcc";
  block_number = 9;
  timestamp = pos 90;
  receiver = "";
  log_index = 0;
}

abbrev pub general_payload : Payload
general_payload = record { token = ""; amount = ""; content = "hi"; nonce = 7 }

abbrev pub transfer_payload : Payload
transfer_payload = record { token = ""; amount = "12"; content = ""; nonce = 0 }

abbrev pub general : Message
general = record {
  message_id = "0x01";
  protocol = "layerzero_v2";
  type = message;
  status = pending;
  source = sender;
  destination = none;
  payload = some general_payload;
  metadata = some no_metadata;
  created_at = 1;
  updated_at = 1;
}

abbrev pub transfer : Message
transfer = record general { type = token_transfer; payload = some transfer_payload }

abbrev pub fault_free : StorageFaults
fault_free = record {
  load_cursor = false;
  update_cursor = false;
  save_hash = λ b. false;
  get_hash = λ i b. false;
  prune_hashes = false;
  delete_hashes = false;
}
