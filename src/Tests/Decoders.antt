-- ===== src/Tests/Decoders.antt =====
-- Runs of the decoders and of the configuration.
use akave_crosschain_archive.Base.{
  none, ◌≡◌, refl, arith, some, List, [], ◌∷◌, ◌==◌, if◌then◌else◌, length, ok, err, failure,
}
use akave_crosschain_archive.Base.Bytes.{
  Bytes, to_bytes, read_from, prefixed_hex, length-to_bytes, cons_named,
}
use akave_crosschain_archive.Base.Decimal.{print_uint}
use akave_crosschain_archive.Config.Valid.{IsValid, load-IsValid}
use akave_crosschain_archive.Config.{
  Config, contains, merge_urls, normalize_chain_urls, validate_chains, validate, load,
}
use akave_crosschain_archive.Correlator.Approval.{CommandMatch, executed_command_matches}
use akave_crosschain_archive.Decoder.Axelar.{
  AxelarPackages, AxelarLog, ApprovalData, contract_call_approved, executed, is_name, id_in,
  chain_names,
}
use akave_crosschain_archive.Correlator.Delivery.{PacketMatch, delivered_packet_matches}
use akave_crosschain_archive.Decoder.LayerZero.Packet.{Packet, IsPacket, encode}
use akave_crosschain_archive.Decoder.LayerZero.RoundTrip.{HasFields, decode-encode}
use akave_crosschain_archive.Decoder.LayerZero.{
  Ethereum, EthLog, packet_sent, packet_received, endpoint_to_chain_id, decode_encoded_payload,
}
use akave_crosschain_archive.Decoder.Wormhole.Identity.{message_ids_agree}
use akave_crosschain_archive.Decoder.Wormhole.{
  WormholePackages, WormholeLog, LogMessageData, log_message_published, transfer_redeemed,
  evm_to_wormhole, decode_wormhole, wormhole_event,
}
use akave_crosschain_archive.Decoder.{Fields, no_fields}

abbrev packet : Packet
packet = record {
  version = 1;
  nonce = 7;
  src_eid = 30101;
  sender = to_bytes 32 170;
  dst_eid = 30111;
  receiver = to_bytes 32 187;
  guid = to_bytes 32 1;
  message = 104 ∷ 105 ∷ [];
}

packet-IsPacket : IsPacket packet
packet-IsPacket = record {
  version = omega arith;
  nonce = omega arith;
  src_eid = omega arith;
  sender = length-to_bytes 32 170;
  dst_eid = omega arith;
  receiver = length-to_bytes 32 187;
  guid = length-to_bytes 32 1;
}

decode-encode_example :
    (fields : Fields) × (decode_encoded_payload prefixed_hex (encode packet) no_fields ≡ ok fields)
    × HasFields prefixed_hex packet fields
decode-encode_example = decode-encode prefixed_hex packet packet-IsPacket no_fields

abbrev ethereum : Ethereum
ethereum = record {
  event_of = λ topic. if length topic == 1 then some packet_sent else some packet_received;
  unpack_packet_sent = λ content. ok content;
  unpack_packet_received = λ content. ok (record {
    origin = record { src_eid = 30101; sender = to_bytes 32 170; nonce = 7 };
    receiver = "0xbb";
  });
  unpack_oft_sent = λ content. err (failure "abi");
  address_hex = prefixed_hex;
  hash_hex = prefixed_hex;
}

abbrev log_of : Bytes → Bytes → EthLog
log_of topic content = record {
  topics = topic ∷ [];
  content = content;
  block_number = 3;
  tx_hash = "0xcc";
  index = 0;
}

delivered_packet_matches_example :
    PacketMatch ethereum 5 6 1 10 (log_of (1 ∷ []) (encode packet)) (log_of [] [])
delivered_packet_matches_example =
    delivered_packet_matches ethereum packet packet-IsPacket 5 6 1 10
      (log_of (1 ∷ []) (encode packet)) (log_of [] []) "0xbb" packet_received
      (record { topic = 1 ∷ []; more = []; topics = refl; known = refl }) refl tt
      (record { topic = []; more = []; topics = refl; known = refl }) refl
      (unfold endpoint_to_chain_id in refl) (cons_named _ _)

abbrev published_message : LogMessageData
published_message = record { sequence = 5; nonce = 0; payload = []; consistency_level = 1 }

abbrev packages : WormholePackages
packages = record {
  event_of =
      λ topic. if length topic == 1 then some log_message_published else some transfer_redeemed;
  unpack_message = λ content. ok published_message;
  address_hex = prefixed_hex;
  hash_hex = prefixed_hex;
}

abbrev vaa_log : List Bytes → WormholeLog
vaa_log topics = record {
  topics = topics;
  content = [];
  block_number = 3;
  tx_hash = "0xcc";
  index = 0;
  address = "0xdd";
}

abbrev publishing : WormholeLog
publishing = vaa_log ((1 ∷ []) ∷ (170 ∷ []) ∷ [])

abbrev redeeming : WormholeLog
redeeming = vaa_log ([] ∷ (0 ∷ 2 ∷ []) ∷ (170 ∷ []) ∷ (0 ∷ 5 ∷ []) ∷ [])

message_ids_agree_example :
    (a : Fields) × (b : Fields) × (decode_wormhole packages publishing 1
      ≡ ok (wormhole_event "LogMessagePublished" publishing 1 a))
    × (decode_wormhole packages redeeming 10
        ≡ ok (wormhole_event "TransferRedeemed" redeeming 10 b))
    × (a "message_id" ≡ b "message_id")
    × (b "src_chain_id" ≡ print_uint 1)
message_ids_agree_example =
    message_ids_agree packages 1 10 2 (170 ∷ []) (0 ∷ 2 ∷ []) (0 ∷ 5 ∷ []) published_message
      publishing redeeming (record { topic = 1 ∷ []; topics = refl; known = refl; unpacked = refl })
      (record { topic = []; topics = refl; known = refl }) (unfold evm_to_wormhole in refl)
      (unfold read_from in refl) (unfold read_from in refl) (omega arith)

abbrev approval : ApprovalData
approval = record {
  source_chain = "Ethereum";
  source_address = "0xaa";
  payload_hash = [];
  source_event_index = 4;
}

abbrev axelar_packages : AxelarPackages
axelar_packages = record {
  event_of = λ topic. if length topic == 1 then some contract_call_approved else some executed;
  unpack_call = λ content. err (failure "abi");
  unpack_approval = λ content. ok approval;
  address_hex = prefixed_hex;
  hash_hex = prefixed_hex;
  bytes_hex = prefixed_hex;
}

abbrev axelar_log : List Bytes → AxelarLog
axelar_log topics = record {
  topics = topics;
  content = [];
  block_number = 3;
  tx_hash = "0xcc";
  index = 0;
}

-- Chain names are compared without regard to capitals.
names_found : (id_in "Avalanche" chain_names ≡ some 43114) × (id_in "avalanch" chain_names ≡ none)
unfolding id_in is_name
names_found = (refl, refl)

executed_command_matches_example :
    CommandMatch axelar_packages 5 6 10
      (axelar_log ((1 ∷ []) ∷ (7 ∷ []) ∷ (8 ∷ []) ∷ (9 ∷ []) ∷ []))
      (axelar_log ([] ∷ (7 ∷ []) ∷ []))
executed_command_matches_example =
    executed_command_matches axelar_packages (7 ∷ []) (cons_named _ _) 5 6 10
      (axelar_log ((1 ∷ []) ∷ (7 ∷ []) ∷ (8 ∷ []) ∷ (9 ∷ []) ∷ []))
      (axelar_log ([] ∷ (7 ∷ []) ∷ [])) approval
      (record {
        topic = 1 ∷ [];
        contract = 8 ∷ [];
        source = 9 ∷ [];
        more = [];
        topics = refl;
        known = refl;
        unpacked = refl;
      })
      (record { topic = []; more = []; topics = refl; known = refl })

abbrev raw_config : Config
raw_config = record {
  host = "db";
  db_name = "archive";
  chains =
      (
        1,
        record { rpc_url = "a"; rpc_urls = "b" ∷ []; confirmation_depth = 12; max_block_range = 0 },
      )
      ∷ [];
}

abbrev loaded_config : Config
loaded_config = record raw_config {
  chains =
      (
        1,
        record {
          rpc_url = "";
          rpc_urls = "a" ∷ "b" ∷ [];
          confirmation_depth = 12;
          max_block_range = 0;
        },
      )
      ∷ [];
}

config_loaded : load raw_config ≡ ok loaded_config
unfolding load validate validate_chains normalize_chain_urls merge_urls contains
config_loaded = refl

load-IsValid_example : IsValid loaded_config
load-IsValid_example = load-IsValid raw_config loaded_config config_loaded
