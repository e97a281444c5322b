-- ===== src/Tests/Ccip.antt =====
-- Runs of the CCIP decoder.
use akave_crosschain_archive.Base.{
  ◌≡◌, refl, arith, some, List, [], ◌∷◌, length, ◌==◌, if◌then◌else◌, ok,
}
use akave_crosschain_archive.Base.Bytes.{Bytes, to_bytes, prefixed_hex, cons_named}
use akave_crosschain_archive.Correlator.Execution.{
  IsSending, IsOutcomeLog, IsComplete, OutcomeMatch, outcome_matches,
}
use akave_crosschain_archive.Decoder.Ccip.Contracts.{contract_addresses, add_unseen, is_seen}
use akave_crosschain_archive.Decoder.Ccip.{
  SentMessage, struct_value, uint8_value, bytes_value, CcipPackages, CcipLog, send_requested,
  execution_state_changed,
}
use akave_crosschain_archive.Normalizer.{ccip_status}
use akave_crosschain_archive.Types.{failed}

abbrev message : SentMessage
message = record {
  message_id = some (to_bytes 32 9);
  sequence_number = some 4;
  sender = some (to_bytes 20 170);
  receiver = some (to_bytes 20 187);
  nonce = some 12;
  source_chain_selector = some 5009297550715157269;
  fee_token = some (to_bytes 20 1);
  fee_token_amount = some 100;
  gas_limit = some 200000;
  content = some [];
  token_amounts = some (record { token = some (to_bytes 20 2); amount = some 5 } ∷ []);
}

abbrev packages : CcipPackages
packages = record {
  event_of =
      λ topic. if length topic == 1 then some send_requested else some execution_state_changed;
  unpack_sent = λ content. ok (struct_value message ∷ []);
  unpack_state_changed = λ content. ok (uint8_value 3 ∷ bytes_value content ∷ []);
  address_hex = prefixed_hex;
  hash_hex = prefixed_hex;
}

abbrev log_of : List Bytes → CcipLog
log_of topics = record {
  topics = topics;
  content = [];
  block_number = 100;
  tx_hash = "0x1";
  index = 0;
}

abbrev sent : CcipLog
sent = log_of (to_bytes 1 1 ∷ [])

abbrev ended : CcipLog
ended = log_of (to_bytes 2 1 ∷ to_bytes 32 4 ∷ to_bytes 32 9 ∷ [])

sent-IsSending : IsSending packages message sent
unfolding to_bytes
sent-IsSending = record {
  topic = _;
  more = _;
  topics = refl;
  known = refl;
  others = _;
  unpacked = refl;
}

ended-IsOutcomeLog : IsOutcomeLog packages (to_bytes 32 9) 3 ended
unfolding to_bytes
ended-IsOutcomeLog = record {
  topic = _;
  sequence = _;
  more = _;
  topics = refl;
  known = refl;
  returned = _;
  others = _;
  unpacked = refl;
}

message-IsComplete : IsComplete packages (to_bytes 32 9) message
message-IsComplete = record {
  sender = to_bytes 20 170;
  nonce = 12;
  has_id = refl;
  has_sender = refl;
  has_nonce = refl;
  small = omega arith;
  named = cons_named _ _;
  sender_named = cons_named _ _;
}

state_failed : ccip_status 3 ≡ ok failed
unfolding ccip_status
state_failed = refl

outcome_matches_example : OutcomeMatch packages 1 2 1 42161 sent ended failed
outcome_matches_example =
    outcome_matches packages (to_bytes 32 9) message message-IsComplete 1 (omega arith) 1 2 42161 3
      failed sent ended sent-IsSending ended-IsOutcomeLog (omega arith) state_failed

-- Ethereum has six contracts of either kind.
contracts_counted : length (contract_addresses 1) ≡ 12
unfolding contract_addresses add_unseen is_seen
contracts_counted = refl
