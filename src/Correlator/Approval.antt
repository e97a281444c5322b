-- ===== src/Correlator/Approval.antt =====
-- Axelar: the approval of a call and its execution, from their logs to the match in the store.
use akave_crosschain_archive.Base.{
  ℕ, ◌≡◌, ◌≢◌, refl, true, some, List, ◌∷◌, arith, eq_iff, eq_refl, str_ne, ok,
}
use akave_crosschain_archive.Base.Bytes.{Bytes}
use akave_crosschain_archive.Base.Decimal.{value_of, parse_uint}
use akave_crosschain_archive.Database.{message_row, payload_row}
use akave_crosschain_archive.Decoder.Axelar.{
  AxelarPackages, AxelarLog, ApprovalData, contract_call_approved, executed, axelar_event,
  approval_topics, approval_fields, decode_contract_call_approved, decode_executed, axelar_fields,
  decode_axelar_event, decode_axelar_topics, decode_axelar,
}
use akave_crosschain_archive.Decoder.{RawEvent, Fields}
use akave_crosschain_archive.Normalizer.{
  CorrelationKey, Normalized, normalize, normalize_axelar_contract_call_approved,
  normalize_axelar_executed, new_message, correlation, destination_of,
}
use akave_crosschain_archive.Store.{matches}
use akave_crosschain_archive.Types.{no_status, contract_call, Payload, Source, no_payload}

-- An approval of a command, and an execution of it.
pub record IsApproval (eth : AxelarPackages) (command : Bytes) (a : ApprovalData) (log : AxelarLog)
    : Type 0 where
  pub topic : Bytes
  pub contract : Bytes
  pub source : Bytes
  pub more : List Bytes
  pub topics : log.topics ≡ topic ∷ command ∷ contract ∷ source ∷ more
  pub known : eth.event_of topic ≡ some contract_call_approved
  pub unpacked : eth.unpack_approval log.content ≡ ok a

pub record IsExecution (eth : AxelarPackages) (command : Bytes) (log : AxelarLog) : Type 0 where
  pub topic : Bytes
  pub more : List Bytes
  pub topics : log.topics ≡ topic ∷ command ∷ more
  pub known : eth.event_of topic ≡ some executed

-- Both logs decode and normalize, and the key of the second matches the message of the first.
pub record CommandMatch (eth : AxelarPackages) (now later here : ℕ) (approved ran : AxelarLog)
    : Type 0 where
  pub approval : RawEvent
  pub execution : RawEvent
  pub created : Normalized
  pub update : Normalized
  pub payload : Payload
  pub key : CorrelationKey
  pub decodes_approval : decode_axelar eth approved here ≡ ok approval
  pub decodes_execution : decode_axelar eth ran here ≡ ok execution
  pub creates : normalize now (some approval) ≡ ok created
  pub updates : normalize later (some execution) ≡ ok update
  pub has_payload : created.message.payload ≡ some payload
  pub has_key : update.correlation_key ≡ some key
  pub matched :
      matches key created.message.message_id
        (message_row created.message)
        created.message.source
        (payload_row payload)
      ≡ true

module _ (eth : AxelarPackages) (command : Bytes) (named : eth.hash_hex command ≢ "") where
  abbrev command_key : CorrelationKey
  command_key = record {
    protocol = "axelar";
    message_id = eth.hash_hex command;
    nonce = 0;
    sender = "";
    src_chain_id = 0;
  }

  execution_normalized :
      (later here : ℕ) (log : AxelarLog) (fields : Fields)
      → fields "command_id" ≡ eth.hash_hex command
      → normalize later (some (axelar_event executed log here fields))
        ≡ ok (
            correlation command_key no_status
              (destination_of (axelar_event executed log here fields) ""))
  unfolding normalize normalize_axelar_executed
  execution_normalized later here log fields id =
      simp (id, str_ne (eth.hash_hex command) "" named) refl

  -- The message that an approval makes.
  abbrev approved_message : ℕ → RawEvent → Normalized
  approved_message now e =
      new_message now e (eth.hash_hex command) contract_call
        (record {
          chain_id = value_of (parse_uint (e.fields "src_chain_id"));
          tx_hash = e.fields "source_tx_hash";
          block_number = e.block_number;
          timestamp = e.timestamp;
          sender = e.fields "source_address";
          log_index = e.log_index;
        })
        no_payload

  approval_normalized :
      (now here : ℕ) (log : AxelarLog) (fields : Fields)
      → fields "command_id" ≡ eth.hash_hex command
      → normalize now (some (axelar_event contract_call_approved log here fields))
        ≡ ok (approved_message now (axelar_event contract_call_approved log here fields))
  unfolding normalize normalize_axelar_contract_call_approved
  approval_normalized now here log fields id =
      simp (id, str_ne (eth.hash_hex command) "" named) refl

  approval_matches :
      (now : ℕ) (e : RawEvent) (src : Source)
      → e.protocol ≡ "axelar"
      → matches command_key
          (eth.hash_hex command)
          (message_row (approved_message now e).message)
          src
          (payload_row no_payload)
        ≡ true
  unfolding matches
  approval_matches now e src protocol = ground (
    arith,
    named,
    eq_iff (eth.hash_hex command) "",
    eq_refl (eth.hash_hex command),
    eq_iff e.protocol "axelar",
  )

  -- The log that approves a command and the log that executes it decode and normalize, and the key of
  -- the execution matches the message of the approval, as it is stored. The text of the command is
  -- not empty.
  pub executed_command_matches :
      (now later here : ℕ) (approved ran : AxelarLog) (a : ApprovalData)
      → IsApproval eth command a approved
      → IsExecution eth command ran
      → CommandMatch eth now later here approved ran
  unfolding decode_axelar decode_axelar_topics decode_axelar_event axelar_fields
      decode_contract_call_approved approval_fields approval_topics decode_executed
  executed_command_matches now later here approved ran a is_approval is_execution =
      let fields = approval_fields eth approved.topics a in
      let command_of : fields "command_id" ≡ eth.hash_hex command = simp is_approval.topics refl in
      let run_fields = decode_executed eth ran.topics in
      let run_of : run_fields "command_id" ≡ eth.hash_hex command = simp is_execution.topics refl in
      let e = axelar_event contract_call_approved approved here fields in
      record {
        approval = e;
        execution = axelar_event executed ran here run_fields;
        created = approved_message now e;
        update =
            correlation command_key no_status
              (destination_of (axelar_event executed ran here run_fields) "");
        payload = no_payload;
        key = command_key;
        decodes_approval = simp (is_approval.topics, is_approval.known, is_approval.unpacked) refl;
        decodes_execution = simp (is_execution.topics, is_execution.known) refl;
        creates = approval_normalized now here approved fields command_of;
        updates = execution_normalized later here ran run_fields run_of;
        has_payload = refl;
        has_key = refl;
        matched = approval_matches now e _ refl;
      }
