-- ===== src/Correlator/Execution.antt =====
-- CCIP: the sending of a message and a final state of its execution, from their logs to the match in
-- the store.
use akave_crosschain_archive.Base.{
  ℕ, ◌%◌, ◌<◌, ◌^◌, ◌≡◌, ◌≢◌, refl, true, some, List, ◌∷◌, arith, eq_iff, eq_refl, str_ne, ok,
}
use akave_crosschain_archive.Base.Bytes.{Bytes, big_endian}
use akave_crosschain_archive.Base.Decimal.{print_uint}
use akave_crosschain_archive.Database.{PayloadRow, message_row, payload_row}
use akave_crosschain_archive.Decoder.Ccip.Sent.{
  sent_from, sent_from-lt, sent_id, sent_sender, sent_nonce, sent_chain,
}
use akave_crosschain_archive.Decoder.Ccip.{
  SentMessage, Argument, struct_value, uint8_value, CcipPackages, CcipLog, send_requested,
  execution_state_changed, ccip_event, sent_fields, sent_message, decode_send_requested,
  state_fields, state_topics, decode_execution_state_changed, ccip_fields, decode_ccip_event,
  decode_ccip_topics, decode_ccip, state_name, bytes_text, bytes_of,
}
use akave_crosschain_archive.Decoder.{RawEvent, Fields, no_fields, put}
use akave_crosschain_archive.Normalizer.{
  CorrelationKey, Normalized, normalize, normalize_ccip_send_requested,
  normalize_ccip_execution_state_changed, ccip_status, correlation, destination_of, new_message,
  ccip_message_type, source_of,
}
use akave_crosschain_archive.Normalizer.Numbers.{parse_uint64-print_uint, print_uint_named}
use akave_crosschain_archive.Store.{matches}
use akave_crosschain_archive.Types.{MessageStatus, Payload, Source, no_metadata}

-- The log that sends a message, and a log that states an outcome for its identifier.
pub record IsSending (eth : CcipPackages) (m : SentMessage) (log : CcipLog) : Type 0 where
  pub topic : Bytes
  pub more : List Bytes
  pub topics : log.topics ≡ topic ∷ more
  pub known : eth.event_of topic ≡ some send_requested
  pub others : List Argument
  pub unpacked : eth.unpack_sent log.content ≡ ok (struct_value m ∷ others)

pub record IsOutcomeLog (eth : CcipPackages) (id : Bytes) (state : ℕ) (log : CcipLog) : Type 0 where
  pub topic : Bytes
  pub sequence : Bytes
  pub more : List Bytes
  pub topics : log.topics ≡ topic ∷ sequence ∷ id ∷ more
  pub known : eth.event_of topic ≡ some execution_state_changed
  pub returned : Argument
  pub others : List Argument
  pub unpacked : eth.unpack_state_changed log.content ≡ ok (uint8_value state ∷ returned ∷ others)

-- The parts of a message that the normalizer needs, and their sizes.
pub record IsComplete (eth : CcipPackages) (id : Bytes) (m : SentMessage) : Type 0 where
  pub sender : Bytes
  pub nonce : ℕ
  pub has_id : m.message_id ≡ some id
  pub has_sender : m.sender ≡ some sender
  pub has_nonce : m.nonce ≡ some nonce
  pub small : nonce < 2 ^ 64
  pub named : eth.hash_hex id ≢ ""
  pub sender_named : eth.address_hex sender ≢ ""

-- Both logs decode and normalize, and the key of the second matches the message of the first.
pub record OutcomeMatch (eth : CcipPackages) (now later here there : ℕ) (sent ended : CcipLog)
    (final : MessageStatus) : Type 0 where
  pub sending : RawEvent
  pub outcome : RawEvent
  pub created : Normalized
  pub update : Normalized
  pub payload : Payload
  pub key : CorrelationKey
  pub decodes_sending : decode_ccip eth sent here ≡ ok sending
  pub decodes_outcome : decode_ccip eth ended there ≡ ok outcome
  pub creates : normalize now (some sending) ≡ ok created
  pub updates : normalize later (some outcome) ≡ ok update
  pub has_payload : created.message.payload ≡ some payload
  pub has_key : update.correlation_key ≡ some key
  pub has_status : update.message.status ≡ final
  pub matched :
      matches key created.message.message_id
        (message_row created.message)
        created.message.source
        (payload_row payload)
      ≡ true

module _ (eth : CcipPackages) (id : Bytes) where
  abbrev execution_key : CorrelationKey
  execution_key = record {
    protocol = "ccip";
    message_id = eth.hash_hex id;
    nonce = 0;
    sender = "";
    src_chain_id = 0;
  }

  -- The fields of an outcome.
  abbrev outcome_fields : Bytes → ℕ → Argument → Fields
  outcome_fields sequence state returned =
      let d₁ = put no_fields "sequence_number" (print_uint (big_endian sequence % 2 ^ 64)) in
      let d₂ = put d₁ "message_id" (eth.hash_hex id) in
      let d₃ = put d₂ "state" (print_uint state) in
      let d₄ = put d₃ "state_name" (state_name state) in
      put d₄ "return_data" (bytes_text (bytes_of returned))

  outcome_normalized :
      (later there state : ℕ) (final : MessageStatus) (log : CcipLog) (fields : Fields)
      → eth.hash_hex id ≢ ""
      → state < 2 ^ 64
      → ccip_status state ≡ ok final
      → fields "message_id" ≡ eth.hash_hex id
      → fields "state" ≡ print_uint state
      → normalize later (some (ccip_event execution_state_changed log there fields))
        ≡ ok (
            correlation execution_key final
              (destination_of (ccip_event execution_state_changed log there fields) ""))
  unfolding normalize normalize_ccip_execution_state_changed
  outcome_normalized later there state final log fields named small is_final has_id has_state =
      simp
        (
          has_id,
          has_state,
          str_ne (eth.hash_hex id) "" named,
          print_uint_named state small,
          parse_uint64-print_uint state small,
          is_final,
        )
        refl

  -- The message that a sending makes.
  abbrev sent_created : ℕ → RawEvent → ℕ → ℕ → Normalized
  sent_created now e src nonce =
      let created =
        new_message now e (e.fields "message_id") (ccip_message_type (e.fields "token_count"))
          (record (source_of e (e.fields "sender")) { chain_id = src })
          (record {
            token = e.fields "token";
            amount = e.fields "amount";
            content = e.fields "data";
            nonce = nonce;
          }) in
      record created {
        message = record (created.message) {
          metadata = some (record no_metadata { fee = e.fields "fee_token_amount" });
        };
      }

  module _ (m : SentMessage) (complete : IsComplete eth id m) (here : ℕ)
      (small : here < 2 ^ 64) where
    abbrev sent_event : CcipLog → RawEvent
    sent_event log = ccip_event send_requested log here (sent_fields eth here m)

    sending_normalized :
        (now : ℕ) (log : CcipLog)
        → normalize now (some (sent_event log))
          ≡ ok (
              sent_created now
                (sent_event log)
                (sent_from here m.source_chain_selector)
                complete.nonce)
    unfolding normalize normalize_ccip_send_requested
    sending_normalized now log =
        let id_is = sent_id eth here m id complete.has_id in
        let sender_is = sent_sender eth here m complete.sender complete.has_sender in
        let nonce_is = sent_nonce eth here m complete.nonce complete.has_nonce in
        simp
          (
            id_is,
            sender_is,
            nonce_is,
            sent_chain eth here m,
            str_ne (eth.hash_hex id) "" complete.named,
            str_ne (eth.address_hex complete.sender) "" complete.sender_named,
            parse_uint64-print_uint (sent_from here m.source_chain_selector)
                (sent_from-lt here m.source_chain_selector small),
            parse_uint64-print_uint complete.nonce complete.small,
          )
          refl

    sending_matches :
        (now src nonce : ℕ) (e : RawEvent) (from : Source) (pay : PayloadRow)
        → e.protocol ≡ "ccip"
        → e.fields "message_id" ≡ eth.hash_hex id
        → matches execution_key
            (e.fields "message_id")
            (message_row (sent_created now e src nonce).message)
            from
            pay
          ≡ true
    unfolding matches
    sending_matches now src nonce e from pay protocol id_is = ground (
      arith,
      complete.named,
      eq_iff (eth.hash_hex id) "",
      eq_refl (eth.hash_hex id),
      eq_iff (e.fields "message_id") (eth.hash_hex id),
      eq_iff e.protocol "ccip",
    )

    -- The log that sends a message and a log that states a final outcome for its identifier decode
    -- and normalize, and the key of the outcome matches the message of the sending, as it is stored,
    -- and brings its status. The message has an identifier, a sender and a nonce below 2^64, and the
    -- chain identifier is below 2^64.
    pub outcome_matches :
        (now later there state : ℕ) (final : MessageStatus) (sent ended : CcipLog)
        → IsSending eth m sent
        → IsOutcomeLog eth id state ended
        → state < 2 ^ 64
        → ccip_status state ≡ ok final
        → OutcomeMatch eth now later here there sent ended final
    unfolding decode_ccip decode_ccip_topics decode_ccip_event ccip_fields decode_send_requested
        sent_message decode_execution_state_changed state_topics state_fields
    outcome_matches now later there state final sent ended is_sending is_outcome fits is_final =
        let id_is = sent_id eth here m id complete.has_id in
        let fields = outcome_fields is_outcome.sequence state is_outcome.returned in
        let outcome = ccip_event execution_state_changed ended there fields in
        let src = sent_from here m.source_chain_selector in
        record {
          sending = sent_event sent;
          outcome = outcome;
          created = sent_created now (sent_event sent) src complete.nonce;
          update = correlation execution_key final (destination_of outcome "");
          payload = _;
          key = execution_key;
          decodes_sending = simp (is_sending.topics, is_sending.known, is_sending.unpacked) refl;
          decodes_outcome = simp (is_outcome.topics, is_outcome.known, is_outcome.unpacked) refl;
          creates = sending_normalized now sent;
          updates =
              outcome_normalized later there state final ended fields complete.named fits is_final
                refl refl;
          has_payload = refl;
          has_key = refl;
          has_status = refl;
          matched = sending_matches now src complete.nonce (sent_event sent) _ _ refl id_is;
        }
