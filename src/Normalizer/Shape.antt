-- ===== src/Normalizer/Shape.antt =====
-- What a successful normalization returns.
use akave_crosschain_archive.Base.{
  ℕ, String, Bool, true, false, ◌||◌, Option, none, some, ◌≡◌, ◌≢◌, ◌⊎◌, inl, inr, refl, sym, subst,
  arith, str_eq, eq_iff, Result, ok, if◌then◌else◌, if_rule,
}
use akave_crosschain_archive.Decoder.{RawEvent}
use akave_crosschain_archive.Normalizer.{
  CorrelationKey, Normalized, normalize_packet_received, normalize_axelar_executed,
  normalize_transfer_redeemed, normalize_ccip_execution_state_changed, ccip_status, normalize_event,
  normalize,
}
use akave_crosschain_archive.Normalizer.Sending.{
  IsNew, packet_sent-IsNew, oft_sent-IsNew, contract_call-IsNew, contract_call_approved-IsNew,
  log_message_published-IsNew, ccip_send_requested-IsNew,
}
use akave_crosschain_archive.Types.{pending, Destination}

-- The events that are seen on the chain that receives.
unfoldable pub is_destination_event : String → Bool
is_destination_event t =
    str_eq t "PacketReceived"
    || str_eq t "Executed"
    || str_eq t "ExecutionStateChanged"
    || str_eq t "TransferRedeemed"

-- A key by which a message can be found.
abbrev pub KeyOf : RawEvent → Option CorrelationKey → Type 0
KeyOf e none = ⊥
KeyOf e (some k) = (k.protocol ≡ e.protocol) × ((k.message_id ≢ "") ⊎ (k.sender ≢ ""))

-- The place where the event was seen.
abbrev pub PlaceOf : RawEvent → Option Destination → Type 0
PlaceOf e none = ⊥
PlaceOf e (some d) =
    (d.chain_id ≡ e.chain_id)
    × (d.tx_hash ≡ e.tx_hash)
    × (d.block_number ≡ e.block_number)
    × (d.timestamp ≡ e.timestamp)
    × (d.log_index ≡ e.log_index)

-- An update of an existing message: never back to pending.
pub record IsUpdate (e : RawEvent) (n : Normalized) : Type 0 where
  pub flag : n.is_correlation ≡ true
  pub key : KeyOf e n.correlation_key
  pub status : n.message.status ≢ pending
  pub place : PlaceOf e n.message.destination

module _ (e : RawEvent) (n : Normalized) where
  packet_received-IsUpdate : normalize_packet_received e ≡ ok n → IsUpdate e n
  unfolding normalize_packet_received
  packet_received-IsUpdate h = ground (arith, eq_iff (e.fields "sender") "")

  executed-IsUpdate : normalize_axelar_executed e ≡ ok n → IsUpdate e n
  unfolding normalize_axelar_executed
  executed-IsUpdate h = ground (arith, eq_iff (e.fields "command_id") "")

  transfer_redeemed-IsUpdate : normalize_transfer_redeemed e ≡ ok n → IsUpdate e n
  unfolding normalize_transfer_redeemed
  transfer_redeemed-IsUpdate h = ground (arith, eq_iff (e.fields "sender") "")

  execution_state_changed-IsUpdate : normalize_ccip_execution_state_changed e ≡ ok n → IsUpdate e n
  unfolding normalize_ccip_execution_state_changed ccip_status
  execution_state_changed-IsUpdate h = ground (arith, eq_iff (e.fields "message_id") "")

kind_of :
    (t name : String) (b : Bool)
    → is_destination_event name ≡ b
    → str_eq t name ≡ true
    → is_destination_event t ≡ b
kind_of t name b known same = rw ((eq_iff t name).0 same) known

-- One case of the switch on the event type.
module _ (now : ℕ) (e : RawEvent) (n : Normalized) where
  abbrev Normal : Result Normalized → Type 0
  Normal r =
      r ≡ ok n
      → ((is_destination_event e.event_type ≡ false) × IsNew now e.event_type e n)
        ⊎ ((is_destination_event e.event_type ≡ true) × IsUpdate e n)

  source_case :
      (name : String) {here others : Result Normalized}
      → is_destination_event name ≡ false
      → (here ≡ ok n → IsNew now name e n)
      → Normal others
      → Normal (if str_eq e.event_type name then here else others)
  source_case name known new more =
      if_rule Normal (str_eq e.event_type name)
        (λ same h. inl (
          kind_of e.event_type name false known same,
          subst (λ t. IsNew now t e n) (sym ((eq_iff e.event_type name).0 same)) (new h),
        ))
        (λ differs. more)

  destination_case :
      (name : String) {here others : Result Normalized}
      → is_destination_event name ≡ true
      → (here ≡ ok n → IsUpdate e n)
      → Normal others
      → Normal (if str_eq e.event_type name then here else others)
  destination_case name known update more =
      if_rule Normal (str_eq e.event_type name)
        (λ same h. inr (kind_of e.event_type name true known same, update h)) (λ differs. more)

  pub normalize_cases : Normal (normalize now (some e))
  unfolding normalize normalize_event is_destination_event
  normalize_cases =
      (source_case "PacketSent" refl (packet_sent-IsNew now e n) (
        destination_case "PacketReceived" refl (packet_received-IsUpdate e n) (
          source_case "OFTSent" refl (oft_sent-IsNew now e n) (
            source_case "ContractCall" refl (contract_call-IsNew now e n) (
              source_case "ContractCallApproved" refl (contract_call_approved-IsNew now e n) (
                destination_case "Executed" refl (executed-IsUpdate e n) (
                  source_case "CCIPSendRequested" refl (ccip_send_requested-IsNew now e n) (
                    destination_case "ExecutionStateChanged" refl
                      (execution_state_changed-IsUpdate e n)
                      (source_case "LogMessagePublished" refl (log_message_published-IsNew now e n)
                        (destination_case "TransferRedeemed" refl (transfer_redeemed-IsUpdate e n)
                          (λ h. absurd (ground arith))))))))))))

-- What the kind of an event promises of its normalization.
abbrev pub ShapeOf : Bool → ℕ → RawEvent → Normalized → Type 0
ShapeOf false now e n = IsNew now e.event_type e n
ShapeOf true now e n = IsUpdate e n
