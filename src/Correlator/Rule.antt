-- ===== src/Correlator/Rule.antt =====
-- What one event does to a store: nothing, an upsert of a new pending message, or an update of a
-- message that the store found, to a final status.
use akave_crosschain_archive.Base.{
  ℕ, Option, none, some, ◌≡◌, ◌≢◌, refl, inl, inr, arith, Result, ok, err, context, context-eq-ok,
  Option-cases, Result-cases,
}
use akave_crosschain_archive.Correlator.{
  MessageStore, default_status, update_existing, correlate_found, correlate_with,
  process_normalized, process,
}
use akave_crosschain_archive.Decoder.{RawEvent}
use akave_crosschain_archive.Normalizer.{CorrelationKey, Normalized, normalize}
use akave_crosschain_archive.Normalizer.Shape.{normalize_cases, KeyOf}
use akave_crosschain_archive.Normalizer.Sending.{IsNew}
use akave_crosschain_archive.Types.{MessageStatus, no_status, pending, Destination, Message}

-- A final status: what an update may set.
pub record IsFinal (status : MessageStatus) : Type 0 where
  pub not_empty : status ≢ no_status
  pub not_pending : status ≢ pending

default_status-IsFinal : (s : MessageStatus) → s ≢ pending → IsFinal (default_status s)
default_status-IsFinal s h = ground arith

module _ {S : Type 0} (store : MessageStore S) (R : S → S → Type 0) (same : (s : S) → R s s)
    (now : ℕ) (e : RawEvent)
    (upserted : (n : Normalized) (s : S)
      → normalize now (some e) ≡ ok n
      → IsNew now e.event_type e n
      → R s (store.upsert_message n.message s).0)
    (updated : (key : CorrelationKey) (m : Message) (d : Destination) (status : MessageStatus)
        (s : S)
      → store.find_by_correlation_key key s ≡ ok (some m)
      → IsFinal status
      → R s (store.update_destination m.message_id d status s).0) where
  found_rule :
      (key : CorrelationKey) (n : Normalized) (r : Result (Option Message)) (s : S)
      → context "finding message for correlation" (store.find_by_correlation_key key s) ≡ r
      → n.message.status ≢ pending
      → R s (correlate_found store n r s).0
  unfolding correlate_found update_existing
  found_rule key n (err x) s e h = same s
  found_rule key n (ok none) s e h = same s
  found_rule key n (ok (some m)) s e h = elim (Option-cases n.message.destination) [
    | inl no_place ↦ rw no_place (same s)
    | inr (d, place) ↦ rw place (
        updated key m d (default_status n.message.status) s (context-eq-ok _ _ e)
          (default_status-IsFinal n.message.status h))
  ]

  update_rule :
      (n : Normalized) (o : Option CorrelationKey) (s : S)
      → KeyOf e o
      → n.message.status ≢ pending
      → R s (correlate_with store n o s).0
  unfolding correlate_with
  update_rule n none s k h = absurd k
  update_rule n (some key) s k h = found_rule key n _ s refl h

  -- Whatever relation these steps keep, the processing of the event keeps.
  pub process_rule : (s : S) → R s (process store now e s).0
  unfolding process process_normalized
  process_rule s = elim (Result-cases (normalize now (some e))) [
    | inr (x, refused) ↦ rw refused (same s)
    | inl (n, done) ↦ elim (normalize_cases now e n done) [
      | inl (_, new) ↦ rw done (simp new.flag (upserted n s done new))
      | inr (_, update) ↦
          rw done (simp update.flag (update_rule n n.correlation_key s update.key update.status))
    ]
  ]
