-- ===== src/Correlator.antt =====
-- Matching of events to messages, of internal/correlator/correlator.go, over any message store.
pub mod Complete
pub mod Consistency
pub mod Frozen
pub mod Lifecycle
pub mod Wormhole
pub mod Delivery
pub mod Approval
pub mod Execution
pub mod Keys
pub mod Postgres
pub mod Rule
use akave_crosschain_archive.Base.{
  ℕ, String, Bool, true, false, Option, none, some, if◌then◌else◌, Result, ok, err, failure,
  context,
}
use akave_crosschain_archive.Database.{Db, Faults}
use akave_crosschain_archive.Decoder.{RawEvent}
use akave_crosschain_archive.Normalizer.{CorrelationKey, Normalized, normalize}
use akave_crosschain_archive.Store
use akave_crosschain_archive.Types.{MessageStatus, no_status, executed, Destination, Message}

-- `MessageStore`: each operation is one transaction on the state `S`.
pub record MessageStore {ℓ} (S : Type ℓ) : Type ℓ where
  pub upsert_message : Message → S → S × Result (Unit {0})
  pub find_by_correlation_key : CorrelationKey → S → Result (Option Message)
  pub update_destination : String → Destination → MessageStatus → S → S × Result (Unit {0})

-- `PostgresMessageStore`; `now` is the NOW() of the server.
abbrev pub postgres : Faults → ℕ → MessageStore Db
postgres f now = record {
  upsert_message = Store.upsert_message f;
  find_by_correlation_key = Store.find_by_correlation_key f;
  update_destination = Store.update_destination f now;
}

-- The status of the event if it has one, otherwise executed.
abbrev pub default_status : MessageStatus → MessageStatus
default_status no_status = executed
default_status status = status

module _ {ℓ} {S : Type ℓ} (store : MessageStore S) where
  -- The end of `correlate`. A nil destination, which the source would follow, stops here with an
  -- error; no normalized correlation has one.
  unfoldable pub update_existing :
      Message → MessageStatus → Option Destination → S → S × Result (Unit {0})
  update_existing existing _ none s = (s, err (failure "nil destination"))
  update_existing existing set (some dest) s =
      let (s', r) = store.update_destination existing.message_id dest (default_status set) s in
      (s', context "updating destination for message" r)

  unfoldable pub correlate_found : Normalized → Result (Option Message) → S → S × Result (Unit {0})
  correlate_found n (err e) s = (s, err e)
  correlate_found n (ok none) s = (s, ok tt)
  correlate_found n (ok (some existing)) s =
      update_existing existing n.message.status n.message.destination s

  -- `correlate`; the nil key is as the nil destination above.
  unfoldable pub correlate_with : Normalized → Option CorrelationKey → S → S × Result (Unit {0})
  correlate_with n none s = (s, err (failure "nil correlation key"))
  correlate_with n (some key) s =
      correlate_found n
        (context "finding message for correlation" (store.find_by_correlation_key key s)) s

  unfoldable pub process_normalized : Result Normalized → S → S × Result (Unit {0})
  process_normalized (err e) s = (s, err e)
  process_normalized (ok n) s =
      if n.is_correlation
      then correlate_with n n.correlation_key s
      else store.upsert_message n.message s

  -- `Process`
  unfoldable pub process : ℕ → RawEvent → S → S × Result (Unit {0})
  process now e s = process_normalized (context "normalizing event" (normalize now (some e))) s
