-- ===== src/Correlator/Postgres.antt =====
-- The rule of `Correlator.Rule` for the PostgreSQL store, with any faults of the database.
use akave_crosschain_archive.Base.{ℕ, String, some, ◌≡◌, inl, inr, ok, Option-cases}
use akave_crosschain_archive.Base.Table.{lookup}
use akave_crosschain_archive.Correlator.{postgres, process}
use akave_crosschain_archive.Correlator.Rule.{IsFinal, process_rule}
use akave_crosschain_archive.Database.{Db, Faults, MessageRow}
use akave_crosschain_archive.Decoder.{RawEvent}
use akave_crosschain_archive.Normalizer.{CorrelationKey, Normalized, normalize}
use akave_crosschain_archive.Normalizer.Sending.{IsNew}
use akave_crosschain_archive.Store.Effects.{
  stored, settled, upsert-Atomic, update-Atomic, Atomic_rule,
}
use akave_crosschain_archive.Store.Find.{find-IsMatch, matches-is_pending}
use akave_crosschain_archive.Store.{upsert_message, update_destination, find_by_correlation_key}
use akave_crosschain_archive.Types.{MessageStatus, pending, Destination, Message, Payload, Metadata}

module _ (f : Faults) (clock now : ℕ) (e : RawEvent) (R : Db → Db → Type 0)
    (same : (db : Db) → R db db)
    (on_stored : (n : Normalized) (p : Payload) (md : Metadata) (db : Db)
      → normalize now (some e) ≡ ok n
      → IsNew now e.event_type e n
      → n.message.payload ≡ some p
      → R db (stored n.message p md db))
    (on_settled : (id : String) (dest : Destination) (set : MessageStatus) (db : Db)
        (row : MessageRow)
      → lookup id db.messages ≡ some row
      → row.status ≡ pending
      → IsFinal set
      → R db (settled clock id dest set db)) where
  upserted :
      (n : Normalized) (db : Db)
      → normalize now (some e) ≡ ok n
      → IsNew now e.event_type e n
      → R db (upsert_message f n.message db).0
  upserted n db done new = elim (Option-cases n.message.payload) [
    | inl x ↦ absurd (new.payload x)
    | inr (p, hp) ↦ elim (Option-cases n.message.metadata) [
      | inl x ↦ absurd (new.metadata x)
      | inr (md, hm) ↦
          Atomic_rule (R db) db _ _ _ (upsert-Atomic f n.message db p md hp hm) (same db)
            (on_stored n p md db done new hp)
    ]
  ]

  updated :
      (key : CorrelationKey) (m : Message) (d : Destination) (set : MessageStatus) (db : Db)
      → find_by_correlation_key f key db ≡ ok (some m)
      → IsFinal set
      → R db (update_destination f clock m.message_id d set db).0
  updated key m d set db found final =
      let hit = find-IsMatch f key db m found in
      Atomic_rule (R db) db _ _ _ (update-Atomic f clock m.message_id d set db) (same db) (
        on_settled m.message_id d set db hit.row hit.has_row
          (matches-is_pending key m.message_id hit.row hit.source hit.payload hit.matched) final)

  pub postgres_rule : (db : Db) → R db (process (postgres f clock) now e db).0
  postgres_rule = process_rule (postgres f clock) R same now e upserted updated
