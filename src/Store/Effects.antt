-- ===== src/Store/Effects.antt =====
-- The two transactions of the store as one change of the tables, or none.
use akave_crosschain_archive.Base.{
  ℕ, String, true, none, some, ◌≡◌, ◌≢◌, refl, arith, if◌then◌else◌, Result, ok, err,
}
use akave_crosschain_archive.Base.Int.{is_positive}
use akave_crosschain_archive.Base.Table.{lookup, upsert, update}
use akave_crosschain_archive.Database.{
  Db, Faults, MessageRow, message_row, merge_message, payload_row, merge_payload, is_status,
  insert_message, insert_source, insert_payload, insert_metadata, insert_destination, set_status,
  set_latency, transaction, no_faults,
}
use akave_crosschain_archive.Store.{upsert_in_tx, upsert_message, update_in_tx, update_destination}
use akave_crosschain_archive.Types.{MessageStatus, Destination, Message, Payload, Metadata}

-- The tables behind a committed upsert of a message with a payload and metadata.
abbrev pub stored : Message → Payload → Metadata → Db → Db
stored m p md db = record db {
  messages = upsert m.message_id (message_row m) (merge_message m) db.messages;
  sources = upsert m.message_id m.source (λ old. old) db.sources;
  payloads = upsert m.message_id (payload_row p) (merge_payload p) db.payloads;
  metadata = upsert m.message_id md (λ old. old) db.metadata;
}

-- The tables behind a committed update of the destination.
abbrev pub settled : ℕ → String → Destination → MessageStatus → Db → Db
settled now id dest set db = record db {
  messages = update id (λ row. record row { status = set; updated_at = now }) db.messages;
  destinations = upsert id dest (λ _. dest) db.destinations;
  metadata = (if is_positive dest.timestamp then set_latency id dest.timestamp db else db).metadata;
}

-- All or nothing: the tables are `after` when there is no error, and `before` when there is one.
abbrev pub Atomic : Db → Db → Db → Result (Unit {0}) → Type 0
Atomic before after now (ok _) = now ≡ after
Atomic before after now (err _) = now ≡ before

transaction-Atomic :
    (db after : Db) (r : Result Db)
    → ((x : Db) → r ≡ ok x → x ≡ after)
    → Atomic db after (transaction db r).0 (transaction db r).1
transaction-Atomic db after (ok x) h = h x refl
transaction-Atomic db after (err e) h = refl

upsert_in_tx_ok :
    (f : Faults) (m : Message) (db : Db) (p : Payload) (md : Metadata) (x : Db)
    → m.payload ≡ some p
    → m.metadata ≡ some md
    → upsert_in_tx f m db ≡ ok x
    → x ≡ stored m p md db
unfolding upsert_in_tx insert_message insert_source insert_payload insert_metadata
upsert_in_tx_ok f m db p md x hp hm h = ground arith

update_in_tx_ok :
    (f : Faults) (now : ℕ) (id : String) (dest : Destination) (set : MessageStatus) (db x : Db)
    → update_in_tx f now id dest set db ≡ ok x
    → (x ≡ settled now id dest set db) × (lookup id db.messages ≢ none) × (is_status set ≡ true)
unfolding update_in_tx insert_destination set_status set_latency
update_in_tx_ok f now id dest set db x h = ground arith

-- An upsert of a message with payload and metadata leaves these tables, or reports an error and
-- changes nothing.
pub upsert-Atomic :
    (f : Faults) (m : Message) (db : Db) (p : Payload) (md : Metadata)
    → m.payload ≡ some p
    → m.metadata ≡ some md
    → Atomic db (stored m p md db) (upsert_message f m db).0 (upsert_message f m db).1
unfolding upsert_message
upsert-Atomic f m db p md hp hm =
    transaction-Atomic db _ _ (λ x. upsert_in_tx_ok f m db p md x hp hm)

-- An update writes the destination, the status and the latency together, or reports an error and
-- changes nothing.
pub update-Atomic :
    (f : Faults) (now : ℕ) (id : String) (dest : Destination) (set : MessageStatus) (db : Db)
    → Atomic db
        (settled now id dest set db)
        (update_destination f now id dest set db).0
        (update_destination f now id dest set db).1
unfolding update_destination
update-Atomic f now id dest set db =
    transaction-Atomic db _ _ (λ x h. (update_in_tx_ok f now id dest set db x h).0)

-- What holds of the old tables, and of the tables behind a commit, holds behind every transaction.
pub Atomic_rule :
    (P : Db → Type 0) (before after now : Db) (r : Result (Unit {0}))
    → Atomic before after now r
    → P before
    → P after
    → P now
Atomic_rule P before after now (ok _) e b a = rw e a
Atomic_rule P before after now (err _) e b a = rw e b

-- With no faults, an update of a message that is there succeeds.
pub update_succeeds :
    (now : ℕ) (id : String) (dest : Destination) (set : MessageStatus) (db : Db) (row : MessageRow)
    → lookup id db.messages ≡ some row
    → is_status set ≡ true
    → update_destination no_faults now id dest set db ≡ (settled now id dest set db, ok tt)
unfolding update_destination update_in_tx insert_destination set_status set_latency
update_succeeds now id dest set db row h k = ground arith
