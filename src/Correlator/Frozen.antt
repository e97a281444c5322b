-- ===== src/Correlator/Frozen.antt =====
-- What no later event changes: the source of a message, and the destination of a settled one.
use akave_crosschain_archive.Base.{ℕ, String, some, ◌≡◌, ◌≢◌, refl, arith, eq_iff}
use akave_crosschain_archive.Base.Table.{lookup, lookup-upsert}
use akave_crosschain_archive.Correlator.{postgres, process}
use akave_crosschain_archive.Correlator.Postgres.{postgres_rule}
use akave_crosschain_archive.Database.{Db, Faults, MessageRow}
use akave_crosschain_archive.Decoder.{RawEvent}
use akave_crosschain_archive.Store.Effects.{stored, settled}
use akave_crosschain_archive.Types.{
  MessageStatus, pending, Source, Destination, Message, Payload, Metadata,
}

pub record IsKept (k : String) (a b : Db) : Type 0 where
  pub source : (s : Source) → lookup k a.sources ≡ some s → lookup k b.sources ≡ some s
  pub destination :
      (row : MessageRow)
      → lookup k a.messages ≡ some row
      → row.status ≢ pending
      → lookup k b.destinations ≡ lookup k a.destinations

stored-IsKept :
    (k : String) (m : Message) (p : Payload) (md : Metadata) (db : Db)
    → IsKept k db (stored m p md db)
stored-IsKept k m p md db = record {
  source = λ s h. simp lookup-upsert (ground (arith, eq_iff m.message_id k));
  destination = λ row h n. refl;
}

settled-IsKept :
    (clock : ℕ) (k id : String) (dest : Destination) (set : MessageStatus) (db : Db)
    (row : MessageRow)
    → lookup id db.messages ≡ some row
    → row.status ≡ pending
    → IsKept k db (settled clock id dest set db)
settled-IsKept clock k id dest set db row hit was = record {
  source = λ s h. h;
  destination = λ r h n. simp lookup-upsert (ground (arith, eq_iff id k));
}

-- Whatever an event holds and whatever the database fails at, the source of a message that the
-- tables hold stays the same, and so does the destination of a message that is no longer pending.
pub process-IsKept :
    (f : Faults) (clock now : ℕ) (e : RawEvent) (db : Db) (k : String)
    → IsKept k db (process (postgres f clock) now e db).0
process-IsKept f clock now e db k =
    postgres_rule f clock now e (IsKept k)
      (λ d. record { source = λ s h. h; destination = λ r h n. refl })
      (λ n p md d _ new _. stored-IsKept k n.message p md d)
      (λ id dest set d row hit was final. settled-IsKept clock k id dest set d row hit was) db
