-- ===== src/Correlator/Keys.antt =====
-- The messages keep their primary key.
use akave_crosschain_archive.Base.{ℕ}
use akave_crosschain_archive.Base.Table.{IsKeyed, upsert-IsKeyed, update-IsKeyed}
use akave_crosschain_archive.Correlator.{postgres, process}
use akave_crosschain_archive.Correlator.Consistency.{Reachable, start, next}
use akave_crosschain_archive.Correlator.Postgres.{postgres_rule}
use akave_crosschain_archive.Database.{Db, Faults}
use akave_crosschain_archive.Decoder.{RawEvent}

process-IsKeyed :
    (f : Faults) (clock now : ℕ) (e : RawEvent) (db : Db)
    → IsKeyed db.messages
    → IsKeyed (process (postgres f clock) now e db).0.messages
process-IsKeyed f clock now e =
    postgres_rule f clock now e (λ a b. IsKeyed a.messages → IsKeyed b.messages) (λ _ h. h)
      (λ n p md d _ _ _ h. upsert-IsKeyed n.message.message_id _ _ d.messages h)
      (λ id dest set d row _ _ _ h. update-IsKeyed id _ d.messages h)

pub Reachable-IsKeyed : {db : Db} → Reachable db → IsKeyed db.messages
Reachable-IsKeyed start = tt
Reachable-IsKeyed (next {db} f clock now e r) =
    process-IsKeyed f clock now e db (Reachable-IsKeyed r)
