-- ===== src/Correlator/Consistency.antt =====
-- The five tables stay in step, whatever events are processed and whatever the database fails at.
use akave_crosschain_archive.Base.{
  ℕ, String, Bool, true, false, not, Option, none, some, ◌≡◌, refl, arith, eq_iff, inl, inr,
  Option-cases, Bool-cases,
}
use akave_crosschain_archive.Base.Table.{lookup, lookup-update, table_laws}
use akave_crosschain_archive.Base.Int.{ℤ, is_positive}
use akave_crosschain_archive.Correlator.{postgres, process}
use akave_crosschain_archive.Correlator.Rule.{IsFinal}
use akave_crosschain_archive.Correlator.Postgres.{postgres_rule}
use akave_crosschain_archive.Database.{Db, Faults, MessageRow, empty, is_pending, set_latency}
use akave_crosschain_archive.Decoder.{RawEvent}
use akave_crosschain_archive.Store.Effects.{stored, settled}
use akave_crosschain_archive.Types.{MessageStatus, pending, Destination, Message, Payload, Metadata}

abbrev pub has {ℓ} : {A : Type ℓ} → Option A → Bool
has none = false
has (some _) = true

-- A message that has left the pending status.
abbrev pub is_settled : Option MessageRow → Bool
is_settled none = false
is_settled (some row) = not (is_pending row.status)

-- A message has one source, one payload and one row of metadata, and it has a destination exactly
-- if it is no longer pending.
pub record IsConsistent (db : Db) : Type 0 where
  pub sources : (k : String) → has (lookup k db.sources) ≡ has (lookup k db.messages)
  pub payloads : (k : String) → has (lookup k db.payloads) ≡ has (lookup k db.messages)
  pub metadata : (k : String) → has (lookup k db.metadata) ≡ has (lookup k db.messages)
  pub destinations :
      (k : String) → has (lookup k db.destinations) ≡ is_settled (lookup k db.messages)

stored-IsConsistent :
    (m : Message) (p : Payload) (md : Metadata) (db : Db)
    → m.status ≡ pending
    → IsConsistent db
    → IsConsistent (stored m p md db)
stored-IsConsistent m p md db new h = record {
  sources = λ k. simp table_laws (ground (arith, h.sources k, eq_iff m.message_id k));
  payloads = λ k. simp table_laws (ground (arith, h.payloads k, eq_iff m.message_id k));
  metadata = λ k. simp table_laws (ground (arith, h.metadata k, eq_iff m.message_id k));
  destinations = λ k. simp table_laws (ground (arith, h.destinations k, eq_iff m.message_id k));
}

has-set_latency :
    (id k : String) (seen : ℤ) (db : Db)
    → has (lookup k (set_latency id seen db).metadata) ≡ has (lookup k db.metadata)
unfolding set_latency
has-set_latency id k seen db = elim (Option-cases (lookup id db.sources)) [
  | inl e ↦ rw (e, set_latency) refl
  | inr (src, e) ↦ elim (Bool-cases (is_positive src.timestamp)) [
    | inl p ↦ rw (e, set_latency, p) (simp lookup-update (ground (arith, eq_iff id k)))
    | inr p ↦ rw (e, set_latency, p) refl
  ]
]

settled-IsConsistent :
    (clock : ℕ) (id : String) (dest : Destination) (set : MessageStatus) (db : Db)
    (row : MessageRow)
    → lookup id db.messages ≡ some row
    → IsFinal set
    → IsConsistent db
    → IsConsistent (settled clock id dest set db)
settled-IsConsistent clock id dest set db row e final h = record {
  sources = λ k. simp table_laws (ground (arith, h.sources k, eq_iff id k));
  payloads = λ k. simp table_laws (ground (arith, h.payloads k, eq_iff id k));
  metadata = λ k.
      simp table_laws
        (ground (arith, h.metadata k, eq_iff id k, has-set_latency id k dest.timestamp db));
  destinations = λ k. simp table_laws (ground (arith, h.destinations k, eq_iff id k));
}

-- Every event, whatever it holds and whatever the database fails at, keeps the tables in step.
pub process-IsConsistent :
    (f : Faults) (clock now : ℕ) (e : RawEvent) (db : Db)
    → IsConsistent db
    → IsConsistent (process (postgres f clock) now e db).0
process-IsConsistent f clock now e db =
    postgres_rule f clock now e (λ a b. IsConsistent a → IsConsistent b) (λ _ h. h)
      (λ n p md d _ new _. stored-IsConsistent n.message p md d new.status)
      (λ id dest set d row hit _ final. settled-IsConsistent clock id dest set d row hit final) db

-- The databases that the archive can be in: the empty one, and those behind one more event.
pub data Reachable : Db → Type 0 where
  start : Reachable empty
  next :
      {db : Db} (f : Faults) (clock now : ℕ) (e : RawEvent)
      → Reachable db
      → Reachable (process (postgres f clock) now e db).0

pub IsConsistent-empty : IsConsistent empty
unfolding lookup
IsConsistent-empty = record {
  sources = λ k. refl;
  payloads = λ k. refl;
  metadata = λ k. refl;
  destinations = λ k. refl;
}

-- In every database that events can lead to, each message has one source, one payload and one row
-- of metadata, and a destination exactly if its status is no longer pending.
pub Reachable-IsConsistent : {db : Db} → Reachable db → IsConsistent db
Reachable-IsConsistent start = IsConsistent-empty
Reachable-IsConsistent (next {db} f clock now e r) =
    process-IsConsistent f clock now e db (Reachable-IsConsistent r)
