-- ===== src/Correlator/Lifecycle.antt =====
-- What an event may do to one message: nothing, create it pending, or settle it once.
use akave_crosschain_archive.Base.{
  ℕ, String, Option, none, some, ◌≡◌, inl, inr, refl, eq_iff, str_eq, Bool-cases, sym, eq_refl,
}
use akave_crosschain_archive.Base.Table.{lookup, lookup-upsert, lookup-update, merged}
use akave_crosschain_archive.Correlator.{postgres, process}
use akave_crosschain_archive.Correlator.Rule.{IsFinal}
use akave_crosschain_archive.Correlator.Postgres.{postgres_rule}
use akave_crosschain_archive.Database.{Db, Faults, MessageRow, message_row, merge_message}
use akave_crosschain_archive.Decoder.{RawEvent}
use akave_crosschain_archive.Store.Effects.{stored, settled}
use akave_crosschain_archive.Types.{
  MessageStatus, no_status, pending, executed, failed, Destination, Message, Payload, Metadata,
}

-- The states of one message in the tables. `absent` is no row.
abbrev pub status_of : Option MessageRow → Option MessageStatus
status_of none = none
status_of (some row) = some row.status

-- The moves of a message: an upsert makes it pending, and only a pending message gets a final
-- status.
pub data Move : Option MessageStatus → Option MessageStatus → Type 0 where
  stay : (s : Option MessageStatus) → Move s s
  create : Move none (some pending)
  execute : Move (some pending) (some executed)
  fail : Move (some pending) (some failed)

Move-final : (set : MessageStatus) → IsFinal set → Move (some pending) (some set)
Move-final no_status h = absurd (h.not_empty refl)
Move-final pending h = absurd (h.not_pending refl)
Move-final executed h = execute
Move-final failed h = fail

abbrev Moves : String → Db → Db → Type 0
Moves k a b = Move (status_of (lookup k a.messages)) (status_of (lookup k b.messages))

merged-Move :
    (m : Message) (o : Option MessageRow)
    → m.status ≡ pending
    → Move (status_of o) (status_of (some (merged (message_row m) (merge_message m) o)))
merged-Move m none h = rw h create
merged-Move m (some row) h = stay (some row.status)

stored-Moves :
    (k : String) (m : Message) (p : Payload) (md : Metadata) (db : Db)
    → m.status ≡ pending
    → Moves k db (stored m p md db)
stored-Moves k m p md db new = elim (Bool-cases (str_eq m.message_id k)) [
  | inl e ↦
      rw (sym ((eq_iff m.message_id k).0 e)) (simp (lookup-upsert, eq_refl) (merged-Move m _ new))
  | inr e ↦ simp lookup-upsert (rw e (stay _))
]

settled-Moves :
    (clock : ℕ) (k id : String) (dest : Destination) (set : MessageStatus) (db : Db)
    (row : MessageRow)
    → lookup id db.messages ≡ some row
    → row.status ≡ pending
    → IsFinal set
    → Moves k db (settled clock id dest set db)
settled-Moves clock k id dest set db row hit was final = elim (Bool-cases (str_eq id k)) [
  | inl e ↦
      rw (sym ((eq_iff id k).0 e))
        (simp (lookup-update, eq_refl) (rw hit (simp was (Move-final set final))))
  | inr e ↦ simp lookup-update (rw e (stay _))
]

-- Whatever an event holds and whatever the database fails at, each message stays as it is, or is
-- created as pending, or goes from pending to executed or failed.
pub process-Move :
    (f : Faults) (clock now : ℕ) (e : RawEvent) (db : Db) (k : String)
    → Move
        (status_of (lookup k db.messages))
        (status_of (lookup k (process (postgres f clock) now e db).0.messages))
process-Move f clock now e db k =
    postgres_rule f clock now e (Moves k) (λ d. stay _)
      (λ n p md d _ new _. stored-Moves k n.message p md d new.status)
      (λ id dest set d row hit was final. settled-Moves clock k id dest set d row hit was final) db
