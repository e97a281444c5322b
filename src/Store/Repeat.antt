-- ===== src/Store/Repeat.antt =====
-- A message that is delivered again, or by two events of one transaction, message_store_pg.go.
use akave_crosschain_archive.Base.{
  String, Option, none, some, true, ap, sym, ◌∙◌, ◌≡◌, ◌⊎◌, refl, arith, eq_iff, eq_refl, ok,
}
use akave_crosschain_archive.Base.Table.{lookup, upsert-upsert, lookup-upsert}
use akave_crosschain_archive.Database.{
  Db, Faults, MessageRow, PayloadRow, message_row, merge_message, payload_row, merge_payload,
  merge_text, is_type, is_status, no_faults,
}
use akave_crosschain_archive.Store.{upsert_message}
use akave_crosschain_archive.Store.Effects.{stored, upsert-Atomic, Atomic_rule}
use akave_crosschain_archive.Store.Upsert.{upsert_succeeds}
use akave_crosschain_archive.Types.{MessageType, message, Message, Payload, Metadata}

merge_text-merge_text :
    (t : String) (o : Option String) → merge_text t (merge_text t o) ≡ merge_text t o
merge_text-merge_text t o = ground arith

merge_payload-payload_row : (p : Payload) → merge_payload p (payload_row p) ≡ payload_row p
merge_payload-payload_row p = ground arith

merge_payload-merge_payload :
    (p : Payload) (w : PayloadRow) → merge_payload p (merge_payload p w) ≡ merge_payload p w
merge_payload-merge_payload p w = ground arith

merge_message-message_row : (m : Message) → merge_message m (message_row m) ≡ message_row m
merge_message-message_row m = ground arith

merge_message-merge_message :
    (m : Message) (w : MessageRow) → merge_message m (merge_message m w) ≡ merge_message m w
merge_message-merge_message m w = ground arith

stored-stored :
    (m : Message) (p : Payload) (md : Metadata) (db : Db)
    → stored m p md (stored m p md db) ≡ stored m p md db
stored-stored m p md db =
    simp
      (
        upsert-upsert m.message_id (message_row m) (merge_message m) db.messages
            (merge_message-message_row m) (merge_message-merge_message m),
        upsert-upsert m.message_id m.source (λ old. old) db.sources refl (λ w. refl),
        upsert-upsert m.message_id (payload_row p) (merge_payload p) db.payloads
            (merge_payload-payload_row p) (merge_payload-merge_payload p),
        upsert-upsert m.message_id md (λ old. old) db.metadata refl (λ w. refl),
      )
      refl

-- A message with payload and metadata that was stored can be delivered again: the second upsert
-- changes nothing, wherever it fails, and where the database does not fail it reports no error.
pub upsert_again :
    (f g : Faults) (m : Message) (db db' : Db) (p : Payload) (md : Metadata)
    → m.payload ≡ some p
    → m.metadata ≡ some md
    → is_type m.type ≡ true
    → is_status m.status ≡ true
    → upsert_message f m db ≡ (db', ok tt)
    → ((upsert_message g m db').0 ≡ db') × (upsert_message no_faults m db' ≡ (db', ok tt))
upsert_again f g m db db' p md hp hm typed valid done =
    let first : db' ≡ stored m p md db = rw done at (upsert-Atomic f m db p md hp hm) in
    let again : stored m p md db' ≡ db' = rw first (stored-stored m p md db) in
    (
      Atomic_rule (λ x. x ≡ db') db' (stored m p md db') _ _ (upsert-Atomic g m db' p md hp hm) refl
          again,
      upsert_succeeds m db' p md hp hm typed valid ∙ ap (λ x. (x, ok tt)) again,
    )

-- The type of the message with an id.
abbrev pub type_of : String → Db → Option MessageType
type_of id db = elim (lookup id db.messages) [ none ↦ none | some row ↦ some row.type ]

stored-type_order :
    (m n : Message) (p q : Payload) (md me : Metadata) (db : Db)
    → m.message_id ≡ n.message_id
    → (m.type ≡ message) ⊎ (n.type ≡ message)
    → type_of m.message_id (stored n q me (stored m p md db))
      ≡ type_of m.message_id (stored m p md (stored n q me db))
stored-type_order m n p q md me db same general = ground (
  arith,
  eq_iff n.message_id m.message_id,
  eq_refl m.message_id,
  lookup-upsert n.message_id m.message_id (message_row n) (merge_message n) db.messages,
  lookup-upsert m.message_id m.message_id (message_row m) (merge_message m) db.messages,
  lookup-upsert n.message_id m.message_id (message_row n) (merge_message n)
      (stored m p md db).messages,
  lookup-upsert m.message_id m.message_id (message_row m) (merge_message m)
      (stored n q me db).messages,
)

-- The tables behind two upserts.
abbrev pub both : Message → Message → Db → Db
both m n db = (upsert_message no_faults n (upsert_message no_faults m db).0).0

both-stored :
    (m n : Message) (p q : Payload) (md me : Metadata) (db : Db)
    → upsert_message no_faults m db ≡ (stored m p md db, ok tt)
    → upsert_message no_faults n (stored m p md db) ≡ (stored n q me (stored m p md db), ok tt)
    → both m n db ≡ stored n q me (stored m p md db)
both-stored m n p q md me db first second =
    ap (λ out. (upsert_message no_faults n out.0).0) first ∙ ap (λ out. out.0) second

-- Two messages of one identifier, each with payload, metadata and a status, and of types that the
-- tables take, one of them the general type `message`, may be upserted in either order: where the
-- database does not fail, the tables hold the same type in the end.
pub upsert_message-type_order :
    (m n : Message) (p q : Payload) (md me : Metadata) (db : Db)
    → (m.payload ≡ some p) × (m.metadata ≡ some md)
    → (n.payload ≡ some q) × (n.metadata ≡ some me)
    → (is_type m.type ≡ true) × (is_status m.status ≡ true)
    → (is_type n.type ≡ true) × (is_status n.status ≡ true)
    → m.message_id ≡ n.message_id
    → (m.type ≡ message) ⊎ (n.type ≡ message)
    → type_of m.message_id (both m n db) ≡ type_of m.message_id (both n m db)
upsert_message-type_order m n p q md me db (hp, hm) (hq, he) (tm, sm) (tn, sn) same general =
    let mn =
      both-stored m n p q md me db (upsert_succeeds m db p md hp hm tm sm)
        (upsert_succeeds n (stored m p md db) q me hq he tn sn) in
    let nm =
      both-stored n m q p me md db (upsert_succeeds n db q me hq he tn sn)
        (upsert_succeeds m (stored n q me db) p md hp hm tm sm) in
    ap (type_of m.message_id) mn
    ∙ stored-type_order m n p q md me db same general
    ∙ sym (ap (type_of m.message_id) nm)
