-- ===== src/Store/Find.antt =====
-- What `FindByCorrelationKey` finds, and that it finds what is there.
use akave_crosschain_archive.Base.{
  String, true, false, some, [], ◌∷◌, ◌≡◌, ◌≢◌, inl, inr, refl, ◌∙◌, arith, str_eq, eq_iff, ok,
  Option-cases, Bool-cases,
}
use akave_crosschain_archive.Base.Table.{Table, lookup}
use akave_crosschain_archive.Database.{Db, Faults, MessageRow, PayloadRow}
use akave_crosschain_archive.Normalizer.{CorrelationKey}
use akave_crosschain_archive.Store.{matches, scan_row, find_at, find_in, find_by_correlation_key}
use akave_crosschain_archive.Types.{pending, Source, Message}

-- A pending message of the key's protocol that the tables hold under its identifier: the one with
-- the key's message_id, or if that is empty, one of the key's nonce, sender and source chain.
pub record IsPendingMatch (key : CorrelationKey) (db : Db) (m : Message) : Type 0 where
  pub row : MessageRow
  pub source : Source
  pub payload : PayloadRow
  pub has_row : lookup m.message_id db.messages ≡ some row
  pub has_source : lookup m.message_id db.sources ≡ some source
  pub has_payload : lookup m.message_id db.payloads ≡ some payload
  pub is_pending : row.status ≡ pending
  pub protocol : row.protocol ≡ key.protocol
  pub direct : key.message_id ≢ "" → m.message_id ≡ key.message_id
  pub composite :
      key.message_id ≡ ""
      → (payload.nonce ≡ key.nonce)
        × (source.sender ≡ key.sender)
        × (source.chain_id ≡ key.src_chain_id)
  pub scanned : m ≡ scan_row m.message_id row source payload

-- A message of the tables by the test of the query.
pub record IsMatch (key : CorrelationKey) (db : Db) (m : Message) : Type 0 where
  pub row : MessageRow
  pub source : Source
  pub payload : PayloadRow
  pub has_row : lookup m.message_id db.messages ≡ some row
  pub has_source : lookup m.message_id db.sources ≡ some source
  pub has_payload : lookup m.message_id db.payloads ≡ some payload
  pub matched : matches key m.message_id row source payload ≡ true
  pub scanned : m ≡ scan_row m.message_id row source payload

find_at_sound :
    (key : CorrelationKey) (db : Db) (id : String) (m : Message)
    → find_at key db id ≡ some m
    → IsMatch key db m
unfolding find_at
find_at_sound key db id m h = elim (Option-cases (lookup id db.messages)) [
  | inl e ↦ absurd (ground arith)
  | inr (row, e) ↦ elim (Option-cases (lookup id db.sources)) [
    | inl e₁ ↦ absurd (ground arith)
    | inr (src, e₁) ↦ elim (Option-cases (lookup id db.payloads)) [
      | inl e₂ ↦ absurd (ground arith)
      | inr (pay, e₂) ↦
          let same : m.message_id ≡ id = ground arith in
          record {
            row = row;
            source = src;
            payload = pay;
            has_row = rw same e;
            has_source = rw same e₁;
            has_payload = rw same e₂;
            matched = rw same (ground arith);
            scanned = rw same (ground arith);
          }
    ]
  ]
]

find_in_sound :
    (key : CorrelationKey) (db : Db) (rows : Table MessageRow) (m : Message)
    → find_in key db rows ≡ some m
    → IsMatch key db m
unfolding find_in
find_in_sound key db [] m h = absurd (ground arith)
find_in_sound key db ((id, row) ∷ rows) m h = elim (Option-cases (find_at key db id)) [
  | inl miss ↦ find_in_sound key db rows m (rw miss at h)
  | inr (x, hit) ↦ find_at_sound key db id m (hit ∙ (rw hit at h))
]

pub find-IsMatch :
    (f : Faults) (key : CorrelationKey) (db : Db) (m : Message)
    → find_by_correlation_key f key db ≡ ok (some m)
    → IsMatch key db m
unfolding find_by_correlation_key
find-IsMatch f key db m h = find_in_sound key db db.messages m (ground arith)

pub matches-is_pending :
    (key : CorrelationKey) (id : String) (row : MessageRow) (src : Source) (pay : PayloadRow)
    → matches key id row src pay ≡ true
    → row.status ≡ pending
unfolding matches
matches-is_pending key id row src pay h = ground arith

find_in_total :
    (key : CorrelationKey) (db : Db) (id : String) (rows : Table MessageRow) (row : MessageRow)
    (m : Message)
    → lookup id rows ≡ some row
    → find_at key db id ≡ some m
    → (m' : Message) × (find_in key db rows ≡ some m')
unfolding find_in lookup
find_in_total key db id [] row m h hit = absurd (ground arith)
find_in_total key db id ((j, r) ∷ rows) row m h hit = elim (Option-cases (find_at key db j)) [
  | inr (x, e) ↦ (x, rw e refl)
  | inl miss ↦ elim (Bool-cases (str_eq j id)) [
    | inl same ↦
        let here : j ≡ id = (eq_iff j id).0 same in absurd (ground (arith, here, hit, miss))
    | inr differs ↦
        let (x, e) = find_in_total key db id rows row m (rw differs at h) hit in (x, rw miss e)
  ]
]

-- If the tables hold a message that the key matches, then a message is found.
pub find_total :
    (f : Faults) (key : CorrelationKey) (db : Db) (id : String) (row : MessageRow) (src : Source)
    (pay : PayloadRow)
    → f.query ≡ false
    → lookup id db.messages ≡ some row
    → lookup id db.sources ≡ some src
    → lookup id db.payloads ≡ some pay
    → matches key id row src pay ≡ true
    → (m : Message) × (find_by_correlation_key f key db ≡ ok (some m))
unfolding find_by_correlation_key
find_total f key db id row src pay up h hs hp hit =
    let at : find_at key db id ≡ some (scan_row id row src pay) = unfold find_at in ground arith in
    let (m, e) = find_in_total key db id db.messages row _ h at in (m, rw (up, e) refl)

-- A key with no message_id matches by the four fields of its composite.
pub matches-composite :
    (key : CorrelationKey) (id : String) (row : MessageRow) (src : Source) (pay : PayloadRow)
    → key.message_id ≡ ""
    → matches key id row src pay ≡ true
    → (row.protocol ≡ key.protocol)
      × (pay.nonce ≡ key.nonce)
      × (src.sender ≡ key.sender)
      × (src.chain_id ≡ key.src_chain_id)
unfolding matches
matches-composite key id row src pay direct h = ground (
  arith,
  eq_iff key.message_id "",
  eq_iff row.protocol key.protocol,
  eq_iff src.sender key.sender,
)

matches-protocol :
    (key : CorrelationKey) (id : String) (row : MessageRow) (src : Source) (pay : PayloadRow)
    → matches key id row src pay ≡ true
    → row.protocol ≡ key.protocol
unfolding matches
matches-protocol key id row src pay h = ground (arith, eq_iff row.protocol key.protocol)

matches-direct :
    (key : CorrelationKey) (id : String) (row : MessageRow) (src : Source) (pay : PayloadRow)
    → matches key id row src pay ≡ true
    → key.message_id ≢ ""
    → id ≡ key.message_id
unfolding matches
matches-direct key id row src pay h named =
    ground (arith, eq_iff key.message_id "", eq_iff id key.message_id)

-- What is found is a pending message of the tables and of the key's protocol: if the key has a
-- message_id, the message with it, and otherwise one with the nonce, the sender and the source chain
-- of the key.
pub find-IsPendingMatch :
    (f : Faults) (key : CorrelationKey) (db : Db) (m : Message)
    → find_by_correlation_key f key db ≡ ok (some m)
    → IsPendingMatch key db m
find-IsPendingMatch f key db m h =
    let hit = find-IsMatch f key db m h in
    record {
      row = hit.row;
      source = hit.source;
      payload = hit.payload;
      has_row = hit.has_row;
      has_source = hit.has_source;
      has_payload = hit.has_payload;
      is_pending = matches-is_pending key m.message_id hit.row hit.source hit.payload hit.matched;
      protocol = matches-protocol key m.message_id hit.row hit.source hit.payload hit.matched;
      direct = matches-direct key m.message_id hit.row hit.source hit.payload hit.matched;
      composite = λ empty.
          let found =
            matches-composite key m.message_id hit.row hit.source hit.payload empty hit.matched in
          (found.1, found.2, found.3);
      scanned = hit.scanned;
    }
