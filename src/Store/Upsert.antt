-- ===== src/Store/Upsert.antt =====
-- What an upsert leaves in the tables, field by field, for a new message and for a known one.
use akave_crosschain_archive.Base.{
  String, true, Option, none, some, ◌≡◌, ◌≢◌, refl, ap, sym, ◌∙◌, str_ne, arith, eq_iff, eq_refl,
  Result, ok, err,
}
use akave_crosschain_archive.Base.Table.{Table, lookup, upsert, merged, lookup-upsert}
use akave_crosschain_archive.Database.{
  Db, Faults, MessageRow, PayloadRow, is_type, is_status, message_row, merge_message, payload_row,
  merge_payload, merge_text, no_faults, insert_message, insert_source, insert_payload,
  insert_metadata,
}
use akave_crosschain_archive.Store.{upsert_message, upsert_in_tx}
use akave_crosschain_archive.Store.Effects.{stored, Atomic, upsert-Atomic}
use akave_crosschain_archive.Types.{message, Message, Payload, Metadata}

-- A column behind the merge of a text: the old value if the text is empty.
abbrev pub IsMerged : String → Option String → Option String → Type 0
IsMerged new old now = (new ≡ "" → now ≡ old) × (new ≢ "" → now ≡ some new)

-- A row of a known message keeps its protocol, status and time of creation, and its type if the
-- message is of the general one.
pub record IsMergedRow (m : Message) (old now : MessageRow) : Type 0 where
  pub protocol : now.protocol ≡ old.protocol
  pub status_kept : now.status ≡ old.status
  pub created_at : now.created_at ≡ old.created_at
  pub updated_at : now.updated_at ≡ m.updated_at
  pub general : m.type ≡ message → now.type ≡ old.type
  pub special : m.type ≢ message → now.type ≡ m.type

pub record IsMergedPayload (p : Payload) (old now : PayloadRow) : Type 0 where
  pub token : IsMerged p.token old.token now.token
  pub amount : IsMerged p.amount old.amount now.amount
  pub content : IsMerged p.content old.content now.content
  pub nonce : now.nonce ≡ old.nonce

-- The row of a message that was not there.
pub record IsNewRow (m : Message) (now : MessageRow) : Type 0 where
  pub protocol : now.protocol ≡ m.protocol
  pub type : now.type ≡ m.type
  pub status_set : now.status ≡ m.status
  pub created_at : now.created_at ≡ m.created_at
  pub updated_at : now.updated_at ≡ m.updated_at

pub record IsNewPayload (p : Payload) (now : PayloadRow) : Type 0 where
  pub token : now.token ≡ some p.token
  pub amount : now.amount ≡ some p.amount
  pub content : now.content ≡ some p.content
  pub nonce : now.nonce ≡ p.nonce

-- The row of a table behind the upsert, by the row before.
abbrev pub Grown : {A : Type 0} → (A → Type 0) → (A → A → Type 0) → Option A → Option A → Type 0
Grown fresh kept _ none = ⊥
Grown fresh kept none (some now) = fresh now
Grown fresh kept (some old) (some now) = kept old now

-- A table behind the upsert: one row is new or merged, the others are as they were.
pub record IsGrown {A : Type 0} (id : String) (fresh : A → Type 0) (kept : A → A → Type 0)
    (before after : Table A) : Type 0 where
  pub here : Grown fresh kept (lookup id before) (lookup id after)
  pub others : (k : String) → k ≢ id → lookup k after ≡ lookup k before

-- The tables behind an upsert.
pub record IsUpserted (m : Message) (p : Payload) (md : Metadata) (db after : Db) : Type 0 where
  pub messages : IsGrown m.message_id (IsNewRow m) (IsMergedRow m) db.messages after.messages
  pub sources :
      IsGrown m.message_id (λ now. now ≡ m.source) (λ old now. now ≡ old) db.sources after.sources
  pub payloads :
      IsGrown m.message_id (IsNewPayload p) (IsMergedPayload p) db.payloads after.payloads
  pub metadata :
      IsGrown m.message_id (λ now. now ≡ md) (λ old now. now ≡ old) db.metadata after.metadata
  pub destinations : after.destinations ≡ db.destinations

Grown-merged :
    {A : Type 0} (fresh : A → Type 0) (kept : A → A → Type 0) (v : A) (merge : A → A)
    (before : Option A)
    → fresh v
    → ((old : A) → kept old (merge old))
    → Grown fresh kept before (some (merged v merge before))
Grown-merged fresh kept v merge none f k = f
Grown-merged fresh kept v merge (some old) f k = k old

upsert-IsGrown :
    {A : Type 0} (id : String) (fresh : A → Type 0) (kept : A → A → Type 0) (v : A) (merge : A → A)
    (t : Table A)
    → fresh v
    → ((old : A) → kept old (merge old))
    → IsGrown id fresh kept t (upsert id v merge t)
upsert-IsGrown id fresh kept v merge t f k = record {
  here =
      rw (lookup-upsert id id v merge t, eq_refl id)
        (Grown-merged fresh kept v merge (lookup id t) f k);
  others = λ j other. lookup-upsert id j v merge t ∙ rw (str_ne id j (λ e. other (sym e))) refl;
}

merge_text-IsMerged : (new : String) (old : Option String) → IsMerged new old (merge_text new old)
merge_text-IsMerged new old =
    (λ e. rw ((eq_iff new "").1 e) refl, λ named. rw (str_ne new "" named) refl)

merge_message-IsMergedRow :
    (m : Message) (old : MessageRow) → IsMergedRow m old (merge_message m old)
merge_message-IsMergedRow m old = ground arith

stored-IsUpserted :
    (m : Message) (p : Payload) (md : Metadata) (db : Db) → IsUpserted m p md db (stored m p md db)
stored-IsUpserted m p md db = record {
  messages =
      upsert-IsGrown m.message_id (IsNewRow m) (IsMergedRow m) (message_row m) (merge_message m)
        db.messages (ground arith) (merge_message-IsMergedRow m);
  sources =
      upsert-IsGrown m.message_id _ (λ old now. now ≡ old) m.source (λ old. old) db.sources refl
        (λ old. refl);
  payloads =
      upsert-IsGrown m.message_id (IsNewPayload p) (IsMergedPayload p) (payload_row p)
        (merge_payload p) db.payloads (ground arith)
        (λ old. record {
          token = merge_text-IsMerged p.token old.token;
          amount = merge_text-IsMerged p.amount old.amount;
          content = merge_text-IsMerged p.content old.content;
          nonce = refl;
        });
  metadata =
      upsert-IsGrown m.message_id _ (λ old now. now ≡ old) md (λ old. old) db.metadata refl
        (λ old. refl);
  destinations = refl;
}

pub upsert_succeeds :
    (m : Message) (db : Db) (p : Payload) (md : Metadata)
    → m.payload ≡ some p
    → m.metadata ≡ some md
    → is_type m.type ≡ true
    → is_status m.status ≡ true
    → upsert_message no_faults m db ≡ (stored m p md db, ok tt)
unfolding upsert_message upsert_in_tx insert_message insert_source insert_payload insert_metadata
upsert_succeeds m db p md hp hm typed valid = ground arith

-- What an upsert promises: no change where it reports an error, all of it where it does not.
abbrev pub UpsertEffect : Message → Payload → Metadata → Db → Db × Result (Unit {0}) → Type 0
UpsertEffect m p md db (after, ok _) = IsUpserted m p md db after
UpsertEffect m p md db (after, err _) = after ≡ db

effect_of :
    (m : Message) (p : Payload) (md : Metadata) (db after : Db) (r : Result (Unit {0}))
    → Atomic db (stored m p md db) after r
    → UpsertEffect m p md db (after, r)
effect_of m p md db after (ok x) h = rw h (stored-IsUpserted m p md db)
effect_of m p md db after (err e) h = h

-- An upsert of a message with payload and metadata, of a type and a status that the tables take:
-- where the database does not fail it reports no error, and wherever it fails and an error is
-- reported, the tables are as before. With no error, a new message has all its fields in the
-- tables, and a known one keeps its source, status, protocol, nonce, metadata and time of creation,
-- takes the new time of change and the texts of the payload that are not empty, and its type unless
-- it is the general one; no other message and no destination changes.
pub upsert_message-effect :
    (f : Faults) (m : Message) (db : Db) (p : Payload) (md : Metadata)
    → m.payload ≡ some p
    → m.metadata ≡ some md
    → is_type m.type ≡ true
    → is_status m.status ≡ true
    → UpsertEffect m p md db (upsert_message f m db) × ((upsert_message no_faults m db).1 ≡ ok tt)
upsert_message-effect f m db p md hp hm typed valid = (
  effect_of m p md db _ _ (upsert-Atomic f m db p md hp hm),
  ap (λ out. out.1) (upsert_succeeds m db p md hp hm typed valid),
)
