-- ===== src/Archiver/Records.antt =====
-- The flattened records of internal/archiver/record.go and store.go.
use akave_crosschain_archive.Base.{
  ℕ, ◌/◌, ◌*◌, String, Bool, ◌&&◌, ◌||◌, not, Option, none, some, List, [], ◌∷◌, str_eq, ltb, leb,
  ◌==◌, if◌then◌else◌, Result, ok,
}
use akave_crosschain_archive.Base.Int.{ℤ, pos, leℤ}
use akave_crosschain_archive.Base.Table.{Table, lookup}
use akave_crosschain_archive.Database.{Db, MessageRow, PayloadRow, exec}
use akave_crosschain_archive.Types.{
  MessageType, no_type, token_transfer, message, contract_call, Source, Destination, Metadata,
}
use akave_crosschain_archive.Api.Rows.{status_text}

abbrev pub type_text : MessageType → String
type_text no_type = ""
type_text token_transfer = "token_transfer"
type_text message = "message"
type_text contract_call = "contract_call"

-- `ParquetRecord`, with the two times in microseconds, as the database has them.
pub record ParquetRecord : Type 0 where
  pub message_id : String
  pub protocol : String
  pub type : String
  pub status : String
  pub created_at : ℕ
  pub updated_at : ℕ
  pub src_chain_id : ℕ
  pub src_tx_hash : String
  pub src_block_number : ℕ
  pub src_timestamp : ℤ
  pub src_sender : String
  pub src_log_index : ℕ
  pub dst_chain_id : Option ℕ
  pub dst_tx_hash : Option String
  pub dst_block_number : Option ℕ
  pub dst_timestamp : Option ℤ
  pub dst_receiver : Option String
  pub dst_log_index : Option ℕ
  pub payload_token : Option String
  pub payload_amount : Option String
  pub payload_data : Option String
  pub payload_nonce : Option ℕ
  pub meta_fee : Option String
  pub meta_relayer : Option String
  pub meta_gas_used : Option ℕ
  pub meta_latency_seconds : Option ℤ

-- A time in microseconds, cut to milliseconds: what a column of the tag `timestamp` keeps of it.
abbrev pub to_milliseconds : ℕ → ℕ
to_milliseconds t = t / 1000 * 1000

-- The record that a Parquet file keeps.
abbrev pub as_stored : ParquetRecord → ParquetRecord
as_stored r = record r {
  created_at = to_milliseconds r.created_at;
  updated_at = to_milliseconds r.updated_at;
}

-- A column of a LEFT JOIN: NULL where no row joins.
abbrev pub column {ℓ κ} : {A : Type ℓ} {B : Type κ} → (A → B) → Option A → Option B
column f none = none
column f (some a) = some (f a)

abbrev pub nullable {ℓ κ} : {A : Type ℓ} {B : Type κ} → (A → Option B) → Option A → Option B
nullable f none = none
nullable f (some a) = f a

-- The row that is scanned.
abbrev pub flatten : Db → String → MessageRow → Source → ParquetRecord
flatten db id row src =
    let dst = lookup id db.destinations in
    let pay = lookup id db.payloads in
    let meta = lookup id db.metadata in
    record {
      message_id = id;
      protocol = row.protocol;
      type = type_text row.type;
      status = status_text row.status;
      created_at = row.created_at;
      updated_at = row.updated_at;
      src_chain_id = src.chain_id;
      src_tx_hash = src.tx_hash;
      src_block_number = src.block_number;
      src_timestamp = src.timestamp;
      src_sender = src.sender;
      src_log_index = src.log_index;
      dst_chain_id = column (λ (d : Destination). d.chain_id) dst;
      dst_tx_hash = column (λ (d : Destination). d.tx_hash) dst;
      dst_block_number = column (λ (d : Destination). d.block_number) dst;
      dst_timestamp = column (λ (d : Destination). d.timestamp) dst;
      dst_receiver = column (λ (d : Destination). d.receiver) dst;
      dst_log_index = column (λ (d : Destination). d.log_index) dst;
      payload_token = nullable (λ (p : PayloadRow). p.token) pay;
      payload_amount = nullable (λ (p : PayloadRow). p.amount) pay;
      payload_data = nullable (λ (p : PayloadRow). p.content) pay;
      payload_nonce = column (λ (p : PayloadRow). p.nonce) pay;
      meta_fee = column (λ (m : Metadata). m.fee) meta;
      meta_relayer = column (λ (m : Metadata). m.relayer) meta;
      meta_gas_used = column (λ (m : Metadata). m.gas_used) meta;
      meta_latency_seconds = column (λ (m : Metadata). m.latency_seconds) meta;
    }

-- WHERE
unfoldable pub is_wanted : String → ℕ → ℕ → ℕ → MessageRow → Source → Bool
is_wanted protocol chain from to row src =
    str_eq row.protocol protocol
    && src.chain_id == chain
    && leℤ (pos from) src.timestamp
    && not (leℤ (pos to) src.timestamp)

-- The row of a message, if it joins a source and is wanted.
unfoldable pub record_at : String → ℕ → ℕ → ℕ → Db → String → MessageRow → Option ParquetRecord
record_at protocol chain from to db id row = elim (lookup id db.sources) [
  | none ↦ none
  | some src ↦
      if is_wanted protocol chain from to row src then some (flatten db id row src) else none
]

-- (timestamp, block_number, log_index) <= (timestamp, block_number, log_index)
abbrev pub record_le : ParquetRecord → ParquetRecord → Bool
record_le a b =
    not (leℤ b.src_timestamp a.src_timestamp)
    || leℤ a.src_timestamp b.src_timestamp
      && (ltb a.src_block_number b.src_block_number
          || a.src_block_number == b.src_block_number && leb a.src_log_index b.src_log_index)

unfoldable pub insert_record : ParquetRecord → List ParquetRecord → List ParquetRecord
insert_record r [] = r ∷ []
insert_record r (x ∷ xs) = if record_le r x then r ∷ x ∷ xs else x ∷ insert_record r xs

abbrev pub add_record : Option ParquetRecord → List ParquetRecord → List ParquetRecord
add_record none rs = rs
add_record (some r) rs = insert_record r rs

unfoldable pub records_in : String → ℕ → ℕ → ℕ → Db → Table MessageRow → List ParquetRecord
records_in protocol chain from to db [] = []
records_in protocol chain from to db ((id, row) ∷ t) =
    add_record (record_at protocol chain from to db id row) (records_in protocol chain from to db t)

-- `FetchRecordsForArchival`
unfoldable pub fetch_records_for_archival :
    Bool → String → ℕ → ℕ → ℕ → Db → Result (List ParquetRecord)
fetch_records_for_archival fails protocol chain from to db =
    exec "querying records for archival" fails
      (ok (records_in protocol chain from to db db.messages))
