-- ===== src/Tests/Codec/Records.antt =====
-- Archived records as lists of numbers, for the tests of the archiver.
use akave_crosschain_archive.Base.{
  ℕ, String, Option, none, some, List, [], ◌∷◌, map, length, ◌≡◌, refl, ap, Result, ok, ok_inj, err,
  failure,
}
use akave_crosschain_archive.Base.Bytes.{Bytes, hex_text}
use akave_crosschain_archive.Base.Int.{ℤ}
use akave_crosschain_archive.Archiver.Cycle.{Formats}
use akave_crosschain_archive.Archiver.Records.{ParquetRecord, as_stored}
use akave_crosschain_archive.Tests.Codec.{
  Codec, and_then, number, text, integer, optional, ◌then◌, put_many, get_many, get_many-put_many,
}

abbrev Head : Type 0
Head = String × (String × (String × (String × (ℕ × (ℕ)))))

abbrev head : Codec Head
head = text then text then text then text then number then number

abbrev Sending : Type 0
Sending = ℕ × (String × (ℕ × (ℤ × (String × (ℕ)))))

abbrev sending : Codec Sending
sending = number then text then number then integer then text then number

abbrev Receiving : Type 0
Receiving = Option ℕ × (Option String × (Option ℕ × (Option ℤ × (Option String × (Option ℕ)))))

abbrev receiving : Codec Receiving
receiving =
    optional number
    then optional text
    then optional number
    then optional integer
    then optional text
    then optional number

abbrev Content : Type 0
Content = Option String × (Option String × (Option String × (Option ℕ)))

abbrev content : Codec Content
content = optional text then optional text then optional text then optional number

abbrev Extras : Type 0
Extras = Option String × (Option String × (Option ℕ × (Option ℤ)))

abbrev extras : Codec Extras
extras = optional text then optional text then optional number then optional integer

abbrev Row : Type 0
Row = Head × (Sending × (Receiving × (Content × (Extras))))

abbrev row : Codec Row
row = head then sending then receiving then content then extras

abbrev head_of : ParquetRecord → Head
head_of r = (r.message_id, (r.protocol, (r.type, (r.status, (r.created_at, (r.updated_at))))))

abbrev sending_of : ParquetRecord → Sending
sending_of r = (
  r.src_chain_id,
  (r.src_tx_hash, (r.src_block_number, (r.src_timestamp, (r.src_sender, (r.src_log_index))))),
)

abbrev receiving_of : ParquetRecord → Receiving
receiving_of r = (
  r.dst_chain_id,
  (r.dst_tx_hash, (r.dst_block_number, (r.dst_timestamp, (r.dst_receiver, (r.dst_log_index))))),
)

abbrev content_of : ParquetRecord → Content
content_of r = (r.payload_token, (r.payload_amount, (r.payload_data, (r.payload_nonce))))

abbrev extras_of : ParquetRecord → Extras
extras_of r = (r.meta_fee, (r.meta_relayer, (r.meta_gas_used, (r.meta_latency_seconds))))

abbrev row_of : ParquetRecord → Row
row_of r = (head_of r, (sending_of r, (receiving_of r, (content_of r, (extras_of r)))))

abbrev record_of : Row → ParquetRecord
record_of r = record {
  message_id = r.0.0;
  protocol = r.0.1.0;
  type = r.0.1.1.0;
  status = r.0.1.1.1.0;
  created_at = r.0.1.1.1.1.0;
  updated_at = r.0.1.1.1.1.1;
  src_chain_id = r.1.0.0;
  src_tx_hash = r.1.0.1.0;
  src_block_number = r.1.0.1.1.0;
  src_timestamp = r.1.0.1.1.1.0;
  src_sender = r.1.0.1.1.1.1.0;
  src_log_index = r.1.0.1.1.1.1.1;
  dst_chain_id = r.1.1.0.0;
  dst_tx_hash = r.1.1.0.1.0;
  dst_block_number = r.1.1.0.1.1.0;
  dst_timestamp = r.1.1.0.1.1.1.0;
  dst_receiver = r.1.1.0.1.1.1.1.0;
  dst_log_index = r.1.1.0.1.1.1.1.1;
  payload_token = r.1.1.1.0.0;
  payload_amount = r.1.1.1.0.1.0;
  payload_data = r.1.1.1.0.1.1.0;
  payload_nonce = r.1.1.1.0.1.1.1;
  meta_fee = r.1.1.1.1.0;
  meta_relayer = r.1.1.1.1.1.0;
  meta_gas_used = r.1.1.1.1.1.1.0;
  meta_latency_seconds = r.1.1.1.1.1.1.1;
}

abbrev a_record : Codec ParquetRecord
a_record = record {
  put = λ r bs. row.put (row_of r) bs;
  get = λ bs. and_then (row.get bs) (λ x. some (record_of x.0, x.1));
  get-put = λ r bs. rw (row.get-put (row_of r) bs) refl;
}

abbrev only_records : Option (List ParquetRecord × Bytes) → Result (List ParquetRecord)
only_records none = err (failure "truncated")
only_records (some (rs, rest)) = ok rs

unfoldable pub read_records : Bytes → Result (List ParquetRecord)
read_records [] = err (failure "no data")
read_records (n ∷ bs) = only_records (get_many a_record n bs)

unfoldable pub write_records : List ParquetRecord → Bytes
write_records rs = length rs ∷ put_many a_record rs []

read-write : (rs : List ParquetRecord) → read_records (write_records rs) ≡ ok rs
unfolding read_records write_records
read-write rs = ap only_records (get_many-put_many a_record rs [])

-- The file of records, as it keeps them.
abbrev pub write_stored : List ParquetRecord → Bytes
write_stored rs = write_records (map as_stored rs)

pub read-write_ok :
    (rs : List ParquetRecord) (bs : Bytes)
    → ok (write_stored rs) ≡ ok bs
    → read_records bs ≡ ok (map as_stored rs)
read-write_ok rs bs h = rw (← ok_inj h) (read-write (map as_stored rs))

abbrev pub plain : Formats
plain = record {
  write = λ rs. ok (write_stored rs);
  read = read_records;
  sha256_hex = hex_text;
  marshal = λ m. ok (m.total_files ∷ m.total_rows ∷ []);
  read-write = read-write_ok;
}
