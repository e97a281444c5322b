-- ===== src/Indexer/Storage.antt =====
-- The database as the indexer sees it: the messages, the cursors and the block hashes, with the
-- stores of internal/indexer over it.
use akave_crosschain_archive.Base.{ℕ, Bool, some, List, Result}
use akave_crosschain_archive.Database.{Db, Faults}
use akave_crosschain_archive.Correlator.{MessageStore, postgres}
use akave_crosschain_archive.Indexer.Cursors.{CursorStore, CursorRow, load_row, update_row}
use akave_crosschain_archive.Indexer.Hashes.{
  BlockHashStore, BlockHashRecord, save_row, get_row, prune_rows, delete_rows,
}
use akave_crosschain_archive.Indexer.Processor.{Stores}

pub record Storage : Type 0 where
  pub messages : Db
  pub cursors : List CursorRow
  pub hashes : List BlockHashRecord

-- Which statements on the cursors and on the hashes fail: a save by its block, a read by its place
-- in the round and its block.
pub record StorageFaults : Type 0 where
  pub load_cursor : Bool
  pub update_cursor : Bool
  pub save_hash : ℕ → Bool
  pub get_hash : ℕ → ℕ → Bool
  pub prune_hashes : Bool
  pub delete_hashes : Bool

abbrev pub with_cursors : Storage → List CursorRow × Result (Unit {0}) → Storage × Result (Unit {0})
with_cursors s (rows, r) = (record s { cursors = rows }, r)

-- `NewPostgresCursorStore`
unfoldable pub cursor_store : StorageFaults → CursorStore Storage
cursor_store f = record {
  load_cursor = λ chain name s. (s, load_row f.load_cursor chain name s.cursors);
  update_cursor =
      λ chain name block s. with_cursors s (update_row f.update_cursor chain name block s.cursors);
}

abbrev pub with_hashes :
    Storage → List BlockHashRecord × Result (Unit {0}) → Storage × Result (Unit {0})
with_hashes s (rows, r) = (record s { hashes = rows }, r)

-- `NewPostgresBlockHashStore`
unfoldable pub hash_store : StorageFaults → BlockHashStore Storage
hash_store f = record {
  save_block_hash = λ new s. with_hashes s (save_row (f.save_hash new.block_number) new s.hashes);
  get_block_hash = λ site chain block s. get_row (f.get_hash site block) chain block s.hashes;
  prune_block_hashes =
      λ chain keep_below s. with_hashes s (prune_rows f.prune_hashes chain keep_below s.hashes);
  delete_block_hashes_from =
      λ chain from s. with_hashes s (delete_rows f.delete_hashes chain from s.hashes);
}

abbrev pub with_messages : Storage → Db × Result (Unit {0}) → Storage × Result (Unit {0})
with_messages s (db, r) = (record s { messages = db }, r)

-- `NewPostgresMessageStore`
unfoldable pub message_store : Faults → ℕ → MessageStore Storage
message_store f now =
    let inner = postgres f now in
    record {
      upsert_message = λ m s. with_messages s (inner.upsert_message m s.messages);
      find_by_correlation_key = λ key s. inner.find_by_correlation_key key s.messages;
      update_destination =
          λ id dest set s. with_messages s (inner.update_destination id dest set s.messages);
    }

-- The stores that cmd/indexer hands to the loop; the faults of the message store and the NOW() of
-- the server may differ from event to event.
unfoldable pub indexer_stores : StorageFaults → (ℕ → Faults) → (ℕ → ℕ) → Stores Storage
indexer_stores f message_faults now = record {
  cursors = cursor_store f;
  hashes = some (hash_store f);
  messages = λ place. message_store (message_faults place) (now place);
}
