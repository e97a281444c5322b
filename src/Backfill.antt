-- ===== src/Backfill.antt =====
-- The backfill of a range of blocks, of cmd/backfill/main.go: its cursor store, the run of the loop
-- without block hashes, and the exit code. The flags, the connections and the signal handler are
-- left out; a signal is a round whose context is done.
pub mod Exit
use akave_crosschain_archive.Base.{
  ℕ, ◌+◌, ◌-◌, ◌%◌, ◌^◌, String, Bool, true, false, not, ◌&&◌, none, List, str_eq, leb, ◌==◌,
  if◌then◌else◌, Error, Result, ok, err, canceled,
}
use akave_crosschain_archive.Correlator.{MessageStore}
use akave_crosschain_archive.Database.{Faults}
use akave_crosschain_archive.Decoder.{RawEvent}
use akave_crosschain_archive.Indexer.Cursors.{CursorStore}
use akave_crosschain_archive.Indexer.Processor.{Stores, Round, Next, again, stopped, process_chain}
use akave_crosschain_archive.Indexer.Storage.{Storage}

-- The state of a backfill over that of its inner stores: `started`, and whether `done` is closed.
pub record Run {ℓ} (S : Type ℓ) : Type ℓ where
  pub inner : S
  pub started : Bool
  pub done : Bool

module _ {ℓ} {S : Type ℓ} (inner : CursorStore S) (start stop chain : ℕ) (name : String) where
  -- `LoadCursor` of `rangedCursorStore`
  unfoldable pub load_start : ℕ → String → Run S → Run S × Result ℕ
  load_start c word s =
      let (loaded, r) = inner.load_cursor c word s.inner in
      if not s.started && ((c == chain) && str_eq word name)
      then (record s { started = true }, ok start)
      else (record s { inner = loaded }, r)

  -- `UpdateCursor` of `rangedCursorStore`: at the end of the range the inner store is set too,
  -- whose error is dropped, and the error of a done context is returned.
  unfoldable pub update_until : ℕ → String → ℕ → Run S → Run S × Result (Unit {0})
  update_until c word block s =
      let (updated, r) = inner.update_cursor c word block s.inner in
      if (c == chain) && (str_eq word name && leb stop block)
      then (record s { inner = updated; done = true }, err canceled)
      else (record s { inner = updated }, r)

  unfoldable pub ranged_cursor_store : CursorStore (Run S)
  ranged_cursor_store = record { load_cursor = load_start; update_cursor = update_until }

-- A store of messages on the inner state.
unfoldable pub inner_messages {ℓ} : {S : Type ℓ} → MessageStore S → MessageStore (Run S)
inner_messages store = record {
  upsert_message =
      λ m s. let (t, r) = store.upsert_message m s.inner in (record s { inner = t }, r);
  find_by_correlation_key = λ key s. store.find_by_correlation_key key s.inner;
  update_destination = λ id dest set s.
      let (t, r) = store.update_destination id dest set s.inner in (record s { inner = t }, r);
}

-- The exit code of `main` for the error that the loop returns: only the error of a done context
-- itself is a success.
unfoldable pub exit_code : Error → ℕ
exit_code canceled = 0
exit_code _ = 1

module _ {ℓ κ} {S : Type ℓ} {L : Type κ} (cursors : CursorStore S) (messages : ℕ → MessageStore S)
    (decode : L → Result RawEvent) (chain : ℕ) (name : String) (no_addresses : Bool)
    (batch_size : ℕ) where
  -- `main` from the cursor store on, for the range from a first to a last block.
  unfoldable pub backfill : ℕ → ℕ → Bool → List (Round L) → Run S → Run S × Next
  backfill first last no_topics rounds s =
      let stores : Stores (Run S) = record {
        cursors = ranged_cursor_store cursors ((first + 2 ^ 64 - 1) % 2 ^ 64) last chain name;
        hashes = none;
        messages = λ place. inner_messages (messages place);
      } in
      process_chain stores decode chain name no_addresses batch_size no_topics rounds s
