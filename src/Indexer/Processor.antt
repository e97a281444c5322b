-- ===== src/Indexer/Processor.antt =====
-- The loop of one chain and protocol, `ProcessChain` of internal/indexer/processor.go, one round at
-- a time. What a round asks of the client, of the decoder and of the clock is its `Round`; the
-- sleeps, the log lines and the metrics are left out.
pub mod Kept
pub mod Others
pub mod Progress
use akave_crosschain_archive.Base.{
  ℕ, zero, suc, ◌+◌, ◌-◌, ◌%◌, ◌^◌, String, Bool, true, false, Option, none, some, List, [], ◌∷◌,
  ltb, leb, ◌==◌, str_eq, if◌then◌else◌, Error, Result, ok, err, wrap, failure, canceled,
}
use akave_crosschain_archive.Base.Int.{ℤ, pos}
use akave_crosschain_archive.Correlator.{MessageStore, process}
use akave_crosschain_archive.Decoder.{RawEvent}
use akave_crosschain_archive.Indexer.Cursors.{CursorStore}
use akave_crosschain_archive.Indexer.Fork.{Header, check_and_handle_reorg}
use akave_crosschain_archive.Indexer.Hashes.{BlockHashStore, BlockHashRecord}

abbrev pub reorg_prune_depth : ℕ
reorg_prune_depth = 256

-- `min`
unfoldable pub min_uint64 : ℕ → ℕ → ℕ
min_uint64 a b = if ltb a b then a else b

-- The stores of the indexer; the message store by the place of the event among a round's logs,
-- and the nil store of block hashes as none.
pub record Stores {ℓ} (S : Type ℓ) : Type ℓ where
  pub cursors : CursorStore S
  pub hashes : Option (BlockHashStore S)
  pub messages : ℕ → MessageStore S

-- The answers of one round: whether the context is done, the confirmed head, the headers of the
-- check for reorganizations, the logs of a range, the timestamp of a block asked for at a log, the
-- headers to be recorded, and the time.
pub record Round {ℓ} (L : Type ℓ) : Type ℓ where
  pub done : Bool
  pub latest : Result ℕ
  pub header : ℕ → Result Header
  pub logs : ℕ → ℕ → Result (List L)
  pub timestamp : ℕ → ℕ → Result ℤ
  pub saved_header : ℕ → Result Header
  pub now : ℕ → ℕ

-- `map[uint64]int64`
abbrev pub Timestamps : Type 0
Timestamps = ℕ → Option ℤ

-- The cache after the lookup for a block: a failure is not kept.
abbrev pub cached : Timestamps → Option ℤ → ℕ → Result ℤ → Timestamps
cached times (some _) block r = times
cached times none block (ok t) = λ b. if b == block then some t else times b
cached times none block (err _) = times

-- A missing key reads as 0.
abbrev pub read_time : Option ℤ → ℤ
read_time none = pos 0
read_time (some t) = t

-- The way on behind a round: the next one with a cursor, or the end with an error.
pub data Next : Type 0 where
  again : ℕ → Next
  stopped : Error → Next

module _ {ℓ κ} {S : Type ℓ} {L : Type κ} (stores : Stores S) (decode : L → Result RawEvent) where
  -- The body of the loop over the logs for a decoded event. A failure to process it is logged.
  unfoldable pub process_event : Round L → ℕ → RawEvent → Timestamps → S → Timestamps × S
  process_event round place event times s =
      let block = event.block_number in
      let times' = cached times (times block) block (round.timestamp place block) in
      let stamped = record event { timestamp = read_time (times' block) } in
      (times', (process (stores.messages place) (round.now place) stamped s).0)

  -- A log that fails to decode is skipped.
  unfoldable pub process_log : Round L → ℕ → Result RawEvent → Timestamps → S → Timestamps × S
  process_log round place (err _) times s = (times, s)
  process_log round place (ok event) times s = process_event round place event times s

  -- The loop over the logs, from the log at a place on.
  unfoldable pub process_logs : Round L → ℕ → List L → Timestamps → S → S
  process_logs round place [] times s = s
  process_logs round place (log ∷ logs) times s =
      let (times', s') = process_log round place (decode log) times s in
      process_logs round (place + 1) logs times' s'

  -- The record of a block, in `storeBlockHashes`.
  unfoldable pub save_header : BlockHashStore S → ℕ → ℕ → Result Header → S → S × Result (Unit {0})
  save_header hashes chain block (err e) s = (s, err (wrap "fetching header for block" e))
  save_header hashes chain block (ok h) s =
      hashes.save_block_hash
        (record {
          chain_id = chain;
          block_number = block;
          block_hash = h.hash;
          parent_hash = h.parent_hash;
        })
        s

  -- `storeBlockHashes`: the first and the last block of a batch, once if they are the same.
  unfoldable pub store_block_hashes :
      BlockHashStore S → Round L → ℕ → ℕ → ℕ → S → S × Result (Unit {0})
  store_block_hashes hashes round chain from to s =
      let (s', r) = save_header hashes chain from (round.saved_header from) s in
      elim r [
        | err e ↦ (s', err e)
        | ok _ ↦
            if from == to
            then (s', ok tt)
            else save_header hashes chain to (round.saved_header to) s'
      ]

  -- The records of a batch and the deletion of the old ones; that either fails is only logged.
  unfoldable pub record_hashes : Option (BlockHashStore S) → Round L → ℕ → ℕ → ℕ → S → S
  record_hashes none round chain from to s = s
  record_hashes (some hashes) round chain from to s =
      let s' = (store_block_hashes hashes round chain from to s).0 in
      if ltb reorg_prune_depth to
      then (hashes.prune_block_hashes chain (to - reorg_prune_depth) s').0
      else s'

  module _ (chain : ℕ) (protocol : String) (no_addresses : Bool) (batch_size : ℕ) where
    -- The end of a round: the cursor moves to the end of the batch.
    abbrev pub cursor_updated : ℕ → S × Result (Unit {0}) → S × Next
    cursor_updated to (s, err e) = (s, stopped (wrap "updating cursor" e))
    cursor_updated to (s, ok _) = (s, again to)

    unfoldable pub move_cursor : ℕ → S → S × Next
    move_cursor to s = cursor_updated to (stores.cursors.update_cursor chain protocol to s)

    unfoldable pub process_batch : Round L → ℕ → ℕ → ℕ → Result (List L) → S → S × Next
    process_batch round cursor from to (err _) s = (s, again cursor)
    process_batch round cursor from to (ok logs) s =
        move_cursor to (
          record_hashes stores.hashes round chain from to (process_logs round 0 logs (λ _. none) s))

    -- The loop reads the cursor again behind a rewind.
    abbrev pub cursor_loaded : S × Result ℕ → S × Next
    cursor_loaded (s, err e) = (s, stopped (wrap "reloading cursor after reorg rewind" e))
    cursor_loaded (s, ok cursor) = (s, again cursor)

    -- What follows the check for reorganizations.
    unfoldable pub after_check : Round L → ℕ → ℕ → ℕ → S × Result Bool → S × Next
    after_check round cursor from to (s, err _) = (s, again cursor)
    after_check round cursor from to (s, ok true) =
        cursor_loaded (stores.cursors.load_cursor chain protocol s)
    after_check round cursor from to (s, ok false) =
        if no_addresses
        then move_cursor to s
        else process_batch round cursor from to (round.logs from to) s

    unfoldable pub with_head : Round L → ℕ → Result ℕ → S → S × Next
    with_head round cursor (err _) s = (s, again cursor)
    with_head round cursor (ok latest) s =
        let from = (cursor + 1) % 2 ^ 64 in
        let to = min_uint64 ((cursor + batch_size) % 2 ^ 64) latest in
        if leb latest cursor
        then (s, again cursor)
        else after_check round cursor from to
            (check_and_handle_reorg chain protocol stores.cursors stores.hashes round.header from s)

    -- One round of the loop, from the test of the context to `continue` or the end of the body.
    unfoldable pub run_round : Round L → ℕ → S → S × Next
    run_round round cursor s =
        if round.done then (s, stopped canceled) else with_head round cursor round.latest s

    -- The loop over the rounds that take place, as far as they go.
    unfoldable pub run_rounds : List (Round L) → ℕ → S → S × Next
    run_rounds [] cursor s = (s, again cursor)
    run_rounds (round ∷ rounds) cursor s =
        let (s', next) = run_round round cursor s in
        elim next [ again cursor' ↦ run_rounds rounds cursor' s' | stopped e ↦ (s', stopped e) ]

    -- `ProcessChain`: a decoder without topics is refused once the cursor is loaded.
    unfoldable pub process_chain : Bool → List (Round L) → S → S × Next
    process_chain no_topics rounds s =
        let (s', r) = stores.cursors.load_cursor chain protocol s in
        elim r [
          | err e ↦ (s', stopped (wrap "loading initial cursor" e))
          | ok cursor ↦
              if no_topics
              then (s', stopped (failure "decoder returned no event topics"))
              else run_rounds rounds cursor s'
        ]
