-- ===== src/Indexer/Processor/Others.antt =====
-- What a round leaves alone: the cursors of all other chains and protocols.
use akave_crosschain_archive.Base.{
  ℕ, ◌+◌, ◌-◌, ◌%◌, ◌^◌, ◌≡◌, ◌≢◌, ◌⊎◌, refl, ap, ◌∙◌, String, Bool, true, false, none, List, arith,
  eq_iff, leb, Result, ok, err, if_rule,
}
use akave_crosschain_archive.Database.{Faults}
use akave_crosschain_archive.Decoder.{RawEvent}
use akave_crosschain_archive.Indexer.Cursors.{
  last_block_of, update_row, last_block_of-set_last_block,
}
use akave_crosschain_archive.Indexer.Fork.Rewind.{ReorgEffect, check_and_handle_reorg-effect}
use akave_crosschain_archive.Indexer.Processor.{
  Round, Next, move_cursor, process_logs, cursor_updated, cursor_loaded, process_batch, after_check,
  with_head, run_round, min_uint64,
}
use akave_crosschain_archive.Indexer.Processor.Kept.{process_logs-cursors, record_hashes-IsKept}
use akave_crosschain_archive.Indexer.Storage.{
  Storage, StorageFaults, with_cursors, indexer_stores, cursor_store,
}

-- Every cursor but that of the chain and the protocol is as it was.
abbrev pub IsAlone : ℕ → String → Storage → Storage → Type 0
IsAlone chain name s s' =
    (other : ℕ) (word : String)
    → (other ≢ chain) ⊎ (word ≢ name)
    → last_block_of other word s'.cursors ≡ last_block_of other word s.cursors

module _ {L : Type 0} (f : StorageFaults) (faults : ℕ → Faults) (server : ℕ → ℕ)
    (decode : L → Result RawEvent) (chain : ℕ) (name : String) (no_addresses : Bool)
    (batch_size : ℕ) where
  abbrev pub KeepsOthers : Storage → Storage × Next → Type 0
  KeepsOthers s out = IsAlone chain name s out.0

  cursor_updated-KeepsOthers :
      (broken : Bool) (to : ℕ) (s s' : Storage)
      → s'.cursors ≡ s.cursors
      → KeepsOthers s (
          cursor_updated
            (indexer_stores f faults server)
            decode
            chain
            name
            no_addresses
            batch_size
            to
            (with_cursors s' (update_row broken chain name to s'.cursors)))
  cursor_updated-KeepsOthers true to s s' same other word apart = ap (last_block_of other word) same
  cursor_updated-KeepsOthers false to s s' same other word apart = ground (
    arith,
    eq_iff name word,
    last_block_of-set_last_block chain other name word to s'.cursors,
    ap (last_block_of other word) same,
  )

  process_batch-KeepsOthers :
      (round : Round L) (cursor from to : ℕ) (r : Result (List L)) (s : Storage)
      → KeepsOthers s (
          process_batch
            (indexer_stores f faults server)
            decode
            chain
            name
            no_addresses
            batch_size
            round
            cursor
            from
            to
            r
            s)
  unfolding process_batch move_cursor indexer_stores cursor_store
  process_batch-KeepsOthers round cursor from to (err _) s = λ other word apart. refl
  process_batch-KeepsOthers round cursor from to (ok logs) s =
      let s₁ = process_logs (indexer_stores f faults server) decode round 0 logs (λ _. none) s in
      let kept = record_hashes-IsKept f faults server decode round chain from to s₁ in
      cursor_updated-KeepsOthers f.update_cursor to s _
        (kept.1 ∙ process_logs-cursors f faults server decode round 0 logs (λ _. none) s)

  cursor_loaded-KeepsOthers :
      (r : Result ℕ) (s s' : Storage)
      → IsAlone chain name s s'
      → KeepsOthers s (
          cursor_loaded
            (indexer_stores f faults server)
            decode
            chain
            name
            no_addresses
            batch_size
            (s', r))
  cursor_loaded-KeepsOthers (err e) s s' kept = kept
  cursor_loaded-KeepsOthers (ok cursor) s s' kept = kept

  after_check-KeepsOthers :
      (round : Round L) (cursor from to last : ℕ) (s : Storage) (checked : Storage × Result Bool)
      → ReorgEffect f chain name last s checked
      → KeepsOthers s (
          after_check
            (indexer_stores f faults server)
            decode
            chain
            name
            no_addresses
            batch_size
            round
            cursor
            from
            to
            checked)
  unfolding after_check move_cursor indexer_stores cursor_store
  after_check-KeepsOthers round cursor from to last s (s', err e) same =
      λ other word apart. ap (λ x. last_block_of other word x.cursors) same
  after_check-KeepsOthers round cursor from to last s (s', ok true) back =
      cursor_loaded-KeepsOthers _ s s' back.other_cursors
  after_check-KeepsOthers round cursor from to last s (s', ok false) same =
      if_rule (KeepsOthers s) no_addresses
        (λ idle. cursor_updated-KeepsOthers f.update_cursor to s s' (ap (λ x. x.cursors) same))
        (λ busy. rw same (process_batch-KeepsOthers round cursor from to _ s))

  with_head-KeepsOthers :
      (round : Round L) (cursor : ℕ) (r : Result ℕ) (s : Storage)
      → KeepsOthers s (
          with_head
            (indexer_stores f faults server)
            decode
            chain
            name
            no_addresses
            batch_size
            round
            cursor
            r
            s)
  unfolding with_head indexer_stores cursor_store
  with_head-KeepsOthers round cursor (err _) s = λ other word apart. refl
  with_head-KeepsOthers round cursor (ok latest) s =
      let from = (cursor + 1) % 2 ^ 64 in
      let to = min_uint64 ((cursor + batch_size) % 2 ^ 64) latest in
      if_rule (KeepsOthers s) (leb latest cursor) (λ caught_up other word apart. refl)
        (λ behind.
          after_check-KeepsOthers round cursor from to (from - 1) s _
            (check_and_handle_reorg-effect f chain name round.header from s))

  pub run_round-KeepsOthers :
      (round : Round L) (cursor : ℕ) (s : Storage)
      → KeepsOthers s (
          run_round
            (indexer_stores f faults server)
            decode
            chain
            name
            no_addresses
            batch_size
            round
            cursor
            s)
  unfolding run_round
  run_round-KeepsOthers round cursor s =
      if_rule (KeepsOthers s) round.done (λ done other word apart. refl)
        (λ going. with_head-KeepsOthers round cursor round.latest s)
