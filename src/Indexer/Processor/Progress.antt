-- ===== src/Indexer/Processor/Progress.antt =====
-- The cursor through the rounds of the loop.
use akave_crosschain_archive.Base.{
  ℕ, ◌+◌, ◌-◌, ◌%◌, ◌^◌, ◌≤◌, ◌<◌, ◌≡◌, ◌⊎◌, inl, inr, refl, ap, ◌∙◌, String, Bool, true, false,
  none, some, List, [], ◌∷◌, arith, eq_refl, leb, Result, ok, err, if_rule,
}
use akave_crosschain_archive.Database.{Faults}
use akave_crosschain_archive.Decoder.{RawEvent}
use akave_crosschain_archive.Indexer.Cursors.{
  last_block_of, update_row, load_row, last_block_of-set_last_block,
}
use akave_crosschain_archive.Indexer.Fork.Rewind.{
  IsRewound, ReorgEffect, check_and_handle_reorg-effect,
}
use akave_crosschain_archive.Indexer.Processor.{
  Round, Next, again, stopped, process_logs, record_hashes, cursor_updated, cursor_loaded,
  move_cursor, process_batch, after_check, with_head, run_round, run_rounds, min_uint64,
}
use akave_crosschain_archive.Indexer.Processor.Kept.{process_logs-cursors, record_hashes-IsKept}
use akave_crosschain_archive.Indexer.Storage.{
  Storage, StorageFaults, with_cursors, indexer_stores, cursor_store, hash_store,
}

pub min_bounds :
    (a b : ℕ)
    → (min_uint64 a b ≤ a) × (min_uint64 a b ≤ b) × ((min_uint64 a b ≡ a) ⊎ (min_uint64 a b ≡ b))
unfolding min_uint64
min_bounds a b = ground arith

module _ {L : Type 0} (f : StorageFaults) (faults : ℕ → Faults) (server : ℕ → ℕ)
    (decode : L → Result RawEvent) (chain : ℕ) (name : String) (no_addresses : Bool)
    (batch_size : ℕ) where
  abbrev pub saved_cursor : Storage → ℕ
  saved_cursor s = last_block_of chain name s.cursors

  abbrev pub IsConfirmed : Round L → ℕ → Type 0
  IsConfirmed round to = (latest : ℕ) × (round.latest ≡ ok latest) × (to ≤ latest)

  -- The logs of the blocks `from` to `to` are fetched and given to the correlator one by one,
  -- unless there is no address to watch.
  abbrev pub IsHandled : Round L → ℕ → ℕ → Storage → Storage → Type 0
  IsHandled round from to s s' =
      (no_addresses ≡ true) × (s'.messages ≡ s.messages)
      ⊎ (logs : List L) × (round.logs from to ≡ ok logs)
        × (s'.messages
            ≡ (process_logs (indexer_stores f faults server) decode round 0 logs (λ _. none)
                s).messages)

  -- A batch beyond the cursor, up to a confirmed block and no longer than a batch may be.
  pub record IsBatch (round : Round L) (cursor to : ℕ) (s s' : Storage) : Type 0 where
    pub above : cursor < to
    pub short : to ≤ cursor + batch_size
    pub confirmed : IsConfirmed round to
    pub handled : IsHandled round (cursor + 1) to s s'

  -- What a round leaves: a saved cursor that is the loop's, moved only by a batch or back, and if
  -- the loop stops, a saved cursor that is not ahead.
  abbrev pub RoundEffect : Round L → ℕ → Storage → Storage × Next → Type 0
  RoundEffect round cursor s (s', again to) =
      (saved_cursor s' ≡ to)
      × ((to ≤ cursor) × (s'.messages ≡ s.messages) ⊎ IsBatch round cursor to s s')
  RoundEffect round cursor s (s', stopped _) = saved_cursor s' ≤ cursor

  cursor_updated-effect :
      (broken : Bool) (round : Round L) (cursor to : ℕ) (s s' : Storage)
      → saved_cursor s' ≡ cursor
      → IsBatch round cursor to s s'
      → RoundEffect round cursor s (
          cursor_updated
            (indexer_stores f faults server)
            decode
            chain
            name
            no_addresses
            batch_size
            to
            (with_cursors s' (update_row broken chain name to s'.cursors)))
  cursor_updated-effect true round cursor to s s' agree batch = omega arith
  cursor_updated-effect false round cursor to s s' agree batch =
      let set = last_block_of-set_last_block chain chain name name to s'.cursors in
      (
        ground (arith, eq_refl name),
        inr (record {
          above = batch.above;
          short = batch.short;
          confirmed = batch.confirmed;
          handled = batch.handled;
        }),
      )

  process_batch-effect :
      (round : Round L) (cursor to : ℕ) (r : Result (List L)) (s : Storage)
      → saved_cursor s ≡ cursor
      → cursor < to
      → to ≤ cursor + batch_size
      → IsConfirmed round to
      → round.logs (cursor + 1) to ≡ r
      → RoundEffect round cursor s (
          process_batch
            (indexer_stores f faults server)
            decode
            chain
            name
            no_addresses
            batch_size
            round
            cursor
            (cursor + 1)
            to
            r
            s)
  unfolding process_batch move_cursor indexer_stores cursor_store
  process_batch-effect round cursor to (err _) s agree above short confirmed answer =
      (agree, inl (omega arith, refl))
  process_batch-effect round cursor to (ok logs) s agree above short confirmed answer =
      let s₁ = process_logs (indexer_stores f faults server) decode round 0 logs (λ _. none) s in
      let kept = record_hashes-IsKept f faults server decode round chain (cursor + 1) to s₁ in
      let s₂ =
        record_hashes (indexer_stores f faults server) decode (some (hash_store f)) round chain
          (cursor + 1) to s₁ in
      let same = process_logs-cursors f faults server decode round 0 logs (λ _. none) s in
      cursor_updated-effect f.update_cursor round cursor to s s₂
        (ap (last_block_of chain name) (kept.1 ∙ same) ∙ agree)
        (record {
          above = above;
          short = short;
          confirmed = confirmed;
          handled = inr (logs, answer, kept.0);
        })

  cursor_loaded-effect :
      (broken : Bool) (round : Round L) (cursor : ℕ) (s s' : Storage)
      → IsRewound f chain name cursor s s'
      → RoundEffect round cursor s (
          cursor_loaded
            (indexer_stores f faults server)
            decode
            chain
            name
            no_addresses
            batch_size
            (s', load_row broken chain name s'.cursors))
  cursor_loaded-effect true round cursor s s' back = back.back
  cursor_loaded-effect false round cursor s s' back = (refl, inl (back.back, back.messages))

  -- What a check leaves as it is, and what it rewinds.
  after_check-effect :
      (round : Round L) (cursor to : ℕ) (s : Storage) (checked : Storage × Result Bool)
      → saved_cursor s ≡ cursor
      → cursor < to
      → to ≤ cursor + batch_size
      → IsConfirmed round to
      → ReorgEffect f chain name cursor s checked
      → RoundEffect round cursor s (
          after_check
            (indexer_stores f faults server)
            decode
            chain
            name
            no_addresses
            batch_size
            round
            cursor
            (cursor + 1)
            to
            checked)
  unfolding after_check move_cursor indexer_stores cursor_store
  after_check-effect round cursor to s (s', err e) agree above short confirmed same =
      rw same (agree, inl (omega arith, refl))
  after_check-effect round cursor to s (s', ok true) agree above short confirmed back =
      cursor_loaded-effect f.load_cursor round cursor s s' back
  after_check-effect round cursor to s (s', ok false) agree above short confirmed same =
      if_rule (RoundEffect round cursor s) no_addresses
        (λ idle.
          cursor_updated-effect f.update_cursor round cursor to s s' (ap saved_cursor same ∙ agree)
            (record {
              above = above;
              short = short;
              confirmed = confirmed;
              handled = inl (idle, ap (λ x. x.messages) same);
            }))
        (λ busy.
          rw same (process_batch-effect round cursor to _ s agree above short confirmed refl))

  with_head-effect :
      (round : Round L) (cursor : ℕ) (r : Result ℕ) (s : Storage)
      → saved_cursor s ≡ cursor
      → 1 ≤ batch_size
      → cursor + batch_size < 2 ^ 64
      → round.latest ≡ r
      → RoundEffect round cursor s (
          with_head
            (indexer_stores f faults server)
            decode
            chain
            name
            no_addresses
            batch_size
            round
            cursor
            r
            s)
  unfolding with_head indexer_stores cursor_store
  with_head-effect round cursor (err _) s agree some_blocks fits answer =
      (agree, inl (omega arith, refl))
  with_head-effect round cursor (ok latest) s agree some_blocks fits answer =
      let from : (cursor + 1) % 2 ^ 64 ≡ cursor + 1 = omega arith in
      let to = min_uint64 ((cursor + batch_size) % 2 ^ 64) latest in
      let bounds = min_bounds ((cursor + batch_size) % 2 ^ 64) latest in
      let last : cursor + 1 - 1 ≡ cursor = omega arith in
      let checked = check_and_handle_reorg-effect f chain name round.header (cursor + 1) s in
      if_rule (RoundEffect round cursor s) (leb latest cursor)
        (λ caught_up. (agree, inl (omega arith, refl)))
        (λ behind.
          let head : cursor < latest = ground arith in
          rw from (
            after_check-effect round cursor to s _ agree (omega arith) (omega arith)
              (latest, answer, bounds.1) (rw last at checked)))

  -- Where a batch has at least one block and the next one stays below 2^64, a round keeps the saved
  -- cursor equal to the loop's. It moves it forward only past a batch of confirmed blocks whose logs
  -- were all fetched and handed to the correlator, or with nothing fetched and the messages as they
  -- were if there is no address to watch, and otherwise stays or goes back and leaves the messages as
  -- they are. If it stops, the saved cursor is not ahead.
  pub run_round-effect :
      (round : Round L) (cursor : ℕ) (s : Storage)
      → saved_cursor s ≡ cursor
      → 1 ≤ batch_size
      → cursor + batch_size < 2 ^ 64
      → RoundEffect round cursor s (
          run_round
            (indexer_stores f faults server)
            decode
            chain
            name
            no_addresses
            batch_size
            round
            cursor
            s)
  unfolding run_round
  run_round-effect round cursor s agree some_blocks fits =
      if_rule (RoundEffect round cursor s) round.done (λ done. omega arith)
        (λ going. with_head-effect round cursor round.latest s agree some_blocks fits refl)

  -- Every head that a round sees lies a batch below 2^64.
  abbrev pub IsBelow : List (Round L) → Type 0
  IsBelow [] = Unit {0}
  IsBelow (round ∷ rounds) =
      ((latest : ℕ) → round.latest ≡ ok latest → latest + batch_size < 2 ^ 64) × IsBelow rounds

  -- The saved cursor of a loop that still runs is its own; otherwise it has stopped.
  abbrev pub IsSaved : Storage × Next → Type 0
  IsSaved (s, again cursor) = saved_cursor s ≡ cursor
  IsSaved (s, stopped _) = Unit {0}

  pub next_round :
      (round : Round L) (cursor : ℕ) (s s' : Storage) (to : ℕ)
      → cursor + batch_size < 2 ^ 64
      → ((latest : ℕ) → round.latest ≡ ok latest → latest + batch_size < 2 ^ 64)
      → RoundEffect round cursor s (s', again to)
      → to + batch_size < 2 ^ 64
  next_round round cursor s s' to fits heads (_, inl (back, _)) = omega arith
  next_round round cursor s s' to fits heads (_, inr batch) =
      let (latest, answer, below) = batch.confirmed in let head = heads latest answer in omega arith

  after_round :
      (round : Round L) (rounds : List (Round L)) (cursor : ℕ) (s : Storage)
      → cursor + batch_size < 2 ^ 64
      → ((latest : ℕ) → round.latest ≡ ok latest → latest + batch_size < 2 ^ 64)
      → ((to : ℕ) (s' : Storage)
          → saved_cursor s' ≡ to
          → to + batch_size < 2 ^ 64
          → IsSaved (
              run_rounds
                (indexer_stores f faults server)
                decode
                chain
                name
                no_addresses
                batch_size
                rounds
                to
                s'))
      → (out : Storage × Next) → RoundEffect round cursor s out
      → IsSaved (elim out.1 [
        | again cursor' ↦
            run_rounds
              (indexer_stores f faults server)
              decode
              chain
              name
              no_addresses
              batch_size
              rounds
              cursor'
              out.0
        | stopped e ↦ (out.0, stopped e)
      ])
  after_round round rounds cursor s fits head rest (s', again to) effect =
      rest to s' effect.0 (next_round round cursor s s' to fits head effect)
  after_round round rounds cursor s fits head rest (s', stopped _) effect = tt

  -- Through any rounds, rewinds and failures included, the saved cursor is the loop's until the
  -- loop stops, where every head lies a batch below 2^64.
  pub run_rounds-IsSaved :
      (rounds : List (Round L)) (cursor : ℕ) (s : Storage)
      → saved_cursor s ≡ cursor
      → 1 ≤ batch_size
      → cursor + batch_size < 2 ^ 64
      → IsBelow rounds
      → IsSaved (
          run_rounds
            (indexer_stores f faults server)
            decode
            chain
            name
            no_addresses
            batch_size
            rounds
            cursor
            s)
  unfolding run_rounds
  run_rounds-IsSaved [] cursor s agree some_blocks fits heads = agree
  run_rounds-IsSaved (round ∷ rounds) cursor s agree some_blocks fits (head, heads) =
      after_round round rounds cursor s fits head
        (λ to s' same low. run_rounds-IsSaved rounds to s' same some_blocks low heads) _
        (run_round-effect round cursor s agree some_blocks fits)
