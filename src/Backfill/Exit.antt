-- ===== src/Backfill/Exit.antt =====
-- How a backfill ends.
use akave_crosschain_archive.Base.{
  ℕ, ◌+◌, ◌%◌, ◌^◌, leb, ◌≡◌, refl, subst, String, Bool, true, false, List, [], ◌∷◌, arith, Error,
  failure, Result, ok, err, wrap, canceled, if_rule, Bool-cases, inl, inr, Result-cases,
}
use akave_crosschain_archive.Backfill.{Run, exit_code, backfill}
use akave_crosschain_archive.Correlator.{MessageStore}
use akave_crosschain_archive.Decoder.{RawEvent}
use akave_crosschain_archive.Indexer.Cursors.{CursorStore}
use akave_crosschain_archive.Indexer.Fork.{check_and_handle_reorg}
use akave_crosschain_archive.Indexer.Processor.{
  min_uint64, Stores, Round, Next, again, stopped, process_batch, move_cursor, cursor_updated,
  cursor_loaded, after_check, with_head, run_round, run_rounds, process_chain,
}

-- An end that a done context is not the cause of.
abbrev IsOther {ℓ} : {S : Type ℓ} → S × Next → Type 0
IsOther (_, again _) = Unit {0}
IsOther (_, stopped canceled) = ⊥
IsOther (_, stopped _) = Unit {0}

-- No round finds its context done.
abbrev pub IsQuiet {κ} : {L : Type κ} → List (Round L) → Type 0
IsQuiet [] = Unit {0}
IsQuiet (round ∷ rounds) = (round.done ≡ false) × IsQuiet rounds

module _ {ℓ κ} {S : Type ℓ} {L : Type κ} (stores : Stores S) (decode : L → Result RawEvent)
    (chain : ℕ) (name : String) (no_addresses : Bool) (batch_size : ℕ) where
  cursor_updated-IsOther :
      (to : ℕ) (r : S × Result (Unit {0}))
      → IsOther (cursor_updated stores decode chain name no_addresses batch_size to r)
  cursor_updated-IsOther to (s, err e) = tt
  cursor_updated-IsOther to (s, ok _) = tt

  process_batch-IsOther :
      (round : Round L) (cursor from to : ℕ) (r : Result (List L)) (s : S)
      → IsOther
          (process_batch stores decode chain name no_addresses batch_size round cursor from to r s)
  unfolding process_batch move_cursor
  process_batch-IsOther round cursor from to (err e) s = tt
  process_batch-IsOther round cursor from to (ok logs) s = cursor_updated-IsOther to _

  cursor_loaded-IsOther :
      (r : S × Result ℕ)
      → IsOther (cursor_loaded stores decode chain name no_addresses batch_size r)
  cursor_loaded-IsOther (s, err e) = tt
  cursor_loaded-IsOther (s, ok _) = tt

  after_check-IsOther :
      (round : Round L) (cursor from to : ℕ) (r : S × Result Bool)
      → IsOther
          (after_check stores decode chain name no_addresses batch_size round cursor from to r)
  unfolding after_check move_cursor
  after_check-IsOther round cursor from to (s, err e) = tt
  after_check-IsOther round cursor from to (s, ok true) = cursor_loaded-IsOther _
  after_check-IsOther round cursor from to (s, ok false) =
      if_rule IsOther no_addresses (λ idle. cursor_updated-IsOther to _)
        (λ busy. process_batch-IsOther round cursor from to _ s)

  with_head-IsOther :
      (round : Round L) (cursor : ℕ) (r : Result ℕ) (s : S)
      → IsOther (with_head stores decode chain name no_addresses batch_size round cursor r s)
  unfolding with_head
  with_head-IsOther round cursor (err e) s = tt
  with_head-IsOther round cursor (ok latest) s =
      let from = (cursor + 1) % 2 ^ 64 in
      let to = min_uint64 ((cursor + batch_size) % 2 ^ 64) latest in
      let checked =
        check_and_handle_reorg chain name stores.cursors stores.hashes round.header from s in
      if_rule (IsOther {S = S}) (leb latest cursor) {x = (s, again cursor)}
        {y = after_check stores decode chain name no_addresses batch_size round cursor from to
          checked}
        (λ up. tt) (λ behind. after_check-IsOther round cursor from to checked)

  run_round-IsOther :
      (round : Round L) (cursor : ℕ) (s : S)
      → round.done ≡ false
      → IsOther (run_round stores decode chain name no_addresses batch_size round cursor s)
  unfolding run_round
  run_round-IsOther round cursor s going =
      if_rule IsOther round.done (λ done. absurd (ground arith))
        (λ more. with_head-IsOther round cursor round.latest s)

  after_round-IsOther :
      (rounds : List (Round L))
      → ((cursor : ℕ) (s : S)
          → IsOther (run_rounds stores decode chain name no_addresses batch_size rounds cursor s))
      → (out : S × Next) → IsOther out
      → IsOther (elim out.1 as (λ _. S × Next) [
        | again cursor ↦
            run_rounds stores decode chain name no_addresses batch_size rounds cursor out.0
        | stopped e ↦ (out.0, stopped e)
      ])
  after_round-IsOther rounds rest (s, again cursor) h = rest cursor s
  after_round-IsOther rounds rest (s, stopped e) h = h

  run_rounds-IsOther :
      (rounds : List (Round L)) (cursor : ℕ) (s : S)
      → IsQuiet rounds
      → IsOther (run_rounds stores decode chain name no_addresses batch_size rounds cursor s)
  unfolding run_rounds
  run_rounds-IsOther [] cursor s quiet = tt
  run_rounds-IsOther (round ∷ rounds) cursor s (going, quiet) =
      after_round-IsOther rounds (λ c t. run_rounds-IsOther rounds c t quiet) _
        (run_round-IsOther round cursor s going)

  process_chain-IsOther :
      (no_topics : Bool) (rounds : List (Round L)) (s : S)
      → IsQuiet rounds
      → IsOther (process_chain stores decode chain name no_addresses batch_size no_topics rounds s)
  unfolding process_chain
  process_chain-IsOther no_topics rounds s quiet =
      let loaded = stores.cursors.load_cursor chain name s in
      elim (Result-cases loaded.1) [
        | inr (e, refused) ↦ rw (refused, process_chain) tt
        | inl (cursor, read) ↦ elim (Bool-cases no_topics) [
          | inl bad ↦ rw (read, bad, process_chain) tt
          | inr good ↦
              rw (read, good, process_chain) (run_rounds-IsOther rounds cursor loaded.0 quiet)
        ]
      ]

IsOther-exit_code {ℓ} : {S : Type ℓ} (s : S) (e : Error) → IsOther (s, stopped e) → exit_code e ≡ 1
unfolding exit_code
IsOther-exit_code s canceled h = absurd h
IsOther-exit_code s (failure m) h = refl
IsOther-exit_code s (wrap m e) h = refl

module _ {ℓ κ} {S : Type ℓ} {L : Type κ} (cursors : CursorStore S) (messages : ℕ → MessageStore S)
    (decode : L → Result RawEvent) (chain : ℕ) (name : String) (no_addresses : Bool)
    (batch_size : ℕ) where
  -- A backfill that ends without a signal exits with 1, also where it has reached its last block.
  pub backfill_exits_with_error :
      (first last : ℕ) (no_topics : Bool) (rounds : List (Round L)) (s s' : Run S) (e : Error)
      → IsQuiet rounds
      → backfill cursors messages decode chain name no_addresses batch_size first last no_topics
          rounds s
        ≡ (s', stopped e)
      → exit_code e ≡ 1
  unfolding backfill
  backfill_exits_with_error first last no_topics rounds s s' e quiet ended =
      IsOther-exit_code s' e (
        subst IsOther ended (
          process_chain-IsOther _ decode chain name no_addresses batch_size no_topics rounds s
            quiet))
