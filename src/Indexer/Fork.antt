-- ===== src/Indexer/Fork.antt =====
-- Detection of chain reorganizations, `checkAndHandleReorg` of internal/indexer/processor.go. What
-- the client answers for a header is a function of the block: a check asks for each block once.
pub mod Walk
pub mod Rewind
pub mod Detect
use akave_crosschain_archive.Base.{
  ℕ, zero, suc, ◌+◌, ◌-◌, String, Bool, true, false, Option, none, some, str_eq, if◌then◌else◌,
  Error, Result, ok, err, context, wrap,
}
use akave_crosschain_archive.Indexer.Cursors.{CursorStore}
use akave_crosschain_archive.Indexer.Hashes.{BlockHashStore}

-- What the loop reads of a header, the hashes as hexadecimal texts.
pub record Header : Type 0 where
  pub hash : String
  pub parent_hash : String
  pub time : ℕ

-- Whether the walk back stops at a block: no record of it, no header, or the same hash.
unfoldable pub stops_at : Result (String × String) → Result Header → Bool
stops_at (err _) h = true
stops_at (ok (stored, _)) (err _) = true
stops_at (ok (stored, _)) (ok h) = if str_eq stored "" then true else str_eq h.hash stored

-- The walk back from a block, to block 0 at the furthest.
unfoldable pub walk_back : (ℕ → Result (String × String)) → (ℕ → Result Header) → ℕ → ℕ
walk_back stored header zero = zero
walk_back stored header (suc n) =
    let further = walk_back stored header n in
    if stops_at (stored (suc n)) (header (suc n)) then suc n else further

module _ {ℓ} {S : Type ℓ} (chain : ℕ) (protocol : String) (cursors : CursorStore S) where
  -- The end of the check: the cursor is set back and the records above it are deleted, where a
  -- failure to delete is only logged.
  unfoldable pub delete_stale : BlockHashStore S → ℕ → S × Result (Unit {0}) → S × Result Bool
  delete_stale hashes to (s, err e) = (s, err (wrap "updating cursor for reorg rewind" e))
  delete_stale hashes to (s, ok _) = ((hashes.delete_block_hashes_from chain (to + 1) s).0, ok true)

  unfoldable pub rewind : BlockHashStore S → ℕ → S → S × Result Bool
  rewind hashes to s = delete_stale hashes to (cursors.update_cursor chain protocol to s)

  unfoldable pub compare_parent :
      BlockHashStore S → (ℕ → Result Header) → ℕ → String → Result Header → S → S × Result Bool
  compare_parent hashes header from stored (err e) s = (s, err (wrap "fetching header for block" e))
  compare_parent hashes header from stored (ok h) s =
      if str_eq h.parent_hash stored
      then (s, ok false)
      else rewind hashes (walk_back (λ n. hashes.get_block_hash 1 chain n s) header (from - 1)) s

  unfoldable pub check_stored :
      BlockHashStore S → (ℕ → Result Header) → ℕ → Result (String × String) → S → S × Result Bool
  check_stored hashes header from (err e) s = (s, err (wrap "getting stored block hash" e))
  check_stored hashes header from (ok (stored, _)) s =
      if str_eq stored ""
      then (s, ok false)
      else compare_parent hashes header from stored (header from) s

  -- `checkAndHandleReorg`: whether the cursor was set back.
  unfoldable pub check_and_handle_reorg :
      Option (BlockHashStore S) → (ℕ → Result Header) → ℕ → S → S × Result Bool
  check_and_handle_reorg none header from s = (s, ok false)
  check_and_handle_reorg (some hashes) header zero s = (s, ok false)
  check_and_handle_reorg (some hashes) header (suc last) s =
      check_stored hashes header (suc last) (hashes.get_block_hash 0 chain last s) s
