-- ===== src/Indexer/Fork/Detect.antt =====
-- Which forks a check detects.
use akave_crosschain_archive.Base.{
  ℕ, suc, ◌+◌, ◌<◌, ◌≡◌, inl, inr, refl, String, Bool, true, false, not, ◌&&◌, arith, str_eq, some,
  Result, ok, Bool-cases,
}
use akave_crosschain_archive.Indexer.Hashes.{hashes_of}
use akave_crosschain_archive.Indexer.Cursors.{last_block_of, update_row}
use akave_crosschain_archive.Indexer.Storage.{
  Storage, StorageFaults, with_cursors, cursor_store, hash_store,
}
use akave_crosschain_archive.Indexer.Fork.{
  Header, delete_stale, rewind, compare_parent, check_stored, check_and_handle_reorg,
}
use akave_crosschain_archive.Indexer.Fork.Rewind.{check_and_handle_reorg-effect}

module _ (f : StorageFaults) (chain : ℕ) (name : String) (header : ℕ → Result Header) where
  check_unknown :
      (last : ℕ) (s : Storage)
      → f.get_hash 0 last ≡ false
      → hashes_of chain last s.hashes ≡ ("", "")
      → check_and_handle_reorg chain name (cursor_store f) (some (hash_store f)) header (suc last) s
        ≡ (s, ok false)
  unfolding check_and_handle_reorg check_stored hash_store
  check_unknown last s works unknown = rw (works, unknown) refl

  delete_stale_works :
      (broken : Bool) (to : ℕ) (s : Storage)
      → broken ≡ false
      → (delete_stale chain name
          (cursor_store f)
          (hash_store f)
          to
          (with_cursors s (update_row broken chain name to s.cursors))).1
        ≡ ok true
  unfolding delete_stale hash_store
  delete_stale_works true to s h = absurd (ground arith)
  delete_stale_works false to s h = refl

  -- The check of a block reports a rewind if and only if the hash of the block below is recorded
  -- and is not the parent hash of the block. The header is known, and the database does not fail.
  pub check_detects :
      (last : ℕ) (s : Storage) (h : Header)
      → f.get_hash 0 last ≡ false
      → f.update_cursor ≡ false
      → header (suc last) ≡ ok h
      → (check_and_handle_reorg chain name
          (cursor_store f)
          (some (hash_store f))
          header
          (suc last)
          s).1
        ≡ ok (
            not (str_eq (hashes_of chain last s.hashes).0 "")
            && not (str_eq h.parent_hash (hashes_of chain last s.hashes).0))
  unfolding check_and_handle_reorg check_stored compare_parent rewind hash_store cursor_store
  check_detects last s h works writes known =
      elim (Bool-cases (str_eq (hashes_of chain last s.hashes).0 "")) [
        | inl unknown ↦ rw (works, unknown) refl
        | inr recorded ↦
            elim (Bool-cases (str_eq h.parent_hash (hashes_of chain last s.hashes).0)) [
              | inl same ↦ rw (works, recorded, known, same) refl
              | inr forked ↦
                  rw (works, recorded, known, forked)
                    (delete_stale_works f.update_cursor _ s writes)
            ]
      ]

-- A rewind by one protocol on a chain hides the fork from every other one on it whose cursor lies
-- higher: the check of the other's next block finds no record and reports no rewind, whatever the
-- headers are. No deletion and no read of the two checks fails.
pub rewind_hides_fork :
    (f g : StorageFaults) (chain : ℕ) (name other : String) (header later : ℕ → Result Header)
    (from cursor : ℕ) (s s' : Storage)
    → check_and_handle_reorg chain name (cursor_store f) (some (hash_store f)) header from s
      ≡ (s', ok true)
    → f.delete_hashes ≡ false
    → g.get_hash 0 cursor ≡ false
    → last_block_of chain name s'.cursors < cursor
    → check_and_handle_reorg chain other
        (cursor_store g)
        (some (hash_store g))
        later
        (cursor + 1)
        s'
      ≡ (s', ok false)
rewind_hides_fork f g chain name other header later from cursor s s' done deletes reads above =
    let effect = rw done at (check_and_handle_reorg-effect f chain name header from s) in
    let next : cursor + 1 ≡ suc cursor = omega arith in
    rw next
      (check_unknown g chain other later cursor s' reads (effect.deleted deletes cursor above))
