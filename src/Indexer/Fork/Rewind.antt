-- ===== src/Indexer/Fork/Rewind.antt =====
-- What a check for reorganizations leaves in the stores.
use akave_crosschain_archive.Base.{
  ℕ, zero, suc, ◌+◌, ◌-◌, ◌≤◌, ◌<◌, ◌≡◌, ◌≢◌, ◌⊎◌, inl, inr, refl, String, Bool, true, false, arith,
  str_eq, eq_iff, eq_refl, some, Result, ok, err, Bool-cases, if◌then◌else◌, ◌∙◌, leb, ◌==◌, ◌&&◌,
  List,
}
use akave_crosschain_archive.Indexer.Cursors.{
  update_row, last_block_of, set_last_block, last_block_of-set_last_block,
}
use akave_crosschain_archive.Indexer.Hashes.{
  BlockHashRecord, hashes_of, delete_rows, hashes_of-delete_where,
}
use akave_crosschain_archive.Indexer.Storage.{
  Storage, StorageFaults, with_cursors, cursor_store, hash_store,
}
use akave_crosschain_archive.Indexer.Fork.{
  Header, delete_stale, rewind, compare_parent, check_stored, check_and_handle_reorg,
}
use akave_crosschain_archive.Indexer.Fork.Walk.{walk_back_lem}

module _ (f : StorageFaults) (chain : ℕ) (name : String) where
  -- The state behind a rewind of the cursor to a block at or below `last`.
  pub record IsRewound (last : ℕ) (s s' : Storage) : Type 0 where
    pub messages : s'.messages ≡ s.messages
    pub back : last_block_of chain name s'.cursors ≤ last
    pub other_cursors :
        (other : ℕ) (word : String)
        → (other ≢ chain) ⊎ (word ≢ name)
        → last_block_of other word s'.cursors ≡ last_block_of other word s.cursors
    pub deleted :
        f.delete_hashes ≡ false
        → (b : ℕ) → last_block_of chain name s'.cursors < b
        → hashes_of chain b s'.hashes ≡ ("", "")
    pub kept :
        (b : ℕ)
        → b ≤ last_block_of chain name s'.cursors
        → hashes_of chain b s'.hashes ≡ hashes_of chain b s.hashes
    pub other_hashes :
        (other b : ℕ) → other ≢ chain → hashes_of other b s'.hashes ≡ hashes_of other b s.hashes

  -- A check that reports a rewind has made one, and any other leaves the state as it is.
  abbrev pub ReorgEffect : ℕ → Storage → Storage × Result Bool → Type 0
  ReorgEffect last s (s', ok true) = IsRewound last s s'
  ReorgEffect last s (s', ok false) = s' ≡ s
  ReorgEffect last s (s', err _) = s' ≡ s

  delete_cases :
      (broken : Bool) (from other b : ℕ) (rs : List BlockHashRecord)
      → hashes_of other b (delete_rows broken chain from rs).0 ≡ (
          if broken
          then hashes_of other b rs
          else if (chain == other) && leb from b
          then ("", "")
          else hashes_of other b rs)
  delete_cases true from other b rs = refl
  delete_cases false from other b rs = hashes_of-delete_where chain other b (leb from) rs

  rewound :
      (last to : ℕ) (s : Storage)
      → to ≤ last
      → IsRewound last s (record s {
        cursors = set_last_block chain name to s.cursors;
        hashes = (delete_rows f.delete_hashes chain (to + 1) s.hashes).0;
      })
  rewound last to s below =
      let set : last_block_of chain name (set_last_block chain name to s.cursors) ≡ to =
        ground
          (arith, eq_refl name, last_block_of-set_last_block chain chain name name to s.cursors) in
      let rows = delete_cases f.delete_hashes (to + 1) in
      record {
        messages = refl;
        back = rw set below;
        other_cursors = λ other word apart. ground (
          arith,
          eq_iff name word,
          last_block_of-set_last_block chain other name word to s.cursors,
        );
        deleted = λ works b above.
            let above' : to < b = rw set at above in rows chain b s.hashes ∙ ground arith;
        kept = λ b low. let low' : b ≤ to = rw set at low in rows chain b s.hashes ∙ ground arith;
        other_hashes = λ other b apart. rows other b s.hashes ∙ ground arith;
      }

  delete_stale-effect :
      (broken : Bool) (last to : ℕ) (s : Storage)
      → to ≤ last
      → ReorgEffect last s (
          delete_stale chain name
            (cursor_store f)
            (hash_store f)
            to
            (with_cursors s (update_row broken chain name to s.cursors)))
  unfolding delete_stale hash_store
  delete_stale-effect true last to s below = refl
  delete_stale-effect false last to s below = rewound last to s below

  compare_parent-effect :
      (header : ℕ → Result Header) (from : ℕ) (stored : String) (h : Result Header) (s : Storage)
      → ReorgEffect
          (from - 1)
          s
          (compare_parent chain name (cursor_store f) (hash_store f) header from stored h s)
  unfolding compare_parent rewind cursor_store
  compare_parent-effect header from stored (err e) s = refl
  compare_parent-effect header from stored (ok h) s =
      elim (Bool-cases (str_eq h.parent_hash stored)) [
        | inl same ↦ rw (same, compare_parent) refl
        | inr forked ↦
            let walk =
              walk_back_lem (λ n. (hash_store f).get_block_hash 1 chain n s) header (from - 1) in
            rw (forked, compare_parent) (delete_stale-effect f.update_cursor (from - 1) _ s walk.0)
      ]

  check_stored-effect :
      (header : ℕ → Result Header) (from : ℕ) (r : Result (String × String)) (s : Storage)
      → ReorgEffect
          (from - 1)
          s
          (check_stored chain name (cursor_store f) (hash_store f) header from r s)
  unfolding check_stored
  check_stored-effect header from (err e) s = refl
  check_stored-effect header from (ok (stored, _)) s = elim (Bool-cases (str_eq stored "")) [
    | inl unknown ↦ rw (unknown, check_stored) refl
    | inr known ↦
        rw (known, check_stored) (compare_parent-effect header from stored (header from) s)
  ]

  -- A check that reports a rewind has set the cursor of the chain and protocol back to a block
  -- below the checked one, keeps every other cursor, the messages, and the hashes up to that block
  -- and of other chains, and deletes the hashes above unless the deletion fails. A check that
  -- reports none, or an error, leaves the state as it is.
  pub check_and_handle_reorg-effect :
      (header : ℕ → Result Header) (from : ℕ) (s : Storage)
      → ReorgEffect
          (from - 1)
          s
          (check_and_handle_reorg chain name (cursor_store f) (some (hash_store f)) header from s)
  unfolding check_and_handle_reorg
  check_and_handle_reorg-effect header zero s = refl
  check_and_handle_reorg-effect header (suc last) s =
      check_stored-effect header (suc last) ((hash_store f).get_block_hash 0 chain last s) s
