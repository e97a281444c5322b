-- ===== src/Indexer/Hashes.antt =====
-- The stored block hashes, of internal/indexer/block_hash_store.go and the table block_hashes of
-- migrations/000005_add_block_hashes.up.sql, whose key is the chain and the block number.
use akave_crosschain_archive.Base.{
  ℕ, String, Bool, true, false, ◌&&◌, List, [], ◌∷◌, ◌≡◌, arith, ltb, leb, ◌==◌, if◌then◌else◌,
  Result, ok, err, failure,
}
use akave_crosschain_archive.Database.{exec}

pub record BlockHashRecord : Type 0 where
  pub chain_id : ℕ
  pub block_number : ℕ
  pub block_hash : String
  pub parent_hash : String

-- `BlockHashStore`. The first argument of a read tells apart the reads of one block in one round
-- of the loop, which may fail each on its own.
pub record BlockHashStore {ℓ} (S : Type ℓ) : Type ℓ where
  pub save_block_hash : BlockHashRecord → S → S × Result (Unit {0})
  pub get_block_hash : ℕ → ℕ → ℕ → S → Result (String × String)
  pub prune_block_hashes : ℕ → ℕ → S → S × Result (Unit {0})
  pub delete_block_hashes_from : ℕ → ℕ → S → S × Result (Unit {0})

abbrev pub is_block : ℕ → ℕ → BlockHashRecord → Bool
is_block chain block r = (r.chain_id == chain) && (r.block_number == block)

-- SELECT block_hash, parent_hash …; two empty texts where there is no row
unfoldable pub hashes_of : ℕ → ℕ → List BlockHashRecord → String × String
hashes_of chain block [] = ("", "")
hashes_of chain block (r ∷ rs) =
    if is_block chain block r then (r.block_hash, r.parent_hash) else hashes_of chain block rs

-- INSERT … ON CONFLICT (chain_id, block_number) DO UPDATE …
unfoldable pub insert_hash : BlockHashRecord → List BlockHashRecord → List BlockHashRecord
insert_hash new [] = new ∷ []
insert_hash new (r ∷ rs) =
    if is_block new.chain_id new.block_number r
    then record r { block_hash = new.block_hash; parent_hash = new.parent_hash } ∷ rs
    else r ∷ insert_hash new rs

-- DELETE … WHERE chain_id = … AND a test of the block number
unfoldable pub delete_where : ℕ → (ℕ → Bool) → List BlockHashRecord → List BlockHashRecord
delete_where chain test [] = []
delete_where chain test (r ∷ rs) =
    if (r.chain_id == chain) && test r.block_number
    then delete_where chain test rs
    else r ∷ delete_where chain test rs

-- The methods of `PostgresBlockHashStore`
abbrev pub exec_on :
    Bool
    → (List BlockHashRecord → List BlockHashRecord)
    → List BlockHashRecord
    → List BlockHashRecord × Result (Unit {0})
exec_on true f rs = (rs, err (failure "database"))
exec_on false f rs = (f rs, ok tt)

abbrev pub save_row :
    Bool → BlockHashRecord → List BlockHashRecord → List BlockHashRecord × Result (Unit {0})
save_row broken new = exec_on broken (insert_hash new)

abbrev pub get_row : Bool → ℕ → ℕ → List BlockHashRecord → Result (String × String)
get_row broken chain block rs = exec "getting block hash" broken (ok (hashes_of chain block rs))

abbrev pub prune_rows :
    Bool → ℕ → ℕ → List BlockHashRecord → List BlockHashRecord × Result (Unit {0})
prune_rows broken chain keep_below = exec_on broken (delete_where chain (λ n. ltb n keep_below))

abbrev pub delete_rows :
    Bool → ℕ → ℕ → List BlockHashRecord → List BlockHashRecord × Result (Unit {0})
delete_rows broken chain from = exec_on broken (delete_where chain (λ n. leb from n))

pub hashes_of-insert_hash :
    (chain block : ℕ) (new : BlockHashRecord) (rs : List BlockHashRecord)
    → hashes_of chain block (insert_hash new rs) ≡ (
        if is_block chain block new
        then (new.block_hash, new.parent_hash)
        else hashes_of chain block rs)
unfolding hashes_of insert_hash
hashes_of-insert_hash chain block new [] = ground arith
hashes_of-insert_hash chain block new (r ∷ rs) =
    ground (arith, hashes_of-insert_hash chain block new rs)

-- A deleted record reads as empty, and every other one stays.
pub hashes_of-delete_where :
    (chain other block : ℕ) (test : ℕ → Bool) (rs : List BlockHashRecord)
    → hashes_of other block (delete_where chain test rs)
      ≡ (if (chain == other) && test block then ("", "") else hashes_of other block rs)
unfolding hashes_of delete_where
hashes_of-delete_where chain other block test [] = ground arith
hashes_of-delete_where chain other block test (r ∷ rs) =
    ground (arith, hashes_of-delete_where chain other block test rs)
