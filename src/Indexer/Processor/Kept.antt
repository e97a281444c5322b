-- ===== src/Indexer/Processor/Kept.antt =====
-- What the parts of a round leave alone: logs the cursors, block hashes the messages and the cursors.
use akave_crosschain_archive.Base.{
  ℕ, ◌+◌, ◌-◌, ◌≡◌, inl, inr, refl, ◌∙◌, some, List, [], ◌∷◌, ltb, ◌==◌, Result, ok, err,
  Result-cases, Bool-cases,
}
use akave_crosschain_archive.Correlator.{process}
use akave_crosschain_archive.Correlator.Rule.{process_rule}
use akave_crosschain_archive.Database.{Faults}
use akave_crosschain_archive.Decoder.{RawEvent}
use akave_crosschain_archive.Indexer.Fork.{Header}
use akave_crosschain_archive.Indexer.Processor.{
  Round, Timestamps, process_event, process_log, process_logs, save_header, store_block_hashes,
  record_hashes,
}
use akave_crosschain_archive.Indexer.Storage.{
  Storage, StorageFaults, indexer_stores, hash_store, message_store,
}

process-cursors :
    (f : Faults) (server : ℕ) (now : ℕ) (e : RawEvent) (s : Storage)
    → (process (message_store f server) now e s).0.cursors ≡ s.cursors
unfolding message_store
process-cursors f server now e s =
    process_rule (message_store f server) (λ s s'. s'.cursors ≡ s.cursors) (λ s. refl) now e
      (λ n s done new. refl) (λ key m d set s found final. refl) s

module _ {κ} {L : Type κ} (f : StorageFaults) (faults : ℕ → Faults) (server : ℕ → ℕ)
    (decode : L → Result RawEvent) where
  process_log-cursors :
      (round : Round L) (place : ℕ) (r : Result RawEvent) (times : Timestamps) (s : Storage)
      → (process_log (indexer_stores f faults server) decode round place r times s).1.cursors
        ≡ s.cursors
  unfolding process_log process_event indexer_stores
  process_log-cursors round place (err _) times s = refl
  process_log-cursors round place (ok event) times s =
      process-cursors (faults place) (server place) (round.now place) _ s

  pub process_logs-cursors :
      (round : Round L) (place : ℕ) (logs : List L) (times : Timestamps) (s : Storage)
      → (process_logs (indexer_stores f faults server) decode round place logs times s).cursors
        ≡ s.cursors
  unfolding process_logs
  process_logs-cursors round place [] times s = refl
  process_logs-cursors round place (log ∷ logs) times s =
      let one =
        process_log (indexer_stores f faults server) decode round place (decode log) times s in
      process_logs-cursors round (place + 1) logs one.0 one.1
      ∙ process_log-cursors round place (decode log) times s

  abbrev pub IsKept : Storage → Storage → Type 0
  IsKept s s' = (s'.messages ≡ s.messages) × (s'.cursors ≡ s.cursors)

  save_header-IsKept :
      (chain block : ℕ) (h : Result Header) (s : Storage)
      → IsKept s
          (save_header (indexer_stores f faults server) decode (hash_store f) chain block h s).0
  unfolding save_header hash_store
  save_header-IsKept chain block (err e) s = (refl, refl)
  save_header-IsKept chain block (ok h) s = (refl, refl)

  store_block_hashes-IsKept :
      (round : Round L) (chain from to : ℕ) (s : Storage)
      → IsKept s
          (store_block_hashes
            (indexer_stores f faults server)
            decode
            (hash_store f)
            round
            chain
            from
            to
            s).0
  unfolding store_block_hashes
  store_block_hashes-IsKept round chain from to s =
      let save = save_header (indexer_stores f faults server) decode (hash_store f) chain in
      let first = save from (round.saved_header from) s in
      let kept = save_header-IsKept chain from (round.saved_header from) s in
      elim (Result-cases first.1) [
        | inr (e, refused) ↦ rw (refused, store_block_hashes) kept
        | inl (_, saved) ↦ elim (Bool-cases (from == to)) [
          | inl one ↦ rw (saved, one, store_block_hashes) kept
          | inr two ↦
              let last = save_header-IsKept chain to (round.saved_header to) first.0 in
              rw (saved, two, store_block_hashes) (last.0 ∙ kept.0, last.1 ∙ kept.1)
        ]
      ]

  prune-IsKept :
      (chain keep_below : ℕ) (s : Storage)
      → IsKept s ((hash_store f).prune_block_hashes chain keep_below s).0
  unfolding hash_store
  prune-IsKept chain keep_below s = (refl, refl)

  pub record_hashes-IsKept :
      (round : Round L) (chain from to : ℕ) (s : Storage)
      → IsKept s (
          record_hashes
            (indexer_stores f faults server)
            decode
            (some (hash_store f))
            round
            chain
            from
            to
            s)
  unfolding record_hashes
  record_hashes-IsKept round chain from to s =
      let kept = store_block_hashes-IsKept round chain from to s in
      elim (Bool-cases (ltb 256 to)) [
        | inl old ↦
            let pruned =
              prune-IsKept chain (to - 256)
                (store_block_hashes (indexer_stores f faults server) decode (hash_store f) round
                  chain from to s).0 in
            rw (old, record_hashes) (pruned.0 ∙ kept.0, pruned.1 ∙ kept.1)
        | inr young ↦ rw (young, record_hashes) kept
      ]
