-- ===== src/Indexer/Start/Interleaved.antt =====
-- The loops side by side over one database: a turn is one round of one loop, or the loading of its
-- cursor. The stores, their faults and the answers may differ from turn to turn.
use akave_crosschain_archive.Base.{
  ℕ, ◌+◌, ◌^◌, ◌<◌, ◌≡◌, ◌≢◌, ◌⊎◌, String, List, [], ◌∷◌, Result, ok, All,
}
use akave_crosschain_archive.Database.{Faults}
use akave_crosschain_archive.Decoder.{RawEvent}
use akave_crosschain_archive.Indexer.Cursors.{last_block_of}
use akave_crosschain_archive.Indexer.Processor.{Round, again, stopped, run_round, process_chain}
use akave_crosschain_archive.Indexer.Start.{Loop, LoopState, starting, running}
use akave_crosschain_archive.Indexer.Storage.{Storage, StorageFaults, indexer_stores}

-- The loop is of another chain or of another protocol.
abbrev pub IsApart : ℕ → String → Loop → Type 0
IsApart chain name l = (chain ≢ l.chain_id) ⊎ (name ≢ l.protocol)

-- No two loops are of the same chain and protocol.
abbrev pub AreApart : List Loop → Type 0
AreApart [] = Unit
AreApart (l ∷ ls) = All (IsApart l.chain_id l.protocol) ls × AreApart ls

module _ {L : Type 0} (decode : String → L → Result RawEvent) (batch_size : ℕ) where
  -- A batch beyond the block stays below 2^64.
  abbrev pub IsLow : ℕ → Type 0
  IsLow block = block + batch_size < 2 ^ 64

  -- What one loop does: `process_chain` up to its first round, or one round.
  pub data LoopStep (s : Storage) (l : Loop) : Storage → LoopState → Type 0 where
    load :
        (f : StorageFaults) (faults : ℕ → Faults) (server : ℕ → ℕ)
        → l.state ≡ starting
        → IsLow (last_block_of l.chain_id l.protocol s.cursors)
        → LoopStep s l
            (process_chain
              (indexer_stores f faults server)
              (decode l.protocol)
              l.chain_id
              l.protocol
              l.no_addresses
              batch_size
              l.no_topics
              []
              s).0
            (running
              (process_chain
                (indexer_stores f faults server)
                (decode l.protocol)
                l.chain_id
                l.protocol
                l.no_addresses
                batch_size
                l.no_topics
                []
                s).1)
    round :
        (f : StorageFaults) (faults : ℕ → Faults) (server : ℕ → ℕ) (cursor : ℕ) (r : Round L)
        → l.state ≡ running (again cursor)
        → ((latest : ℕ) → r.latest ≡ ok latest → IsLow latest)
        → LoopStep s l
            (run_round
              (indexer_stores f faults server)
              (decode l.protocol)
              l.chain_id
              l.protocol
              l.no_addresses
              batch_size
              r
              cursor
              s).0
            (running
              (run_round
                (indexer_stores f faults server)
                (decode l.protocol)
                l.chain_id
                l.protocol
                l.no_addresses
                batch_size
                r
                cursor
                s).1)

  pub data Turn : Storage → List Loop → Storage → List Loop → Type 0 where
    here :
        (s s' : Storage) (l : Loop) (ls : List Loop) (state : LoopState)
        → LoopStep s l s' state
        → Turn s (l ∷ ls) s' (record l { state = state } ∷ ls)
    there :
        (s s' : Storage) (l : Loop) (ls ls' : List Loop)
        → Turn s ls s' ls'
        → Turn s (l ∷ ls) s' (l ∷ ls')

  -- What turns lead to, from loops and a database on.
  pub data Interleaved (s₀ : Storage) (ls₀ : List Loop) : Storage → List Loop → Type 0 where
    begin : Interleaved s₀ ls₀ s₀ ls₀
    turn :
        (s s' : Storage) (ls ls' : List Loop)
        → Interleaved s₀ ls₀ s ls
        → Turn s ls s' ls'
        → Interleaved s₀ ls₀ s' ls'

  -- The cursor of a loop that runs is the one in the database.
  abbrev pub StateIsSaved : ℕ → LoopState → Type 0
  StateIsSaved saved starting = Unit
  StateIsSaved saved (running (stopped e)) = Unit
  StateIsSaved saved (running (again cursor)) = (saved ≡ cursor) × IsLow cursor

  abbrev pub IsSavedIn : Storage → Loop → Type 0
  IsSavedIn s l = StateIsSaved (last_block_of l.chain_id l.protocol s.cursors) l.state
