-- ===== src/Indexer/Start.antt =====
-- The start of the loops of all protocols and chains, `Start` of internal/indexer/indexer.go. Of a
-- decoder it asks the protocol and whether a chain has addresses.
pub mod Interleaved
pub mod Saved
pub mod Complete
use akave_crosschain_archive.Base.{
  ℕ, String, Bool, true, false, ◌&&◌, Option, none, some, List, [], ◌∷◌, ◌++◌, map, if◌then◌else◌,
  Result, ok, err, failure,
}
use akave_crosschain_archive.Base.Int.{ℤ, is_positive}
use akave_crosschain_archive.Chain.Manager.{get_client}
use akave_crosschain_archive.Indexer.Processor.{Next}

-- A goroutine of `ProcessChain`: it has not loaded its cursor yet, or is behind a round.
pub data LoopState : Type 0 where
  starting : LoopState
  running : Next → LoopState

pub record Loop : Type 0 where
  pub chain_id : ℕ
  pub protocol : String
  pub no_addresses : Bool
  pub no_topics : Bool
  pub state : LoopState

-- What `Start` has started: the loops, and the archiver's protocols and chains, if it runs.
pub record Started : Type 0 where
  pub loops : List Loop
  pub archiver : Option (List String × List ℕ)

module _ {ℓ} {D : Type ℓ} (protocol : D → String) (no_addresses : D → ℕ → Bool)
    (no_topics : D → Bool) where
  abbrev pub new_loop : D → ℕ → Loop
  new_loop d chain = record {
    chain_id = chain;
    protocol = protocol d;
    no_addresses = no_addresses d chain;
    no_topics = no_topics d;
    state = starting;
  }

  module _ {κ} {C : Type κ} where
    -- A chain without a client is passed over.
    abbrev pub add_loop : D → ℕ → Result C → List Loop → List Loop
    add_loop d chain (err e) loops = loops
    add_loop d chain (ok client) loops = new_loop d chain ∷ loops

    unfoldable pub loops_of : List (ℕ × C) → D → List (ℕ × C) → List Loop
    loops_of all d [] = []
    loops_of all d ((chain, client) ∷ clients) =
        add_loop d chain (get_client chain all) (loops_of all d clients)

    unfoldable pub start_loops : List (ℕ × C) → List D → List Loop
    start_loops clients [] = []
    start_loops clients (d ∷ decoders) = loops_of clients d clients ++ start_loops clients decoders

    abbrev pub chain_ids : List (ℕ × C) → List ℕ
    chain_ids [] = []
    chain_ids ((chain, client) ∷ clients) = chain ∷ chain_ids clients

    -- `Start`
    unfoldable pub start : Bool → ℤ → List D → List (ℕ × C) → Result Started
    start has_storage interval [] clients = err (failure "no decoders registered")
    start has_storage interval (d ∷ decoders) clients = ok (record {
      loops = start_loops clients (d ∷ decoders);
      archiver =
          if has_storage && is_positive interval
          then some (map protocol (d ∷ decoders), chain_ids clients)
          else none;
    })
