-- ===== src/Tests/Blocks.antt =====
-- Runs of the indexing loop.
use akave_crosschain_archive.Base.{
  ℕ, ◌+◌, ◌≤◌, ◌<◌, ◌≡◌, ◌⊎◌, refl, arith, String, true, false, some, [], ◌∷◌, ◌==◌, if◌then◌else◌,
  Result, ok, err, failure,
}
use akave_crosschain_archive.Base.Int.{pos}
use akave_crosschain_archive.Database.{no_faults, empty}
use akave_crosschain_archive.Decoder.{RawEvent}
use akave_crosschain_archive.Indexer.Cursors.{last_block_of, set_last_block}
use akave_crosschain_archive.Indexer.Fork.Detect.{check_detects, rewind_hides_fork}
use akave_crosschain_archive.Indexer.Fork.Rewind.{ReorgEffect, check_and_handle_reorg-effect}
use akave_crosschain_archive.Indexer.Fork.Walk.{IsForked, walk_back_lem}
use akave_crosschain_archive.Indexer.Fork.{
  Header, stops_at, walk_back, delete_stale, rewind, compare_parent, check_stored,
  check_and_handle_reorg,
}
use akave_crosschain_archive.Indexer.Hashes.{hashes_of, delete_where, BlockHashRecord}
use akave_crosschain_archive.Indexer.Processor.Progress.{RoundEffect, run_round-effect}
use akave_crosschain_archive.Indexer.Processor.{Round, run_round}
use akave_crosschain_archive.Indexer.Storage.{Storage, indexer_stores, cursor_store, hash_store}
use akave_crosschain_archive.Tests.Data.{fault_free, packet_sent}

abbrev pub record_of : ℕ → String → BlockHashRecord
record_of block hash = record {
  chain_id = 1;
  block_number = block;
  block_hash = hash;
  parent_hash = "";
}

-- Two protocols on one chain: the first has processed the blocks up to 9, the second up to 10, and
-- the hashes of 8, 9 and 10 are recorded.
abbrev pub indexed : Storage
indexed = record {
  messages = empty;
  cursors =
      record { chain_id = 1; protocol = "layerzero_v2"; last_block = 9 }
      ∷ record { chain_id = 1; protocol = "ccip"; last_block = 10 }
      ∷ [];
  hashes = record_of 8 "h8" ∷ record_of 9 "h9" ∷ record_of 10 "h10" ∷ [];
}

-- The live chain: it left the recorded one behind block 8.
abbrev live : ℕ → Result Header
live block = ok (record {
  hash = if block == 8 then "h8" else "new";
  parent_hash = if block == 9 then "h8" else "new";
  time = 0;
})

-- The state behind the check of block 10 for the first protocol.
abbrev rewound : Storage
rewound = record {
  messages = empty;
  cursors =
      record { chain_id = 1; protocol = "layerzero_v2"; last_block = 8 }
      ∷ record { chain_id = 1; protocol = "ccip"; last_block = 10 }
      ∷ [];
  hashes = record_of 8 "h8" ∷ [];
}

fork_handled :
    check_and_handle_reorg 1 "layerzero_v2"
      (cursor_store fault_free)
      (some (hash_store fault_free))
      live
      10
      indexed
    ≡ (rewound, ok true)
unfolding check_and_handle_reorg check_stored compare_parent rewind delete_stale walk_back stops_at
    cursor_store hash_store hashes_of delete_where set_last_block
fork_handled = refl

check_and_handle_reorg-effect_example : ReorgEffect fault_free 1 "layerzero_v2" 9 indexed (
    check_and_handle_reorg 1 "layerzero_v2"
      (cursor_store fault_free)
      (some (hash_store fault_free))
      live
      10
      indexed)
check_and_handle_reorg-effect_example =
    check_and_handle_reorg-effect fault_free 1 "layerzero_v2" live 10 indexed

check_detects_example :
    (check_and_handle_reorg 1 "layerzero_v2"
      (cursor_store fault_free)
      (some (hash_store fault_free))
      live
      10
      indexed).1
    ≡ ok true
unfolding hashes_of
check_detects_example = check_detects fault_free 1 "layerzero_v2" live 9 indexed _ refl refl refl

rewind_hides_fork_example :
    check_and_handle_reorg 1 "ccip"
      (cursor_store fault_free)
      (some (hash_store fault_free))
      live
      (10 + 1)
      rewound
    ≡ (rewound, ok false)
unfolding last_block_of
rewind_hides_fork_example =
    rewind_hides_fork fault_free fault_free 1 "layerzero_v2" "ccip" live live 10 10 indexed rewound
      fork_handled refl refl (omega arith)

abbrev stored_hash : ℕ → Result (String × String)
stored_hash block = if block == 4 then ok ("", "") else ok ("old", "")

walk_back_lem_example :
    (walk_back stored_hash live 6 ≤ 6)
    × ((walk_back stored_hash live 6 ≡ 0)
        ⊎ (stops_at
              (stored_hash (walk_back stored_hash live 6))
              (live (walk_back stored_hash live 6))
            ≡ true))
    × ((b : ℕ) → walk_back stored_hash live 6 < b → b ≤ 6 → IsForked (stored_hash b) (live b))
walk_back_lem_example = walk_back_lem stored_hash live 6

abbrev pub decode_log : ℕ → Result RawEvent
decode_log log = if log == 0 then ok packet_sent else err (failure "topic")

abbrev pub round : Round ℕ
round = record {
  done = false;
  latest = ok 50;
  header = λ block. err (failure "down");
  logs = λ from to. ok (0 ∷ 1 ∷ []);
  timestamp = λ place block. ok (pos 90);
  saved_header = live;
  now = λ place. 5;
}

run_round-effect_example :
    RoundEffect fault_free
      (λ i. no_faults)
      (λ i. 7)
      decode_log
      1
      "axelar"
      false
      20
      round
      0
      indexed
      (run_round
        (indexer_stores fault_free (λ i. no_faults) (λ i. 7))
        decode_log
        1
        "axelar"
        false
        20
        round
        0
        indexed)
run_round-effect_example =
    run_round-effect fault_free (λ i. no_faults) (λ i. 7) decode_log 1 "axelar" false 20 round 0
      indexed (unfold last_block_of in refl) (omega arith) (omega arith)
