-- ===== src/Tests/Remote.antt =====
-- Runs of the RPC client and of a backfill.
use akave_crosschain_archive.Backfill.Exit.{backfill_exits_with_error}
use akave_crosschain_archive.Backfill.{
  Run, backfill, exit_code, load_start, update_until, ranged_cursor_store,
}
use akave_crosschain_archive.Base.{
  ℕ, ◌+◌, ◌≤◌, ◌<◌, ◌≡◌, ◌↔◌, refl, arith, String, true, false, List, [], ◌∷◌, ◌==◌, str_eq,
  if◌then◌else◌, Result, ok, err, failure, wrap, canceled, sym, ok_inj,
}
use akave_crosschain_archive.Chain.Confirmed.{latest_confirmed_lem}
use akave_crosschain_archive.Chain.Logs.{
  logs_between, logs_from, fetch_logs_sound, fetch_logs_total,
}
use akave_crosschain_archive.Chain.Retry.{failover_reaches}
use akave_crosschain_archive.Chain.{
  Client, never, failover, retry_loop, with_retry, latest_confirmed_block, new_client,
  effective_max_block_range, dial_all, connect_to, connect, fetch_loop, fetch_logs,
}
use akave_crosschain_archive.Database.{no_faults, empty}
use akave_crosschain_archive.Decoder.{RawEvent}
use akave_crosschain_archive.Indexer.Cursors.{set_last_block}
use akave_crosschain_archive.Indexer.Fork.{check_and_handle_reorg}
use akave_crosschain_archive.Indexer.Processor.{
  Round, stopped, process_logs, record_hashes, move_cursor, process_batch, after_check, with_head,
  run_round, run_rounds, process_chain, min_uint64,
}
use akave_crosschain_archive.Indexer.Storage.{Storage, cursor_store, message_store}
use akave_crosschain_archive.Tests.Data.{fault_free}

abbrev decode_none : ℕ → Result RawEvent
decode_none log = err (failure "topic")

-- Three endpoints, of which the first two are down.
abbrev endpoints : List ℕ
endpoints = 0 ∷ 1 ∷ 2 ∷ []

abbrev client : Client ℕ
client = record { endpoints = endpoints; confirmation_depth = 12; max_block_range = 3 }

abbrev head_of : ℕ → ℕ → Result ℕ
head_of e attempt = if e == 2 then ok 100 else err (failure "down")

head_found :
    with_retry never head_of client ≡ (record client { endpoints = 2 ∷ 0 ∷ 1 ∷ [] }, ok 100)
unfolding with_retry retry_loop failover
head_found = refl

failover_reaches_example : (a : ℕ) × ((with_retry never head_of client).1 ≡ ok a)
failover_reaches_example = failover_reaches head_of client 2 2 (λ k. (100, refl)) (omega arith) refl

latest_88 : (latest_confirmed_block never head_of client).1 ≡ ok 88
unfolding latest_confirmed_block with_retry retry_loop failover
latest_88 = refl

latest_confirmed_lem_example :
    (head : ℕ) × ((with_retry never head_of client).1 ≡ ok head)
    × ((block : ℕ) → 0 < block → (block ≤ 88) ↔ (block + 12 ≤ head))
latest_confirmed_lem_example = latest_confirmed_lem never head_of client 88 latest_88

-- Each block has one log, its number.
abbrev logs_of : ℕ → List ℕ
logs_of block = block ∷ []

abbrev filter_logs : ℕ → ℕ → ℕ → ℕ → Result (List ℕ)
filter_logs a b e attempt = ok (logs_between logs_of a b)

fetch_logs_total_example :
    (fetch_logs never filter_logs 5 11 client).1 ≡ ok (logs_between logs_of 5 11)
fetch_logs_total_example =
    fetch_logs_total logs_of never filter_logs (λ a b e k. refl) 5 11 client (omega arith)
      (omega arith) (omega arith) (omega arith)

fetched : (fetch_logs never filter_logs 5 11 client).1 ≡ ok (5 ∷ 6 ∷ 7 ∷ 8 ∷ 9 ∷ 10 ∷ 11 ∷ [])
unfolding fetch_logs fetch_loop with_retry retry_loop logs_from
fetched = refl

fetch_logs_sound_example : (5 ∷ 6 ∷ 7 ∷ 8 ∷ 9 ∷ 10 ∷ 11 ∷ []) ≡ logs_between logs_of 5 11
fetch_logs_sound_example =
    fetch_logs_sound logs_of never filter_logs (λ a b e k found h. ok_inj (sym h)) 5 11
      (5 ∷ 6 ∷ 7 ∷ 8 ∷ 9 ∷ 10 ∷ 11 ∷ []) client (omega arith) (omega arith) fetched

abbrev no_logs : Round ℕ
no_logs = record {
  done = false;
  latest = ok 50;
  header = λ block. err (failure "down");
  logs = λ from to. ok [];
  timestamp = λ place block. err (failure "down");
  saved_header = λ block. err (failure "down");
  now = λ place. 5;
}

abbrev before_run : Run Storage
before_run = record {
  inner = record { messages = empty; cursors = []; hashes = [] };
  started = false;
  done = false;
}

-- The saved cursor is that of a batch of 20 blocks, beyond the last block asked for.
abbrev behind_run : Run Storage
behind_run = record {
  inner = record {
    messages = empty;
    cursors = record { chain_id = 1; protocol = "ccip"; last_block = 20 } ∷ [];
    hashes = [];
  };
  started = true;
  done = true;
}

run_ended :
    backfill
      (cursor_store fault_free)
      (λ place. message_store no_faults 7)
      decode_none
      1
      "ccip"
      false
      20
      1
      5
      false
      (no_logs ∷ [])
      before_run
    ≡ (behind_run, stopped (wrap "updating cursor" canceled))
unfolding backfill process_chain run_rounds run_round with_head after_check process_batch
    move_cursor process_logs record_hashes check_and_handle_reorg ranged_cursor_store load_start
    update_until cursor_store set_last_block min_uint64
run_ended = refl

backfill_exits_with_error_example : exit_code (wrap "updating cursor" canceled) ≡ 1
backfill_exits_with_error_example =
    backfill_exits_with_error (cursor_store fault_free) (λ place. message_store no_faults 7)
      decode_none 1 "ccip" false 20 1 5 false (no_logs ∷ []) before_run behind_run
      (wrap "updating cursor" canceled) (refl, tt) run_ended

abbrev dial : String → Result ℕ
dial url = if str_eq url "up" then ok 2 else err (failure "refused")

connected : connect dial never head_of 12 0 ("down" ∷ "up" ∷ []) ≡ ok (new_client (2 ∷ []) 12 0)
unfolding connect connect_to dial_all latest_confirmed_block with_retry retry_loop new_client
    effective_max_block_range
connected = refl
