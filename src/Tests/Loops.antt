-- ===== src/Tests/Loops.antt =====
-- A run of the loops of two protocols on two chains, side by side.
use akave_crosschain_archive.Base.{
  ℕ, ◌*◌, ◌≡◌, refl, arith, String, false, none, [], ◌∷◌, List, length, Result, ok, All, eq_iff,
}
use akave_crosschain_archive.Base.Int.{pos}
use akave_crosschain_archive.Chain.Manager.{client_of, get_client}
use akave_crosschain_archive.Database.{no_faults}
use akave_crosschain_archive.Decoder.{RawEvent}
use akave_crosschain_archive.Indexer.Cursors.{last_block_of}
use akave_crosschain_archive.Indexer.Processor.{Next, again, process_chain, run_round, run_rounds}
use akave_crosschain_archive.Indexer.Start.{
  Loop, LoopState, Started, starting, running, loops_of, start_loops, start,
}
use akave_crosschain_archive.Indexer.Start.Complete.{start-IsSavedIn}
use akave_crosschain_archive.Indexer.Start.Interleaved.{
  AreApart, LoopStep, Turn, Interleaved, IsSavedIn,
}
use akave_crosschain_archive.Indexer.Storage.{Storage, indexer_stores, cursor_store}
use akave_crosschain_archive.Tests.Blocks.{indexed, decode_log, round}
use akave_crosschain_archive.Tests.Data.{fault_free}

abbrev loop : ℕ → String → LoopState → Loop
loop chain name state = record {
  chain_id = chain;
  protocol = name;
  no_addresses = false;
  no_topics = false;
  state = state;
}

abbrev clients : List (ℕ × ℕ)
clients = (1, 0) ∷ (10, 0) ∷ []

abbrev started : Started
started = record {
  loops =
      loop 1 "ccip" starting
      ∷ loop 10 "ccip" starting
      ∷ loop 1 "axelar" starting
      ∷ loop 10 "axelar" starting
      ∷ [];
  archiver = none;
}

all_started :
    start
      (λ (d : String). d)
      (λ d chain. false)
      (λ d. false)
      false
      (pos 0)
      ("ccip" ∷ "axelar" ∷ [])
      clients
    ≡ ok started
unfolding start start_loops loops_of get_client client_of
all_started = refl

abbrev decode_any : String → ℕ → Result RawEvent
decode_any name = decode_log

abbrev loaded : Storage → ℕ → String → Storage × Next
loaded s chain name =
    process_chain (indexer_stores fault_free (λ i. no_faults) (λ i. 7)) decode_log chain name false
      20 false [] s

abbrev first : Storage × Next
first = loaded indexed 1 "ccip"

abbrev second : Storage × Next
second = loaded first.0 1 "axelar"

abbrev third : Storage × Next
third =
    run_round (indexer_stores fault_free (λ i. no_faults) (λ i. 7)) decode_log 1 "ccip" false 20
      round 10 second.0

abbrev in_turn : List Loop
in_turn =
    loop 1 "ccip" (running third.1)
    ∷ loop 10 "ccip" starting
    ∷ loop 1 "axelar" (running second.1)
    ∷ loop 10 "axelar" starting
    ∷ []

first_cursor : running first.1 ≡ running (again 10)
unfolding process_chain run_rounds indexer_stores cursor_store last_block_of
first_cursor = refl

-- Two loops load their cursors, then the first one makes a round.
run : Interleaved decode_any 20 indexed started.loops third.0 in_turn
unfolding last_block_of process_chain run_rounds indexer_stores cursor_store
run =
    Interleaved.turn _ _ _ _
      (Interleaved.turn _ _ _ _
        (Interleaved.turn _ _ _ _ Interleaved.begin (
          Turn.here _ _ _ _ _
            (LoopStep.load fault_free (λ i. no_faults) (λ i. 7) refl (omega arith))))
        (Turn.there _ _ _ _ _ (
          Turn.there _ _ _ _ _ (
            Turn.here _ _ _ _ _
              (LoopStep.load fault_free (λ i. no_faults) (λ i. 7) refl (omega arith))))))
      (Turn.here _ _ _ _ _ (
        LoopStep.round fault_free (λ i. no_faults) (λ i. 7) 10 round first_cursor
          (λ latest h. ground arith)))

start-IsSavedIn_example :
    (length started.loops ≡ 2 * 2)
    × AreApart in_turn
    × All (IsSavedIn decode_any 20 third.0) in_turn
start-IsSavedIn_example =
    start-IsSavedIn (λ (d : String). d) (λ d chain. false) (λ d. false) decode_any 20 false (pos 0)
      ("ccip" ∷ "axelar" ∷ []) clients started indexed third.0 in_turn (omega arith)
      ((λ e. ground (arith, eq_iff "ccip" "axelar"), tt), (tt, tt))
      ((λ e. ground arith, tt), (tt, tt)) all_started run
