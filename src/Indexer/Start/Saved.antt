-- ===== src/Indexer/Start/Saved.antt =====
-- Each loop keeps to its own cursor, however the loops are interleaved.
use akave_crosschain_archive.Base.{
  ℕ, ◌≤◌, ◌≡◌, ◌≢◌, ◌⊎◌, inl, inr, refl, sym, subst, ap, String, Bool, true, false, List, [], ◌∷◌,
  Result, ok, All,
}
use akave_crosschain_archive.Database.{Faults}
use akave_crosschain_archive.Decoder.{RawEvent}
use akave_crosschain_archive.Indexer.Cursors.{last_block_of}
use akave_crosschain_archive.Indexer.Processor.{
  Round, Next, again, stopped, run_rounds, process_chain,
}
use akave_crosschain_archive.Indexer.Processor.Others.{IsAlone, run_round-KeepsOthers}
use akave_crosschain_archive.Indexer.Processor.Progress.{RoundEffect, next_round, run_round-effect}
use akave_crosschain_archive.Indexer.Start.{Loop, LoopState, running}
use akave_crosschain_archive.Indexer.Storage.{Storage, StorageFaults, indexer_stores, cursor_store}
use akave_crosschain_archive.Indexer.Start.Interleaved.{
  IsApart, AreApart, IsLow, LoopStep, load, round, Turn, here, there, Interleaved, begin, turn,
  StateIsSaved, IsSavedIn,
}

apart_sym :
    (chain : ℕ) (name : String) (l : Loop)
    → IsApart chain name l
    → (l.chain_id ≢ chain) ⊎ (l.protocol ≢ name)
apart_sym chain name l (inl h) = inl (λ e. h (sym e))
apart_sym chain name l (inr h) = inr (λ e. h (sym e))

module _ {L : Type 0} (decode : String → L → Result RawEvent) (batch_size : ℕ) where
  -- The loading of a cursor leaves the database as it is.
  load-IsSavedIn :
      (f : StorageFaults) (faults : ℕ → Faults) (server : ℕ → ℕ) (broken no_topics : Bool)
      (l : Loop) (s : Storage)
      → f.load_cursor ≡ broken
      → l.no_topics ≡ no_topics
      → IsLow decode batch_size (last_block_of l.chain_id l.protocol s.cursors)
      → let out =
          process_chain
            (indexer_stores f faults server)
            (decode l.protocol)
            l.chain_id
            l.protocol
            l.no_addresses
            batch_size
            l.no_topics
            []
            s in
        (out.0 ≡ s) × IsSavedIn decode batch_size out.0 (record l { state = running out.1 })
  unfolding process_chain indexer_stores cursor_store run_rounds
  load-IsSavedIn f faults server true no_topics l s e t low = rw e (refl, tt)
  load-IsSavedIn f faults server false true l s e t low = rw (e, t) (refl, tt)
  load-IsSavedIn f faults server false false l s e t low = rw (e, t) (refl, (refl, low))

  round-IsSavedIn :
      (f : StorageFaults) (faults : ℕ → Faults) (server : ℕ → ℕ) (cursor : ℕ) (r : Round L)
      (l : Loop) (s : Storage)
      → IsLow decode batch_size cursor
      → ((latest : ℕ) → r.latest ≡ ok latest → IsLow decode batch_size latest)
      → (out : Storage × Next)
      → RoundEffect f faults server
          (decode l.protocol)
          l.chain_id
          l.protocol
          l.no_addresses
          batch_size
          r
          cursor
          s
          out
      → IsSavedIn decode batch_size out.0 (record l { state = running out.1 })
  round-IsSavedIn f faults server cursor r l s low heads (s', again to) effect = (
    effect.0,
    next_round f faults server (decode l.protocol) l.chain_id l.protocol l.no_addresses batch_size r
        cursor s s' to low heads effect,
  )
  round-IsSavedIn f faults server cursor r l s low heads (s', stopped e) effect = tt

  step-IsAlone :
      (s : Storage) (l : Loop) (s' : Storage) (state : LoopState)
      → LoopStep decode batch_size s l s' state
      → IsAlone l.chain_id l.protocol s s'
  step-IsAlone s l s' state (load f faults server at_start low) =
      let (same, saved) =
        load-IsSavedIn f faults server f.load_cursor l.no_topics l s refl refl low in
      λ other word apart. ap (λ x. last_block_of other word x.cursors) same
  step-IsAlone s l s' state (round f faults server cursor r runs heads) =
      run_round-KeepsOthers f faults server (decode l.protocol) l.chain_id l.protocol l.no_addresses
        batch_size r cursor s

  Turn-others :
      (chain : ℕ) (name : String) (s s' : Storage) (ls ls' : List Loop)
      → Turn decode batch_size s ls s' ls'
      → All (IsApart chain name) ls
      → last_block_of chain name s'.cursors ≡ last_block_of chain name s.cursors
  Turn-others chain name s s' ls ls' (here _ _ l rest state step) (apart, _) =
      step-IsAlone s l s' state step chain name apart
  Turn-others chain name s s' ls ls' (there _ _ l rest rest' next) (_, apart) =
      Turn-others chain name s s' rest rest' next apart

  Turn-IsApart :
      (chain : ℕ) (name : String) (s s' : Storage) (ls ls' : List Loop)
      → Turn decode batch_size s ls s' ls'
      → All (IsApart chain name) ls
      → All (IsApart chain name) ls'
  Turn-IsApart chain name s s' ls ls' (here _ _ l rest state step) h = h
  Turn-IsApart chain name s s' ls ls' (there _ _ l rest rest' next) (h, apart) =
      (h, Turn-IsApart chain name s s' rest rest' next apart)

  Turn-AreApart :
      (s s' : Storage) (ls ls' : List Loop)
      → Turn decode batch_size s ls s' ls'
      → AreApart ls
      → AreApart ls'
  Turn-AreApart s s' ls ls' (here _ _ l rest state step) h = h
  Turn-AreApart s s' ls ls' (there _ _ l rest rest' next) (apart, h) = (
    Turn-IsApart l.chain_id l.protocol s s' rest rest' next apart,
    Turn-AreApart s s' rest rest' next h,
  )

  module _ (some_blocks : 1 ≤ batch_size) where
    step-IsSavedIn :
        (s : Storage) (l : Loop) (s' : Storage) (state : LoopState)
        → IsSavedIn decode batch_size s l
        → LoopStep decode batch_size s l s' state
        → IsSavedIn decode batch_size s' (record l { state = state })
    step-IsSavedIn s l s' state h (load f faults server at_start low) =
        (load-IsSavedIn f faults server f.load_cursor l.no_topics l s refl refl low).1
    step-IsSavedIn s l s' state h (round f faults server cursor r runs heads) =
        let (saved, low) : StateIsSaved decode batch_size
            (last_block_of l.chain_id l.protocol s.cursors) (running (again cursor)) =
          (rw runs at h) in
        round-IsSavedIn f faults server cursor r l s low heads _ (
          run_round-effect f faults server (decode l.protocol) l.chain_id l.protocol l.no_addresses
            batch_size r cursor s saved some_blocks low)

    -- A step of another loop.
    others-IsSavedIn :
        (chain : ℕ) (name : String) (s s' : Storage) (ls : List Loop)
        → IsAlone chain name s s'
        → All (IsApart chain name) ls
        → All (IsSavedIn decode batch_size s) ls
        → All (IsSavedIn decode batch_size s') ls
    others-IsSavedIn chain name s s' [] alone apart h = tt
    others-IsSavedIn chain name s s' (l ∷ ls) alone (p, apart) (h, hs) =
        let same = alone l.chain_id l.protocol (apart_sym chain name l p) in
        (
          subst (λ saved. StateIsSaved decode batch_size saved l.state) (sym same) h,
          others-IsSavedIn chain name s s' ls alone apart hs,
        )

    Turn-IsSavedIn :
        (s s' : Storage) (ls ls' : List Loop)
        → Turn decode batch_size s ls s' ls'
        → AreApart ls
        → All (IsSavedIn decode batch_size s) ls
        → All (IsSavedIn decode batch_size s') ls'
    Turn-IsSavedIn s s' ls ls' (here _ _ l rest state step) (apart, _) (h, hs) = (
      step-IsSavedIn s l s' state h step,
      others-IsSavedIn l.chain_id l.protocol s s' rest (step-IsAlone s l s' state step) apart hs,
    )
    Turn-IsSavedIn s s' ls ls' (there _ _ l rest rest' next) (apart, rest_apart) (h, hs) =
        let same = Turn-others l.chain_id l.protocol s s' rest rest' next apart in
        (
          subst (λ saved. StateIsSaved decode batch_size saved l.state) (sym same) h,
          Turn-IsSavedIn s s' rest rest' next rest_apart hs,
        )

    pub Interleaved-IsSavedIn :
        (s₀ : Storage) (ls₀ : List Loop)
        → AreApart ls₀
        → All (IsSavedIn decode batch_size s₀) ls₀
        → (s : Storage) (ls : List Loop) → Interleaved decode batch_size s₀ ls₀ s ls
        → AreApart ls × All (IsSavedIn decode batch_size s) ls
    Interleaved-IsSavedIn s₀ ls₀ apart h s ls begin = (apart, h)
    Interleaved-IsSavedIn s₀ ls₀ apart h s ls (turn s₁ _ ls₁ _ before next) =
        let (apart₁, h₁) = Interleaved-IsSavedIn s₀ ls₀ apart h s₁ ls₁ before in
        (Turn-AreApart s₁ s ls₁ ls next apart₁, Turn-IsSavedIn s₁ s ls₁ ls next apart₁ h₁)
