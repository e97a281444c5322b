-- ===== src/Indexer/Start/Complete.antt =====
-- A start makes one loop for each protocol and chain, and the loops do not disturb each other.
use akave_crosschain_archive.Base.{
  ℕ, ◌*◌, ◌≤◌, ◌≡◌, ◌≢◌, inl, inr, refl, sym, ap, String, Bool, some, List, [], ◌∷◌, ◌++◌, length,
  length-append, arith, Result, ok, ok_inj, All, All-append, Bool-cases, ◌==◌,
}
use akave_crosschain_archive.Base.Int.{ℤ}
use akave_crosschain_archive.Chain.Manager.{client_of, get_client}
use akave_crosschain_archive.Decoder.{RawEvent}
use akave_crosschain_archive.Indexer.Start.{Loop, Started, new_loop, loops_of, start_loops, start}
use akave_crosschain_archive.Indexer.Start.Interleaved.{IsApart, AreApart, Interleaved, IsSavedIn}
use akave_crosschain_archive.Indexer.Start.Saved.{Interleaved-IsSavedIn}
use akave_crosschain_archive.Indexer.Storage.{Storage}

AreApart-append :
    (ls ms : List Loop)
    → AreApart ls
    → AreApart ms
    → All (λ (l : Loop). All (IsApart l.chain_id l.protocol) ms) ls
    → AreApart (ls ++ ms)
AreApart-append [] ms h k apart = k
AreApart-append (l ∷ ls) ms (new, h) k (p, apart) =
    (All-append (IsApart l.chain_id l.protocol) ls ms new p, AreApart-append ls ms h k apart)

module _ {C : Type 0} where
  -- The keys of a Go map: no chain has two clients.
  abbrev pub AreChains : List (ℕ × C) → Type 0
  AreChains [] = Unit
  AreChains (c ∷ cs) = All (λ (d : ℕ × C). c.0 ≢ d.0) cs × AreChains cs

  HasClient : List (ℕ × C) → ℕ × C → Type 0
  HasClient all c = (client : C) × (client_of c.0 all ≡ some client)

  HasClient-head :
      (chain : ℕ) (c : C) (all : List (ℕ × C)) → HasClient ((chain, c) ∷ all) (chain, c)
  unfolding HasClient client_of
  HasClient-head chain c all = (c, ground arith)

  HasClient-tail :
      (chain : ℕ) (c : C) (all : List (ℕ × C)) (d : ℕ × C)
      → HasClient all d
      → HasClient ((chain, c) ∷ all) d
  unfolding HasClient client_of
  HasClient-tail chain c all d (client, h) = elim (Bool-cases (chain == d.0)) [
    | inl same ↦ (c, rw same refl)
    | inr other ↦ (client, rw other h)
  ]

  HasClient-cons :
      (chain : ℕ) (c : C) (all cs : List (ℕ × C))
      → All (HasClient all) cs
      → All (HasClient ((chain, c) ∷ all)) cs
  HasClient-cons chain c all [] h = tt
  HasClient-cons chain c all (d ∷ cs) (p, h) =
      (HasClient-tail chain c all d p, HasClient-cons chain c all cs h)

  all-HasClient : (cs : List (ℕ × C)) → All (HasClient cs) cs
  all-HasClient [] = tt
  all-HasClient ((chain, c) ∷ cs) =
      (HasClient-head chain c cs, HasClient-cons chain c cs cs (all-HasClient cs))

-- The registry has no two decoders of one protocol.
abbrev pub AreProtocols : {D : Type 0} → (D → String) → List D → Type 0
AreProtocols protocol [] = Unit
AreProtocols protocol (d ∷ ds) = All (λ e. protocol d ≢ protocol e) ds × AreProtocols protocol ds

module _ {D : Type 0} {C : Type 0} (protocol : D → String) (no_addresses : D → ℕ → Bool)
    (no_topics : D → Bool) where
  abbrev all_loops : List (ℕ × C) → List D → List Loop
  all_loops = start_loops protocol no_addresses no_topics

  abbrev loops_for : List (ℕ × C) → D → List (ℕ × C) → List Loop
  loops_for = loops_of protocol no_addresses no_topics

  loops_of-step :
      (all : List (ℕ × C)) (d : D) (c : ℕ × C) (cs : List (ℕ × C))
      → HasClient all c
      → loops_for all d (c ∷ cs)
        ≡ new_loop protocol no_addresses no_topics d c.0 ∷ loops_for all d cs
  unfolding loops_of get_client HasClient
  loops_of-step all d (chain, c) cs (client, h) = rw (h, get_client) refl

  length-loops_of :
      (all : List (ℕ × C)) (d : D) (cs : List (ℕ × C))
      → All (HasClient all) cs
      → length (loops_for all d cs) ≡ length cs
  length-loops_of all d [] h = unfold loops_of in refl
  length-loops_of all d (c ∷ cs) (p, h) =
      rw (loops_of-step all d c cs p) (omega (arith, length-loops_of all d cs h))

  -- The loops of one decoder are apart from whatever every chain is apart from.
  loops_of-All :
      (P : Loop → Type 0) (all : List (ℕ × C)) (d : D) (cs : List (ℕ × C))
      → All (HasClient all) cs
      → All (λ (c : ℕ × C). P (new_loop protocol no_addresses no_topics d c.0)) cs
      → All P (loops_for all d cs)
  loops_of-All P all d [] h k = unfold loops_of in tt
  loops_of-All P all d (c ∷ cs) (p, h) (q, k) =
      rw (loops_of-step all d c cs p) (q, loops_of-All P all d cs h k)

  other_chains :
      (chain : ℕ) (name : String) (d : D) (cs : List (ℕ × C))
      → All (λ (e : ℕ × C). chain ≢ e.0) cs
      → All (λ (c : ℕ × C). IsApart chain name (new_loop protocol no_addresses no_topics d c.0)) cs
  other_chains chain name d [] h = tt
  other_chains chain name d (c ∷ cs) (p, h) = (inl p, other_chains chain name d cs h)

  other_names :
      (chain : ℕ) (name : String) (d : D)
      → name ≢ protocol d
      → (cs : List (ℕ × C))
      → All (λ (c : ℕ × C). IsApart chain name (new_loop protocol no_addresses no_topics d c.0)) cs
  other_names chain name d p [] = tt
  other_names chain name d p (c ∷ cs) = (inr p, other_names chain name d p cs)

  start_loops-step :
      (d : D) (ds : List D) (cs : List (ℕ × C))
      → all_loops cs (d ∷ ds) ≡ loops_for cs d cs ++ all_loops cs ds
  unfolding start_loops
  start_loops-step d ds cs = refl

  loops_of-AreApart :
      (all : List (ℕ × C)) (d : D) (cs : List (ℕ × C))
      → All (HasClient all) cs
      → AreChains cs
      → AreApart (loops_for all d cs)
  loops_of-AreApart all d [] h k = unfold loops_of in tt
  loops_of-AreApart all d (c ∷ cs) (p, h) (new, k) = rw (loops_of-step all d c cs p) (
    loops_of-All (IsApart c.0 (protocol d)) all d cs h (other_chains c.0 (protocol d) d cs new),
    loops_of-AreApart all d cs h k,
  )

  -- The loops of the other decoders are of other protocols.
  start_loops-All :
      (chain : ℕ) (name : String) (cs : List (ℕ × C)) (ds : List D)
      → All (λ e. name ≢ protocol e) ds
      → All (IsApart chain name) (all_loops cs ds)
  start_loops-All chain name cs [] h = unfold start_loops in tt
  start_loops-All chain name cs (d ∷ ds) (p, h) = rw (start_loops-step d ds cs) (
      All-append (IsApart chain name) (loops_for cs d cs) (all_loops cs ds)
        (loops_of-All (IsApart chain name) cs d cs (all-HasClient cs)
          (other_names chain name d p cs))
        (start_loops-All chain name cs ds h))

  each-IsApart :
      (d : D) (all : List (ℕ × C)) (ds : List D)
      → All (λ e. protocol d ≢ protocol e) ds
      → (cs : List (ℕ × C))
      → All (λ (c : ℕ × C). All (IsApart c.0 (protocol d)) (all_loops all ds)) cs
  each-IsApart d all ds new [] = tt
  each-IsApart d all ds new (c ∷ cs) =
      (start_loops-All c.0 (protocol d) all ds new, each-IsApart d all ds new cs)

  start_loops-AreApart :
      (cs : List (ℕ × C)) (ds : List D)
      → AreChains cs
      → AreProtocols protocol ds
      → AreApart (all_loops cs ds)
  start_loops-AreApart cs [] h k = unfold start_loops in tt
  start_loops-AreApart cs (d ∷ ds) h (new, k) = rw (start_loops-step d ds cs) (
      AreApart-append (loops_for cs d cs) (all_loops cs ds)
        (loops_of-AreApart cs d cs (all-HasClient cs) h) (start_loops-AreApart cs ds h k)
        (loops_of-All (λ l. All (IsApart l.chain_id l.protocol) (all_loops cs ds)) cs d cs
          (all-HasClient cs) (each-IsApart d cs ds new cs)))

  length-start_loops :
      (cs : List (ℕ × C)) (ds : List D) → length (all_loops cs ds) ≡ length ds * length cs
  length-start_loops cs [] = unfold start_loops in omega arith
  length-start_loops cs (d ∷ ds) =
      rw
        (
          start_loops-step d ds cs,
          length-append (loops_for cs d cs) (all_loops cs ds),
          length-loops_of cs d cs (all-HasClient cs),
          length-start_loops cs ds,
        )
        (ground arith)

  nothing_loaded :
      {L : Type 0} (decode : String → L → Result RawEvent) (batch_size : ℕ) (s : Storage) (d : D)
      (cs : List (ℕ × C))
      → All
          (λ (c : ℕ × C).
            IsSavedIn decode batch_size s (new_loop protocol no_addresses no_topics d c.0))
          cs
  nothing_loaded decode batch_size s d [] = tt
  nothing_loaded decode batch_size s d (c ∷ cs) = (tt, nothing_loaded decode batch_size s d cs)

  at_start :
      {L : Type 0} (decode : String → L → Result RawEvent) (batch_size : ℕ) (s : Storage)
      (all : List (ℕ × C)) (ds : List D)
      → All (IsSavedIn decode batch_size s) (all_loops all ds)
  at_start decode batch_size s all [] = unfold start_loops in tt
  at_start decode batch_size s all (d ∷ ds) = rw (start_loops-step d ds all) (
      All-append (IsSavedIn decode batch_size s) (loops_for all d all) (all_loops all ds)
        (loops_of-All (IsSavedIn decode batch_size s) all d all (all-HasClient all)
          (nothing_loaded decode batch_size s d all))
        (at_start decode batch_size s all ds))

  -- Where no protocol and no chain is given twice and a batch has at least one block, `Start` makes
  -- one loop for each pair of a protocol and a chain, no two of one pair. However their rounds are
  -- interleaved, whatever fails, the saved cursor of each loop that runs is the one it goes on with,
  -- as long as the batches beyond the heads and cursors that are met stay below 2^64.
  pub start-IsSavedIn :
      {L : Type 0} (decode : String → L → Result RawEvent) (batch_size : ℕ) (has_storage : Bool)
      (interval : ℤ) (decoders : List D) (clients : List (ℕ × C)) (started : Started)
      (s₀ s : Storage) (ls : List Loop)
      → 1 ≤ batch_size
      → AreProtocols protocol decoders
      → AreChains clients
      → start protocol no_addresses no_topics has_storage interval decoders clients ≡ ok started
      → Interleaved decode batch_size s₀ started.loops s ls
      → (length started.loops ≡ length decoders * length clients)
        × AreApart ls
        × All (IsSavedIn decode batch_size s) ls
  unfolding start
  start-IsSavedIn decode batch_size has_storage interval [] clients started s₀ s ls some_blocks ds
        cs h run =
      cc
  start-IsSavedIn decode batch_size has_storage interval (d ∷ decoders) clients started s₀ s ls
        some_blocks ds cs h run =
      let loops = all_loops clients (d ∷ decoders) in
      let made : started.loops ≡ loops = sym (ap (λ x. x.loops) (ok_inj h)) in
      let from_loops : Interleaved decode batch_size s₀ loops s ls = (rw made at run) in
      let (apart, saved) =
        Interleaved-IsSavedIn decode batch_size some_blocks s₀ loops
          (start_loops-AreApart clients (d ∷ decoders) cs ds)
          (at_start decode batch_size s₀ clients (d ∷ decoders)) s ls from_loops in
      (rw made (length-start_loops clients (d ∷ decoders)), apart, saved)
