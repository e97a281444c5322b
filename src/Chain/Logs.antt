-- ===== src/Chain/Logs.antt =====
-- The chunked search for logs against one search of the whole range.
use mathlib.Core.List.{append_assoc, append-nil}
use akave_crosschain_archive.Base.{
  ℕ, zero, suc, ◌+◌, ◌-◌, ◌%◌, ◌^◌, ◌≤◌, ◌<◌, ◌≡◌, refl, sym, ap, ◌∙◌, ◌⊎◌, inl, inr, false, List,
  [], ◌∷◌, ◌++◌, arith, Result, ok, Error, failure, ltb, Result-cases, Bool-cases, ok_inj, length,
}
use akave_crosschain_archive.Chain.{
  Client, Cancellation, retry_loop, with_retry, chunk_end, fetch_loop, fetch_logs,
}
use akave_crosschain_archive.Chain.Retry.{with_retry_sound}

module _ {ℓ} {L : Type ℓ} (logs_of : ℕ → List L) where
  -- The logs of `count` blocks from `start` on, in order.
  unfoldable pub logs_from : ℕ → ℕ → List L
  logs_from start zero = []
  logs_from start (suc count) = logs_of start ++ logs_from (start + 1) count

  -- The logs of the blocks `from` to `to`, both included.
  abbrev pub logs_between : ℕ → ℕ → List L
  logs_between from to = logs_from from (to + 1 - from)

  logs_from-add :
      (start m n : ℕ) → logs_from start (m + n) ≡ logs_from start m ++ logs_from (start + m) n
  unfolding logs_from
  logs_from-add start zero n =
      let plain : start + 0 ≡ start = omega arith in
      let none : 0 + n ≡ n = omega arith in rw (plain, none) refl
  logs_from-add start (suc m) n =
      let more : suc m + n ≡ suc (m + n) = omega arith in
      let next : start + suc m ≡ start + 1 + m = omega arith in
      rw (more, next, logs_from-add (start + 1) m n)
        (sym (append_assoc (logs_of start) (logs_from (start + 1) m) (logs_from (start + 1 + m) n)))

  -- A chunk and what is left of the range make up the range.
  chunk_rest :
      (range start to stop next : ℕ)
      → start ≤ to
      → (stop ≡ to) × (to + 1 ≤ next) ⊎ (stop + 1 ≡ next) × (stop ≤ to) × (start ≤ stop)
      → logs_between start stop ++ logs_from next (to + 1 - next) ≡ logs_between start to
  unfolding logs_from
  chunk_rest range start to stop next inside (inl (at_end, past)) =
      let none : to + 1 - next ≡ 0 = omega arith in
      rw (none, at_end) (append-nil (logs_between start to))
  chunk_rest range start to stop next inside (inr (after, before, some_blocks)) =
      let count : to + 1 - start ≡ (stop + 1 - start) + (to + 1 - next) = omega arith in
      let place : start + (stop + 1 - start) ≡ next = omega arith in
      rw (count, logs_from-add start (stop + 1 - start) (to + 1 - next), place) refl

-- Where a chunk stops and where the next one starts.
chunk_places :
    (range start to : ℕ)
    → 1 ≤ range
    → to + range < 2 ^ 64
    → start ≤ to
    → (chunk_end range start to ≡ to) × (to + 1 ≤ (start + range) % 2 ^ 64)
      ⊎ (chunk_end range start to + 1 ≡ (start + range) % 2 ^ 64)
        × (chunk_end range start to ≤ to)
        × (start ≤ chunk_end range start to)
chunk_places range start to some_block fits inside = ground arith

module _ {ℓ κ} {E : Type ℓ} {L : Type κ} (logs_of : ℕ → List L) (ctx : Cancellation)
    (filter_logs : ℕ → ℕ → E → ℕ → Result (List L))
    (answers : (a b : ℕ) (e : E) (k : ℕ) (found : List L)
      → filter_logs a b e k ≡ ok found
      → found ≡ logs_between logs_of a b) where
  fetch_loop_sound :
      (fuel start to : ℕ) (found total : List L) (c : Client E)
      → 1 ≤ c.max_block_range
      → to + c.max_block_range < 2 ^ 64
      → (fetch_loop ctx filter_logs fuel start to found c).1 ≡ ok total
      → total ≡ found ++ logs_between logs_of start to
  unfolding fetch_loop logs_from with_retry
  fetch_loop_sound zero start to found total c some_block fits h = absurd (ground arith)
  fetch_loop_sound (suc fuel) start to found total c some_block fits h =
      elim (Bool-cases (ltb to start)) [
        | inl past ↦
            let none : to + 1 - start ≡ 0 = ground arith in
            let all : found ≡ total = ok_inj (rw (past, fetch_loop) at h) in
            rw (none, sym all) (sym (append-nil found))
        | inr inside ↦
            let call = filter_logs start (chunk_end c.max_block_range start to) in
            elim (Result-cases (with_retry ctx call c).1) [
              | inl (logs, answered) ↦
                  let chunk =
                    with_retry_sound ctx call
                      (λ ls. ls ≡ logs_between logs_of start (chunk_end c.max_block_range start to))
                      (answers start (chunk_end c.max_block_range start to)) c logs answered in
                  let rest =
                    fetch_loop_sound fuel ((start + c.max_block_range) % 2 ^ 64) to (found ++ logs)
                      total (with_retry ctx call c).0 some_block fits
                      (rw (inside, answered, fetch_loop) at h) in
                  let inside' : start ≤ to = ground arith in
                  rest
                  ∙ append_assoc found logs _
                  ∙ ap (λ ls. found ++ ls)
                      (rw chunk (
                        chunk_rest logs_of c.max_block_range start to _ _ inside'
                          (chunk_places c.max_block_range start to some_block fits inside')))
              | inr (e, refused) ↦
                  let bad = rw (inside, refused, fetch_loop) at h in absurd (ground arith)
            ]
      ]

  -- If an endpoint that answers a query answers it with the logs of its blocks, then what `fetch_logs`
  -- returns without an error is the logs of all blocks of the range, in order, none of them twice or
  -- left out. The chunk size is positive, and the end of the range lies a chunk below 2^64.
  pub fetch_logs_sound :
      (from to : ℕ) (total : List L) (c : Client E)
      → 1 ≤ c.max_block_range
      → to + c.max_block_range < 2 ^ 64
      → (fetch_logs ctx filter_logs from to c).1 ≡ ok total
      → total ≡ logs_between logs_of from to
  unfolding fetch_logs
  fetch_logs_sound from to total c some_block fits h = elim (Bool-cases (ltb to from)) [
    | inl empty ↦ let bad = rw (empty, fetch_logs) at h in absurd (ground arith)
    | inr some_range ↦
        fetch_loop_sound (to - from + 2) from to [] total c some_block fits
          (rw (some_range, fetch_logs) at h)
  ]

module _ {ℓ κ} {E : Type ℓ} {L : Type κ} (logs_of : ℕ → List L) (ctx : Cancellation)
    (filter_logs : ℕ → ℕ → E → ℕ → Result (List L))
    (answers : (a b : ℕ) (e : E) (k : ℕ)
      → filter_logs a b e k ≡ ok (logs_between logs_of a b)) where
  retry_loop_first :
      (a b rounds : ℕ) (last : Error) (es : List E)
      → 1 ≤ length es
      → retry_loop ctx (filter_logs a b) (suc rounds) 0 last es
        ≡ (es, ok (logs_between logs_of a b))
  unfolding retry_loop
  retry_loop_first a b rounds last [] h = absurd (omega arith)
  retry_loop_first a b rounds last (e ∷ es) h = rw (answers a b e 0, retry_loop) refl

  with_retry_first :
      (a b : ℕ) (c : Client E)
      → 1 ≤ length c.endpoints
      → with_retry ctx (filter_logs a b) c ≡ (c, ok (logs_between logs_of a b))
  unfolding with_retry
  with_retry_first a b c h =
      ap (λ (p : List E × Result (List L)). (record c { endpoints = p.0 }, p.1))
        (retry_loop_first a b 2 (failure "") c.endpoints h)

  fetch_loop_total :
      (fuel start to : ℕ) (found : List L) (c : Client E)
      → 1 ≤ length c.endpoints
      → 1 ≤ c.max_block_range
      → to + c.max_block_range < 2 ^ 64
      → to + 2 ≤ start + fuel
      → 1 ≤ fuel
      → (total : List L) × ((fetch_loop ctx filter_logs fuel start to found c).1 ≡ ok total)
  unfolding fetch_loop
  fetch_loop_total zero start to found c up some_block fits enough one = absurd (omega arith)
  fetch_loop_total (suc fuel) start to found c up some_block fits enough one =
      elim (Bool-cases (ltb to start)) [
        | inl past ↦ (found, rw (past, fetch_loop) refl)
        | inr inside ↦
            let stop = chunk_end c.max_block_range start to in
            let inside' : start ≤ to = ground arith in
            let (total, rest) =
              fetch_loop_total fuel ((start + c.max_block_range) % 2 ^ 64) to
                (found ++ logs_between logs_of start stop) c up some_block fits (ground arith)
                (ground arith) in
            let first = with_retry_first start stop c up in
            (total, rw (inside, ap (λ p. p.1) first, ap (λ p. p.0) first, fetch_loop) rest)
      ]

  -- If every endpoint answers, `fetch_logs` returns the logs of the whole range.
  pub fetch_logs_total :
      (from to : ℕ) (c : Client E)
      → 1 ≤ length c.endpoints
      → 1 ≤ c.max_block_range
      → to + c.max_block_range < 2 ^ 64
      → from ≤ to
      → (fetch_logs ctx filter_logs from to c).1 ≡ ok (logs_between logs_of from to)
  unfolding fetch_logs
  fetch_logs_total from to c up some_block fits ordered =
      let some_range : ltb to from ≡ false = ground arith in
      let (total, done) =
        fetch_loop_total (to - from + 2) from to [] c up some_block fits (omega arith)
          (omega arith) in
      let sound =
        fetch_loop_sound logs_of ctx filter_logs
          (λ a b e k found h. ok_inj (sym h ∙ answers a b e k)) (to - from + 2) from to [] total c
          some_block fits done in
      rw (some_range, fetch_logs) (done ∙ ap ok sound)
