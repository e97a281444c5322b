-- ===== src/Chain.antt =====
-- The RPC client of one chain, of internal/chain/client.go: retries with failover, the confirmation
-- depth, and the chunked search for logs. `E` is the type of endpoints. A remote call is a function
-- of the endpoint and of the attempt, and holds the wait of the rate limiter.
pub mod Manager
pub mod Retry
pub mod Confirmed
pub mod Logs
pub mod Connect
use akave_crosschain_archive.Base.{
  ℕ, zero, suc, ◌+◌, ◌-◌, ◌/◌, ◌%◌, ◌^◌, String, Bool, true, false, Option, none, some, List, [],
  ◌∷◌, ◌++◌, ltb, leb, ◌==◌, if◌then◌else◌, Error, failure, wrap, canceled, Result, ok, err,
  context,
}

pub record Client {ℓ} (E : Type ℓ) : Type ℓ where
  pub endpoints : List E
  pub confirmation_depth : ℕ
  pub max_block_range : ℕ

-- When the context is found done: behind a failed attempt, and in the wait before the next one.
pub record Cancellation : Type 0 where
  pub after_attempt : ℕ → Bool
  pub in_backoff : ℕ → Bool

abbrev pub never : Cancellation
never = record { after_attempt = λ _. false; in_backoff = λ _. false }

abbrev pub max_retries : ℕ
max_retries = 3

-- The range that stands in for one that is not configured.
unfoldable pub effective_max_block_range : ℕ → ℕ
effective_max_block_range n = if n == 0 then 1000 else n

-- The head of the chain less the depth, or 0.
abbrev pub confirmed : ℕ → ℕ → ℕ
confirmed depth head = if leb head depth then 0 else head - depth

abbrev pub map_result {κ μ} : {A : Type κ} {B : Type μ} → (A → B) → Result A → Result B
map_result f (ok a) = ok (f a)
map_result f (err e) = err e

module _ {ℓ} {E : Type ℓ} where
  -- `newClientFromEth` for a list of endpoints, the literal that `NewClient` fills too
  unfoldable pub new_client : List E → ℕ → ℕ → Client E
  unfolding effective_max_block_range
  new_client endpoints depth range = record {
    endpoints = endpoints;
    confirmation_depth = depth;
    max_block_range = effective_max_block_range range;
  }

  abbrev pub rotate : List E → List E
  rotate [] = []
  rotate (x ∷ xs) = xs ++ (x ∷ [])

  -- `failover`: with one endpoint there is nothing to switch to.
  unfoldable pub failover : List E → List E
  failover [] = []
  failover (x ∷ []) = x ∷ []
  failover (x ∷ y ∷ rest) = rotate (x ∷ y ∷ rest)

  -- A call of the primary endpoint. `NewClient` refuses an empty list.
  abbrev pub call_primary {κ} : {A : Type κ} → (E → ℕ → Result A) → ℕ → List E → Result A
  call_primary call attempt [] = err (failure "index out of range")
  call_primary call attempt (x ∷ xs) = call x attempt

  -- The loop of `withRetry`: the rounds left, the number of the attempt and the last error.
  unfoldable pub retry_loop {κ} :
      {A : Type κ} → Cancellation → (E → ℕ → Result A) → ℕ → ℕ → Error → List E → List E × Result A
  retry_loop ctx call zero attempt last es = (es, err (wrap "after 3 attempts" last))
  retry_loop ctx call (suc rounds) attempt last es = elim (call_primary call attempt es) [
    | ok a ↦ (es, ok a)
    | err e ↦
        let next = retry_loop ctx call rounds (attempt + 1) e (failover es) in
        if ctx.after_attempt attempt
        then (es, err canceled)
        else if ltb attempt (max_retries - 1)
        then (if ctx.in_backoff attempt then (failover es, err canceled) else next)
        else next
  ]

  -- `withRetry`
  unfoldable pub with_retry {κ} :
      {A : Type κ} → Cancellation → (E → ℕ → Result A) → Client E → Client E × Result A
  with_retry ctx call c =
      let (es, r) = retry_loop ctx call max_retries 0 (failure "") c.endpoints in
      (record c { endpoints = es }, r)

  -- `LatestConfirmedBlock`
  unfoldable pub latest_confirmed_block :
      Cancellation → (E → ℕ → Result ℕ) → Client E → Client E × Result ℕ
  latest_confirmed_block ctx block_number c =
      let (c', r) = with_retry ctx block_number c in
      (c', map_result (confirmed c.confirmation_depth) (context "fetching block number" r))

  -- `BlockHeader`, for any type of headers
  unfoldable pub block_header {κ} :
      {H : Type κ} → Cancellation → (E → ℕ → Result H) → Client E → Client E × Result H
  block_header ctx header_by_number c =
      let (c', r) = with_retry ctx header_by_number c in (c', context "fetching header for block" r)

-- `chunkEnd`, in uint64 arithmetic
abbrev pub chunk_end : ℕ → ℕ → ℕ → ℕ
chunk_end range start to =
    let last = (start + range + 2 ^ 64 - 1) % 2 ^ 64 in if ltb to last then to else last

module _ {ℓ κ} {E : Type ℓ} {L : Type κ} (ctx : Cancellation)
    (filter_logs : ℕ → ℕ → E → ℕ → Result (List L)) where
  -- The loop of `FetchLogs` over the chunks, on fuel.
  unfoldable pub fetch_loop : ℕ → ℕ → ℕ → List L → Client E → Client E × Result (List L)
  fetch_loop zero start to found c = (c, err (failure "out of fuel"))
  fetch_loop (suc fuel) start to found c = elim (ltb to start) [
    | true ↦ (c, ok found)
    | false ↦
        let (c', r) = with_retry ctx (filter_logs start (chunk_end c.max_block_range start to)) c in
        elim r [
          | err e ↦ (c', err (wrap "fetching logs for blocks" e))
          | ok logs ↦ fetch_loop fuel ((start + c.max_block_range) % 2 ^ 64) to (found ++ logs) c'
        ]
  ]

  -- `FetchLogs`: a chunk of at least one block each round, so that as many rounds as there are
  -- blocks, and one to see the end, are enough.
  unfoldable pub fetch_logs : ℕ → ℕ → Client E → Client E × Result (List L)
  fetch_logs from to c =
      if ltb to from
      then (c, err (failure "fromBlock > toBlock"))
      else fetch_loop (to - from + 2) from to [] c

module _ {ℓ} {E : Type ℓ} (dial : String → Result E) where
  -- The loop of `NewClient` over the URLs: an endpoint that cannot be reached is skipped.
  unfoldable pub dial_all : List String → List E
  dial_all [] = []
  dial_all (url ∷ urls) = elim (dial url) [ ok e ↦ e ∷ dial_all urls | err _ ↦ dial_all urls ]

  -- `NewClient` behind the test for no URLs: the client asks for the head once before it is used.
  unfoldable pub connect_to : Cancellation → (E → ℕ → Result ℕ) → ℕ → ℕ → List E → Result (Client E)
  connect_to ctx block_number depth range [] = err (failure "all RPC endpoints unreachable")
  connect_to ctx block_number depth range (e ∷ es) =
      let (c, r) = latest_confirmed_block ctx block_number (new_client (e ∷ es) depth range) in
      elim r [ ok _ ↦ ok c | err x ↦ err (wrap "verifying RPC connection" x) ]

  -- `NewClient`
  unfoldable pub connect :
      Cancellation → (E → ℕ → Result ℕ) → ℕ → ℕ → List String → Result (Client E)
  connect ctx block_number depth range [] = err (failure "no RPC URLs configured")
  connect ctx block_number depth range (url ∷ urls) =
      connect_to ctx block_number depth range (dial_all (url ∷ urls))
