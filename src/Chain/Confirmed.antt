-- ===== src/Chain/Confirmed.antt =====
-- The confirmation depth.
use akave_crosschain_archive.Base.{
  ℕ, ◌+◌, ◌≤◌, ◌<◌, ◌≡◌, ◌↔◌, arith, Result, ok, Result-cases, inl, inr,
}
use akave_crosschain_archive.Chain.{
  Client, Cancellation, latest_confirmed_block, with_retry, confirmed,
}

-- A block counts as confirmed exactly if `depth` more blocks stand above it; block 0 always does.
pub le-confirmed :
    (depth head block : ℕ) → 0 < block → (block ≤ confirmed depth head) ↔ (block + depth ≤ head)
le-confirmed depth head block h = ground arith

-- The number that `LatestConfirmedBlock` returns is the largest that the depth allows below the
-- head that some endpoint returned.
pub latest_confirmed_lem {ℓ} :
    {E : Type ℓ} (ctx : Cancellation) (block_number : E → ℕ → Result ℕ) (c : Client E) (latest : ℕ)
    → (latest_confirmed_block ctx block_number c).1 ≡ ok latest
    → (head : ℕ) × ((with_retry ctx block_number c).1 ≡ ok head)
      × ((block : ℕ) → 0 < block → (block ≤ latest) ↔ (block + c.confirmation_depth ≤ head))
unfolding latest_confirmed_block
latest_confirmed_lem ctx block_number c latest h =
    elim (Result-cases (with_retry ctx block_number c).1) [
      | inr (e, failed) ↦ absurd (ground (arith, failed))
      | inl (head, done) ↦
          let same : latest ≡ confirmed c.confirmation_depth head = ground (arith, done) in
          (head, done, λ block pos. rw same (le-confirmed c.confirmation_depth head block pos))
    ]
