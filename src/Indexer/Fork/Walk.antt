-- ===== src/Indexer/Fork/Walk.antt =====
-- Where the walk back from a fork ends.
use akave_crosschain_archive.Base.{
  ℕ, zero, suc, ◌≤◌, ◌<◌, ◌≡◌, ◌≢◌, ◌⊎◌, inl, inr, refl, String, true, false, arith, eq_iff, Result,
  ok, err, Bool-cases,
}
use akave_crosschain_archive.Indexer.Fork.{Header, stops_at, walk_back}

-- A block whose stored hash and live hash are both known and differ.
abbrev pub IsForked : Result (String × String) → Result Header → Type 0
IsForked (ok (stored, _)) (ok h) = (stored ≢ "") × (h.hash ≢ stored)
IsForked _ _ = ⊥

stops_at-IsForked :
    (r : Result (String × String)) (h : Result Header) → stops_at r h ≡ false → IsForked r h
unfolding stops_at
stops_at-IsForked (err _) h stop = absurd (ground arith)
stops_at-IsForked (ok (stored, _)) (err _) stop = absurd (ground arith)
stops_at-IsForked (ok (stored, _)) (ok h) stop =
    (λ e. ground (arith, eq_iff stored ""), λ e. ground (arith, eq_iff h.hash stored))

stops_at_gap : (h : Result Header) → stops_at (ok ("", "")) h ≡ true
unfolding stops_at
stops_at_gap (err _) = refl
stops_at_gap (ok h) = refl

up_to : (n b : ℕ) → b ≤ suc n → (b ≤ n) ⊎ (b ≡ suc n)
up_to n b h = ground arith

module _ (stored : ℕ → Result (String × String)) (header : ℕ → Result Header) where
  -- The walk back ends at a block at or below where it began, where it has a reason to stop unless
  -- that is block 0, and every block that it passed is forked.
  pub walk_back_lem :
      (n : ℕ)
      → (walk_back stored header n ≤ n)
        × ((walk_back stored header n ≡ 0)
            ⊎ (stops_at (stored (walk_back stored header n)) (header (walk_back stored header n))
                ≡ true))
        × ((b : ℕ) → walk_back stored header n < b → b ≤ n → IsForked (stored b) (header b))
  unfolding walk_back
  walk_back_lem zero = (omega arith, inl refl, λ b above below. absurd (omega arith))
  walk_back_lem (suc n) = elim (Bool-cases (stops_at (stored (suc n)) (header (suc n)))) [
    | inl stop ↦ rw (stop, walk_back) (omega arith, inr stop, λ b above below. absurd (omega arith))
    | inr go ↦
        let (low, stop, passed) = walk_back_lem n in
        let forked = stops_at-IsForked (stored (suc n)) (header (suc n)) go in
        rw (go, walk_back)
          (
            omega arith,
            stop,
            λ b above below. elim (up_to n b below) [
              | inl lower ↦ passed b above lower
              | inr top ↦ rw top forked
            ],
          )
  ]
