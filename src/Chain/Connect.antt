-- ===== src/Chain/Connect.antt =====
-- What a connected client is fit for.
use akave_crosschain_archive.Base.{
  ℕ, ◌≤◌, ◌≡◌, refl, sym, String, List, [], ◌∷◌, length, arith, Result, ok, Result-cases, inl, inr,
  ok_inj,
}
use akave_crosschain_archive.Chain.{
  Client, Cancellation, effective_max_block_range, new_client, with_retry, latest_confirmed_block,
  dial_all, connect_to, connect,
}
use akave_crosschain_archive.Chain.Retry.{with_retry-length}

-- A client that can call an endpoint, and whose chunks hold at least one block.
pub record IsUsable {ℓ} {E : Type ℓ} (depth : ℕ) (c : Client E) : Type 0 where
  pub endpoints : 1 ≤ length c.endpoints
  pub range : 1 ≤ c.max_block_range
  pub depth_kept : c.confirmation_depth ≡ depth

module _ {ℓ} {E : Type ℓ} (dial : String → Result E) (ctx : Cancellation)
    (block_number : E → ℕ → Result ℕ) (depth range : ℕ) where
  latest-IsUsable :
      (es : List E)
      → 1 ≤ length es
      → IsUsable depth (latest_confirmed_block ctx block_number (new_client es depth range)).0
  unfolding latest_confirmed_block with_retry new_client effective_max_block_range
  latest-IsUsable es some_endpoint =
      let same = with_retry-length ctx block_number (new_client es depth range) in
      record { endpoints = rw same some_endpoint; range = ground arith; depth_kept = refl }

  connect_to-IsUsable :
      (es : List E) (c : Client E)
      → connect_to dial ctx block_number depth range es ≡ ok c
      → IsUsable depth c
  unfolding connect_to
  connect_to-IsUsable [] c h = absurd (ground arith)
  connect_to-IsUsable (e ∷ es) c h =
      let fresh = new_client (e ∷ es) depth range in
      elim (Result-cases (latest_confirmed_block ctx block_number fresh).1) [
        | inr (x, refused) ↦ absurd (ground (arith, refused))
        | inl (head, answered) ↦
            let same : (latest_confirmed_block ctx block_number fresh).0 ≡ c =
              ok_inj (rw (answered, connect_to) at h) in
            rw (sym same) (latest-IsUsable (e ∷ es) (omega arith))
      ]

  -- A client that `connect` returns has an endpoint, whichever could not be reached, makes chunks of
  -- at least one block, whatever range is configured, and has the configured depth.
  pub connect-IsUsable :
      (urls : List String) (c : Client E)
      → connect dial ctx block_number depth range urls ≡ ok c
      → IsUsable depth c
  unfolding connect
  connect-IsUsable [] c h = absurd (ground arith)
  connect-IsUsable (url ∷ urls) c h = connect_to-IsUsable (dial_all dial (url ∷ urls)) c h
