-- ===== src/Chain/Manager.antt =====
-- The clients of all chains, of internal/chain/manager.go. Go does not say in which order it walks
-- through a map; here the chains are a list.
use akave_crosschain_archive.Base.{
  ℕ, String, Option, none, some, List, [], ◌∷◌, ◌==◌, if◌then◌else◌, Result, ok, err, failure,
  context, ◌>>=◌,
}
use akave_crosschain_archive.Chain.{Client, Cancellation, connect}
use akave_crosschain_archive.Config.{ChainConfig}

-- `m.clients[chainID]`
unfoldable pub client_of {ℓ} : {C : Type ℓ} → ℕ → List (ℕ × C) → Option C
client_of chain [] = none
client_of chain ((id, c) ∷ clients) = if id == chain then some c else client_of chain clients

-- `GetClient`
unfoldable pub get_client {ℓ} : {C : Type ℓ} → ℕ → List (ℕ × C) → Result C
get_client chain clients = elim (client_of chain clients) [
  | none ↦ err (failure "no client for chain")
  | some c ↦ ok c
]

module _ {ℓ} {E : Type ℓ} (dial : String → Result E) (ctx : Cancellation)
    (block_number : E → ℕ → Result ℕ) where
  -- `NewManager`: one chain that cannot be reached fails them all.
  unfoldable pub new_manager : List (ℕ × ChainConfig) → Result (List (ℕ × Client E))
  new_manager [] = ok []
  new_manager ((chain, cfg) ∷ chains) = do
    client ←
        context "connecting to chain"
          (connect dial ctx block_number cfg.confirmation_depth cfg.max_block_range cfg.rpc_urls)
    clients ← new_manager chains
    ok ((chain, client) ∷ clients)
