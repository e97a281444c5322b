-- ===== src/Config.antt =====
-- The configuration once it is read, of internal/config/config.go: the merging of the two URL fields
-- and the validation. Reading the file and the environment is a library's. A map by chain is a list
-- of its pairs, and only the fields that are tested or changed are kept.
pub mod Valid
use akave_crosschain_archive.Base.{
  ℕ, String, Bool, true, false, List, [], ◌∷◌, length, str_eq, ◌==◌, if◌then◌else◌, Result, ok, err,
  failure, context, ◌>>=◌, ◌>>◌,
}

pub record ChainConfig : Type 0 where
  pub rpc_url : String
  pub rpc_urls : List String
  pub confirmation_depth : ℕ
  pub max_block_range : ℕ

pub record Config : Type 0 where
  pub host : String
  pub db_name : String
  pub chains : List (ℕ × ChainConfig)

-- The loop that looks for a URL in a list.
unfoldable pub contains : String → List String → Bool
contains url [] = false
contains url (u ∷ urls) = if str_eq u url then true else contains url urls

-- The body of the loop in `normalizeChainURLs`: a legacy URL goes in front unless it is there.
unfoldable pub merge_urls : ChainConfig → ChainConfig
merge_urls c = if str_eq c.rpc_url "" then c else record c {
  rpc_urls = if contains c.rpc_url c.rpc_urls then c.rpc_urls else c.rpc_url ∷ c.rpc_urls;
  rpc_url = "";
}

-- `normalizeChainURLs`
unfoldable pub normalize_chain_urls : List (ℕ × ChainConfig) → List (ℕ × ChainConfig)
normalize_chain_urls [] = []
normalize_chain_urls ((id, c) ∷ chains) = (id, merge_urls c) ∷ normalize_chain_urls chains

-- The loop of `validate`
unfoldable pub validate_chains : List (ℕ × ChainConfig) → Result (Unit {0})
validate_chains [] = ok tt
validate_chains ((id, c) ∷ chains) =
    if length c.rpc_urls == 0
    then err (failure "at least one rpc_url or rpc_urls entry is required")
    else validate_chains chains

-- `validate`
unfoldable pub validate : Config → Result (Unit {0})
validate c =
    if str_eq c.host ""
    then err (failure "database.host is required")
    else if str_eq c.db_name ""
    then err (failure "database.dbname is required")
    else if length c.chains == 0
    then err (failure "at least one chain must be configured")
    else validate_chains c.chains

-- `Load` behind the reading of the file
unfoldable pub load : Config → Result Config
load c = do
  let merged = record c { chains = normalize_chain_urls c.chains }
  context "validating config" (validate merged)
  ok merged
