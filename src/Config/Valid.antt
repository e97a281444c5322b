-- ===== src/Config/Valid.antt =====
-- What a loaded configuration holds.
use akave_crosschain_archive.Base.{
  ℕ, ◌≤◌, ◌≡◌, ◌≢◌, String, ◌||◌, ◌&&◌, not, List, [], ◌∷◌, length, arith, str_eq, eq_iff, ok,
}
use akave_crosschain_archive.Config.{
  ChainConfig, Config, contains, merge_urls, normalize_chain_urls, validate_chains, validate, load,
}

-- Merging keeps the URLs of a chain and adds the legacy one, if there is one.
pub contains-merge_urls :
    (url : String) (c : ChainConfig)
    → contains url (merge_urls c).rpc_urls
      ≡ (contains url c.rpc_urls || (not (str_eq c.rpc_url "") && str_eq c.rpc_url url))
unfolding merge_urls contains
contains-merge_urls url c = ground (arith, eq_iff c.rpc_url url)

-- Each chain has a URL, and the legacy field is empty.
abbrev pub HasUrls : List (ℕ × ChainConfig) → Type 0
HasUrls [] = Unit {0}
HasUrls ((_, c) ∷ chains) = (c.rpc_url ≡ "") × (1 ≤ length c.rpc_urls) × HasUrls chains

pub record IsValid (c : Config) : Type 0 where
  pub host : c.host ≢ ""
  pub db_name : c.db_name ≢ ""
  pub some_chain : 1 ≤ length c.chains
  pub urls : HasUrls c.chains

merge_urls-legacy : (c : ChainConfig) → (merge_urls c).rpc_url ≡ ""
unfolding merge_urls
merge_urls-legacy c = ground (arith, eq_iff c.rpc_url "")

validated-HasUrls :
    (chains : List (ℕ × ChainConfig))
    → validate_chains (normalize_chain_urls chains) ≡ ok tt
    → HasUrls (normalize_chain_urls chains)
unfolding validate_chains normalize_chain_urls
validated-HasUrls [] h = tt
validated-HasUrls ((id, c) ∷ chains) h =
    let some_url : 1 ≤ length (merge_urls c).rpc_urls = ground arith in
    let rest : validate_chains (normalize_chain_urls chains) ≡ ok tt = ground arith in
    (merge_urls-legacy c, some_url, validated-HasUrls chains rest)

-- A configuration that is loaded names a database and a chain, and every chain of it has at least
-- one URL in the list that is used, and none in the legacy field.
pub load-IsValid : (raw c : Config) → load raw ≡ ok c → IsValid c
unfolding load validate
load-IsValid raw c h =
    let chains : c.chains ≡ normalize_chain_urls raw.chains = ground arith in
    let checked : validate_chains (normalize_chain_urls raw.chains) ≡ ok tt = ground arith in
    record {
      host = λ e. ground (arith, eq_iff c.host "");
      db_name = λ e. ground (arith, eq_iff c.db_name "");
      some_chain = ground arith;
      urls = rw chains (validated-HasUrls raw.chains checked);
    }
