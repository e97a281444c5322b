-- ===== src/Decoder/Ccip/Sent.antt =====
-- What the fields of a decoded CCIPSendRequested hold, and those of an ExecutionStateChanged.
use akave_crosschain_archive.Base.{
  ℕ, ◌<◌, ◌^◌, ◌≡◌, refl, ◌∙◌, String, false, Option, none, some, List, [], ◌∷◌, arith, str_eq,
  if◌then◌else◌,
}
use akave_crosschain_archive.Base.Bytes.{Bytes}
use akave_crosschain_archive.Base.Decimal.{print_uint}
use akave_crosschain_archive.Decoder.Ccip.{
  TokenAmount, SentMessage, CcipPackages, chain_of_selector, source_chain, put_field,
  put_source_chain, put_tokens, sent_fields,
}
use akave_crosschain_archive.Decoder.{Fields}

text_of {ℓ} : {A : Type ℓ} → (A → String) → Option A → String → String
text_of text none old = old
text_of text (some a) old = text a

put_field_read {ℓ} :
    {A : Type ℓ} (key : String) (text : A → String) (o : Option A) (d : Fields) (j : String)
    → put_field key text o d j ≡ (if str_eq key j then text_of text o (d j) else d j)
unfolding put_field text_of
put_field_read key text none d j = ground arith
put_field_read key text (some a) d j = refl

-- The chain that a message is sent from.
abbrev pub sent_from : ℕ → Option ℕ → ℕ
sent_from chain none = chain
sent_from chain (some selector) = source_chain chain (chain_of_selector selector)

known_chain : (selector id : ℕ) → chain_of_selector selector ≡ some id → id < 2 ^ 64
unfolding chain_of_selector
known_chain selector id h = ground arith

source_chain-lt :
    (chain : ℕ) (selector : ℕ) (o : Option ℕ)
    → chain < 2 ^ 64
    → chain_of_selector selector ≡ o
    → source_chain chain o < 2 ^ 64
source_chain-lt chain selector none small h = small
source_chain-lt chain selector (some id) small h = known_chain selector id h

pub sent_from-lt : (chain : ℕ) (o : Option ℕ) → chain < 2 ^ 64 → sent_from chain o < 2 ^ 64
sent_from-lt chain none small = small
sent_from-lt chain (some selector) small =
    source_chain-lt chain selector (chain_of_selector selector) small refl

put_source_chain-same :
    (chain : ℕ) (o : Option ℕ) (d : Fields)
    → put_source_chain chain o d "src_chain_id" ≡ print_uint (sent_from chain o)
unfolding put_source_chain
put_source_chain-same chain none d = refl
put_source_chain-same chain (some selector) d = refl

put_source_chain-other :
    (chain : ℕ) (o : Option ℕ) (d : Fields) (j : String)
    → str_eq "src_chain_id" j ≡ false
    → str_eq "source_chain_selector" j ≡ false
    → put_source_chain chain o d j ≡ d j
unfolding put_source_chain
put_source_chain-other chain none d j h k = rw h refl
put_source_chain-other chain (some selector) d j h k = rw (h, k) refl

module _ (eth : CcipPackages) where
  put_tokens-other :
      (o : Option (List TokenAmount)) (d : Fields) (j : String)
      → str_eq "token_count" j ≡ false
      → str_eq "token" j ≡ false
      → str_eq "amount" j ≡ false
      → put_tokens eth o d j ≡ d j
  unfolding put_tokens
  put_tokens-other none d j h k l = rw h refl
  put_tokens-other (some []) d j h k l = rw h refl
  put_tokens-other (some (first ∷ rest)) d j h k l = simp (put_field_read, h, k, l) refl

  module _ (here : ℕ) (m : SentMessage) where
    pub sent_id :
        (id : Bytes)
        → m.message_id ≡ some id
        → sent_fields eth here m "message_id" ≡ eth.hash_hex id
    unfolding sent_fields text_of
    sent_id id h =
        put_tokens-other m.token_amounts _ "message_id" refl refl refl
        ∙ simp
            (
              put_field_read,
              λ (d : Fields).
                  put_source_chain-other here m.source_chain_selector d "message_id" refl refl,
              h,
            )
            refl

    pub sent_sender :
        (sender : Bytes)
        → m.sender ≡ some sender
        → sent_fields eth here m "sender" ≡ eth.address_hex sender
    unfolding sent_fields text_of
    sent_sender sender h =
        put_tokens-other m.token_amounts _ "sender" refl refl refl
        ∙ simp
            (
              put_field_read,
              λ (d : Fields).
                  put_source_chain-other here m.source_chain_selector d "sender" refl refl,
              h,
            )
            refl

    pub sent_nonce :
        (nonce : ℕ) → m.nonce ≡ some nonce → sent_fields eth here m "nonce" ≡ print_uint nonce
    unfolding sent_fields text_of
    sent_nonce nonce h =
        put_tokens-other m.token_amounts _ "nonce" refl refl refl
        ∙ simp
            (
              put_field_read,
              λ (d : Fields).
                  put_source_chain-other here m.source_chain_selector d "nonce" refl refl,
              h,
            )
            refl

    pub sent_chain :
        sent_fields eth here m "src_chain_id" ≡ print_uint (sent_from here m.source_chain_selector)
    unfolding sent_fields
    sent_chain =
        put_tokens-other m.token_amounts _ "src_chain_id" refl refl refl
        ∙ simp (put_field_read, put_source_chain-same) refl
