-- ===== src/Decoder/Wormhole/Payload.antt =====
-- The layout of a token transfer, as the comment of internal/decoder/wormhole/vaa.go gives it, against
-- the parser. A fee has the 32 bytes of its type, uint256.
use akave_crosschain_archive.Base.{
  ℕ, zero, suc, ◌+◌, ◌-◌, ◌<◌, ◌^◌, ◌≡◌, refl, ap, ◌∙◌, ◌++◌, String, false, some, [], ◌∷◌, length,
  take, ◌||◌, not, ◌==◌, if◌then◌else◌, drop, ltb, drop-append, take-append, length-append, arith,
  ok,
}
use akave_crosschain_archive.Base.Bytes.{
  Bytes, to_bytes, length-to_bytes, prefixed_hex, big_endian-to_bytes,
}
use akave_crosschain_archive.Decoder.Wormhole.{
  TokenTransfer, first_byte, wormhole_to_evm, or_zero, parse_token_bridge_payload, read_transfer,
}

-- What follows the common part: a transfer names a fee, a transfer with a message carries it.
pub data TransferBody : Type 0 where
  with_fee : Bytes → TransferBody
  with_message : Bytes → TransferBody

pub record Transfer : Type 0 where
  pub amount : Bytes
  pub token : Bytes
  pub token_chain : ℕ
  pub to : Bytes
  pub to_chain : ℕ
  pub body : TransferBody

abbrev type_of : TransferBody → ℕ
type_of (with_fee _) = 1
type_of (with_message _) = 3

abbrev body_bytes : TransferBody → Bytes
body_bytes (with_fee fee) = fee
body_bytes (with_message message) = message

abbrev fee_text : TransferBody → String
fee_text (with_fee fee) = prefixed_hex fee
fee_text (with_message message) = ""

abbrev extra : TransferBody → Bytes
extra (with_fee fee) = []
extra (with_message message) = message

abbrev IsBody : TransferBody → Type 0
IsBody (with_fee fee) = length fee ≡ 32
IsBody (with_message message) = Unit

-- The sizes of the layout.
pub record IsTransfer (t : Transfer) : Type 0 where
  pub amount : length t.amount ≡ 32
  pub token : length t.token ≡ 32
  pub token_chain : t.token_chain < 256 ^ 2
  pub to : length t.to ≡ 32
  pub to_chain : t.to_chain < 256 ^ 2
  pub body : IsBody t.body

-- What the parser is to find.
abbrev pub parts : (Bytes → String) → Transfer → TokenTransfer
parts address_hex t = record {
  payload_type = type_of t.body;
  amount = prefixed_hex t.amount;
  token_address = address_hex (drop 12 t.token);
  token_chain = t.token_chain;
  token_chain_evm = or_zero (wormhole_to_evm t.token_chain);
  to_address = address_hex (drop 12 t.to);
  to_chain = t.to_chain;
  to_chain_evm = or_zero (wormhole_to_evm t.to_chain);
  fee = fee_text t.body;
  extra_payload = extra t.body;
}

-- The transfer in bytes, and its tails from the third part on.
module _ (t : Transfer) where
  abbrev from_to_chain : Bytes
  from_to_chain = to_bytes 2 t.to_chain ++ body_bytes t.body

  abbrev from_to : Bytes
  from_to = t.to ++ from_to_chain

  abbrev from_token_chain : Bytes
  from_token_chain = to_bytes 2 t.token_chain ++ from_to

  abbrev from_token : Bytes
  from_token = t.token ++ from_token_chain

  abbrev from_amount : Bytes
  from_amount = t.amount ++ from_token

  unfoldable pub encode_transfer : Bytes
  encode_transfer = type_of t.body ∷ from_amount

  module _ (sizes : IsTransfer t) where
    skip_amount : (k : ℕ) → drop (32 + k) from_amount ≡ drop k from_token
    skip_amount k = drop-append 32 k t.amount from_token sizes.amount

    skip_token : (k : ℕ) → drop (32 + (32 + k)) from_amount ≡ drop k from_token_chain
    skip_token k = skip_amount (32 + k) ∙ drop-append 32 k t.token from_token_chain sizes.token

    skip_token_chain : (k : ℕ) → drop (32 + (32 + (2 + k))) from_amount ≡ drop k from_to
    skip_token_chain k =
        skip_token (2 + k)
        ∙ drop-append 2 k (to_bytes 2 t.token_chain) from_to (length-to_bytes 2 t.token_chain)

    skip_to : (k : ℕ) → drop (32 + (32 + (2 + (32 + k)))) from_amount ≡ drop k from_to_chain
    skip_to k = skip_token_chain (32 + k) ∙ drop-append 32 k t.to from_to_chain sizes.to

    part_amount : take 32 from_amount ≡ t.amount
    part_amount = take-append 32 t.amount from_token sizes.amount

    part_token : take 32 (drop 32 from_amount) ≡ t.token
    part_token = ap (take 32) (skip_amount 0) ∙ take-append 32 t.token from_token_chain sizes.token

    part_token_chain : take 2 (drop 64 from_amount) ≡ to_bytes 2 t.token_chain
    part_token_chain =
        ap (take 2) (skip_token 0)
        ∙ take-append 2 (to_bytes 2 t.token_chain) from_to (length-to_bytes 2 t.token_chain)

    part_to : take 32 (drop 66 from_amount) ≡ t.to
    part_to = ap (take 32) (skip_token_chain 0) ∙ take-append 32 t.to from_to_chain sizes.to

    part_to_chain : take 2 (drop 98 from_amount) ≡ to_bytes 2 t.to_chain
    part_to_chain =
        ap (take 2) (skip_to 0)
        ∙ take-append 2 (to_bytes 2 t.to_chain) (body_bytes t.body) (length-to_bytes 2 t.to_chain)

    part_body : drop 100 from_amount ≡ body_bytes t.body
    part_body =
        skip_to 2
        ∙ drop-append 2 0 (to_bytes 2 t.to_chain) (body_bytes t.body) (length-to_bytes 2 t.to_chain)

    length-from_amount : length from_amount ≡ 100 + length (body_bytes t.body)
    length-from_amount = omega (
      arith,
      length-append t.amount from_token,
      length-append t.token from_token_chain,
      length-append (to_bytes 2 t.token_chain) from_to,
      length-append t.to from_to_chain,
      length-append (to_bytes 2 t.to_chain) (body_bytes t.body),
      length-to_bytes 2 t.token_chain,
      length-to_bytes 2 t.to_chain,
      sizes.amount,
      sizes.token,
      sizes.to,
    )

take_whole : (n : ℕ) (xs : Bytes) → length xs ≡ n → take n xs ≡ xs
take_whole zero [] h = refl
take_whole zero (x ∷ xs) h = absurd (omega arith)
take_whole (suc n) [] h = refl
take_whole (suc n) (x ∷ xs) h = ap (λ l. x ∷ l) (take_whole n xs (omega arith))

fee_text_lem :
    (body : TransferBody) (size : ℕ)
    → IsBody body
    → size ≡ 101 + length (body_bytes body)
    → (if type_of body == 1
        then (if ltb size 133 then "" else prefixed_hex (take (133 - 101) (body_bytes body)))
        else "")
      ≡ fee_text body
fee_text_lem (with_fee fee) size sized h =
    let long : ltb size 133 ≡ false = ground arith in rw (long, take_whole 32 fee sized) refl
fee_text_lem (with_message message) size sized h = refl

extra_lem : (body : TransferBody) → (if type_of body == 3 then body_bytes body else []) ≡ extra body
extra_lem (with_fee fee) = refl
extra_lem (with_message message) = refl

type_of_known : (body : TransferBody) → not ((type_of body == 1) || (type_of body == 3)) ≡ false
type_of_known (with_fee fee) = refl
type_of_known (with_message message) = refl

module _ (address_hex : Bytes → String) (t : Transfer) (sizes : IsTransfer t) where
  length-encode_transfer : length (encode_transfer t) ≡ 101 + length (body_bytes t.body)
  unfolding encode_transfer
  length-encode_transfer = omega (arith, length-from_amount t sizes)

  read_transfer-encode :
      read_transfer address_hex (type_of t.body) (encode_transfer t) ≡ parts address_hex t
  unfolding read_transfer encode_transfer
  read_transfer-encode =
      rw
        (
          part_amount t sizes,
          part_token t sizes,
          part_token_chain t sizes,
          part_to t sizes,
          part_to_chain t sizes,
          part_body t sizes,
          big_endian-to_bytes 2 t.token_chain sizes.token_chain,
          big_endian-to_bytes 2 t.to_chain sizes.to_chain,
          fee_text_lem t.body (length (encode_transfer t)) sizes.body length-encode_transfer,
          extra_lem t.body,
        )
        refl

  first_byte-encode : first_byte (encode_transfer t) ≡ type_of t.body
  unfolding encode_transfer
  first_byte-encode = refl

  -- The parser finds each part of every transfer whose parts have the sizes of the layout, with a
  -- fee of 32 bytes or with a message of any length.
  pub parse_token_bridge_payload-encode :
      parse_token_bridge_payload address_hex (encode_transfer t) ≡ ok (some (parts address_hex t))
  unfolding parse_token_bridge_payload
  parse_token_bridge_payload-encode =
      let size = length-encode_transfer in
      let some_bytes : (length (encode_transfer t) == 0) ≡ false = ground arith in
      let long : ltb (length (encode_transfer t)) 101 ≡ false = ground arith in
      rw (some_bytes, first_byte-encode, type_of_known t.body, long, read_transfer-encode) refl
