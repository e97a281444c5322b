-- ===== src/Tests/Transfers.antt =====
-- Runs of the parser of token transfers.
use akave_crosschain_archive.Base.{◌≡◌, refl, arith, some, ok}
use akave_crosschain_archive.Base.Bytes.{to_bytes, prefixed_hex, length-to_bytes}
use akave_crosschain_archive.Decoder.Wormhole.{parse_token_bridge_payload, wormhole_to_evm}
use akave_crosschain_archive.Decoder.Wormhole.Payload.{
  Transfer, IsTransfer, with_fee, parts, encode_transfer, parse_token_bridge_payload-encode,
}

abbrev transfer : Transfer
transfer = record {
  amount = to_bytes 32 1000;
  token = to_bytes 32 170;
  token_chain = 2;
  to = to_bytes 32 187;
  to_chain = 30;
  body = with_fee (to_bytes 32 5);
}

transfer-IsTransfer : IsTransfer transfer
transfer-IsTransfer = record {
  amount = length-to_bytes 32 1000;
  token = length-to_bytes 32 170;
  token_chain = omega arith;
  to = length-to_bytes 32 187;
  to_chain = omega arith;
  body = length-to_bytes 32 5;
}

parse_token_bridge_payload-encode_example :
    parse_token_bridge_payload prefixed_hex (encode_transfer transfer)
    ≡ ok (some (parts prefixed_hex transfer))
parse_token_bridge_payload-encode_example =
    parse_token_bridge_payload-encode prefixed_hex transfer transfer-IsTransfer

-- The chains of the transfer are Ethereum and Base.
chains_known :
    ((parts prefixed_hex transfer).token_chain_evm ≡ 1)
    × ((parts prefixed_hex transfer).to_chain_evm ≡ 8453)
unfolding wormhole_to_evm
chains_known = (refl, refl)
