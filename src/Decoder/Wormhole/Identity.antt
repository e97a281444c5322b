-- ===== src/Decoder/Wormhole/Identity.antt =====
-- The chain tables of Wormhole, and the identifier that both events of one message carry.
use akave_crosschain_archive.Base.{
  ℕ, ◌%◌, ◌^◌, ◌<◌, ◌≡◌, ◌↔◌, refl, ◌∙◌, sym, String, some, arith, [], ◌∷◌, ok,
}
use akave_crosschain_archive.Base.Bytes.{Bytes, big_endian}
use akave_crosschain_archive.Base.Decimal.{print_uint}
use akave_crosschain_archive.Decoder.{Fields}
use akave_crosschain_archive.Decoder.Wormhole.{
  WormholePackages, WormholeLog, LogMessageData, log_message_published, transfer_redeemed,
  wormhole_to_evm, evm_to_wormhole, published_fields, redeemed_fields, vaa_id, decode_wormhole,
  wormhole_event, decode_by_topic, decode_known, decode_log_message_published,
  decode_transfer_redeemed,
}

-- The two chain tables are inverse to each other.
pub evm_to_wormhole-inverse :
    (evm wh : ℕ) → (evm_to_wormhole evm ≡ some wh) ↔ (wormhole_to_evm wh ≡ some evm)
unfolding evm_to_wormhole wormhole_to_evm
evm_to_wormhole-inverse evm wh = ground arith

-- A log that publishes a message, and one that redeems it on another chain.
pub record IsPublished (eth : WormholePackages) (sender : Bytes) (m : LogMessageData)
    (log : WormholeLog) : Type 0 where
  pub topic : Bytes
  pub topics : log.topics ≡ topic ∷ sender ∷ []
  pub known : eth.event_of topic ≡ some log_message_published
  pub unpacked : eth.unpack_message log.content ≡ ok m

pub record IsRedeemed (eth : WormholePackages) (emitter sender sequence : Bytes) (log : WormholeLog)
    : Type 0 where
  pub topic : Bytes
  pub topics : log.topics ≡ topic ∷ emitter ∷ sender ∷ sequence ∷ []
  pub known : eth.event_of topic ≡ some transfer_redeemed

chain_bound : (evm wh : ℕ) → evm_to_wormhole evm ≡ some wh → wh % 2 ^ 16 ≡ wh
unfolding evm_to_wormhole
chain_bound evm wh h = ground arith

published_id :
    (eth : WormholePackages) (chain wh : ℕ) (sender : Bytes) (m : LogMessageData)
    → evm_to_wormhole chain ≡ some wh
    → published_fields eth chain sender m "message_id"
      ≡ vaa_id (print_uint wh) (eth.hash_hex sender) (print_uint m.sequence)
unfolding published_fields
published_id eth chain wh sender m number = rw number refl

redeemed_id :
    (eth : WormholePackages) (wh : ℕ) (contract : String) (emitter sender sequence : Bytes) (n : ℕ)
    → big_endian emitter % 2 ^ 16 ≡ wh
    → big_endian sequence % 2 ^ 64 ≡ n
    → redeemed_fields eth contract emitter sender sequence "message_id"
      ≡ vaa_id (print_uint wh) (eth.hash_hex sender) (print_uint n)
unfolding redeemed_fields
redeemed_id eth wh contract emitter sender sequence n from of = rw (from, of) refl

redeemed_chain :
    (eth : WormholePackages) (chain wh : ℕ) (contract : String) (emitter sender sequence : Bytes)
    → big_endian emitter % 2 ^ 16 ≡ wh
    → wormhole_to_evm wh ≡ some chain
    → redeemed_fields eth contract emitter sender sequence "src_chain_id" ≡ print_uint chain
unfolding redeemed_fields
redeemed_chain eth chain wh contract emitter sender sequence from known = rw (from, known) refl

-- Both logs of one message decode, and to events with the same message_id, and the redeeming event
-- names the publishing chain, if that chain has a number of Wormhole's and the topics hold that
-- number, the sender and the sequence.
pub message_ids_agree :
    (eth : WormholePackages) (chain here wh : ℕ) (sender emitter sequence : Bytes)
    (m : LogMessageData) (published redeemed : WormholeLog)
    → IsPublished eth sender m published
    → IsRedeemed eth emitter sender sequence redeemed
    → evm_to_wormhole chain ≡ some wh
    → big_endian emitter ≡ wh
    → big_endian sequence ≡ m.sequence
    → m.sequence < 2 ^ 64
    → (a : Fields) × (b : Fields) × (decode_wormhole eth published chain
        ≡ ok (wormhole_event "LogMessagePublished" published chain a))
      × (decode_wormhole eth redeemed here ≡ ok (wormhole_event "TransferRedeemed" redeemed here b))
      × (a "message_id" ≡ b "message_id")
      × (b "src_chain_id" ≡ print_uint chain)
unfolding decode_wormhole decode_by_topic decode_known decode_log_message_published
    decode_transfer_redeemed
message_ids_agree eth chain here wh sender emitter sequence m published redeemed is_published
      is_redeemed number from of fits =
    let small = chain_bound chain wh number in
    let back = (evm_to_wormhole-inverse chain wh).0 number in
    let from' : big_endian emitter % 2 ^ 16 ≡ wh = rw from small in
    let of' : big_endian sequence % 2 ^ 64 ≡ m.sequence = rw of (omega arith) in
    (
      published_fields eth chain sender m,
      redeemed_fields eth redeemed.address emitter sender sequence,
      simp (is_published.topics, is_published.known, is_published.unpacked) refl,
      simp (is_redeemed.topics, is_redeemed.known) refl,
      published_id eth chain wh sender m number
          ∙ sym (redeemed_id eth wh redeemed.address emitter sender sequence m.sequence from' of'),
      redeemed_chain eth chain wh redeemed.address emitter sender sequence from' back,
    )
