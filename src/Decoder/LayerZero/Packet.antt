-- ===== src/Decoder/LayerZero/Packet.antt =====
-- The packet layout of LayerZero V2, as the comment of `decodeEncodedPayload` gives it, against the
-- decoder.
use akave_crosschain_archive.Base.{
  ℕ, ◌+◌, ◌<◌, ◌^◌, ◌≡◌, ap, ◌∙◌, ◌++◌, length, take, drop, drop-append, take-append, length-append,
  arith,
}
use akave_crosschain_archive.Base.Bytes.{Bytes, to_bytes, length-to_bytes}

pub record Packet : Type 0 where
  pub version : ℕ
  pub nonce : ℕ
  pub src_eid : ℕ
  pub sender : Bytes
  pub dst_eid : ℕ
  pub receiver : Bytes
  pub guid : Bytes
  pub message : Bytes

-- The sizes of the layout.
pub record IsPacket (p : Packet) : Type 0 where
  pub version : p.version < 256 ^ 1
  pub nonce : p.nonce < 256 ^ 8
  pub src_eid : p.src_eid < 256 ^ 4
  pub sender : length p.sender ≡ 32
  pub dst_eid : p.dst_eid < 256 ^ 4
  pub receiver : length p.receiver ≡ 32
  pub guid : length p.guid ≡ 32

-- The packet in bytes, and its tails from the second part on.
module _ (p : Packet) where
  abbrev from_guid : Bytes
  from_guid = p.guid ++ p.message

  abbrev from_receiver : Bytes
  from_receiver = p.receiver ++ from_guid

  abbrev from_dst_eid : Bytes
  from_dst_eid = to_bytes 4 p.dst_eid ++ from_receiver

  abbrev from_sender : Bytes
  from_sender = p.sender ++ from_dst_eid

  abbrev from_src_eid : Bytes
  from_src_eid = to_bytes 4 p.src_eid ++ from_sender

  abbrev from_nonce : Bytes
  from_nonce = to_bytes 8 p.nonce ++ from_src_eid

  unfoldable pub encode : Bytes
  encode = to_bytes 1 p.version ++ from_nonce

  module _ (sizes : IsPacket p) where
    skip_version : (k : ℕ) → drop (1 + k) encode ≡ drop k from_nonce
    unfolding encode
    skip_version k = drop-append 1 k (to_bytes 1 p.version) from_nonce (length-to_bytes 1 p.version)

    skip_nonce : (k : ℕ) → drop (1 + (8 + k)) encode ≡ drop k from_src_eid
    skip_nonce k =
        skip_version (8 + k)
        ∙ drop-append 8 k (to_bytes 8 p.nonce) from_src_eid (length-to_bytes 8 p.nonce)

    skip_src_eid : (k : ℕ) → drop (1 + (8 + (4 + k))) encode ≡ drop k from_sender
    skip_src_eid k =
        skip_nonce (4 + k)
        ∙ drop-append 4 k (to_bytes 4 p.src_eid) from_sender (length-to_bytes 4 p.src_eid)

    skip_sender : (k : ℕ) → drop (1 + (8 + (4 + (32 + k)))) encode ≡ drop k from_dst_eid
    skip_sender k = skip_src_eid (32 + k) ∙ drop-append 32 k p.sender from_dst_eid sizes.sender

    skip_dst_eid : (k : ℕ) → drop (1 + (8 + (4 + (32 + (4 + k))))) encode ≡ drop k from_receiver
    skip_dst_eid k =
        skip_sender (4 + k)
        ∙ drop-append 4 k (to_bytes 4 p.dst_eid) from_receiver (length-to_bytes 4 p.dst_eid)

    skip_receiver : (k : ℕ) → drop (1 + (8 + (4 + (32 + (4 + (32 + k)))))) encode ≡ drop k from_guid
    skip_receiver k = skip_dst_eid (32 + k) ∙ drop-append 32 k p.receiver from_guid sizes.receiver

    pub part_version : take 1 encode ≡ to_bytes 1 p.version
    unfolding encode
    part_version = take-append 1 (to_bytes 1 p.version) from_nonce (length-to_bytes 1 p.version)

    pub part_nonce : take 8 (drop 1 encode) ≡ to_bytes 8 p.nonce
    part_nonce =
        ap (take 8) (skip_version 0)
        ∙ take-append 8 (to_bytes 8 p.nonce) from_src_eid (length-to_bytes 8 p.nonce)

    pub part_src_eid : take 4 (drop 9 encode) ≡ to_bytes 4 p.src_eid
    part_src_eid =
        ap (take 4) (skip_nonce 0)
        ∙ take-append 4 (to_bytes 4 p.src_eid) from_sender (length-to_bytes 4 p.src_eid)

    pub part_sender : take 32 (drop 13 encode) ≡ p.sender
    part_sender = ap (take 32) (skip_src_eid 0) ∙ take-append 32 p.sender from_dst_eid sizes.sender

    pub part_dst_eid : take 4 (drop 45 encode) ≡ to_bytes 4 p.dst_eid
    part_dst_eid =
        ap (take 4) (skip_sender 0)
        ∙ take-append 4 (to_bytes 4 p.dst_eid) from_receiver (length-to_bytes 4 p.dst_eid)

    pub part_receiver : take 32 (drop 49 encode) ≡ p.receiver
    part_receiver =
        ap (take 32) (skip_dst_eid 0) ∙ take-append 32 p.receiver from_guid sizes.receiver

    pub part_guid : take 32 (drop 81 encode) ≡ p.guid
    part_guid = ap (take 32) (skip_receiver 0) ∙ take-append 32 p.guid p.message sizes.guid

    pub part_message : drop 113 encode ≡ p.message
    part_message = skip_receiver 32 ∙ drop-append 32 0 p.guid p.message sizes.guid

    pub length-encode : length encode ≡ 113 + length p.message
    unfolding encode
    length-encode = omega (
      arith,
      length-append (to_bytes 1 p.version) from_nonce,
      length-append (to_bytes 8 p.nonce) from_src_eid,
      length-append (to_bytes 4 p.src_eid) from_sender,
      length-append p.sender from_dst_eid,
      length-append (to_bytes 4 p.dst_eid) from_receiver,
      length-append p.receiver from_guid,
      length-append p.guid p.message,
      length-to_bytes 1 p.version,
      length-to_bytes 8 p.nonce,
      length-to_bytes 4 p.src_eid,
      length-to_bytes 4 p.dst_eid,
      sizes.sender,
      sizes.receiver,
      sizes.guid,
    )
