-- ===== src/Decoder/LayerZero/RoundTrip.antt =====
-- The decoder reads back what a packet holds.
use akave_crosschain_archive.Base.{
  ℕ, ◌+◌, ◌≡◌, refl, ◌∙◌, String, true, false, Option, none, some, [], ◌∷◌, length, drop, arith,
  str_eq, ltb, if◌then◌else◌, ok,
}
use akave_crosschain_archive.Base.Bytes.{Bytes, prefixed_hex, hex_text, big_endian-to_bytes}
use akave_crosschain_archive.Base.Decimal.{print_uint}
use akave_crosschain_archive.Decoder.LayerZero.Packet.{
  Packet, IsPacket, encode, part_version, part_nonce, part_src_eid, part_sender, part_dst_eid,
  part_receiver, part_guid, part_message, length-encode,
}
use akave_crosschain_archive.Decoder.LayerZero.{
  decode_encoded_payload, endpoint_to_chain_id, put_known,
}
use akave_crosschain_archive.Decoder.{Fields, put}

-- The fields of a packet, under the names that the normalizer reads.
pub record HasFields (address_hex : Bytes → String) (p : Packet) (fields : Fields) : Type 0 where
  pub version : fields "version" ≡ print_uint p.version
  pub nonce : fields "nonce" ≡ print_uint p.nonce
  pub src_eid : fields "src_eid" ≡ print_uint p.src_eid
  pub src_chain_id :
      (n : ℕ) → endpoint_to_chain_id p.src_eid ≡ some n → fields "src_chain_id" ≡ print_uint n
  pub sender : fields "sender" ≡ address_hex (drop 12 p.sender)
  pub dst_eid : fields "dst_eid" ≡ print_uint p.dst_eid
  pub dst_chain_id :
      (n : ℕ) → endpoint_to_chain_id p.dst_eid ≡ some n → fields "dst_chain_id" ≡ print_uint n
  pub receiver : fields "receiver" ≡ address_hex (drop 12 p.receiver)
  pub guid : fields "guid" ≡ prefixed_hex p.guid
  pub message : fields "message" ≡ prefixed_hex p.message

put_known-other :
    (key : String) (o : Option ℕ) (d : Fields) (other : String)
    → str_eq key other ≡ false
    → put_known key o d other ≡ d other
put_known-other key none d other h = refl
put_known-other key (some n) d other h = rw h refl

put_known-same :
    (key : String) (o : Option ℕ) (d : Fields) (n : ℕ)
    → str_eq key key ≡ true
    → o ≡ some n
    → put_known key o d key ≡ print_uint n
put_known-same key o d n same known = rw (known, same) refl

message_text :
    (message : Bytes) (size : ℕ)
    → size ≡ 113 + length message
    → (if ltb 113 size then prefixed_hex message else "0x") ≡ prefixed_hex message
unfolding hex_text
message_text [] size h = ground arith
message_text (b ∷ bs) size h = let long : ltb 113 size ≡ true = ground arith in rw long refl

module _ (address_hex : Bytes → String) (p : Packet) (sizes : IsPacket p) where
  abbrev fields_of : Fields → String → Fields
  fields_of d text =
      let d₁ = put d "version" (print_uint p.version) in
      let d₂ = put d₁ "nonce" (print_uint p.nonce) in
      let d₃ = put d₂ "src_eid" (print_uint p.src_eid) in
      let d₄ = put_known "src_chain_id" (endpoint_to_chain_id p.src_eid) d₃ in
      let d₅ = put d₄ "sender" (address_hex (drop 12 p.sender)) in
      let d₆ = put d₅ "dst_eid" (print_uint p.dst_eid) in
      let d₇ = put_known "dst_chain_id" (endpoint_to_chain_id p.dst_eid) d₆ in
      let d₈ = put d₇ "receiver" (address_hex (drop 12 p.receiver)) in
      let d₉ = put d₈ "guid" (prefixed_hex p.guid) in put d₉ "message" text

  decode-fields_of :
      (d : Fields)
      → decode_encoded_payload address_hex (encode p) d
        ≡ ok (fields_of d (if ltb 113 (length (encode p)) then prefixed_hex p.message else "0x"))
  unfolding decode_encoded_payload
  decode-fields_of d =
      let long : ltb (length (encode p)) 113 ≡ false = ground (arith, length-encode p sizes) in
      rw
        (
          long,
          part_version p sizes,
          part_nonce p sizes,
          part_src_eid p sizes,
          part_sender p sizes,
          part_dst_eid p sizes,
          part_receiver p sizes,
          part_guid p sizes,
          part_message p sizes,
          big_endian-to_bytes 1 p.version sizes.version,
          big_endian-to_bytes 8 p.nonce sizes.nonce,
          big_endian-to_bytes 4 p.src_eid sizes.src_eid,
          big_endian-to_bytes 4 p.dst_eid sizes.dst_eid,
        )
        refl

  fields_of-HasFields :
      (d : Fields) (text : String)
      → text ≡ prefixed_hex p.message
      → HasFields address_hex p (fields_of d text)
  fields_of-HasFields d text same =
      let src = endpoint_to_chain_id p.src_eid in
      let dst = endpoint_to_chain_id p.dst_eid in
      record {
        version =
            put_known-other "dst_chain_id" dst _ "version" refl
            ∙ put_known-other "src_chain_id" src _ "version" refl;
        nonce =
            put_known-other "dst_chain_id" dst _ "nonce" refl
            ∙ put_known-other "src_chain_id" src _ "nonce" refl;
        src_eid =
            put_known-other "dst_chain_id" dst _ "src_eid" refl
            ∙ put_known-other "src_chain_id" src _ "src_eid" refl;
        src_chain_id = λ n known.
            put_known-other "dst_chain_id" dst _ "src_chain_id" refl
            ∙ put_known-same "src_chain_id" src _ n refl known;
        sender = put_known-other "dst_chain_id" dst _ "sender" refl;
        dst_eid = put_known-other "dst_chain_id" dst _ "dst_eid" refl;
        dst_chain_id = λ n known. put_known-same "dst_chain_id" dst _ n refl known;
        receiver = refl;
        guid = refl;
        message = same;
      }

  -- The decoder accepts every packet of the layout, whatever its message, and writes each part of
  -- it under its name; a chain identifier is written where the endpoint is known.
  pub decode-encode :
      (d : Fields)
      → (fields : Fields) × (decode_encoded_payload address_hex (encode p) d ≡ ok fields)
        × HasFields address_hex p fields
  decode-encode d = (
    _,
    decode-fields_of d,
    fields_of-HasFields d _ (message_text p.message (length (encode p)) (length-encode p sizes)),
  )
