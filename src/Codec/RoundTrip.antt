-- ===== src/Codec/RoundTrip.antt =====
-- The connector codec: what is encoded is framed and decoded to the user's own bytes.
use wallaroo.Base.{ℕ, suc, ◌+◌, ◌-◌, ◌^◌, ◌<◌, ◌≡◌, ap, ◌∙◌, sym, arith, Option}
use wallaroo.Base.{◌++◌, length, length-append, append_assoc}
use wallaroo.Base.{drop-append_left, Result, ok, lt→ltb}
use wallaroo.Base.Int.{ℤ, pos, negsuc}
use wallaroo.Struct.{Bytes, le, pack_q}
use wallaroo.Struct.RoundTrip.{
  pack_le-eq-ok, unpack_le-le, unpack_le_from-le, length-le, pack_s_self,
}
use wallaroo.Codec.{part_bytes, seq_number, pack_meta, connector_encode, connector_decoder}

-- A sequence number of 64 bits.
abbrev pub IsInt64 : ℤ → Type 0
IsInt64 (pos n) = n < 2 ^ 63
IsInt64 (negsuc n) = n < 2 ^ 63

pack_q-eq-ok : (z : ℤ) → IsInt64 z → (q : Bytes) × (pack_q z ≡ ok q) × (length q ≡ 8)
unfolding pack_q
pack_q-eq-ok (pos n) h = (le 8 n, rw (lt→ltb n (2 ^ 63) h), length-le 8 n)
pack_q-eq-ok (negsuc n) h =
    (le 8 (2 ^ 64 - suc n), rw (lt→ltb n (2 ^ 63) h), length-le 8 (2 ^ 64 - suc n))

-- The metadata is its own length, and as many bytes.
pack_meta-eq-ok :
    (part : Bytes) (seq : ℤ)
    → length part + 8 < 256 ^ 2
    → IsInt64 seq
    → (body : Bytes) × (pack_meta part seq ≡ ok (le 2 (length part + 8) ++ body))
      × (length body ≡ length part + 8)
unfolding pack_meta
pack_meta-eq-ok part seq h k =
    let (q, packed, size) = pack_q-eq-ok seq k in
    (
      part ++ q,
      rw (pack_le-eq-ok 2 (length part + 8) h) (rw packed (rw pack_s_self)),
      omega (arith, length-append {0} part q, size),
    )

abbrev pub frame_size : Bytes → Bytes → ℕ
frame_size part encoded = length part + 10 + length encoded

module _ {A B : Type 0} (func : A → Result Bytes) (user : Bytes → Result B) where
  decode_lem :
      (n : ℕ) (body encoded : Bytes)
      → n < 256 ^ 2
      → length body ≡ n
      → (connector_decoder user).decode ((le 2 n ++ body) ++ encoded) ≡ user encoded
  unfolding connector_decoder
  decode_lem n body encoded h e =
      let size : length (le 2 n ++ body) ≡ 2 + n =
        omega (arith, e, length-append {0} (le 2 n) body, length-le 2 n) in
      rw (append_assoc (le 2 n) body encoded) (
        rw (unpack_le_from-le 2 n h (body ++ encoded)) (
          ap user (
            rw (← append_assoc (le 2 n) body encoded)
              (drop-append_left (2 + n) (le 2 n ++ body) encoded size))))

  -- A message whose parts fit their length fields is encoded as four bytes of length and the
  -- payload; the decoder reads that length from the four bytes, and from the payload the bytes
  -- that the user's encoder made, whatever the partition and the sequence number.
  pub decode-connector_encode :
      (msg : A) (encoded : Bytes) (partition : Option Bytes) (sequence : Option ℤ)
      → func msg ≡ ok encoded
      → frame_size (part_bytes partition) encoded < 256 ^ 4
      → length (part_bytes partition) + 8 < 256 ^ 2
      → IsInt64 (seq_number sequence)
      → (header : Bytes) × ((payload : Bytes) × (connector_encode func msg partition sequence
            ≡ ok (header ++ payload))
          × (length header ≡ (connector_decoder user).header_length)
          × ((connector_decoder user).payload_length header ≡ ok (length payload))
          × ((connector_decoder user).decode payload ≡ user encoded))
  unfolding connector_encode connector_decoder
  decode-connector_encode msg encoded partition sequence f fits small seq_fits =
      let part = part_bytes partition in
      let (body, packed, size) = pack_meta-eq-ok part (seq_number sequence) small seq_fits in
      let meta : Bytes = le 2 (length part + 8) ++ body in
      let total : ℕ = length meta + length encoded in
      let meta_size : length meta ≡ length part + 10 = omega (
        arith,
        size,
        length-append {0} (le 2 (length part + 8)) body,
        length-le 2 (length part + 8),
      ) in
      let total_fits : total < 256 ^ 4 = omega (arith, meta_size, fits) in
      (
        le 4 total,
        (
          meta ++ encoded,
          rw f (
              rw packed (
                rw (pack_le-eq-ok 4 total total_fits)
                  (rw (pack_s_self meta, pack_s_self encoded)))),
          length-le 4 total,
          unpack_le-le 4 total total_fits ∙ ap ok (sym (length-append meta encoded)),
          decode_lem (length part + 8) body encoded small size,
        ),
      )
