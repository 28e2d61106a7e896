-- ===== src/Codec.antt =====
-- The codec classes that `_wallaroo_wrap` of machida/lib/wallaroo/__init__.py builds around a user
-- function: `OctetDecoder`, `ConnectorEncoder`, `ConnectorDecoder`. The user's functions are
-- parameters, and may raise.
pub mod RoundTrip
use wallaroo.Base.{ℕ, zero, suc, ◌+◌, Bool, true, false, Option, none, some, List, [], ◌∷◌, ◌++◌}
use wallaroo.Base.{length, take, drop, ◌==◌, if◌then◌else◌, Result, ok, err, ◌>>=◌}
use wallaroo.Base.Int.{ℤ, pos, negsuc}
use wallaroo.Struct.{Bytes, be, le, pack_le, unpack_le, unpack_le_from, unpack_be, pack_q, pack_s}

-- What a framed source or sink asks of a decoder.
pub record Decoder (A : Type 0) : Type 0 where
  pub header_length : ℕ
  pub payload_length : Bytes → Result ℕ
  pub decode : Bytes → Result A

-- `@decoder(header_length=4, length_fmt='>I')`: the length is big-endian in all the header's bytes.
unfoldable pub octet_decoder : {A : Type 0} → ℕ → (Bytes → Result A) → Decoder A
octet_decoder n func = record { header_length = n; payload_length = unpack_be n; decode = func }

-- `encode(self, data, partition=None, sequence=None)`, with the partition as the UTF-8 bytes of
-- its text. An empty partition counts as none, and so does the sequence number 0.
unfoldable pub part_bytes : Option Bytes → Bytes
part_bytes none = []
part_bytes (some p) = p

unfoldable pub seq_number : Option ℤ → ℤ
seq_number none = negsuc 0
seq_number (some (pos zero)) = negsuc 0
seq_number (some n) = n

-- `struct.pack('<H{}sq'.format(len(part)), len(part) + 8, part, seq)`
unfoldable pub pack_meta : Bytes → ℤ → Result Bytes
pack_meta part seq = do
  size ← pack_le 2 (length part + 8)
  q ← pack_q seq
  ok (size ++ (pack_s (length part) part ++ q))

module _ {A : Type 0} where
  unfoldable pub connector_encode : (A → Result Bytes) → A → Option Bytes → Option ℤ → Result Bytes
  unfolding pack_meta
  connector_encode func msg partition sequence = do
    encoded ← func msg
    meta ← pack_meta (part_bytes partition) (seq_number sequence)
    size ← pack_le 4 (length meta + length encoded)
    ok (size ++ (pack_s (length meta) meta ++ pack_s (length encoded) encoded))

  unfoldable pub connector_decoder : (Bytes → Result A) → Decoder A
  connector_decoder func = record {
    header_length = 4;
    payload_length = unpack_le 4;
    decode = λ bs. do
      meta_len ← unpack_le_from 2 bs
      func (drop (2 + meta_len) bs);
  }
