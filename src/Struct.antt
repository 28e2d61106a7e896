-- ===== src/Struct.antt =====
-- `struct.pack` and `struct.unpack` of Python's standard library, for the formats that the
-- program uses: unsigned big-endian and little-endian integers, and the signed `<q`.
-- A byte string is a list of numbers below 256.
pub mod RoundTrip
use wallaroo.Base.{ℕ, zero, suc, ◌+◌, ◌-◌, ◌*◌, ◌/◌, ◌%◌, ◌^◌, ◌<◌, List, [], ◌∷◌, ◌++◌, All}
use wallaroo.Base.{length, drop, take, ltb, leb, ◌==◌, if◌then◌else◌}
use wallaroo.Base.{Result, ok, err, struct_error, ◌>>=◌}
use wallaroo.Base.Int.{ℤ, pos, negsuc}

abbrev pub Bytes : Type 0
Bytes = List ℕ

abbrev pub IsByte : ℕ → Type 0
IsByte b = b < 256

-- The `n` bytes of a number, the most significant first.
unfoldable pub be : ℕ → ℕ → Bytes
be zero v = []
be (suc n) v = be n (v / 256) ++ (v % 256) ∷ []

pub from_be_loop : ℕ → Bytes → ℕ
from_be_loop acc [] = acc
from_be_loop acc (b ∷ bs) = from_be_loop (acc * 256 + b) bs

pub from_be : Bytes → ℕ
unfolding from_be_loop
from_be bs = from_be_loop 0 bs

-- The least significant first.
unfoldable pub le : ℕ → ℕ → Bytes
le zero v = []
le (suc n) v = (v % 256) ∷ le n (v / 256)

pub from_le : Bytes → ℕ
from_le [] = 0
from_le (b ∷ bs) = b + 256 * from_le bs

-- `pack('>B', v)`, `pack('>H', v)`, `pack('>I', v)`, `pack('>Q', v)`, by their sizes.
unfoldable pub pack_be : ℕ → ℕ → Result Bytes
unfolding be
pack_be n v = if ltb v (256 ^ n) then ok (be n v) else err struct_error

-- `unpack` raises unless it is given exactly the bytes of its format.
unfoldable pub unpack_be : ℕ → Bytes → Result ℕ
unfolding from_be
unpack_be n bs = if length bs == n then ok (from_be bs) else err struct_error

unfoldable pub pack_le : ℕ → ℕ → Result Bytes
unfolding le
pack_le n v = if ltb v (256 ^ n) then ok (le n v) else err struct_error

unfoldable pub unpack_le : ℕ → Bytes → Result ℕ
unfolding from_le
unpack_le n bs = if length bs == n then ok (from_le bs) else err struct_error

-- `unpack_from('<…', bs)` reads the front and wants no exact length.
unfoldable pub unpack_le_from : ℕ → Bytes → Result ℕ
unfolding from_le
unpack_le_from n bs = if ltb (length bs) n then err struct_error else ok (from_le (take n bs))

-- `<q`: two's complement in eight bytes.
unfoldable pub pack_q : ℤ → Result Bytes
unfolding le
pack_q (pos n) = if ltb n (2 ^ 63) then ok (le 8 n) else err struct_error
pack_q (negsuc n) = if ltb n (2 ^ 63) then ok (le 8 (2 ^ 64 - suc n)) else err struct_error

-- `'{n}s'` cuts or pads with zero bytes.
unfoldable pub pack_s : ℕ → Bytes → Bytes
pack_s zero bs = []
pack_s (suc n) [] = 0 ∷ pack_s n []
pack_s (suc n) (b ∷ bs) = b ∷ pack_s n bs

-- `unpack('{n}s', bs)`.
unfoldable pub unpack_s : ℕ → Bytes → Result Bytes
unpack_s n bs = if length bs == n then ok bs else err struct_error
