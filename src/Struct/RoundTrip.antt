-- ===== src/Struct/RoundTrip.antt =====
-- What is packed is unpacked to the same value, and packing gives the bytes of the format's size.
use native.Mathlib.Nat.{pow-suc}
use wallaroo.Base.{ℕ, zero, suc, ◌+◌, ◌*◌, ◌/◌, ◌%◌, ◌^◌, ◌<◌, ◌≡◌, refl, ap, ◌∙◌, arith}
use wallaroo.Base.{[], ◌∷◌, ◌++◌, length, length-append, take-append_left}
use wallaroo.Base.{ok, lt→ltb, le→ltb, ==_iff}
use wallaroo.Struct.{Bytes, be, from_be_loop, from_be, le, from_le}
use wallaroo.Struct.{pack_be, unpack_be, pack_le, unpack_le, unpack_le_from, pack_s}

pub length-be : (n v : ℕ) → length (be n v) ≡ n
unfolding be
length-be zero v = refl
length-be (suc n) v =
    omega (arith, length-append {0} (be n (v / 256)) ((v % 256) ∷ []), length-be n (v / 256))

pub length-le : (n v : ℕ) → length (le n v) ≡ n
unfolding le
length-le zero v = refl
length-le (suc n) v = omega (arith, length-le n (v / 256))

from_be_loop-append :
    (acc : ℕ) (xs : Bytes) (b : ℕ) → from_be_loop acc (xs ++ b ∷ []) ≡ from_be_loop acc xs * 256 + b
unfolding from_be_loop
from_be_loop-append acc [] b = refl
from_be_loop-append acc (x ∷ xs) b = from_be_loop-append (acc * 256 + x) xs b

pub from_be-be : (n v : ℕ) → v < 256 ^ n → from_be (be n v) ≡ v
unfolding be from_be
from_be-be zero v h = omega arith
from_be-be (suc n) v h =
    from_be_loop-append 0 (be n (v / 256)) (v % 256)
    ∙ omega (arith, pow-suc 256 n, from_be-be n (v / 256))

pub from_le-le : (n v : ℕ) → v < 256 ^ n → from_le (le n v) ≡ v
unfolding le from_le
from_le-le zero v h = omega arith
from_le-le (suc n) v h = omega (arith, pow-suc 256 n, from_le-le n (v / 256))

module _ (n v : ℕ) (fits : v < 256 ^ n) where
  pub pack_be-eq-ok : pack_be n v ≡ ok (be n v)
  unfolding pack_be
  pack_be-eq-ok = rw (lt→ltb _ _ fits)

  pub pack_le-eq-ok : pack_le n v ≡ ok (le n v)
  unfolding pack_le
  pack_le-eq-ok = rw (lt→ltb _ _ fits)

  pub unpack_be-be : unpack_be n (be n v) ≡ ok v
  unfolding unpack_be
  unpack_be-be = rw ((==_iff _ _).1 (length-be n v)) (ap ok (from_be-be n v fits))

  pub unpack_le-le : unpack_le n (le n v) ≡ ok v
  unfolding unpack_le
  unpack_le-le = rw ((==_iff _ _).1 (length-le n v)) (ap ok (from_le-le n v fits))

  pub unpack_le_from-le : (rest : Bytes) → unpack_le_from n (le n v ++ rest) ≡ ok v
  unfolding unpack_le_from
  unpack_le_from-le rest =
      rw
        (
          le→ltb (length (le n v ++ rest)) n
              (omega (arith, length-append {0} (le n v) rest, length-le n v)),
          take-append_left n (le n v) rest (length-le n v),
        )
        (ap ok (from_le-le n v fits))

pub pack_s_self : (bs : Bytes) → pack_s (length bs) bs ≡ bs
unfolding pack_s
pack_s_self [] = refl
pack_s_self (b ∷ bs) = ap (λ t. b ∷ t) (pack_s_self bs)
