-- ===== src/EndPoints/Reader.antt =====
-- `Reader`: a buffered reader over a generator of byte strings. A generator is the list of what it
-- yields.
use wallaroo.Base.{ℕ, ◌≡◌, refl, sym, ap, arith, List, [], ◌∷◌, ◌++◌, length, take, drop}
use wallaroo.Base.{join, ltb, if◌then◌else◌, append_assoc, append-nil}
use wallaroo.Base.{Bool-cases, inl, inr, zero, suc, ◌≤◌, false}
use wallaroo.Struct.{Bytes}

pub record Reader : Type 0 where
  pub gen : List Bytes
  pub overflow : Bytes

-- `while remaining > 0: remaining -= out.write(next(self.gen))`, where `out` holds all that was
-- written, so that `remaining` is `num` less its length.
unfoldable pub fill : ℕ → Bytes → List Bytes → Bytes × List Bytes
fill num out [] = (out, [])
fill num out (chunk ∷ gen) =
    let more = fill num (out ++ chunk) gen in
    if ltb (length out) num then more else (out, chunk ∷ gen)

unfoldable pub read : ℕ → Reader → Bytes × Reader
unfolding fill
read num r =
    let (out, gen) = fill num r.overflow r.gen in
    (take num out, record { gen = gen; overflow = drop num out })

-- The bytes that the reader has still to give.
abbrev pub stream : Reader → Bytes
stream r = r.overflow ++ join r.gen

take-append_long : (n : ℕ) (xs ys : Bytes) → n ≤ length xs → take n (xs ++ ys) ≡ take n xs
take-append_long zero xs ys h = refl
take-append_long (suc n) [] ys h = absurd (omega arith)
take-append_long (suc n) (x ∷ xs) ys h = ap (λ t. x ∷ t) (take-append_long n xs ys (omega arith))

drop-append_long : (n : ℕ) (xs ys : Bytes) → n ≤ length xs → drop n (xs ++ ys) ≡ drop n xs ++ ys
drop-append_long zero xs ys h = refl
drop-append_long (suc n) [] ys h = absurd (omega arith)
drop-append_long (suc n) (x ∷ xs) ys h = drop-append_long n xs ys (omega arith)

fill_enough :
    (num : ℕ) (out : Bytes) (gen : List Bytes)
    → (take num (fill num out gen).0 ≡ take num (out ++ join gen))
      × (drop num (fill num out gen).0 ++ join (fill num out gen).1 ≡ drop num (out ++ join gen))
unfolding fill
fill_enough num out [] = rw append-nil (refl, append-nil _)
fill_enough num out (chunk ∷ gen) = elim (Bool-cases (ltb (length out) num)) [
  | inl more ↦ rw (more, ← append_assoc out chunk (join gen)) (fill_enough num (out ++ chunk) gen)
  | inr enough ↦
      let h : num ≤ length out = ltb_false num (length out) enough in
      rw enough (
        sym (take-append_long num out (chunk ++ join gen) h),
        sym (drop-append_long num out (chunk ++ join gen) h),
      )
]
  where
    ltb_false : (n m : ℕ) → ltb m n ≡ false → n ≤ m
    ltb_false n m e = ground arith

-- However the generator cuts its bytes, `read num` gives the next `num` bytes, or all that are
-- left, and leaves the rest.
pub read_lem :
    (num : ℕ) (r : Reader)
    → ((read num r).0 ≡ take num (stream r)) × (stream (read num r).1 ≡ drop num (stream r))
unfolding read
read_lem num r = fill_enough num r.overflow r.gen
