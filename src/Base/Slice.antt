-- ===== src/Base/Slice.antt =====
-- Python's `xs[start:stop:step]` on a list.
use wallaroo.Base.{
  ℕ, zero, suc, ◌-◌, Option, none, some, List, [], ◌∷◌, ◌++◌, length, take, drop, Result, ok, err,
  value_error,
}
use wallaroo.Base.Int.{ℤ, pos, negsuc}

-- A position that is counted from the end where it is negative, or how many items are before it.
abbrev pub before : ℤ → ℕ → ℕ
before (pos n) len = n
before (negsuc n) len = len - suc n

-- How many items there are up to a position, itself included.
abbrev pub up_to : ℤ → ℕ → ℕ
up_to (pos n) len = suc n
up_to (negsuc n) len = len - n

abbrev pub bound : (ℤ → ℕ → ℕ) → ℕ → Option ℤ → ℕ → ℕ
bound count default none len = default
bound count default (some i) len = count i len

module _ {A : Type 0} where
  unfoldable pub reversed : List A → List A
  reversed [] = []
  reversed (x ∷ xs) = reversed xs ++ x ∷ []

  -- The first item behind as many as are to be skipped, and then one after every `gap`.
  unfoldable pub every : ℕ → ℕ → List A → List A
  every gap skip [] = []
  every gap zero (x ∷ xs) = x ∷ every gap gap xs
  every gap (suc skip) (x ∷ xs) = every gap skip xs

  unfoldable pub ascending : Option ℤ → Option ℤ → ℕ → List A → List A
  unfolding every
  ascending start stop gap xs = every gap 0 (
      drop (bound before 0 start (length xs)) (take (bound before (length xs) stop (length xs)) xs))

  unfoldable pub descending : Option ℤ → Option ℤ → ℕ → List A → List A
  unfolding every reversed
  descending start stop gap xs = every gap 0 (
      reversed (
        drop (bound up_to 0 stop (length xs))
          (take (bound up_to (length xs) start (length xs)) xs)))

  -- A step of 0 is refused.
  unfoldable pub slice : Option ℤ → Option ℤ → Option ℤ → List A → Result (List A)
  unfolding ascending descending
  slice start stop none xs = ok (ascending start stop 0 xs)
  slice start stop (some (pos zero)) xs = err value_error
  slice start stop (some (pos (suc gap))) xs = ok (ascending start stop gap xs)
  slice start stop (some (negsuc gap)) xs = ok (descending start stop gap xs)
