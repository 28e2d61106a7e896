-- ===== src/Base/Text.antt =====
-- Text as the list of its code points, and Python's `split` and `join` at one character.
use wallaroo.Base.{ℕ, ◌≡◌, refl, false, List, [], ◌∷◌, ◌++◌, arith}
use wallaroo.Base.{◌==◌, if◌then◌else◌, All}
use Prim.Native.Char.{code}
use Prim.Native.String.{String}

abbrev pub Text : Type 0
Text = List ℕ

-- The code points of a literal.
abbrev pub codes : String → Text
codes String.[] = []
codes (String.◌∷◌ c s) = code c ∷ codes s

-- The first part goes on the front of the parts of the rest.
abbrev pub cons_head : ℕ → List Text → List Text
cons_head c [] = (c ∷ []) ∷ []
cons_head c (p ∷ ps) = (c ∷ p) ∷ ps

-- `s.split(sep)`: never empty, and empty parts are kept.
unfoldable pub split : ℕ → Text → List Text
split sep [] = [] ∷ []
split sep (c ∷ s) = let rest = split sep s in if c == sep then [] ∷ rest else cons_head c rest

-- `sep.join(parts)`
unfoldable pub intercalate : ℕ → List Text → Text
intercalate sep [] = []
intercalate sep (p ∷ []) = p
intercalate sep (p ∷ q ∷ ps) = p ++ (sep ∷ intercalate sep (q ∷ ps))

-- No character of the text is `sep`.
abbrev pub Lacks : ℕ → Text → Type 0
Lacks sep = All (λ c. (c == sep) ≡ false)

pub split_of_Lacks : (sep : ℕ) (p : Text) → Lacks sep p → split sep p ≡ p ∷ []
unfolding split
split_of_Lacks sep [] h = refl
split_of_Lacks sep (c ∷ p) (h, hs) = rw (h, split_of_Lacks sep p hs)

-- A part without the separator comes off the front.
pub split-append :
    (sep : ℕ) (p s : Text) → Lacks sep p → split sep (p ++ (sep ∷ s)) ≡ p ∷ split sep s
unfolding split
split-append sep [] s h = ground arith
split-append sep (c ∷ p) s (h, hs) = rw (h, split-append sep p s hs)

-- Splitting undoes joining where no part holds the separator.
pub split-intercalate :
    (sep : ℕ) (p : Text) (ps : List Text)
    → All (Lacks sep) (p ∷ ps)
    → split sep (intercalate sep (p ∷ ps)) ≡ p ∷ ps
unfolding intercalate
split-intercalate sep p [] (h, _) = split_of_Lacks sep p h
split-intercalate sep p (q ∷ ps) (h, hs) =
    rw (split-append sep p (intercalate sep (q ∷ ps)) h, split-intercalate sep q ps hs)
