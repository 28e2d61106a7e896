-- ===== src/WordCount/Words.antt =====
-- The words that examples/python/word_count/word_count.py makes of a text.
use wallaroo.Base.{
  ℕ, Bool, true, false, List, [], ◌∷◌, ◌++◌, map, join, All, ◌≡◌, refl, ◌==◌, if◌then◌else◌,
}
use wallaroo.Base.Text.{Text, split, cons_head, Lacks}
use wallaroo.Base.Dict.{nat_eq}
use wallaroo.Cluster.Commands.{left_strip, right_strip, kept_end, strip}
use wallaroo.WordCount.{Codecs, is_mark, words_of_line, split_words}

-- A word begins and ends with no punctuation.
abbrev pub First : Text → Type 0
First [] = Unit
First (c ∷ t) = is_mark c ≡ false

abbrev pub Last : Text → Type 0
Last [] = Unit
Last (c ∷ []) = is_mark c ≡ false
Last (c ∷ x ∷ t) = Last (x ∷ t)

-- The empty word is one too.
pub record IsWord (w : Text) : Type 0 where
  pub no_space : Lacks 32 w
  pub first : First w
  pub last : Last w

left_strip-First : (t : Text) → First (left_strip is_mark t)
unfolding left_strip
left_strip-First [] = tt
left_strip-First (c ∷ t) = go (is_mark c) refl (left_strip-First t)
  where
    go :
        (b : Bool)
        → is_mark c ≡ b
        → First (left_strip is_mark t)
        → First (if b then left_strip is_mark t else c ∷ t)
    go true e ih = ih
    go false e ih = e

pub left_strip-Lacks : (sep : ℕ) (t : Text) → Lacks sep t → Lacks sep (left_strip is_mark t)
unfolding left_strip
left_strip-Lacks sep [] h = tt
left_strip-Lacks sep (c ∷ t) (h, hs) = go (is_mark c) (left_strip-Lacks sep t hs)
  where
    go :
        (b : Bool)
        → Lacks sep (left_strip is_mark t)
        → Lacks sep (if b then left_strip is_mark t else c ∷ t)
    go true ih = ih
    go false ih = (h, hs)

kept_end-Last : (c : ℕ) (t : Text) (b : Bool) → is_mark c ≡ b → Last t → Last (kept_end b c t)
kept_end-Last c [] true e h = tt
kept_end-Last c [] false e h = e
kept_end-Last c (x ∷ t) true e h = h
kept_end-Last c (x ∷ t) false e h = h

right_strip-Last : (t : Text) → Last (right_strip is_mark t)
unfolding right_strip
right_strip-Last [] = tt
right_strip-Last (c ∷ t) =
    kept_end-Last c (right_strip is_mark t) (is_mark c) refl (right_strip-Last t)

kept_end-First : (c : ℕ) (t : Text) (b : Bool) → is_mark c ≡ b → b ≡ false → First (kept_end b c t)
kept_end-First c t true e h = cc
kept_end-First c [] false e h = e
kept_end-First c (x ∷ t) false e h = e

right_strip-First : (t : Text) → First t → First (right_strip is_mark t)
unfolding right_strip
right_strip-First [] h = tt
right_strip-First (c ∷ t) h = kept_end-First c (right_strip is_mark t) (is_mark c) refl h

kept_end-Lacks :
    (sep c : ℕ) (t : Text) (b : Bool)
    → (c == sep) ≡ false
    → Lacks sep t
    → Lacks sep (kept_end b c t)
kept_end-Lacks sep c [] true h hs = tt
kept_end-Lacks sep c [] false h hs = (h, tt)
kept_end-Lacks sep c (x ∷ t) true h hs = (h, hs)
kept_end-Lacks sep c (x ∷ t) false h hs = (h, hs)

pub right_strip-Lacks : (sep : ℕ) (t : Text) → Lacks sep t → Lacks sep (right_strip is_mark t)
unfolding right_strip
right_strip-Lacks sep [] h = tt
right_strip-Lacks sep (c ∷ t) (h, hs) =
    kept_end-Lacks sep c (right_strip is_mark t) (is_mark c) h (right_strip-Lacks sep t hs)

strip-IsWord : (t : Text) → Lacks 32 t → IsWord (strip is_mark t)
unfolding strip
strip-IsWord t h = record {
  no_space = right_strip-Lacks 32 (left_strip is_mark t) (left_strip-Lacks 32 t h);
  first = right_strip-First (left_strip is_mark t) (left_strip-First t);
  last = right_strip-Last (left_strip is_mark t);
}

pub cons_head-Lacks :
    (sep c : ℕ) (ps : List Text)
    → (c == sep) ≡ false
    → All (Lacks sep) ps
    → All (Lacks sep) (cons_head c ps)
cons_head-Lacks sep c [] h hs = ((h, tt), tt)
cons_head-Lacks sep c (p ∷ ps) h (q, hs) = ((h, q), hs)

pub split-Lacks : (sep : ℕ) (s : Text) → All (Lacks sep) (split sep s)
unfolding split
split-Lacks sep [] = (tt, tt)
split-Lacks sep (c ∷ s) = go (c == sep) refl (split-Lacks sep s)
  where
    go :
        (b : Bool)
        → (c == sep) ≡ b
        → All (Lacks sep) (split sep s)
        → All (Lacks sep) (if b then [] ∷ split sep s else cons_head c (split sep s))
    go true e ih = (tt, ih)
    go false e ih = cons_head-Lacks sep c (split sep s) e ih

map-strip-IsWord : (ps : List Text) → All (Lacks 32) ps → All IsWord (map (strip is_mark) ps)
map-strip-IsWord [] h = tt
map-strip-IsWord (p ∷ ps) (h, hs) = (strip-IsWord p h, map-strip-IsWord ps hs)

append-IsWord : (ps qs : List Text) → All IsWord ps → All IsWord qs → All IsWord (ps ++ qs)
append-IsWord [] qs h k = k
append-IsWord (p ∷ ps) qs (h, hs) k = (h, append-IsWord ps qs hs k)

lines-IsWord : (k : Codecs) (ls : List Text) → All IsWord (join (map (words_of_line k) ls))
unfolding words_of_line
lines-IsWord k [] = tt
lines-IsWord k (l ∷ ls) =
    append-IsWord (words_of_line k l) (join (map (words_of_line k) ls))
      (map-strip-IsWord (split 32 (strip is_mark (k.lower l)))
        (split-Lacks 32 (strip is_mark (k.lower l))))
      (lines-IsWord k ls)

-- Whatever the lower case of a line is, no word of a text holds a space or begins or ends with
-- punctuation.
pub lines_are_words : (k : Codecs) (text : Text) → All IsWord (split_words k text)
unfolding split_words
lines_are_words k text = lines-IsWord k (split 10 text)
