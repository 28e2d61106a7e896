-- ===== src/WordCount/Splitting.antt =====
-- `split` of examples/python/word_count/word_count.py: what its words are, and that they keep the
-- letters of the text.
use mathlib.Core.Path.{subst}
use wallaroo.Base.{
  ℕ, Bool, true, false, List, [], ◌∷◌, ◌++◌, map, join, join-append, All, ◌≡◌, refl, sym, ap, ◌∙◌,
  ◌==◌, if◌then◌else◌,
}
use wallaroo.Base.Text.{Text, split, cons_head, Lacks}
use wallaroo.Base.Dict.{nat_eq, contains}
use wallaroo.Cluster.Commands.{strip}
use wallaroo.WordCount.{Codecs, is_mark, words_of_line, split_words}
use wallaroo.WordCount.Words.{
  IsWord, lines_are_words, left_strip-Lacks, right_strip-Lacks, split-Lacks,
}
use wallaroo.WordCount.Letters.{letters, letters-split, letters-map, letters-strip}

-- A part of a text without newlines has none.
split_keeps-Lacks : (sep other : ℕ) (t : Text) → Lacks other t → All (Lacks other) (split sep t)
unfolding split
split_keeps-Lacks sep other [] h = (tt, tt)
split_keeps-Lacks sep other (c ∷ t) (h, hs) = go (c == sep) (split_keeps-Lacks sep other t hs)
  where
    behind : (ps : List Text) → All (Lacks other) ps → All (Lacks other) (cons_head c ps)
    behind [] a = ((h, tt), tt)
    behind (p ∷ ps) (a, as') = ((h, a), as')

    go :
        (b : Bool)
        → All (Lacks other) (split sep t)
        → All (Lacks other) (if b then [] ∷ split sep t else cons_head c (split sep t))
    go true ih = (tt, ih)
    go false ih = behind (split sep t) ih

strip-Lacks : (sep : ℕ) (t : Text) → Lacks sep t → Lacks sep (strip is_mark t)
unfolding strip
strip-Lacks sep t h = right_strip-Lacks sep _ (left_strip-Lacks sep t h)

map-strip-Lacks :
    (sep : ℕ) (ps : List Text) → All (Lacks sep) ps → All (Lacks sep) (map (strip is_mark) ps)
map-strip-Lacks sep [] h = tt
map-strip-Lacks sep (p ∷ ps) (h, hs) = (strip-Lacks sep p h, map-strip-Lacks sep ps hs)

append-All : (P : Text → Type 0) (xs ys : List Text) → All P xs → All P ys → All P (xs ++ ys)
append-All P [] ys h k = k
append-All P (x ∷ xs) ys (h, hs) k = (h, append-All P xs ys hs k)

-- A lower case that goes by characters, of which none but the newline becomes one.
pub record IsByChars (k : Codecs) (lower_char : ℕ → ℕ) : Type 0 where
  pub by_chars : (t : Text) → k.lower t ≡ map lower_char t
  pub newlines : (c : ℕ) → (lower_char c == 10) ≡ (c == 10)

module _ (k : Codecs) (lower_char : ℕ → ℕ) (l : IsByChars k lower_char) where
  map-Lacks : (t : Text) → Lacks 10 t → Lacks 10 (map lower_char t)
  map-Lacks [] h = tt
  map-Lacks (c ∷ t) (h, hs) = (l.newlines c ∙ h, map-Lacks t hs)

  lines-Lacks :
      (ls : List Text) → All (Lacks 10) ls → All (Lacks 10) (join (map (words_of_line k) ls))
  unfolding words_of_line
  lines-Lacks [] h = tt
  lines-Lacks (t ∷ ls) (h, hs) =
      append-All (Lacks 10) (words_of_line k t) (join (map (words_of_line k) ls))
        (map-strip-Lacks 10 _ (
          split_keeps-Lacks 32 10 _
            (strip-Lacks 10 (k.lower t) (subst (Lacks 10) (sym (l.by_chars t)) (map-Lacks t h)))))
        (lines-Lacks ls hs)

  lower-split : (t : Text) → map (map lower_char) (split 10 t) ≡ split 10 (map lower_char t)
  unfolding split
  lower-split [] = refl
  lower-split (c ∷ t) =
      go (c == 10) (split 10 t) (lower-split t)
      ∙ ap
          (λ b.
            if b
            then [] ∷ split 10 (map lower_char t)
            else cons_head (lower_char c) (split 10 (map lower_char t)))
          (sym (l.newlines c))
    where
      behind :
          (ps : List Text)
          → map (map lower_char) (cons_head c ps)
            ≡ cons_head (lower_char c) (map (map lower_char) ps)
      behind [] = refl
      behind (p ∷ ps) = refl

      go :
          (b : Bool) (ps : List Text)
          → map (map lower_char) ps ≡ split 10 (map lower_char t)
          → map (map lower_char) (if b then [] ∷ ps else cons_head c ps) ≡ (
              if b
              then [] ∷ split 10 (map lower_char t)
              else cons_head (lower_char c) (split 10 (map lower_char t)))
      go true ps e = ap (λ r. [] ∷ r) e
      go false ps e = behind ps ∙ ap (cons_head (lower_char c)) e

  line-letters : (t : Text) → letters (join (words_of_line k t)) ≡ letters (map lower_char t)
  unfolding words_of_line contains nat_eq
  line-letters t =
      letters-map (strip is_mark) (λ p. p) (split 32 (strip is_mark (k.lower t))) letters-strip
      ∙ ap (λ ps. letters (join ps)) (same_map (split 32 (strip is_mark (k.lower t))))
      ∙ letters-split 32 (strip is_mark (k.lower t)) refl
      ∙ letters-strip (k.lower t)
      ∙ ap letters (l.by_chars t)
    where
      same_map : (ps : List Text) → map (λ p. p) ps ≡ ps
      same_map [] = refl
      same_map (p ∷ ps) = ap (λ r. p ∷ r) (same_map ps)

  join-lines :
      (ls : List Text)
      → join (join (map (words_of_line k) ls)) ≡ join (map (λ t. join (words_of_line k t)) ls)
  join-lines [] = refl
  join-lines (t ∷ ls) =
      join-append (words_of_line k t) (join (map (words_of_line k) ls))
      ∙ ap (λ r. join (words_of_line k t) ++ r) (join-lines ls)

-- Where the lower case goes by characters, the words of a text hold no space and no newline, do not
-- begin or end with punctuation, and one behind the other have just the letters of the text in
-- lower case, in order: what is lost are punctuation, spaces and newlines.
pub split_words-IsWord :
    (k : Codecs) (lower_char : ℕ → ℕ) (text : Text)
    → IsByChars k lower_char
    → All IsWord (split_words k text)
      × All (Lacks 10) (split_words k text)
      × (letters (join (split_words k text)) ≡ letters (map lower_char text))
unfolding split_words contains nat_eq
split_words-IsWord k lower_char text l = (
  lines_are_words k text,
  lines-Lacks k lower_char l (split 10 text) (split-Lacks 10 text),
  ap letters (join-lines k lower_char l (split 10 text))
      ∙ letters-map (λ t. join (words_of_line k t)) (map lower_char) (split 10 text)
          (line-letters k lower_char l)
      ∙ ap (λ ps. letters (join ps)) (lower-split k lower_char l text)
      ∙ letters-split 10 (map lower_char text) refl,
)
