-- ===== src/WordCount/Tests.antt =====
-- Words and counts at concrete inputs, for ASCII.
use wallaroo.Base.{arith, join, ℕ, ◌+◌, ◌≡◌, refl, [], ◌∷◌, map, All, ok, ◌&&◌, leb, if◌then◌else◌}
use wallaroo.Base.Text.{codes, split, Lacks}
use wallaroo.Base.Dict.{contains, text_eq, nat_eq}
use wallaroo.Cluster.Commands.{strip}
use wallaroo.WordCount.{Codecs, split_words, words_of_line, encoder}
use wallaroo.WordCount.Words.{IsWord}
use wallaroo.WordCount.Letters.{letters}
use wallaroo.WordCount.Splitting.{IsByChars, split_words-IsWord}
use wallaroo.WordCount.Totals.{count_all, with_counts, count_all-with_counts}

abbrev lower_char : ℕ → ℕ
lower_char c = if leb b'A' c && leb c b'Z' then c + 32 else c

abbrev ascii : Codecs
ascii = record {
  lower = map lower_char;
  decode = λ bs. ok bs;
  encode = λ t. t;
  str = λ n. (48 + n) ∷ [];
}

ascii-IsByChars : IsByChars ascii lower_char
ascii-IsByChars = record { by_chars = λ t. refl; newlines = λ c. ground arith }

split_words-IsWord_example :
    All IsWord (split_words ascii (codes "To be, or\nnot"))
    × All (Lacks 10) (split_words ascii (codes "To be, or\nnot"))
    × (letters (join (split_words ascii (codes "To be, or\nnot")))
        ≡ letters (map lower_char (codes "To be, or\nnot")))
split_words-IsWord_example =
    split_words-IsWord ascii lower_char (codes "To be, or\nnot") ascii-IsByChars

letters_kept : letters (codes "To be, or\nnot") ≡ codes "Tobeornot"
unfolding letters contains nat_eq
letters_kept = refl

words :
    split_words ascii (codes "To be,  or\nnot") ≡ map codes ("to" ∷ "be" ∷ "" ∷ "or" ∷ "not" ∷ [])
unfolding split_words words_of_line strip split contains nat_eq
words = refl

-- A blank line gives an empty word, which is counted like any other.
blank_line : split_words ascii [] ≡ [] ∷ []
unfolding split_words words_of_line strip split
blank_line = refl

count_all-with_counts_example :
    count_all (map codes ("a" ∷ "b" ∷ "a" ∷ [])) []
    ≡ with_counts [] (map codes ("a" ∷ "b" ∷ "a" ∷ []))
count_all-with_counts_example = count_all-with_counts (map codes ("a" ∷ "b" ∷ "a" ∷ []))

encoded : encoder ascii (record { word = codes "a"; count = 2 }) ≡ codes "a => 2\n"
unfolding encoder
encoded = refl
