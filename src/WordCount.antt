-- ===== src/WordCount.antt =====
-- The example application examples/python/word_count/word_count.py, of which
-- demos/python_word_count/word_count.py is a copy: lines are split into words, and each word is
-- counted in the state of its key. Texts are lists of code points; the lower case of a text, UTF-8
-- and `str` are parameters.
pub mod Words
pub mod Letters
pub mod Splitting
pub mod Totals
mod Tests
use wallaroo.Base.{
  ℕ, ◌+◌, Bool, true, false, List, [], ◌∷◌, ◌++◌, map, join, ◌==◌, if◌then◌else◌, Result,
}
use wallaroo.Base.Text.{Text, codes, split}
use wallaroo.Base.Dict.{contains, nat_eq}
use wallaroo.Struct.{Bytes}
use wallaroo.Cluster.Commands.{strip}

pub record Codecs : Type 0 where
  pub lower : Text → Text
  pub decode : Bytes → Result Text
  pub encode : Text → Bytes
  pub str : ℕ → Text

abbrev pub punctuation : List ℕ
punctuation = codes " !\"#$%&'()*+,-./:;<=>?@[\\]^_`{|}~"

-- What `strip(punctuation)` takes off.
abbrev pub is_mark : ℕ → Bool
is_mark c = contains punctuation c

-- The words of a line, and of a text.
unfoldable pub words_of_line : Codecs → Text → List Text
unfolding strip
words_of_line k line = map (strip is_mark) (split 32 (strip is_mark (k.lower line)))

unfoldable pub split_words : Codecs → Text → List Text
unfolding words_of_line
split_words k text = join (map (words_of_line k) (split 10 text))

-- `WordTotal`, whose count begins at 0, and `WordCount`
pub record WordTotal : Type 0 where
  pub count : ℕ

pub record WordCount : Type 0 where
  pub word : Text
  pub count : ℕ

abbrev pub new_total : WordTotal
new_total = record { count = 0 }

unfoldable pub count_word : Text → WordTotal → WordCount × WordTotal
count_word word total =
    let total' : WordTotal = record { count = total.count + 1 } in
    (record { word = word; count = total'.count }, total')

abbrev pub extract_word : Text → Text
extract_word word = word

unfoldable pub decoder : Codecs → Bytes → Result Text
decoder k bs = k.decode bs

unfoldable pub encoder : Codecs → WordCount → Bytes
encoder k c = k.encode (c.word ++ (codes " => " ++ (k.str c.count ++ 10 ∷ [])))
