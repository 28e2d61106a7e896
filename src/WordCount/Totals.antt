-- ===== src/WordCount/Totals.antt =====
-- What examples/python/word_count/word_count.py counts, where each key has a state of its own that
-- begins as a new `WordTotal` and is given to the messages of the key in order.
use wallaroo.Base.{
  ℕ, ◌+◌, Bool, true, false, Option, none, some, List, [], ◌∷◌, ◌≡◌, refl, ap, ◌∙◌, if◌then◌else◌,
}
use wallaroo.Base.Text.{Text}
use wallaroo.Base.Dict.{Dict, lookup, insert, same, same→≡, text_eq, lookup-insert}
use wallaroo.WordCount.{WordTotal, WordCount, new_total, count_word, extract_word}

abbrev pub Totals : Type 0
Totals = Dict Text WordTotal

abbrev pub total_of : Option WordTotal → WordTotal
total_of none = new_total
total_of (some t) = t

-- The messages in order, and what is sent for each.
unfoldable pub count_all : List Text → Totals → List WordCount
unfolding count_word
count_all [] d = []
count_all (w ∷ ws) d =
    let (c, t) = count_word w (total_of (lookup (extract_word w) d)) in
    c ∷ count_all ws (insert (extract_word w) t d)

abbrev pub occurrences : Text → List Text → ℕ
occurrences w [] = 0
occurrences w (v ∷ vs) = let rest = occurrences w vs in if same v w then rest + 1 else rest

-- Each word with how often it has come, those in `seen` before it.
abbrev pub with_counts : List Text → List Text → List WordCount
with_counts seen [] = []
with_counts seen (w ∷ ws) =
    record { word = w; count = occurrences w seen + 1 } ∷ with_counts (w ∷ seen) ws

-- The states hold how often their words were seen.
abbrev Holds : List Text → Totals → Type 0
Holds seen d = (w : Text) → (total_of (lookup w d)).count ≡ occurrences w seen

count-Holds :
    (w : Text) (seen : List Text) (d : Totals)
    → Holds seen d
    → Holds (w ∷ seen) (insert w (count_word w (total_of (lookup w d))).1 d)
unfolding count_word
count-Holds w seen d h v =
    rw (lookup-insert v w (count_word w (total_of (lookup w d))).1 d) (go (same w v) refl)
  where
    go :
        (b : Bool)
        → same w v ≡ b
        → (total_of (if b then some (count_word w (total_of (lookup w d))).1 else lookup v d)).count
          ≡ (if b then occurrences v seen + 1 else occurrences v seen)
    go true e = ap (λ n. n + 1) (h w ∙ ap (λ x. occurrences x seen) (same→≡ w v e))
    go false e = h v

count_all-from :
    (ws seen : List Text) (d : Totals) → Holds seen d → count_all ws d ≡ with_counts seen ws
unfolding count_all
count_all-from [] seen d h = refl
count_all-from (w ∷ ws) seen d h = (λ i.
    record { word = w; count = h w i + 1 }
    ∷ count_all-from ws (w ∷ seen) (insert w (count_word w (total_of (lookup w d))).1 d)
        (count-Holds w seen d h) i)

-- For each word that comes, the application sends the word with how often it has come, this time
-- included, whatever other words come between.
pub count_all-with_counts : (ws : List Text) → count_all ws [] ≡ with_counts [] ws
unfolding lookup
count_all-with_counts ws = count_all-from ws [] [] (λ w. refl)
