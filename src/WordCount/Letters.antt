-- ===== src/WordCount/Letters.antt =====
-- What examples/python/word_count/word_count.py keeps of a text when it splits it into words.
use wallaroo.Base.{
  ℕ, Bool, true, false, List, [], ◌∷◌, ◌++◌, map, join, ◌≡◌, refl, sym, ap, ◌∙◌, ◌==◌,
  if◌then◌else◌, arith,
}
use wallaroo.Base.Text.{Text, split, cons_head}
use wallaroo.Base.Dict.{nat_eq}
use wallaroo.Cluster.Commands.{left_strip, right_strip, kept_end, strip}
use wallaroo.WordCount.{is_mark}

-- Punctuation, of which the space is one, and the end of a line.
abbrev pub is_gap : ℕ → Bool
is_gap c = if is_mark c then true else c == 10

unfoldable pub letters : Text → Text
letters [] = []
letters (c ∷ t) = let rest = letters t in if is_gap c then rest else c ∷ rest

pub letters-append : (s t : Text) → letters (s ++ t) ≡ letters s ++ letters t
unfolding letters
letters-append [] t = refl
letters-append (c ∷ s) t = go (is_gap c) (letters-append s t)
  where
    go :
        (b : Bool)
        → letters (s ++ t) ≡ letters s ++ letters t
        → (if b then letters (s ++ t) else c ∷ letters (s ++ t))
          ≡ (if b then letters s else c ∷ letters s) ++ letters t
    go true e = e
    go false e = ap (λ r. c ∷ r) e

letters-gap : (c : ℕ) (t : Text) → is_gap c ≡ true → letters (c ∷ t) ≡ letters t
unfolding letters
letters-gap c t e = ap (λ b. if b then letters t else c ∷ letters t) e

letters-cons : (c : ℕ) (s t : Text) → letters s ≡ letters t → letters (c ∷ s) ≡ letters (c ∷ t)
unfolding letters
letters-cons c s t e = ap (λ r. if is_gap c then r else c ∷ r) e

mark-gap : (c : ℕ) → is_mark c ≡ true → is_gap c ≡ true
mark-gap c e = ap (λ b. if b then true else c == 10) e

letters-left_strip : (t : Text) → letters (left_strip is_mark t) ≡ letters t
unfolding left_strip
letters-left_strip [] = refl
letters-left_strip (c ∷ t) = go (is_mark c) refl (letters-left_strip t)
  where
    go :
        (b : Bool)
        → is_mark c ≡ b
        → letters (left_strip is_mark t) ≡ letters t
        → letters (if b then left_strip is_mark t else c ∷ t) ≡ letters (c ∷ t)
    go true e ih = ih ∙ sym (letters-gap c t (mark-gap c e))
    go false e ih = refl

letters-kept_end :
    (c : ℕ) (t : Text) (b : Bool) → is_mark c ≡ b → letters (kept_end b c t) ≡ letters (c ∷ t)
letters-kept_end c [] true e = sym (letters-gap c [] (mark-gap c e))
letters-kept_end c [] false e = refl
letters-kept_end c (x ∷ t) true e = refl
letters-kept_end c (x ∷ t) false e = refl

letters-right_strip : (t : Text) → letters (right_strip is_mark t) ≡ letters t
unfolding right_strip
letters-right_strip [] = refl
letters-right_strip (c ∷ t) =
    letters-kept_end c (right_strip is_mark t) (is_mark c) refl
    ∙ letters-cons c (right_strip is_mark t) t (letters-right_strip t)

pub letters-strip : (t : Text) → letters (strip is_mark t) ≡ letters t
unfolding strip
letters-strip t = letters-right_strip (left_strip is_mark t) ∙ letters-left_strip t

join-cons_head : (c : ℕ) (ps : List Text) → join (cons_head c ps) ≡ c ∷ join ps
join-cons_head c [] = refl
join-cons_head c (p ∷ ps) = refl

-- Splitting at a gap loses no letters.
pub letters-split :
    (sep : ℕ) (s : Text) → is_gap sep ≡ true → letters (join (split sep s)) ≡ letters s
unfolding split
letters-split sep [] g = refl
letters-split sep (c ∷ s) g = go (c == sep) refl (letters-split sep s g)
  where
    go :
        (b : Bool)
        → (c == sep) ≡ b
        → letters (join (split sep s)) ≡ letters s
        → letters (join (if b then [] ∷ split sep s else cons_head c (split sep s)))
          ≡ letters (c ∷ s)
    go true e ih =
        let same : c ≡ sep = ground (arith, e) in ih ∙ sym (letters-gap c s (ap is_gap same ∙ g))
    go false e ih =
        ap letters (join-cons_head c (split sep s)) ∙ letters-cons c (join (split sep s)) s ih

pub letters-map :
    (g : Text → Text) (h : Text → Text) (ps : List Text)
    → ((t : Text) → letters (g t) ≡ letters (h t))
    → letters (join (map g ps)) ≡ letters (join (map h ps))
letters-map g h [] e = refl
letters-map g h (p ∷ ps) e =
    letters-append (g p) (join (map g ps))
    ∙ (λ i. e p i ++ letters-map g h ps e i)
    ∙ sym (letters-append (h p) (join (map h ps)))
