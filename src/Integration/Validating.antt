-- ===== src/Integration/Validating.antt =====
-- What the validation accepts.
use wallaroo.Base.{
  ℕ, zero, suc, ◌+◌, ◌<◌, ◌≡◌, ◌↔◌, refl, sym, ap, ◌∙◌, Bool, true, false, Option, none, some, List,
  [], ◌∷◌, ◌++◌, map,
}
use wallaroo.Base.{
  take, drop, join, length, if◌then◌else◌, Result, ok, err, arith, take-append-drop, length-drop,
  assertion_error, cons-injective,
}
use wallaroo.Base.Text.{Text}
use wallaroo.Base.Dict.{text_eq, same, same_refl, same→≡}
use wallaroo.Integration.{
  Processed, parts, text, Comparison, all_equal, differs, both_empty, compare_blocks, same_items,
  Expected, stream, items, add_newlines, raise_unless_equal, validate,
}

both_empty_nil : (e p : Text) → both_empty (take 50 e) (take 50 p) ≡ true → (e ≡ []) × (p ≡ [])
both_empty_nil [] [] h = (refl, refl)
both_empty_nil [] (c ∷ p) h = cc
both_empty_nil (c ∷ e) p h = cc

nonempty :
    (e p : Text) → both_empty (take 50 e) (take 50 p) ≡ false → take 50 e ≡ take 50 p → 0 < length e
nonempty [] [] h q = cc
nonempty [] (c ∷ p) h q = cc
nonempty (c ∷ e) p h q = omega arith

-- Enough fuel: more than the longer of the two.
compare_blocks-equal :
    (fuel start : ℕ) (expected processed : Text)
    → length expected < fuel
    → (compare_blocks fuel start expected processed ≡ some all_equal) ↔ (expected ≡ processed)
unfolding compare_blocks
compare_blocks-equal zero start expected processed h = absurd (omega arith)
compare_blocks-equal (suc fuel) start expected processed h =
    go (both_empty (take 50 expected) (take 50 processed)) refl
      (same (take 50 expected) (take 50 processed)) refl
      (λ enough.
        compare_blocks-equal fuel (start + length (take 50 expected)) (drop 50 expected)
          (drop 50 processed) enough)
  where
    go :
        (b : Bool)
        → both_empty (take 50 expected) (take 50 processed) ≡ b
        → (s : Bool) → same (take 50 expected) (take 50 processed) ≡ s
        → (length (drop 50 expected) < fuel
            → (compare_blocks fuel
                  (start + length (take 50 expected))
                  (drop 50 expected)
                  (drop 50 processed)
                ≡ some all_equal)
              ↔ (drop 50 expected ≡ drop 50 processed))
        → ((if b
              then some all_equal
              else (if s
                  then compare_blocks fuel
                      (start + length (take 50 expected))
                      (drop 50 expected)
                      (drop 50 processed)
                  else some (
                      differs start
                        (start + length (take 50 expected))
                        (take 50 expected)
                        (take 50 processed))))
            ≡ some all_equal)
          ↔ (expected ≡ processed)
    go true eb s es ih =
        let (no_expected, no_processed) = both_empty_nil expected processed eb in
        (λ q. no_expected ∙ sym no_processed, λ q. refl)
    go false eb true es ih =
        let blocks = same→≡ (take 50 expected) (take 50 processed) es in
        let more = nonempty expected processed eb blocks in
        let rest = ih (omega (arith, h, more, length-drop 50 expected)) in
        (
          λ q.
              sym (take-append-drop 50 expected)
              ∙ ap (λ t. t ++ drop 50 expected) blocks
              ∙ ap (λ t. take 50 processed ++ t) (rest.0 q)
              ∙ take-append-drop 50 processed,
          λ q. rest.1 (ap (drop 50) q),
        )
    go false eb false es ih = (
      λ q. cc,
      λ q.
          let equal_blocks : same (take 50 expected) (take 50 processed) ≡ true =
            ap (λ t. same (take 50 expected) (take 50 t)) (sym q) ∙ same_refl (take 50 expected) in
          cc,
    )

same_items-equal : (xs ys : List Text) → (same_items xs ys ≡ true) ↔ (xs ≡ ys)
unfolding same_items
same_items-equal [] [] = (λ h. refl, λ h. refl)
same_items-equal [] (y ∷ ys) = (λ h. cc, λ h. cc)
same_items-equal (x ∷ xs) [] = (λ h. cc, λ h. cc)
same_items-equal (x ∷ xs) (y ∷ ys) = go (same x y) refl (same_items-equal xs ys)
  where
    go :
        (b : Bool)
        → same x y ≡ b
        → (same_items xs ys ≡ true) ↔ (xs ≡ ys)
        → ((if b then same_items xs ys else false) ≡ true) ↔ (x ∷ xs ≡ y ∷ ys)
    go true e ih =
        let heads = same→≡ x y e in
        (λ h. ap (λ t. t ∷ xs) heads ∙ ap (λ t. y ∷ t) (ih.0 h), λ q. ih.1 (cons-injective q).1)
    go false e ih = (
      λ h. cc,
      λ q.
          let equal_heads : same x y ≡ true =
            ap (λ t. same x t) (sym (cons-injective q).0) ∙ same_refl x in
          cc,
    )

-- What `expected` says of the processed output: the bytes of a stream, or the items of all sinks in
-- one list, each with a newline in the mode of newlines. A string has its characters as items.
abbrev pub Meets : Bool → Expected → Processed → Type 0
Meets newlines (stream expected) (parts processed) = expected ≡ join (join processed)
Meets newlines (stream expected) (text processed) = expected ≡ processed
Meets newlines (items expected) (parts processed) = add_newlines newlines expected ≡ join processed
Meets newlines (items expected) (text processed) =
    add_newlines newlines expected ≡ map (λ c. c ∷ []) processed

abbrev pub size_of : Expected → ℕ
size_of (stream expected) = length expected
size_of (items expected) = 0

abbrev verdict_of : Bool → Option (Result (Unit {0}))
verdict_of b = if b then some (ok tt) else some (err assertion_error)

verdict_of_passes : (b : Bool) → (verdict_of b ≡ some (ok tt)) ↔ (b ≡ true)
verdict_of_passes true = (λ q. refl, λ q. refl)
verdict_of_passes false = (λ q. cc, λ q. cc)

stream-equal :
    (fuel : ℕ) (expected processed : Text)
    → length expected < fuel
    → (raise_unless_equal (compare_blocks fuel 0 expected processed) ≡ some (ok tt))
      ↔ (expected ≡ processed)
stream-equal fuel expected processed h =
    let blocks = compare_blocks-equal fuel 0 expected processed h in
    (
      λ q. blocks.0 (passed (compare_blocks fuel 0 expected processed) q),
      λ q. ap raise_unless_equal (blocks.1 q),
    )
  where
    passed : (o : Option Comparison) → raise_unless_equal o ≡ some (ok tt) → o ≡ some all_equal
    passed none q = cc
    passed (some all_equal) q = refl
    passed (some (differs start stop exp proc)) q = cc

verdict-equal : (xs ys : List Text) → (verdict_of (same_items xs ys) ≡ some (ok tt)) ↔ (xs ≡ ys)
verdict-equal xs ys =
    let equal = same_items-equal xs ys in
    let passes = verdict_of_passes (same_items xs ys) in
    (λ q. equal.0 (passes.0 q), λ q. passes.1 (equal.1 q))

-- With fuel for more blocks than the expected stream has bytes, the validation passes just where the
-- output, all of it, is what is expected.
pub validate-Meets :
    (fuel : ℕ) (newlines : Bool) (expected : Expected) (processed : Processed)
    → size_of expected < fuel
    → (validate fuel newlines expected processed ≡ some (ok tt)) ↔ Meets newlines expected processed
unfolding validate
validate-Meets fuel newlines (stream expected) (parts processed) h =
    stream-equal fuel expected (join (join processed)) h
validate-Meets fuel newlines (stream expected) (text processed) h =
    stream-equal fuel expected processed h
validate-Meets fuel newlines (items expected) (parts processed) h =
    verdict-equal (add_newlines newlines expected) (join processed)
validate-Meets fuel newlines (items expected) (text processed) h =
    verdict-equal (add_newlines newlines expected) (map (λ c. c ∷ []) processed)
