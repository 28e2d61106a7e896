-- ===== src/Cluster/Counting.antt =====
-- How often the lists of a cluster hold a runner, and what `pop` and `remove` take out of them.
use wallaroo.Base.{
  ℕ, zero, suc, ◌+◌, ◌≡◌, refl, sym, ap, ◌∙◌, Bool, true, false, Option, none, some, List, [], ◌∷◌,
  ◌++◌, ◌==◌,
}
use wallaroo.Base.{if◌then◌else◌, ok, arith, length, index_error, value_error}
use wallaroo.Base.Int.{ℤ}
use wallaroo.Cluster.{
  keeping, keeping_all, at_position, Runner, Cluster, take_out, pop, remove_first, remove, resolve,
  found_or,
}

-- How often a list holds the runner of an identity.
abbrev pub one_if : Bool → ℕ
one_if true = 1
one_if false = 0

unfoldable pub count : ℕ → List Runner → ℕ
count n [] = 0
count n (r ∷ rs) = one_if (r.ident == n) + count n rs

pub count-append : (n : ℕ) (rs ss : List Runner) → count n (rs ++ ss) ≡ count n rs + count n ss
unfolding count
count-append n [] ss = omega arith
count-append n (r ∷ rs) ss = omega (arith, count-append n rs ss)

abbrev pub IsAccounted : Cluster → Type 0
IsAccounted c = (n : ℕ) → count n c.workers + count n c.dead_workers ≡ count n c.runners

-- One runner is taken out of a list.
abbrev pub TakenOut : Runner → List Runner → List Runner → Type 0
TakenOut r xs rest = (n : ℕ) → count n xs ≡ one_if (r.ident == n) + count n rest

pub take_out-TakenOut :
    (i : ℕ) (xs : List Runner) (r : Runner) (rest : List Runner)
    → take_out i xs ≡ some (r, rest)
    → TakenOut r xs rest
unfolding take_out count
take_out-TakenOut i [] r rest h n = cc
take_out-TakenOut zero (x ∷ xs) r rest h n =
    let same_runner : x ≡ r = cc in
    let same_rest : xs ≡ rest = cc in rw (same_runner, same_rest) refl
take_out-TakenOut (suc i) (x ∷ xs) r rest h n =
    go (take_out i xs) refl (λ r' rest' e. take_out-TakenOut i xs r' rest' e n) h
  where
    go :
        (o : Option (Runner × List Runner))
        → take_out i xs ≡ o
        → ((r' : Runner) (rest' : List Runner)
            → take_out i xs ≡ some (r', rest')
            → count n xs ≡ one_if (r'.ident == n) + count n rest')
        → keeping x o ≡ some (r, rest)
        → one_if (x.ident == n) + count n xs ≡ one_if (r.ident == n) + count n rest
    go none e ih h = cc
    go (some (r', rest')) e ih h =
        let same_runner : r' ≡ r = cc in
        let same_rest : x ∷ rest' ≡ rest = cc in
        rw (sym same_runner, sym same_rest) (omega (arith, ih r' rest' e))

pub remove_first-TakenOut :
    (r : Runner) (xs rest : List Runner) → remove_first r xs ≡ some rest → TakenOut r xs rest
unfolding remove_first count
remove_first-TakenOut r [] rest h n = cc
remove_first-TakenOut r (x ∷ xs) rest h n =
    go (x.ident == r.ident) refl (remove_first r xs) refl
      (λ rest' e. remove_first-TakenOut r xs rest' e n) h
  where
    go :
        (b : Bool)
        → (x.ident == r.ident) ≡ b
        → (o : Option (List Runner)) → remove_first r xs ≡ o
        → ((rest' : List Runner)
            → remove_first r xs ≡ some rest'
            → count n xs ≡ one_if (r.ident == n) + count n rest')
        → (if b then some xs else keeping_all x o) ≡ some rest
        → one_if (x.ident == n) + count n xs ≡ one_if (r.ident == n) + count n rest
    go true e o q ih h =
        let same_ident : x.ident ≡ r.ident = ground arith in
        let same_rest : xs ≡ rest = cc in rw (same_ident, same_rest) refl
    go false e none q ih h = cc
    go false e (some rest') q ih h =
        let same_rest : x ∷ rest' ≡ rest = cc in rw (sym same_rest) (omega (arith, ih rest' q))

pub pop-TakenOut :
    (i : ℤ) (xs : List Runner) (r : Runner) (rest : List Runner)
    → pop i xs ≡ ok (r, rest)
    → TakenOut r xs rest
unfolding pop
pop-TakenOut i xs r rest h = go (resolve i (length xs)) h
  where
    go : (o : Option ℕ) → at_position xs o ≡ ok (r, rest) → TakenOut r xs rest
    go none h = cc
    go (some j) h = found (take_out j xs) refl h
      where
        found :
            (o : Option (Runner × List Runner))
            → take_out j xs ≡ o
            → found_or index_error o ≡ ok (r, rest)
            → TakenOut r xs rest
        found none e h = cc
        found (some p) e h =
            let same_pair : p ≡ (r, rest) = cc in
            take_out-TakenOut j xs r rest (e ∙ ap some same_pair)

pub remove-TakenOut :
    (r : Runner) (xs rest : List Runner) → remove r xs ≡ ok rest → TakenOut r xs rest
unfolding remove
remove-TakenOut r xs rest h = go (remove_first r xs) refl h
  where
    go :
        (o : Option (List Runner))
        → remove_first r xs ≡ o
        → found_or value_error o ≡ ok rest
        → TakenOut r xs rest
    go none e h = cc
    go (some rest') e h =
        let same_rest : rest' ≡ rest = cc in remove_first-TakenOut r xs rest (e ∙ ap some same_rest)
