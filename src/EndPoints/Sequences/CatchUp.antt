-- ===== src/EndPoints/Sequences/CatchUp.antt =====
-- After `stop`: which values `send` gives before it raises StopIteration.
use wallaroo.Base.{ℕ, zero, suc, ◌+◌, ◌-◌, ◌<◌, ◌≤◌, max, ◌≡◌, refl, ap, ◌∙◌, arith}
use wallaroo.Base.{List, [], ◌∷◌, ◌++◌, length, get_elem?, set, map, replicate, All, append_assoc}
use wallaroo.Base.{get_elem?_middle, set_middle, ok, err, stop_iteration}
use wallaroo.Base.{false, ◌==◌, length-append, some, value_error}
use mathlib.Core.Path.{subst}
use wallaroo.EndPoints.Sequences.{
  Generator, first_nonzero_index, first_nonzero_from, next_catchup_value, next_sent, stop, max_from,
  Sent, no_items,
}
use wallaroo.EndPoints.Frames.{Ending, ended, stuck, raised}

abbrev pub after_sent :
    Sent × Generator
    → (Generator → List (ℕ × ℕ) × Generator × Ending)
    → List (ℕ × ℕ) × Generator × Ending
after_sent (ok v, g) go = let (vs, g', e) = go g in (v ∷ vs, g', e)
after_sent (err stop_iteration, g) go = ([], g, ended)
after_sent (err e, g) go = ([], g, raised e)

-- A `for` over the generator, for as many rounds at most.
unfoldable pub drain : ℕ → Generator → List (ℕ × ℕ) × Generator × Ending
drain zero g = ([], g, stuck)
drain (suc fuel) g = after_sent (next_sent g) (drain fuel)

-- The `n` values of sequence `i` behind `v`, then those of the sequences after it up to `m`.
abbrev pub count_up : ℕ → ℕ → ℕ → List (ℕ × ℕ) → List (ℕ × ℕ)
count_up i v zero rest = rest
count_up i v (suc n) rest = (i, v + 1) ∷ count_up i (v + 1) n rest

abbrev pub missing : ℕ → ℕ → List ℕ → List (ℕ × ℕ)
missing m i [] = []
missing m i (v ∷ vs) = count_up i v (m - v) (missing m (i + 1) vs)

abbrev pub still_to_send : ℕ → List ℕ → ℕ
still_to_send m [] = 0
still_to_send m (v ∷ vs) = (m - v) + still_to_send m vs

abbrev zeros : ℕ → List ℕ → List ℕ
zeros n xs = replicate n 0 ++ xs

suc_not_zero : (r : ℕ) → (suc r == 0) ≡ false
suc_not_zero r = ground arith

from_zero : (n : ℕ) → 0 + n ≡ n
from_zero n = omega arith

less_one : (n : ℕ) → suc n - 1 ≡ n
less_one n = omega arith

no_more : (v m : ℕ) → v + 0 ≡ m → v ≡ m
no_more v m e = omega arith

first_nonzero_from-suc :
    (i n r : ℕ) (rs : List ℕ) → first_nonzero_from i (zeros n (suc r ∷ rs)) ≡ ok (i + n)
unfolding first_nonzero_from
first_nonzero_from-suc i zero r rs = rw (suc_not_zero r) (ap ok (omega arith))
first_nonzero_from-suc i (suc n) r rs = first_nonzero_from-suc (i + 1) n r rs ∙ ap ok (omega arith)

first_nonzero_from-none : (i n : ℕ) → first_nonzero_from i (zeros n []) ≡ err value_error
unfolding first_nonzero_from
first_nonzero_from-none i zero = refl
first_nonzero_from-none i (suc n) = first_nonzero_from-none (i + 1) n

get_elem?-zeros : (n y : ℕ) (ys : List ℕ) → get_elem? (zeros n (y ∷ ys)) n ≡ some y
get_elem?-zeros zero y ys = refl
get_elem?-zeros (suc n) y ys = get_elem?-zeros n y ys

set-zeros : (n y z : ℕ) (ys : List ℕ) → set (zeros n (y ∷ ys)) n z ≡ zeros n (z ∷ ys)
set-zeros zero y z ys = refl
set-zeros (suc n) y z ys = ap (λ t. 0 ∷ t) (set-zeros n y z ys)

zeros-snoc : (n : ℕ) (ys : List ℕ) → zeros n (0 ∷ ys) ≡ zeros (suc n) ys
zeros-snoc zero ys = refl
zeros-snoc (suc n) ys = ap (λ t. 0 ∷ t) (zeros-snoc n ys)

no_items-zeros : (n y : ℕ) (ys : List ℕ) → no_items (zeros n (y ∷ ys)) ≡ false
no_items-zeros zero y ys = refl
no_items-zeros (suc n) y ys = refl

-- A generator whose sequences and remainders are these.
abbrev pub at : Generator → List ℕ → List ℕ → Generator
at g ss rs = record g { seqs = ss; remaining = rs }

next_sent-behind :
    (g : Generator) (ms vs rs : List ℕ) (v r : ℕ)
    → next_sent (at g (ms ++ v ∷ vs) (zeros (length ms) (suc r ∷ rs)))
      ≡ (ok (length ms, v + 1), at g (ms ++ (v + 1) ∷ vs) (zeros (length ms) (r ∷ rs)))
unfolding next_sent next_catchup_value first_nonzero_index
next_sent-behind g ms vs rs v r =
    rw
      (
        no_items-zeros (length ms) (suc r) rs,
        first_nonzero_from-suc 0 (length ms) r rs,
        from_zero (length ms),
        get_elem?_middle ms v vs,
        get_elem?-zeros (length ms) (suc r) rs,
        set_middle ms v vs (v + 1),
        set-zeros (length ms) (suc r) (suc r - 1) rs,
        less_one r,
      )
      refl

next_sent-done :
    (g : Generator) (ss : List ℕ) (n m : ℕ)
    → g.max_val ≡ some (suc m)
    → next_sent (at g ss (zeros (suc n) [])) ≡ (err stop_iteration, at g ss (zeros (suc n) []))
unfolding next_sent next_catchup_value first_nonzero_index
next_sent-done g ss n m e = rw (first_nonzero_from-none 0 (suc n), e) refl

abbrev pub emit : ℕ × ℕ → List (ℕ × ℕ) × Generator × Ending → List (ℕ × ℕ) × Generator × Ending
emit v (vs, g, e) = (v ∷ vs, g, e)

drain-count_up :
    (r l fuel : ℕ) (g : Generator) (ms vs rs : List ℕ) (m v : ℕ) (xs : List (ℕ × ℕ))
    (g' : Generator)
    → v + r ≡ m
    → ((f : ℕ)
        → l < f
        → drain f (at g (ms ++ m ∷ vs) (zeros (length ms) (0 ∷ rs))) ≡ (xs, g', ended))
    → r + l < fuel
    → drain fuel (at g (ms ++ v ∷ vs) (zeros (length ms) (r ∷ rs)))
      ≡ (count_up (length ms) v r xs, g', ended)
unfolding drain
drain-count_up zero l fuel g ms vs rs m v xs g' e k h =
    ap (λ x. drain fuel (at g (ms ++ x ∷ vs) (zeros (length ms) (0 ∷ rs)))) (no_more v m e)
    ∙ k fuel (omega arith)
drain-count_up (suc r) l zero g ms vs rs m v xs g' e k h = absurd (omega arith)
drain-count_up (suc r) l (suc fuel) g ms vs rs m v xs g' e k h =
    ap (λ x. after_sent x (drain fuel)) (next_sent-behind g ms vs rs v r)
    ∙ ap (emit (length ms, v + 1))
        (drain-count_up r l fuel g ms vs rs m (v + 1) xs g' (omega arith) k (omega arith))

one_more : (n : ℕ) → suc n ≡ n + 1
one_more n = omega arith

zeros_behind : (n : ℕ) (ys : List ℕ) → zeros n (0 ∷ ys) ≡ zeros (n + 1) ys
zeros_behind n ys = zeros-snoc n ys ∙ ap (λ k. zeros k ys) (one_more n)

drain-missing :
    (vs ms : List ℕ) (fuel m : ℕ) (g : Generator)
    → g.max_val ≡ some (suc m)
    → All (λ v. v ≤ suc m) vs
    → 0 < length ms + length vs
    → still_to_send (suc m) vs < fuel
    → drain fuel (at g (ms ++ vs) (zeros (length ms) (map (λ v. suc m - v) vs))) ≡ (
      missing (suc m) (length ms) vs,
      at g (ms ++ replicate (length vs) (suc m)) (zeros (length ms) (replicate (length vs) 0)),
      ended,
    )
unfolding drain
drain-missing [] [] fuel m g e h n l = absurd (omega arith)
drain-missing [] (x ∷ ms) zero m g e h n l = absurd (omega arith)
drain-missing [] (x ∷ ms) (suc fuel) m g e h n l =
    ap (λ x. after_sent x (drain fuel)) (next_sent-done g ((x ∷ ms) ++ []) (length ms) m e)
drain-missing (v ∷ vs) ms fuel m g e (hv, h) n l =
    drain-count_up (suc m - v) (still_to_send (suc m) vs) fuel g ms vs (map (λ v. suc m - v) vs)
      (suc m) v (missing (suc m) (length ms + 1) vs)
      (at g (ms ++ replicate (suc (length vs)) (suc m))
        (zeros (length ms) (replicate (suc (length vs)) 0)))
      (omega arith)
      (λ f l'.
        let done = ms ++ suc m ∷ [] in
        let longer : length done ≡ length ms + 1 = length-append ms (suc m ∷ []) in
        rw
          (
            ← append_assoc ms (suc m ∷ []) vs,
            ← append_assoc ms (suc m ∷ []) (replicate (length vs) (suc m)),
            zeros_behind (length ms) (map (λ v. suc m - v) vs),
            zeros_behind (length ms) (replicate (length vs) 0),
            ← longer,
          )
          (drain-missing vs done f m g e h (omega (arith, longer)) l'))
      l

max_from-le : (m : ℕ) (vs : List ℕ) → (m ≤ max_from m vs) × All (λ v. v ≤ max_from m vs) vs
max_from-le m [] = (omega arith, tt)
max_from-le m (v ∷ vs) =
    let (h, hs) = max_from-le (max m v) vs in (omega arith, (omega (arith, h), hs))

-- `stop` succeeds on sequences of which one has a value above zero, and the generator then gives, one
-- sequence after the other, just the values that each has still to send to reach the greatest,
-- and ends with all the sequences at that value and nothing remaining.
pub stop-catches_up :
    (g : Generator) (v : ℕ) (vs : List ℕ) (m fuel : ℕ)
    → g.seqs ≡ v ∷ vs
    → max_from v vs ≡ suc m
    → still_to_send (suc m) (v ∷ vs) < fuel
    → (g' : Generator) × (stop g ≡ ok g')
      × (drain fuel g' ≡ (
        missing (suc m) 0 (v ∷ vs),
        at g' (replicate (length (v ∷ vs)) (suc m)) (replicate (length (v ∷ vs)) 0),
        ended,
      ))
unfolding stop
stop-catches_up g v vs m fuel e em l =
    let (hv, h) = max_from-le v vs in
    let g' : Generator = record g {
      seqs = v ∷ vs;
      remaining = map (λ x. suc m - x) (v ∷ vs);
      max_val = some (suc m);
    } in
    (
      g',
      rw e (
          ap
            (λ k.
              ok (record g {
                seqs = v ∷ vs;
                remaining = map (λ x. k - x) (v ∷ vs);
                max_val = some k;
              }))
            em),
      drain-missing (v ∷ vs) [] fuel m g' refl
          (omega (arith, hv, em), subst (λ k. All (λ x. x ≤ k) vs) em h) (omega arith) l,
    )
