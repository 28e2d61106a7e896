-- ===== src/EndPoints/Sequences/RoundRobin.antt =====
-- Before `stop`: the sequences take turns.
use wallaroo.Base.{ℕ, suc, ◌+◌, ◌≤◌, ◌≡◌, refl, ap, ◌∙◌, ◌⊎◌, inl, inr, arith, List, [], ◌∷◌, ◌++◌}
use wallaroo.Base.{length, map, append_assoc, length-append, lt→leb}
use wallaroo.Base.{le→leb, get_elem?_middle, set_middle, ok, leb, false}
use wallaroo.EndPoints.Sequences.{Generator, next_value, next_sent}
use wallaroo.EndPoints.Sequences.CatchUp.{drain, after_sent, emit}
use wallaroo.EndPoints.Frames.{stuck}

-- One turn of each sequence, from sequence `i` on.
abbrev pub turns : ℕ → List ℕ → List (ℕ × ℕ)
turns i [] = []
turns i (v ∷ vs) = (i, v + 1) ∷ turns (i + 1) vs

-- A generator that was not stopped, at sequence `i`.
abbrev pub turn : Generator → List ℕ → ℕ → Generator
turn g vs i = record g { seqs = vs; idx = i; remaining = [] }

wraps : (ms vs : List ℕ) (v : ℕ) → leb (length (ms ++ v ∷ vs)) (length ms) ≡ false
wraps ms vs v = lt→leb _ _ (omega (arith, length-append {0} ms (v ∷ vs)))

next_sent-turn :
    (g : Generator) (ms vs : List ℕ) (v : ℕ)
    → next_sent (turn g (ms ++ v ∷ vs) (length ms))
      ≡ (ok (length ms, v + 1), turn g (ms ++ (v + 1) ∷ vs) (length ms + 1))
unfolding next_sent next_value
next_sent-turn g ms vs v =
    rw (wraps ms vs v, get_elem?_middle ms v vs, set_middle ms v vs (v + 1)) refl

next_sent-wraps :
    (g : Generator) (vs : List ℕ) (i : ℕ)
    → length vs ≤ i
    → next_sent (turn g vs i) ≡ next_sent (turn g vs 0)
unfolding next_sent next_value
next_sent-wraps g [] i h = rw (le→leb 0 i h) refl
next_sent-wraps g (v ∷ vs) i h =
    rw (le→leb (length (v ∷ vs)) i h, lt→leb (suc (length vs)) 0 (omega arith)) refl

shift : (n k : ℕ) → n + suc k ≡ (n + 1) + k
shift n k = omega arith

from_zero : (n : ℕ) → 0 + n ≡ n
from_zero n = omega arith

drain-turns :
    (vs ms : List ℕ) (g : Generator)
    → drain (length vs) (turn g (ms ++ vs) (length ms))
      ≡ (turns (length ms) vs, turn g (ms ++ map (λ v. v + 1) vs) (length ms + length vs), stuck)
unfolding drain
drain-turns [] ms g = ap (λ k. ([], turn g (ms ++ []) k, stuck)) (omega arith)
drain-turns (v ∷ vs) ms g =
    let behind = ms ++ (v + 1) ∷ [] in
    let longer : length behind ≡ length ms + 1 = length-append ms ((v + 1) ∷ []) in
    let more = drain-turns vs behind g in
    ap (λ x. after_sent x (drain (length vs))) (next_sent-turn g ms vs v)
    ∙ ap (emit (length ms, v + 1)) (
        rw
          (
            ← append_assoc ms ((v + 1) ∷ []) vs,
            ← append_assoc ms ((v + 1) ∷ []) (map (λ v. v + 1) vs),
            shift (length ms) (length vs),
            ← longer,
          )
          more)

drain-turn_first :
    (g : Generator) (vs : List ℕ)
    → drain (length vs) (turn g vs 0)
      ≡ (turns 0 vs, turn g (map (λ v. v + 1) vs) (length vs), stuck)
drain-turn_first g vs =
    drain-turns vs [] g
    ∙ ap (λ k. (turns 0 vs, turn g (map (λ v. v + 1) vs) k, stuck)) (from_zero (length vs))

-- A round of `send`s on one sequence or more, from the first sequence or from where the round
-- before ended, gives each sequence its next value, in order, and ends behind the last one.
pub drain-turn :
    (g : Generator) (v : ℕ) (vs : List ℕ) (i : ℕ)
    → (i ≡ 0) ⊎ (length (v ∷ vs) ≤ i)
    → drain (length (v ∷ vs)) (turn g (v ∷ vs) i)
      ≡ (turns 0 (v ∷ vs), turn g (map (λ x. x + 1) (v ∷ vs)) (length (v ∷ vs)), stuck)
unfolding drain
drain-turn g v vs i (inl e) =
    ap (λ k. drain (length (v ∷ vs)) (turn g (v ∷ vs) k)) e ∙ drain-turn_first g (v ∷ vs)
drain-turn g v vs i (inr h) =
    ap (λ x. after_sent x (drain (length vs))) (next_sent-wraps g (v ∷ vs) i h)
    ∙ drain-turn_first g (v ∷ vs)
