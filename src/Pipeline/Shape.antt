-- ===== src/Pipeline/Shape.antt =====
-- How the relation between the tables and the plan behaves when rows are appended or changed.
use wallaroo.Base.{ℕ, ◌+◌, ◌<◌, ◌≡◌, refl, ap, ◌∙◌, List, [], ◌∷◌, ◌++◌, arith}
use wallaroo.Base.{length, get_elem?, set, some, map, lt_of_get_elem?, get_elem?-append_left}
use wallaroo.Base.{get_elem?-append_right, get_elem?-set_ne, get_elem?-set_self, get_elem?-map}
use wallaroo.Pipeline.{Stage}
use wallaroo.Pipeline.Plan.{Plan, leaf, join, size, extend, Denotes, at_leaf, at_join}

-- A lookup stays what it was when rows are appended, and moves by the rows put in front.
left {ℓ} :
    {B : Type ℓ} (xs ys : List B) (i : ℕ) {b : B}
    → get_elem? xs i ≡ some b
    → get_elem? (xs ++ ys) i ≡ some b
left xs ys i h = get_elem?-append_left xs ys i (lt_of_get_elem? xs i h) ∙ h

right {ℓ} :
    {B : Type ℓ} (xs ys : List B) (d i : ℕ) {b : B}
    → length xs ≡ d
    → get_elem? ys i ≡ some b
    → get_elem? (xs ++ ys) (i + d) ≡ some b
right xs ys d i e h =
    let k : i + d ≡ length xs + i = omega arith in
    ap (get_elem? (xs ++ ys)) k ∙ get_elem?-append_right xs ys i ∙ h

module _ {A : Type 0} where
  pub Denotes-append :
      {vs : List (List (Stage A))} {es : List (List ℕ)} {i : ℕ} {p : Plan A}
      (vs' : List (List (Stage A))) (es' : List (List ℕ))
      → Denotes vs es i p
      → Denotes (vs ++ vs') (es ++ es') i p
  Denotes-append {vs} {es} {i} vs' es' (at_leaf row v e) =
      at_leaf row (left vs vs' i v) (left es es' i e)
  Denotes-append {vs} {es} {i} vs' es' (at_join l r row v e dl dr) =
      at_join l r row (left vs vs' i v) (left es es' i e) (Denotes-append vs' es' dl)
        (Denotes-append vs' es' dr)

  -- The tables behind `d` other rows, with their edges moved by `d`.
  pub Denotes-shift :
      {vs : List (List (Stage A))} {es : List (List ℕ)} {i : ℕ} {p : Plan A}
      (vs' : List (List (Stage A))) (es' : List (List ℕ)) (d : ℕ)
      → length vs' ≡ d
      → length es' ≡ d
      → Denotes vs es i p
      → Denotes (vs' ++ vs) (es' ++ map (map (λ e. e + d)) es) (i + d) p
  Denotes-shift {vs} {es} {i} vs' es' d lv le (at_leaf row v e) =
      at_leaf row (right vs' vs d i lv v)
        (right es' (map (map (λ e. e + d)) es) d i le (get_elem?-map (map (λ e. e + d)) es i e))
  Denotes-shift {vs} {es} {i} vs' es' d lv le (at_join l r row v e dl dr) =
      at_join (l + d) (r + d) row (right vs' vs d i lv v)
        (right es' (map (map (λ e. e + d)) es) d i le (get_elem?-map (map (λ e. e + d)) es i e))
        (Denotes-shift vs' es' d lv le dl) (Denotes-shift vs' es' d lv le dr)

  -- The tables fix the plan.
  pub Denotes-unique :
      {vs : List (List (Stage A))} {es : List (List ℕ)} {i j : ℕ} {p q : Plan A}
      → i ≡ j
      → Denotes vs es i p
      → Denotes vs es j q
      → p ≡ q
  Denotes-unique {es} h (at_leaf row v e) (at_leaf row' v' e') = cc
  Denotes-unique {es} h (at_leaf row v e) (at_join l r row' v' e' dl dr) = absurd (cc)
  Denotes-unique {es} h (at_join l r row v e dl dr) (at_leaf row' v' e') = absurd (cc)
  Denotes-unique {es} h (at_join l r row v e dl dr) (at_join l' r' row' v' e' dl' dr') =
      cc (Denotes-unique (cc) dl dl', Denotes-unique (cc) dr dr')

  -- A vertex of another, smaller plan is untouched by a change of the row at `k`.
  pub Denotes-set_smaller :
      {vs : List (List (Stage A))} {es : List (List ℕ)} {i k : ℕ} {p q : Plan A}
      (row : List (Stage A))
      → Denotes vs es k p
      → Denotes vs es i q
      → size q < size p
      → Denotes (set vs k row) es i q
  Denotes-set_smaller {vs} {i} {k} {p} row dk (at_leaf r v e) s =
      at_leaf r
        (get_elem?-set_ne vs k i row
            (λ h. omega (arith, ap size (Denotes-unique h dk (at_leaf r v e))))
          ∙ v)
        e
  Denotes-set_smaller {vs} {i} {k} {p} row dk (at_join {p = a} {q = b} l r rw' v e dl dr) s =
      at_join l r rw'
        (get_elem?-set_ne vs k i row
            (λ h. omega (arith, ap size (Denotes-unique h dk (at_join l r rw' v e dl dr))))
          ∙ v)
        e (Denotes-set_smaller row dk dl (omega arith))
        (Denotes-set_smaller row dk dr (omega arith))

  -- A stage behind the row of the root vertex is a stage behind the plan.
  pub Denotes-extend :
      {vs : List (List (Stage A))} {es : List (List ℕ)} {k : ℕ} {p : Plan A} (stage : Stage A)
      → Denotes vs es k p
      → (row : List (Stage A)) × (get_elem? vs k ≡ some row)
        × Denotes (set vs k (row ++ stage ∷ [])) es k (extend p stage)
  Denotes-extend {vs} {k} stage (at_leaf row v e) =
      (row, v, at_leaf (row ++ stage ∷ []) (get_elem?-set_self vs k _ (lt_of_get_elem? vs k v)) e)
  Denotes-extend {vs} {es} {k} stage (at_join l r row v e dl dr) =
      let d = at_join l r row v e dl dr in
      let row' : List (Stage A) = row ++ stage ∷ [] in
      (
        row,
        v,
        at_join l r row' (get_elem?-set_self vs k row' (lt_of_get_elem? vs k v)) e
            (Denotes-set_smaller row' d dl (omega arith))
            (Denotes-set_smaller row' d dr (omega arith)),
      )

  pub size-extend : (p : Plan A) (stage : Stage A) → size (extend p stage) ≡ size p
  size-extend (leaf row) stage = refl
  size-extend (join p q row) stage = refl
