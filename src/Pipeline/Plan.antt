-- ===== src/Pipeline/Plan.antt =====
-- The abstract view of a pipeline: a binary tree of streams that merge, each with its stages.
use wallaroo.Base.{ℕ, suc, ◌+◌, ◌≡◌, List, [], ◌∷◌, ◌++◌, get_elem?, some}
use wallaroo.Pipeline.{Stage}

pub data Plan (A : Type 0) : Type 0 where
  leaf : List (Stage A) → Plan A
  join : Plan A → Plan A → List (Stage A) → Plan A

module _ {A : Type 0} where
  -- The number of vertices.
  abbrev pub size : Plan A → ℕ
  size (leaf row) = 1
  size (join p q row) = suc (size p + size q)

  -- One more stage behind the last one.
  abbrev pub extend : Plan A → Stage A → Plan A
  extend (leaf row) stage = leaf (row ++ stage ∷ [])
  extend (join p q row) stage = join p q (row ++ stage ∷ [])

  -- Vertex `i` of the two tables is the root of the plan: a source has no edges, and a merge has
  -- exactly the two that lead to its parts.
  pub data Denotes (vs : List (List (Stage A))) (es : List (List ℕ)) : ℕ → Plan A → Type 0 where
    at_leaf :
        {i : ℕ} (row : List (Stage A))
        → get_elem? vs i ≡ some row
        → get_elem? es i ≡ some []
        → Denotes vs es i (leaf row)
    at_join :
        {i : ℕ} {p q : Plan A} (l r : ℕ) (row : List (Stage A))
        → get_elem? vs i ≡ some row
        → get_elem? es i ≡ some (l ∷ r ∷ [])
        → Denotes vs es l p
        → Denotes vs es r q
        → Denotes vs es i (join p q row)
