-- ===== src/Pipeline/Refines.antt =====
-- `_PipelineTree` implements the plans: each operation on the tables is the operation on the tree
-- of streams that the tables denote.
use wallaroo.Base.{ℕ, ◌+◌, ◌≡◌, refl, sym, ap, ◌∙◌, List, [], ◌∷◌, ◌++◌, arith}
use wallaroo.Base.{length, set, map, append_assoc}
use wallaroo.Base.{ok, err, parameter_error, true, false}
use wallaroo.Base.{length-append, length-map, length-set, if◌then◌else◌}
use wallaroo.Base.{get_elem?_middle, set_middle}
use wallaroo.Pipeline.{Stage, PipelineTree, new_tree, add_stage, merge, clone, append_at, is_sink}
use wallaroo.Pipeline.{copy_row}
use wallaroo.Pipeline.Plan.{Plan, leaf, join, size, extend, Denotes, at_leaf, at_join}
use wallaroo.Pipeline.Shape.{Denotes-append, Denotes-shift, Denotes-extend, size-extend}

-- The tables denote the plan, and have no other vertices than the plan's.
pub record IsPlan {A : Type 0} (t : PipelineTree A) (p : Plan A) : Type 0 where
  pub denotes : Denotes t.vs t.es t.root_idx p
  pub edges : length t.es ≡ length t.vs
  pub vertices : length t.vs ≡ size p

copy_row_self {ℓ} : {B : Type ℓ} (xs : List B) → copy_row xs ≡ xs
copy_row_self [] = refl
copy_row_self (x ∷ xs) = ap (λ t. x ∷ t) (copy_row_self xs)

copy_rows_self {ℓ} : {B : Type ℓ} (xs : List (List B)) → map copy_row xs ≡ xs
copy_rows_self [] = refl
copy_rows_self (x ∷ xs) = λ i. copy_row_self x i ∷ copy_rows_self xs i

-- A row in the middle of a table is found behind the rows in front of it.
append_at_middle {ℓ} :
    {B : Type ℓ} (xs : List (List B)) (row : List B) (ys : List (List B)) (x : B)
    → append_at (xs ++ (row ∷ ys)) (length xs) x ≡ ok (xs ++ ((row ++ x ∷ []) ∷ ys))
unfolding append_at
append_at_middle xs row ys x =
    rw (get_elem?_middle xs row ys, append_at) (ap ok (set_middle xs row ys (row ++ x ∷ [])))

module _ {A : Type 0} where
  pub clone_self : (t : PipelineTree A) → clone t ≡ t
  unfolding clone
  clone_self t = λ i. record {
    root_idx = t.root_idx;
    vs = copy_rows_self t.vs i;
    es = copy_rows_self t.es i;
    is_closed = t.is_closed;
  }

  pub new_tree-IsPlan : (stage : Stage A) → IsPlan (new_tree stage) (leaf (stage ∷ []))
  unfolding new_tree
  new_tree-IsPlan stage = record {
    denotes = at_leaf (stage ∷ []) refl refl;
    edges = refl;
    vertices = refl;
  }

  -- An open tree takes a stage; the tables then denote the plan with the stage at its end.
  pub add_stage_open :
      (t : PipelineTree A) (p : Plan A) (stage : Stage A)
      → IsPlan t p
      → t.is_closed ≡ false
      → (t' : PipelineTree A) × (add_stage t stage ≡ ok t')
        × IsPlan t' (extend p stage)
        × (t'.is_closed ≡ is_sink stage)
  unfolding add_stage
  add_stage_open t p stage h c =
      let (row, v, d) = Denotes-extend stage h.denotes in
      (
        record t {
          vs = set t.vs t.root_idx (row ++ stage ∷ []);
          is_closed = if is_sink stage then true else t.is_closed;
        },
        ground arith,
        record {
          denotes = d;
          edges = h.edges ∙ sym (length-set t.vs t.root_idx _);
          vertices = length-set t.vs t.root_idx _ ∙ h.vertices ∙ sym (size-extend p stage);
        },
        ground arith,
      )

  -- After a sink every stage is refused.
  pub add_stage_closed :
      (t : PipelineTree A) (stage : Stage A)
      → t.is_closed ≡ true
      → add_stage t stage ≡ err parameter_error
  unfolding add_stage
  add_stage_closed t stage c = ground arith

  -- The edge tables of a merge: the old ones, the new root's, and those of `g` moved.
  merged_edges :
      (t g : PipelineTree A) (d : ℕ)
      → length t.es ≡ length t.vs
      → append_at
          ((t.es ++ (t.root_idx ∷ []) ∷ []) ++ map (map (λ e. e + d)) g.es)
          (length t.vs)
          (g.root_idx + d)
        ≡ ok ((t.es ++ (t.root_idx ∷ (g.root_idx + d) ∷ []) ∷ []) ++ map (map (λ e. e + d)) g.es)
  merged_edges t g d h =
      rw
        (
          append_assoc t.es ((t.root_idx ∷ []) ∷ []) (map (map (λ e. e + d)) g.es),
          append_assoc t.es ((t.root_idx ∷ (g.root_idx + d) ∷ []) ∷ [])
              (map (map (λ e. e + d)) g.es),
          ← h,
        )
        (append_at_middle t.es (t.root_idx ∷ []) (map (map (λ e. e + d)) g.es) (g.root_idx + d))

  -- A merge denotes the join of the two plans, with no stage yet. It is never refused: the merged
  -- tree is closed exactly if the first one was.
  pub merge_lem :
      (t g : PipelineTree A) (p q : Plan A)
      → IsPlan t p
      → IsPlan g q
      → (t' : PipelineTree A) × (merge t g ≡ ok t')
        × IsPlan t' (join p q [])
        × (t'.is_closed ≡ t.is_closed)
  unfolding merge
  merge_lem t g p q h k =
      let d : ℕ = length (t.vs ++ [] ∷ []) in
      let old : List (List ℕ) = t.es ++ (t.root_idx ∷ (g.root_idx + d) ∷ []) ∷ [] in
      let moved : List (List ℕ) = map (map (λ e. e + d)) g.es in
      let old_length : length old ≡ d = omega (
        arith,
        h.edges,
        length-append {0} t.es ((t.root_idx ∷ (g.root_idx + d) ∷ []) ∷ []),
        length-append {0} t.vs ([] ∷ []),
      ) in
      (
        record t { root_idx = length t.vs; vs = (t.vs ++ [] ∷ []) ++ g.vs; es = old ++ moved },
        rw (merged_edges t g d h.edges),
        record {
          denotes =
              at_join t.root_idx (g.root_idx + d) []
                (rw append_assoc (get_elem?_middle t.vs [] g.vs))
                (rw (append_assoc, ← h.edges) (get_elem?_middle t.es _ moved))
                (Denotes-append g.vs moved (Denotes-append ([] ∷ []) _ h.denotes))
                (Denotes-shift (t.vs ++ [] ∷ []) old d refl old_length k.denotes);
          edges = omega (
            arith,
            old_length,
            k.edges,
            length-append {0} old moved,
            length-append {0} (t.vs ++ [] ∷ []) g.vs,
            length-map {0, 0} (map (λ e. e + d)) g.es,
          );
          vertices = omega (
            arith,
            h.vertices,
            k.vertices,
            length-append {0} (t.vs ++ [] ∷ []) g.vs,
            length-append {0} t.vs ([] ∷ []),
          );
        },
        refl,
      )
