-- ===== src/Pipeline.antt =====
-- The pipeline API of machida/lib/wallaroo/__init__.py: `_PipelineTree`, and `Pipeline` with
-- its chaining methods. A stage is one of the tuples that the methods append. Python objects that
-- the pipeline only carries (decoders, encoders, generators, computations) are of a type `A`.
-- `print` of the error texts is not modelled.
pub mod Config
pub mod Plan
pub mod Shape
pub mod Refines
pub mod Objects
mod Tests
use wallaroo.Base.{ℕ, suc, ◌+◌, ◌≡◌, Bool, true, false, Option, none, some, List, [], ◌∷◌, ◌++◌}
use wallaroo.Base.{map, length, get_elem?, set, if◌then◌else◌}
use wallaroo.Base.{Result, ok, err, parameter_error, index_error, attribute_error, ◌>>=◌}
use wallaroo.Base.Text.{Text}
use Config.{ConfigTuple, SourceConfig, SinkConfig, source_to_tuple, sink_to_tuple}

pub data Stage (A : Type 0) : Type 0 where
  source : Text → ConfigTuple A → Stage A
  to to_state key_by : A → Stage A
  to_sink : ConfigTuple A → Stage A
  to_sinks : List (ConfigTuple A) → Stage A

-- What `is_stateful` of a wrapped computation says, beside the object itself.
pub record Computation (A : Type 0) : Type 0 where
  pub is_stateful : Bool
  pub object : A

-- The argument of `to_sink`: a configuration, or a string that names a connector.
pub data SinkArg (A : Type 0) : Type 0 where
  named : Text → SinkArg A
  config : SinkConfig A → SinkArg A

-- `_PipelineTree`: the stages and the outgoing edges of each vertex.
pub record PipelineTree (A : Type 0) : Type 0 where
  pub root_idx : ℕ
  pub vs : List (List (Stage A))
  pub es : List (List ℕ)
  pub is_closed : Bool

-- `rows[i].append(x)`
unfoldable pub append_at {ℓ} : {B : Type ℓ} → List (List B) → ℕ → B → Result (List (List B))
append_at rows i x = elim (get_elem? rows i) [
  | none ↦ err index_error
  | some row ↦ ok (set rows i (row ++ x ∷ []))
]

-- `for stage in v: new_stages.append(stage)` and the like copy each row, item by item. Rows are values
-- here: a row that two trees share and one of them changes is not expressed.
abbrev pub copy_row {ℓ} : {B : Type ℓ} → List B → List B
copy_row [] = []
copy_row (x ∷ xs) = x ∷ copy_row xs

-- What the application setup hands to the engine.
abbrev pub AppTuple : Type 0 → Type 0
AppTuple A = Text × ℕ × List (List (Stage A)) × List (List ℕ)

module _ {A : Type 0} where
  -- `_PipelineTree(source_stage)`
  unfoldable pub new_tree : Stage A → PipelineTree A
  new_tree stage = record { root_idx = 0; vs = (stage ∷ []) ∷ []; es = [] ∷ []; is_closed = false }

  abbrev pub is_sink : Stage A → Bool
  is_sink (to_sink k) = true
  is_sink (to_sinks ks) = true
  is_sink (source n k) = false
  is_sink _ = false

  unfoldable pub add_stage : PipelineTree A → Stage A → Result (PipelineTree A)
  unfolding append_at
  add_stage t stage = if t.is_closed then err parameter_error else do
    vs' ← append_at t.vs t.root_idx stage
    ok (record t { vs = vs'; is_closed = if is_sink stage then true else t.is_closed })

  -- `diff` is the number of vertices once the new root is there.
  unfoldable pub merge : PipelineTree A → PipelineTree A → Result (PipelineTree A)
  unfolding append_at
  merge t g =
      let idx = length t.vs in
      let vs1 = t.vs ++ [] ∷ [] in
      let es1 = t.es ++ (t.root_idx ∷ []) ∷ [] in
      let diff = length vs1 in
      do
        es' ← append_at (es1 ++ map (map (λ e. e + diff)) g.es) idx (g.root_idx + diff)
        ok (record t { root_idx = idx; vs = vs1 ++ g.vs; es = es' })

  unfoldable pub clone : PipelineTree A → PipelineTree A
  clone t = record {
    root_idx = t.root_idx;
    vs = map copy_row t.vs;
    es = map copy_row t.es;
    is_closed = t.is_closed;
  }

  unfoldable pub to_tuple : PipelineTree A → Text → AppTuple A
  unfolding clone
  to_tuple t app_name = let p = clone t in (app_name, p.root_idx, p.vs, p.es)
