-- ===== src/Pipeline/Objects.antt =====
-- `Pipeline` objects and the methods that chain them. A store holds the tree of each object, and a
-- reference is its index. Every public method clones the object, and mutates the clone; no two
-- objects share a row, since `clone` and `merge` of `_PipelineTree` copy every row. A method that
-- raises leaves its clone behind, unreachable.
pub mod Spec
pub mod Simulation
pub mod Merging
pub mod Correct
use wallaroo.Base.{ℕ, Bool, true, false, Option, none, some, List, [], ◌∷◌, ◌++◌, ◌≡◌}
use wallaroo.Base.{length, get_elem?, set, if◌then◌else◌}
use wallaroo.Base.{Result, ok, err, parameter_error, index_error, attribute_error, ◌>>=◌}
use wallaroo.Base.Text.{Text}
use wallaroo.Pipeline.Config.{ConfigTuple, SourceConfig, SinkConfig, source_to_tuple, sink_to_tuple}
use wallaroo.Pipeline.{
  Stage, source, to, to_state, key_by, to_sink, to_sinks, Computation, SinkArg, named, config,
  PipelineTree, new_tree, add_stage, merge, clone, to_tuple, AppTuple,
}

abbrev pub Store : Type 0 → Type 0
Store A = List (PipelineTree A)

-- A method's result, and the store that it leaves.
abbrev pub Action : Type 0 → Type 0 → Type 0
Action A B = Store A → Result B × Store A

-- The calls of the API that make a pipeline, with references to those made before.
pub data Call (A : Type 0) : Type 0 where
  from_source : Text → SourceConfig A → Call A
  call_to : ℕ → Computation A → Call A
  call_key_by : ℕ → A → Call A
  call_to_sink : ℕ → SinkArg A → Call A
  call_to_sinks : ℕ → List (SinkArg A) → Call A
  call_merge : ℕ → ℕ → Call A

module _ {A : Type 0} where
  abbrev continue : Result ℕ → (ℕ → Action A ℕ) → Action A ℕ
  continue (ok p) f s = f p s
  continue (err e) f s = (err e, s)

  -- `self.clone()`: a new object behind the others.
  unfoldable pub clone_object : ℕ → Action A ℕ
  clone_object p s = elim (get_elem? s p) [
    | none ↦ (err index_error, s)
    | some t ↦ (ok (length s), s ++ clone t ∷ [])
  ]

  -- A mutation of the tree of one object. What raises has not written.
  unfoldable pub mutate : ℕ → (PipelineTree A → Result (PipelineTree A)) → Action A ℕ
  mutate p f s = elim (get_elem? s p) [
    | none ↦ (err index_error, s)
    | some t ↦ elim (f t) [ err e ↦ (err e, s) | ok t' ↦ (ok p, set s p t') ]
  ]

  -- `self.clone().__method__(…)`, where the method appends a stage.
  unfoldable pub on_clone : ℕ → Result (Stage A) → Action A ℕ
  unfolding clone_object mutate
  on_clone p stage s =
      let (r, s') = clone_object p s in continue r (λ q. mutate q (λ t. stage >>= add_stage t)) s'

  unfoldable pub stage_of_computation : Computation A → Stage A
  stage_of_computation c = if c.is_stateful then to_state c.object else to c.object

  -- A connector's name is looked up in `self._connectors`, which no `Pipeline` has.
  unfoldable pub sink_arg : SinkArg A → Result (ConfigTuple A)
  sink_arg (named name) = err attribute_error
  sink_arg (config k) = ok (sink_to_tuple k)

  unfoldable pub sink_args : List (SinkArg A) → Result (List (ConfigTuple A))
  unfolding sink_arg
  sink_args [] = ok []
  sink_args (k ∷ ks) = do tuple ← sink_arg k; tuples ← sink_args ks; ok (tuple ∷ tuples)

  -- `__merge__`: the tree of one object takes in that of another.
  unfoldable pub merge_into : ℕ → ℕ → Action A ℕ
  merge_into p q s = elim (get_elem? s q) [
    | none ↦ (err index_error, s)
    | some g ↦ mutate p (λ t. merge t g) s
  ]

  -- The argument `pipeline.clone()` of `__merge__` is evaluated on the clone of `self`.
  unfoldable pub merge_clone_into : ℕ → ℕ → Action A ℕ
  merge_clone_into q p s = let (r, s') = clone_object q s in continue r (merge_into p) s'

  -- `self.clone().__merge__(pipeline.clone())`
  unfoldable pub merge_objects : ℕ → ℕ → Action A ℕ
  merge_objects p q s = let (r, s') = clone_object p s in continue r (merge_clone_into q) s'

  unfoldable pub exec : Call A → Action A ℕ
  unfolding on_clone merge_objects merge_clone_into merge_into
  exec (from_source name k) s =
      (ok (length s), s ++ new_tree (source name (source_to_tuple k)) ∷ [])
  exec (call_to p c) s = on_clone p (ok (stage_of_computation c)) s
  exec (call_key_by p extractor) s = on_clone p (ok (key_by extractor)) s
  exec (call_to_sink p k) s = on_clone p (do tuple ← sink_arg k; ok (to_sink tuple)) s
  exec (call_to_sinks p ks) s = on_clone p (do tuples ← sink_args ks; ok (to_sinks tuples)) s
  exec (call_merge p q) s = merge_objects p q s

  -- The setup function of an application: its calls in order, up to the first that raises.
  unfoldable pub exec_all : List (Call A) → Action A (Unit {0})
  exec_all [] s = (ok tt, s)
  exec_all (c ∷ cs) s =
      let (r, s') = exec c s in elim r [ err e ↦ (err e, s') | ok p ↦ exec_all cs s' ]

  -- `build_application`: only a pipeline that ends in a sink is handed to the engine.
  unfoldable pub build_application : Text → ℕ → Store A → Result (AppTuple A)
  build_application app_name p s = elim (get_elem? s p) [
    | none ↦ err index_error
    | some t ↦ if t.is_closed then ok (to_tuple t app_name) else err parameter_error
  ]
