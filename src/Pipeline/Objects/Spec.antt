-- ===== src/Pipeline/Objects/Spec.antt =====
-- What the API promises: a pipeline value is a plan, and whether it is closed; it never changes.
use wallaroo.Base.{ℕ, Bool, false, none, some, List, [], ◌∷◌, ◌++◌}
use wallaroo.Base.{length, get_elem?, if◌then◌else◌}
use wallaroo.Base.{Result, ok, err, parameter_error, index_error, ◌>>=◌}
use wallaroo.Pipeline.Config.{source_to_tuple}
use wallaroo.Pipeline.{Stage, source, key_by, to_sink, to_sinks, is_sink}
use wallaroo.Pipeline.Plan.{Plan, leaf, join, extend}
use wallaroo.Pipeline.Objects.{
  Call, from_source, call_to, call_key_by, call_to_sink, call_to_sinks, call_merge, sink_arg,
  sink_args, stage_of_computation,
}

abbrev pub Values : Type 0 → Type 0
Values A = List (Plan A × Bool)

module _ {A : Type 0} where
  -- One more stage, if the value is open and the stage could be made. The value made on the way
  -- counts as a reference that nobody holds.
  unfoldable pub spec_stage : ℕ → Result (Stage A) → Values A → Result ℕ × Values A
  spec_stage i stage a = elim (get_elem? a i) [
    | none ↦ (err index_error, a)
    | some (p, closed) ↦ elim stage [
      | err e ↦ (err e, a ++ (p, closed) ∷ [])
      | ok s ↦
          if closed
          then (err parameter_error, a ++ (p, closed) ∷ [])
          else (ok (length a), a ++ (extend p s, is_sink s) ∷ [])
    ]
  ]

  -- A merge joins two values, open or closed, and is closed as the first one is.
  unfoldable pub spec_merge : ℕ → ℕ → Values A → Result ℕ × Values A
  spec_merge i j a = elim (get_elem? a i) [
    | none ↦ (err index_error, a)
    | some (p, closed) ↦
        let a' : Values A = a ++ (p, closed) ∷ [] in
        elim (get_elem? a' j) [
          | none ↦ (err index_error, a')
          | some (q, closed') ↦
              (ok (length a), (a ++ (join p q [], closed) ∷ []) ++ (q, closed') ∷ [])
        ]
  ]

  unfoldable pub spec_exec : Call A → Values A → Result ℕ × Values A
  unfolding spec_stage spec_merge
  spec_exec (from_source name k) a =
      (ok (length a), a ++ (leaf (source name (source_to_tuple k) ∷ []), false) ∷ [])
  spec_exec (call_to i c) a = spec_stage i (ok (stage_of_computation c)) a
  spec_exec (call_key_by i extractor) a = spec_stage i (ok (key_by extractor)) a
  spec_exec (call_to_sink i k) a = spec_stage i (do tuple ← sink_arg k; ok (to_sink tuple)) a
  spec_exec (call_to_sinks i ks) a = spec_stage i (do tuples ← sink_args ks; ok (to_sinks tuples)) a
  spec_exec (call_merge i j) a = spec_merge i j a
