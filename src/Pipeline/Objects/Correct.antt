-- ===== src/Pipeline/Objects/Correct.antt =====
-- What the pipeline API guarantees to an application.
use wallaroo.Base.{ℕ, Bool, true, false, some, List, [], ◌∷◌, ◌++◌, ◌≡◌, refl, ap}
use wallaroo.Base.{length, get_elem?, inl, inr, ◌∙◌, sym, append_assoc, ◌<◌}
use wallaroo.Base.{get_elem?_middle, Error, Result, Result-cases, ok, err, parameter_error, ◌>>=◌}
use wallaroo.Base.{get_elem?-append_left}
use mathlib.Core.Path.{subst}
use mathlib.Core.Option.{none-ne-some, some-injective}
use wallaroo.Base.Text.{Text}
use wallaroo.Pipeline.{PipelineTree, key_by, to_sink, to_sinks, new_tree, to_tuple, AppTuple}
use wallaroo.Pipeline.Plan.{Plan, join, Denotes}
use wallaroo.Pipeline.Refines.{clone_self, new_tree-IsPlan}
use wallaroo.Pipeline.Objects.{
  Store, Call, from_source, call_to, call_key_by, call_to_sink, call_to_sinks, call_merge, exec,
  exec_all, build_application, stage_of_computation, sink_arg, sink_args,
}
use wallaroo.Pipeline.Objects.Spec.{Values, spec_merge, spec_exec}
use wallaroo.Pipeline.Objects.Simulation.{
  Implements, Implements-append, Implements-get_elem?, length-Implements, Matches, Matches-on_clone,
  on_clone-appends,
}
use wallaroo.Pipeline.Objects.Merging.{Matches-merge_objects, merge_objects-appends}

module _ {A : Type 0} where
  -- Where the objects implement the values, a call returns or raises what the specification says,
  -- and the objects implement the values again.
  pub exec-Matches :
      (c : Call A) (s : Store A) (a : Values A)
      → Implements s a
      → Matches (exec c s) (spec_exec c a)
  unfolding exec spec_exec
  exec-Matches (from_source name k) s a h = record {
    result = ap ok (length-Implements s a h);
    stores = Implements-append s a _ _ false h (new_tree-IsPlan _) (unfold new_tree in refl);
  }
  exec-Matches (call_to p c) s a h = Matches-on_clone p s a h (ok (stage_of_computation c))
  exec-Matches (call_key_by p k) s a h = Matches-on_clone p s a h (ok (key_by k))
  exec-Matches (call_to_sink p k) s a h =
      Matches-on_clone p s a h (do tuple ← sink_arg k; ok (to_sink tuple))
  exec-Matches (call_to_sinks p ks) s a h =
      Matches-on_clone p s a h (do tuples ← sink_args ks; ok (to_sinks tuples))
  exec-Matches (call_merge p q) s a h = Matches-merge_objects p q s a h

  -- What the calls promise together, up to the first that raises.
  unfoldable pub spec_exec_all : List (Call A) → Values A → Result (Unit {0}) × Values A
  spec_exec_all [] a = (ok tt, a)
  spec_exec_all (c ∷ cs) a =
      let (r, a') = spec_exec c a in elim r [ err e ↦ (err e, a') | ok p ↦ spec_exec_all cs a' ]

  exec_all_raises :
      (c : Call A) (cs : List (Call A)) (s : Store A) (a : Values A) (e : Error)
      → Matches (exec c s) (spec_exec c a)
      → (exec c s).0 ≡ err e
      → ((exec_all (c ∷ cs) s).0 ≡ (spec_exec_all (c ∷ cs) a).0)
        × Implements (exec_all (c ∷ cs) s).1 (spec_exec_all (c ∷ cs) a).1
  unfolding exec_all spec_exec_all
  exec_all_raises c cs s a e m x =
      rw (x, exec_all, sym m.result ∙ x, spec_exec_all) (refl, m.stores)

  exec_all_goes_on :
      (c : Call A) (cs : List (Call A)) (s : Store A) (a : Values A) (p : ℕ)
      → Matches (exec c s) (spec_exec c a)
      → (exec c s).0 ≡ ok p
      → ((exec_all cs (exec c s).1).0 ≡ (spec_exec_all cs (spec_exec c a).1).0)
        × Implements (exec_all cs (exec c s).1).1 (spec_exec_all cs (spec_exec c a).1).1
      → ((exec_all (c ∷ cs) s).0 ≡ (spec_exec_all (c ∷ cs) a).0)
        × Implements (exec_all (c ∷ cs) s).1 (spec_exec_all (c ∷ cs) a).1
  unfolding exec_all spec_exec_all
  exec_all_goes_on c cs s a p m x h = rw (x, exec_all, sym m.result ∙ x, spec_exec_all) h

  -- Any sequence of calls, from objects that implement their values, ends or raises as the
  -- specification says, and leaves objects that implement the values it says.
  pub exec_all-Implements :
      (cs : List (Call A)) (s : Store A) (a : Values A)
      → Implements s a
      → ((exec_all cs s).0 ≡ (spec_exec_all cs a).0)
        × Implements (exec_all cs s).1 (spec_exec_all cs a).1
  exec_all-Implements [] s a h = unfold exec_all spec_exec_all in (refl, h)
  exec_all-Implements (c ∷ cs) s a h =
      let m = exec-Matches c s a h in
      let h' = exec_all-Implements cs (exec c s).1 (spec_exec c a).1 m.stores in
      elim (Result-cases (exec c s).0) [
        | inl (p, x) ↦ exec_all_goes_on c cs s a p m x h'
        | inr (e, x) ↦ exec_all_raises c cs s a e m x
      ]

  exec-appends : (c : Call A) (s : Store A) → (more : Store A) × ((exec c s).1 ≡ s ++ more)
  unfolding exec
  exec-appends (from_source name k) s = (_, refl)
  exec-appends (call_to p c) s = on_clone-appends p (ok (stage_of_computation c)) s
  exec-appends (call_key_by p k) s = on_clone-appends p (ok (key_by k)) s
  exec-appends (call_to_sink p k) s =
      on_clone-appends p (do tuple ← sink_arg k; ok (to_sink tuple)) s
  exec-appends (call_to_sinks p ks) s =
      on_clone-appends p (do tuples ← sink_args ks; ok (to_sinks tuples)) s
  exec-appends (call_merge p q) s = merge_objects-appends p q s

  -- A call, whether it returns or raises, leaves every pipeline made before as it was.
  pub exec_keeps :
      (c : Call A) (s : Store A) (i : ℕ) → i < length s → get_elem? (exec c s).1 i ≡ get_elem? s i
  exec_keeps c s i h =
      let (more, e) = exec-appends c s in
      ap (λ t. get_elem? t i) e ∙ get_elem?-append_left s more i h

  -- The object of a value, with the value's own plan and flag.
  of_value :
      (i : ℕ) (s : Store A) (a : Values A) (p : Plan A) (closed : Bool)
      → Implements s a
      → get_elem? a i ≡ some (p, closed)
      → (t : PipelineTree A) × (get_elem? s i ≡ some t)
        × (t.is_closed ≡ closed)
        × Denotes t.vs t.es t.root_idx p
  of_value i s a p closed h e = elim (Implements-get_elem? s a i h) [
    | inl (n, m) ↦ absurd (none-ne-some _ (sym m ∙ e))
    | inr f ↦
        let same : (f.plan, f.tree.is_closed) ≡ (p, closed) =
          some-injective _ _ (sym f.in_values ∙ e) in
        (
          f.tree,
          f.in_store,
          ap (λ v. v.1) same,
          subst (Denotes f.tree.vs f.tree.es f.tree.root_idx) (ap (λ v. v.0) same)
              f.is_plan.denotes,
        )
  ]

  -- What `build_application` hands to the engine for a pipeline whose value is closed: the name,
  -- and tables that denote the plan at their root.
  pub build_application_closed :
      (name : Text) (i : ℕ) (s : Store A) (a : Values A) (p : Plan A)
      → Implements s a
      → get_elem? a i ≡ some (p, true)
      → (out : AppTuple A) × (build_application name i s ≡ ok out)
        × (out.0 ≡ name)
        × Denotes out.2 out.3 out.1 p
  unfolding build_application to_tuple
  build_application_closed name i s a p h e =
      let (t, found, c, d) = of_value i s a p true h e in
      (
        (name, t.root_idx, t.vs, t.es),
        rw (found, build_application, c)
            (ap (λ (u : PipelineTree A). ok (name, u.root_idx, u.vs, u.es)) (clone_self t)),
        refl,
        d,
      )

  -- A pipeline whose value is open is refused.
  pub build_application_open :
      (name : Text) (i : ℕ) (s : Store A) (a : Values A) (p : Plan A)
      → Implements s a
      → get_elem? a i ≡ some (p, false)
      → build_application name i s ≡ err parameter_error
  unfolding build_application
  build_application_open name i s a p h e =
      let (t, found, c, d) = of_value i s a p false h e in rw (found, build_application, c)

  -- A closed pipeline can still be merged: the merge with any other one is taken by
  -- `build_application`, though no stage, and so no sink, stands at its root.
  pub build_application_of_merged_closed :
      (name : Text) (i j : ℕ) (s : Store A) (a : Values A) (p q : Plan A) (closed : Bool)
      → Implements s a
      → get_elem? a i ≡ some (p, true)
      → get_elem? (a ++ (p, true) ∷ []) j ≡ some (q, closed)
      → (out : AppTuple A) × (build_application name (length s) (exec (call_merge i j) s).1
          ≡ ok out)
        × Denotes out.2 out.3 out.1 (join p q [])
  unfolding spec_exec
  build_application_of_merged_closed name i j s a p q closed h e f =
      let m = exec-Matches (call_merge i j) s a h in
      let values : (spec_exec (call_merge i j) a).1 ≡ a ++ (join p q [], true) ∷ (q, closed) ∷ [] =
        rw (e, spec_merge) (rw (f, spec_merge) (append_assoc a _ _)) in
      let found : get_elem? (spec_exec (call_merge i j) a).1 (length s) ≡ some (join p q [], true) =
        rw (length-Implements s a h)
          (ap (λ v. get_elem? v (length a)) values ∙ get_elem?_middle a _ _) in
      let (out, made, _, d) =
        build_application_closed name (length s) _ _ (join p q []) m.stores found in
      (out, made, d)
