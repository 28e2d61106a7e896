-- ===== src/Pipeline/Objects/Merging.antt =====
-- `merge` on objects: both are cloned, and the first clone takes the second in.
use wallaroo.Base.{ℕ, none, some, [], ◌∷◌, ◌++◌, ◌≡◌, refl, ap}
use wallaroo.Base.{length, get_elem?, inl, inr, arith, ◌∙◌, sym, append_assoc}
use wallaroo.Base.{get_elem?_middle, set_middle, Error, ok, err, index_error}
use wallaroo.Base.{Option-cases, Result-cases, append-nil}
use wallaroo.Pipeline.{PipelineTree, merge}
use wallaroo.Pipeline.Plan.{join}
use wallaroo.Pipeline.Refines.{clone_self, merge_lem}
use wallaroo.Pipeline.Objects.{
  Store, merge_objects, merge_clone_into, merge_into, clone_object, mutate,
}
use wallaroo.Pipeline.Objects.Spec.{Values, spec_merge}
use wallaroo.Pipeline.Objects.Simulation.{
  Implements, Implements-append, Implements-get_elem?, length-Implements, Matches, Matches-of_eq,
}

module _ {A : Type 0} where
  clone_object_found :
      (i : ℕ) (s : Store A) (t : PipelineTree A)
      → get_elem? s i ≡ some t
      → clone_object i s ≡ (ok (length s), s ++ t ∷ [])
  unfolding clone_object
  clone_object_found i s t e = rw (e, clone_object, clone_self t)

  clone_object_dangling :
      (i : ℕ) (s : Store A) → get_elem? s i ≡ none → clone_object i s ≡ (err index_error, s)
  unfolding clone_object
  clone_object_dangling i s e = rw (e, clone_object)

  merge_into_lem :
      (s : Store A) (t g t' : PipelineTree A)
      → merge t g ≡ ok t'
      → merge_into (length s) (length (s ++ t ∷ [])) ((s ++ t ∷ []) ++ g ∷ [])
        ≡ (ok (length s), (s ++ t' ∷ []) ++ g ∷ [])
  unfolding merge_into mutate
  merge_into_lem s t g t' m =
      rw (get_elem?_middle (s ++ t ∷ []) g [], merge_into)
        (rw (append_assoc s (t ∷ []) (g ∷ []), append_assoc s (t' ∷ []) (g ∷ []))
          (rw (get_elem?_middle s t (g ∷ []), mutate)
            (rw m (λ k. (ok (length s), set_middle s t (g ∷ []) t' k)))))

  merge_into_raises :
      (s : Store A) (t g : PipelineTree A) {e : Error}
      → merge t g ≡ err e
      → merge_into (length s) (length (s ++ t ∷ [])) ((s ++ t ∷ []) ++ g ∷ [])
        ≡ (err e, (s ++ t ∷ []) ++ g ∷ [])
  unfolding merge_into mutate
  merge_into_raises s t g m =
      rw (get_elem?_middle (s ++ t ∷ []) g [], merge_into)
        (rw (append_assoc s (t ∷ []) (g ∷ [])) (rw (get_elem?_middle s t (g ∷ []), mutate) (rw m)))

  module _ (i j : ℕ) (s : Store A) where
    first_dangling : get_elem? s i ≡ none → merge_objects i j s ≡ (err index_error, s)
    unfolding merge_objects
    first_dangling e = rw (clone_object_dangling i s e)

    second_dangling :
        (t : PipelineTree A)
        → get_elem? s i ≡ some t
        → get_elem? (s ++ t ∷ []) j ≡ none
        → merge_objects i j s ≡ (err index_error, s ++ t ∷ [])
    unfolding merge_objects merge_clone_into
    second_dangling t e f =
        rw (clone_object_found i s t e) (rw (clone_object_dangling j (s ++ t ∷ []) f))

    both_found :
        (t g : PipelineTree A) {t' : PipelineTree A}
        → get_elem? s i ≡ some t
        → get_elem? (s ++ t ∷ []) j ≡ some g
        → merge t g ≡ ok t'
        → merge_objects i j s ≡ (ok (length s), (s ++ t' ∷ []) ++ g ∷ [])
    unfolding merge_objects merge_clone_into
    both_found t g {t'} e f m =
        rw (clone_object_found i s t e)
          (rw (clone_object_found j (s ++ t ∷ []) g f) (merge_into_lem s t g t' m))

    both_found_raises :
        (t g : PipelineTree A) {e : Error}
        → get_elem? s i ≡ some t
        → get_elem? (s ++ t ∷ []) j ≡ some g
        → merge t g ≡ err e
        → merge_objects i j s ≡ (err e, (s ++ t ∷ []) ++ g ∷ [])
    unfolding merge_objects merge_clone_into
    both_found_raises t g e f m =
        rw (clone_object_found i s t e)
          (rw (clone_object_found j (s ++ t ∷ []) g f) (merge_into_raises s t g m))

  -- Whatever a merge does, the objects made before are as they were.
  pub merge_objects-appends :
      (i j : ℕ) (s : Store A) → (more : Store A) × ((merge_objects i j s).1 ≡ s ++ more)
  merge_objects-appends i j s = elim (Option-cases (get_elem? s i)) [
    | inl n ↦ ([], ap (λ o. o.1) (first_dangling i j s n) ∙ sym (append-nil s))
    | inr (t, e) ↦ elim (Option-cases (get_elem? (s ++ t ∷ []) j)) [
      | inl n ↦ (t ∷ [], ap (λ o. o.1) (second_dangling i j s t e n))
      | inr (g, f) ↦ elim (Result-cases (merge t g)) [
        | inl (t', m) ↦ (
          t' ∷ g ∷ [],
          ap (λ o. o.1) (both_found i j s t g e f m) ∙ append_assoc s (t' ∷ []) (g ∷ []),
        )
        | inr (x, m) ↦ (
          t ∷ g ∷ [],
          ap (λ o. o.1) (both_found_raises i j s t g e f m) ∙ append_assoc s (t ∷ []) (g ∷ []),
        )
      ]
    ]
  ]

  pub Matches-merge_objects :
      (i j : ℕ) (s : Store A) (a : Values A)
      → Implements s a
      → Matches (merge_objects i j s) (spec_merge i j a)
  unfolding spec_merge
  Matches-merge_objects i j s a h = elim (Implements-get_elem? s a i h) [
    | inl (n, m) ↦
        Matches-of_eq (first_dangling i j s n) (rw (m, spec_merge) refl)
          (record { result = refl; stores = h })
    | inr f ↦
        let t = f.tree in
        let h' = Implements-append s a t f.plan t.is_closed h f.is_plan refl in
        elim (Implements-get_elem? (s ++ t ∷ []) (a ++ (f.plan, t.is_closed) ∷ []) j h') [
          | inl (n, m) ↦
              Matches-of_eq (second_dangling i j s t f.in_store n) (ground (arith, f.in_values, m))
                (record { result = refl; stores = h' })
          | inr k ↦
              let (t', merged, p, c) = merge_lem t k.tree f.plan k.plan f.is_plan k.is_plan in
              Matches-of_eq (both_found i j s t k.tree f.in_store k.in_store merged)
                (ground (arith, f.in_values, k.in_values))
                (record {
                  result = ap ok (length-Implements s a h);
                  stores =
                      Implements-append _ _ k.tree k.plan k.tree.is_closed
                        (Implements-append s a t' (join f.plan k.plan []) t.is_closed h p c)
                        k.is_plan refl;
                })
        ]
  ]
