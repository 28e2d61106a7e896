-- ===== src/Pipeline/Objects/Simulation.antt =====
-- The objects implement the values: the two stores are related, and every call keeps them so.
use wallaroo.Base.{ℕ, zero, suc, Bool, true, false, none, some, [], ◌∷◌, ◌++◌, ◌≡◌, refl, ap}
use wallaroo.Base.{length, get_elem?, ◌⊎◌, inl, inr, arith, ◌∙◌, sym}
use wallaroo.Base.{get_elem?_middle, set_middle}
use wallaroo.Base.{Error, Result, ok, err, index_error, ◌>>=◌, Bool-cases}
use mathlib.Core.Path.{subst₂}
use wallaroo.Base.{Option-cases, Result-cases, append-nil}
use wallaroo.Pipeline.{Stage, is_sink, PipelineTree}
use wallaroo.Pipeline.{add_stage}
use wallaroo.Pipeline.Plan.{Plan, extend}
use wallaroo.Pipeline.Refines.{IsPlan, clone_self, add_stage_open}
use wallaroo.Pipeline.Refines.{add_stage_closed}
use wallaroo.Pipeline.Objects.{Store, on_clone, clone_object, mutate}
use wallaroo.Pipeline.Objects.Spec.{Values, spec_stage}

module _ {A : Type 0} where
  -- Each object denotes its value.
  abbrev pub Implements : Store A → Values A → Type 0
  Implements [] [] = Unit {0}
  Implements (t ∷ s) ((p, c) ∷ a) = IsPlan t p × (t.is_closed ≡ c) × Implements s a
  Implements [] (v ∷ a) = ⊥
  Implements (t ∷ s) [] = ⊥

  pub Implements-append :
      (s : Store A) (a : Values A) (t : PipelineTree A) (p : Plan A) (c : Bool)
      → Implements s a
      → IsPlan t p
      → t.is_closed ≡ c
      → Implements (s ++ t ∷ []) (a ++ (p, c) ∷ [])
  Implements-append [] [] t p c h k e = (k, e, tt)
  Implements-append [] (v ∷ a) t p c h k e = absurd h
  Implements-append (u ∷ s) [] t p c h k e = absurd h
  Implements-append (u ∷ s) ((q, _) ∷ a) t p c (d, o, h) k e =
      (d, o, Implements-append s a t p c h k e)

  pub length-Implements : (s : Store A) (a : Values A) → Implements s a → length s ≡ length a
  length-Implements [] [] h = refl
  length-Implements [] (v ∷ a) h = absurd h
  length-Implements (u ∷ s) [] h = absurd h
  length-Implements (u ∷ s) ((q, c) ∷ a) (d, e, h) = ap suc (length-Implements s a h)

  -- An object and its value, found under one reference.
  pub record Found (s : Store A) (a : Values A) (i : ℕ) : Type 0 where
    pub tree : PipelineTree A
    pub plan : Plan A
    pub in_store : get_elem? s i ≡ some tree
    pub in_values : get_elem? a i ≡ some (plan, tree.is_closed)
    pub is_plan : IsPlan tree plan

  pub Implements-get_elem? :
      (s : Store A) (a : Values A) (i : ℕ)
      → Implements s a
      → ((get_elem? s i ≡ none) × (get_elem? a i ≡ none)) ⊎ Found s a i
  Implements-get_elem? [] [] i h = inl (refl, refl)
  Implements-get_elem? [] (v ∷ a) i h = absurd h
  Implements-get_elem? (u ∷ s) [] i h = absurd h
  Implements-get_elem? (u ∷ s) ((q, c) ∷ a) zero (d, e, h) =
      inr (record { tree = u; plan = q; in_store = refl; in_values = cc; is_plan = d })
  Implements-get_elem? (u ∷ s) ((q, c) ∷ a) (suc i) (d, e, h) =
      elim (Implements-get_elem? s a i h) [
        | inl n ↦ inl n
        | inr f ↦ inr (record {
          tree = f.tree;
          plan = f.plan;
          in_store = f.in_store;
          in_values = f.in_values;
          is_plan = f.is_plan;
        })
      ]

  on_clone_dangling :
      (i : ℕ) (stage : Result (Stage A)) (s : Store A)
      → get_elem? s i ≡ none
      → on_clone i stage s ≡ (err index_error, s)
  unfolding on_clone
  on_clone_dangling i stage s e = rw (e, clone_object)

  on_clone_ok :
      (i : ℕ) (stage : Result (Stage A)) (s : Store A) (t : PipelineTree A) {t' : PipelineTree A}
      → get_elem? s i ≡ some t
      → (stage >>= add_stage t) ≡ ok t'
      → on_clone i stage s ≡ (ok (length s), s ++ t' ∷ [])
  unfolding on_clone
  on_clone_ok i stage s t {t'} e f =
      rw (e, clone_object, clone_self t)
        (rw (get_elem?_middle s t [], mutate) (rw f (λ j. (ok (length s), set_middle s t [] t' j))))

  on_clone_raises :
      (i : ℕ) (stage : Result (Stage A)) (s : Store A) (t : PipelineTree A) {e : Error}
      → get_elem? s i ≡ some t
      → (stage >>= add_stage t) ≡ err e
      → on_clone i stage s ≡ (err e, s ++ t ∷ [])
  unfolding on_clone
  on_clone_raises i stage s t e f =
      rw (e, clone_object, clone_self t) (rw (get_elem?_middle s t [], mutate) (rw f))

  -- A call's outcome beside the outcome that the values promise.
  pub record Matches (m : Result ℕ × Store A) (n : Result ℕ × Values A) : Type 0 where
    pub result : m.0 ≡ n.0
    pub stores : Implements m.1 n.1

  pub Matches-of_eq :
      {m m' : Result ℕ × Store A} {n n' : Result ℕ × Values A}
      → m ≡ m'
      → n ≡ n'
      → Matches m' n'
      → Matches m n
  Matches-of_eq e f h = subst₂ Matches (sym e) (sym f) h

  module _ (i : ℕ) (s : Store A) (a : Values A) (h : Implements s a) where
    dangling :
        (stage : Result (Stage A))
        → get_elem? s i ≡ none
        → get_elem? a i ≡ none
        → Matches (on_clone i stage s) (spec_stage i stage a)
    unfolding spec_stage
    dangling stage n m =
        Matches-of_eq (on_clone_dangling i stage s n) (rw (m, spec_stage) refl)
          (record { result = refl; stores = h })

    raises :
        (stage : Result (Stage A)) (f : Found s a i) {e : Error}
        → (stage >>= add_stage f.tree) ≡ err e
        → spec_stage i stage a ≡ (err e, a ++ (f.plan, f.tree.is_closed) ∷ [])
        → Matches (on_clone i stage s) (spec_stage i stage a)
    raises stage f r q = Matches-of_eq (on_clone_raises i stage s f.tree f.in_store r) q (record {
      result = refl;
      stores = Implements-append s a f.tree f.plan f.tree.is_closed h f.is_plan refl;
    })

    open_tree :
        (stage : Stage A) (f : Found s a i)
        → f.tree.is_closed ≡ false
        → Matches (on_clone i (ok stage) s) (spec_stage i (ok stage) a)
    unfolding spec_stage
    open_tree stage f o =
        let (t', added, k, c) = add_stage_open f.tree f.plan stage f.is_plan o in
        Matches-of_eq (on_clone_ok i (ok stage) s f.tree f.in_store added)
          (ground (arith, f.in_values))
          (record {
            result = ap ok (length-Implements s a h);
            stores = Implements-append s a t' (extend f.plan stage) (is_sink stage) h k c;
          })

    closed_tree :
        (stage : Stage A) (f : Found s a i)
        → f.tree.is_closed ≡ true
        → Matches (on_clone i (ok stage) s) (spec_stage i (ok stage) a)
    unfolding spec_stage
    closed_tree stage f c =
        raises (ok stage) f (add_stage_closed f.tree stage c) (ground (arith, f.in_values))

    on_Found :
        (stage : Result (Stage A)) (f : Found s a i)
        → Matches (on_clone i stage s) (spec_stage i stage a)
    unfolding spec_stage
    on_Found (err e) f = raises (err e) f refl (ground (arith, f.in_values))
    on_Found (ok stage) f = elim (Bool-cases f.tree.is_closed) [
      | inl c ↦ closed_tree stage f c
      | inr o ↦ open_tree stage f o
    ]

    pub Matches-on_clone :
        (stage : Result (Stage A)) → Matches (on_clone i stage s) (spec_stage i stage a)
    Matches-on_clone stage = elim (Implements-get_elem? s a i h) [
      | inl (n, m) ↦ dangling stage n m
      | inr f ↦ on_Found stage f
    ]

  -- Whatever the method does, the objects made before are as they were.
  pub on_clone-appends :
      (i : ℕ) (stage : Result (Stage A)) (s : Store A)
      → (more : Store A) × ((on_clone i stage s).1 ≡ s ++ more)
  on_clone-appends i stage s = elim (Option-cases (get_elem? s i)) [
    | inl n ↦ ([], ap (λ o. o.1) (on_clone_dangling i stage s n) ∙ sym (append-nil s))
    | inr (t, e) ↦ elim (Result-cases (stage >>= add_stage t)) [
      | inl (t', f) ↦ (t' ∷ [], ap (λ o. o.1) (on_clone_ok i stage s t e f))
      | inr (x, f) ↦ (t ∷ [], ap (λ o. o.1) (on_clone_raises i stage s t e f))
    ]
  ]
