-- ===== src/Observability/Additions.antt =====
-- What the addition of one worker's response does to the owner of a partition.
use mathlib.Core.Path.{subst}
use wallaroo.Base.{ok-injective}
use wallaroo.Base.{◌≡◌, refl, sym, ap, ◌∙◌, Bool, true, false, Option, none, some, List, [], ◌∷◌}
use wallaroo.Base.{
  Bool-cases, Option-cases, inl, inr, if◌then◌else◌, ok, err, >>=-eq-ok, duplicate_key_error,
}
use wallaroo.Base.Dict.{Eq, same, Dict, contains, lookup, insert, lookup-insert, same→≡}
use wallaroo.Observability.{add_parts, unless_there, add_steps, or_empty}

abbrev pub or_else {ℓ} : {A : Type ℓ} → Option A → Option A → Option A
or_else none o = o
or_else (some a) o = some a

pub or_else-none {ℓ} : {A : Type ℓ} (o : Option A) → or_else o none ≡ o
or_else-none none = refl
or_else-none (some a) = refl

module _ {K : Type 0} ⦃e : Eq K⦄ where
  abbrev pub parts_of : Option (Dict K K) → K → Option K
  parts_of none part = none
  parts_of (some d) part = lookup part d

  -- Who has a partition of a step.
  abbrev pub owner : K → K → Dict K (Dict K K) → Option K
  owner step part steps = parts_of (lookup step steps) part

  -- Whether a worker's response names it.
  unfoldable pub holds : K → K → Dict K (List K) → Bool
  holds step part [] = false
  holds step part ((s, parts) ∷ row) =
      if same s step
      then (if contains parts part then true else holds step part row)
      else holds step part row

  -- The first worker whose response names it.
  unfoldable pub claimant : K → K → Dict K (Dict K (List K)) → Option K
  unfolding holds
  claimant step part [] = none
  claimant step part ((worker, row) ∷ rest) =
      if holds step part row then some worker else claimant step part rest

  -- No two of the responses name one partition of one step.
  abbrev pub IsExclusive : Dict K (Dict K (List K)) → Type 0
  IsExclusive [] = Unit {0}
  IsExclusive ((worker, row) ∷ rest) =
      ((step part : K) → holds step part row ≡ true → claimant step part rest ≡ none)
      × IsExclusive rest

  abbrev pub claimed : Bool → K → Option K
  claimed b worker = if b then some worker else none

  -- What a run of additions tells of one key: the owner afterwards, and that no owner was met.
  pub record Added (b : Bool) (worker : K) (was now : Option K) : Type 0 where
    pub now_is : now ≡ or_else was (claimed b worker)
    pub was_free : (w : K) → was ≡ some w → b ≡ false

  add_parts-Added :
      (worker : K) (parts : List K) (d d' : Dict K K)
      → add_parts worker parts d ≡ ok d'
      → (part : K) → Added (contains parts part) worker (lookup part d) (lookup part d')
  unfolding add_parts contains
  add_parts-Added worker [] d d' h part =
      let same_dict : d' ≡ d = ok-injective (sym h) in
      record {
        now_is = ap (λ t. lookup part t) same_dict ∙ sym (or_else-none _);
        was_free = λ w q. refl;
      }
  add_parts-Added worker (p ∷ parts) d d' h part = elim (Option-cases (lookup p d)) [
    | inl free ↦
        let rest = add_parts worker parts (insert p worker d) in
        let ih =
          add_parts-Added worker parts (insert p worker d) d'
            (sym (ap (λ o. unless_there o rest) free) ∙ h) part in
        elim (Bool-cases (same p part)) [
          | inl eq ↦
              let was_none : lookup part d ≡ none =
                ap (λ k. lookup k d) (sym (same→≡ p part eq)) ∙ free in
              let inserted : lookup part (insert p worker d) ≡ some worker =
                lookup-insert part p worker d ∙ rw eq refl in
              rw eq (record {
                now_is =
                    ih.now_is
                    ∙ ap (λ o. or_else o (claimed (contains parts part) worker)) inserted
                    ∙ sym (ap (λ o. or_else o (some worker)) was_none);
                was_free = λ w q. cc;
              })
          | inr ne ↦
              let kept : lookup part (insert p worker d) ≡ lookup part d =
                lookup-insert part p worker d ∙ rw ne refl in
              rw ne (record {
                now_is =
                    ih.now_is ∙ ap (λ o. or_else o (claimed (contains parts part) worker)) kept;
                was_free = λ w q. ih.was_free w (kept ∙ q);
              })
        ]
    | inr (w, dup) ↦
        let raised : err duplicate_key_error ≡ ok d' =
          sym (ap (λ o. unless_there o (add_parts worker parts (insert p worker d))) dup) ∙ h in
        cc
  ]

  owner-insert :
      (step part s : K) (d : Dict K K) (steps : Dict K (Dict K K))
      → owner step part (insert s d steps)
        ≡ (if same s step then lookup part d else owner step part steps)
  owner-insert step part s d steps =
      ap (λ o. parts_of o part) (lookup-insert step s d steps) ∙ branch (same s step)
    where
      branch :
          (b : Bool)
          → parts_of (if b then some d else lookup step steps) part
            ≡ (if b then lookup part d else owner step part steps)
      branch true = refl
      branch false = refl

  or_empty-lookup : (o : Option (Dict K K)) (part : K) → lookup part (or_empty o) ≡ parts_of o part
  unfolding lookup
  or_empty-lookup none part = refl
  or_empty-lookup (some d) part = refl

  Added-trans :
      (b c : Bool) (worker : K) (was mid now : Option K)
      → Added b worker was mid
      → Added c worker mid now
      → Added (if b then true else c) worker was now
  Added-trans true c worker none mid now first next = record {
    now_is = next.now_is ∙ ap (λ o. or_else o (claimed c worker)) first.now_is;
    was_free = λ w q. cc;
  }
  Added-trans true c worker (some v) mid now first next =
      let never : true ≡ false = first.was_free v refl in cc
  Added-trans false c worker was mid now first next =
      let same_owner : mid ≡ was = first.now_is ∙ or_else-none was in
      record {
        now_is = next.now_is ∙ ap (λ o. or_else o (claimed c worker)) same_owner;
        was_free = λ w q. next.was_free w (same_owner ∙ q);
      }

  pub add_steps-Added :
      (worker : K) (row : Dict K (List K)) (steps steps' : Dict K (Dict K K))
      → add_steps worker row steps ≡ ok steps'
      → (step part : K)
      → Added (holds step part row) worker (owner step part steps) (owner step part steps')
  unfolding add_steps holds
  add_steps-Added worker [] steps steps' h step part =
      let same_dict : steps' ≡ steps = ok-injective (sym h) in
      record {
        now_is = ap (owner step part) same_dict ∙ sym (or_else-none _);
        was_free = λ w q. refl;
      }
  add_steps-Added worker ((s, parts) ∷ row) steps steps' h step part =
      let (d, added, rest) = >>=-eq-ok (add_parts worker parts (or_empty (lookup s steps))) _ h in
      let here = add_parts-Added worker parts _ d added part in
      let ih = add_steps-Added worker row (insert s d steps) steps' rest step part in
      elim (Bool-cases (same s step)) [
        | inl eq ↦
            let was : lookup part (or_empty (lookup s steps)) ≡ owner step part steps =
              or_empty-lookup (lookup s steps) part
              ∙ ap (λ k. owner k part steps) (same→≡ s step eq) in
            let then_is : owner step part (insert s d steps) ≡ lookup part d =
              owner-insert step part s d steps ∙ rw eq refl in
            rw eq (
              Added-trans (contains parts part) (holds step part row) worker _ _ _
                (subst (λ o. Added (contains parts part) worker o (lookup part d)) was here)
                (subst (λ o. Added (holds step part row) worker o (owner step part steps')) then_is
                  ih))
        | inr ne ↦
            let kept : owner step part (insert s d steps) ≡ owner step part steps =
              owner-insert step part s d steps ∙ rw ne refl in
            rw ne (record {
              now_is = ih.now_is ∙ ap (λ o. or_else o (claimed (holds step part row) worker)) kept;
              was_free = λ w q. ih.was_free w (kept ∙ q);
            })
      ]
