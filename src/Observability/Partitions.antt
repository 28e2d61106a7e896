-- ===== src/Observability/Partitions.antt =====
-- What the coalesced map of partitions says.
use wallaroo.Base.{ok-injective}
use wallaroo.Base.{◌≡◌, refl, sym, ap, ◌∙◌, Bool, true, false, Option, none, some, List, [], ◌∷◌}
use wallaroo.Base.{if◌then◌else◌, ok, >>=-eq-ok}
use wallaroo.Base.Dict.{Eq, Dict, lookup}
use wallaroo.Observability.{add_steps, add_workers, coalesce_partition_query_responses}
use wallaroo.Observability.Additions.{
  or_else, or_else-none, owner, holds, claimant, IsExclusive, claimed, add_steps-Added,
}

module _ {K : Type 0} ⦃e : Eq K⦄ where
  add_workers-owner :
      (responses : Dict K (Dict K (List K))) (steps steps' : Dict K (Dict K K))
      → add_workers responses steps ≡ ok steps'
      → (step part : K)
      → owner step part steps' ≡ or_else (owner step part steps) (claimant step part responses)
  unfolding add_workers claimant
  add_workers-owner [] steps steps' h step part =
      let same_dict : steps' ≡ steps = ok-injective (sym h) in
      ap (owner step part) same_dict ∙ sym (or_else-none _)
  add_workers-owner ((worker, row) ∷ responses) steps steps' h step part =
      let (mid, added, rest) = >>=-eq-ok (add_steps worker row steps) _ h in
      let here = add_steps-Added worker row steps mid added step part in
      add_workers-owner responses mid steps' rest step part
      ∙ ap (λ o. or_else o (claimant step part responses)) here.now_is
      ∙ joined (owner step part steps) (holds step part row)
    where
      joined :
          (o : Option K) (b : Bool)
          → or_else (or_else o (claimed b worker)) (claimant step part responses)
            ≡ or_else o (if b then some worker else claimant step part responses)
      joined none true = refl
      joined none false = refl
      joined (some v) b = refl

  -- A partition that has an owner is in none of the responses that are still added.
  add_workers-free :
      (responses : Dict K (Dict K (List K))) (steps steps' : Dict K (Dict K K))
      → add_workers responses steps ≡ ok steps'
      → (step part w : K) → owner step part steps ≡ some w
      → claimant step part responses ≡ none
  unfolding add_workers claimant
  add_workers-free [] steps steps' h step part w owned = refl
  add_workers-free ((worker, row) ∷ responses) steps steps' h step part w owned =
      let (mid, added, rest) = >>=-eq-ok (add_steps worker row steps) _ h in
      let here = add_steps-Added worker row steps mid added step part in
      let free = here.was_free w owned in
      let still : owner step part mid ≡ some w =
        here.now_is ∙ ap (λ o. or_else o (claimed (holds step part row) worker)) owned in
      rw free (add_workers-free responses mid steps' rest step part w still)

  add_workers-IsExclusive :
      (responses : Dict K (Dict K (List K))) (steps steps' : Dict K (Dict K K))
      → add_workers responses steps ≡ ok steps'
      → IsExclusive responses
  unfolding add_workers
  add_workers-IsExclusive [] steps steps' h = tt
  add_workers-IsExclusive ((worker, row) ∷ responses) steps steps' h =
      let (mid, added, rest) = >>=-eq-ok (add_steps worker row steps) _ h in
      (
        λ step part named.
            let here = add_steps-Added worker row steps mid added step part in
            first_owner responses mid steps' rest step part (owner step part steps)
              (here.now_is ∙ ap (λ b. or_else (owner step part steps) (claimed b worker)) named),
        add_workers-IsExclusive responses mid steps' rest,
      )
    where
      first_owner :
          (responses : Dict K (Dict K (List K))) (mid steps' : Dict K (Dict K K))
          → add_workers responses mid ≡ ok steps'
          → (step part : K) (was : Option K) → owner step part mid ≡ or_else was (some worker)
          → claimant step part responses ≡ none
      first_owner responses mid steps' rest step part none owned =
          add_workers-free responses mid steps' rest step part worker owned
      first_owner responses mid steps' rest step part (some v) owned =
          add_workers-free responses mid steps' rest step part v owned

  -- When coalescing the responses of the workers succeeds, every partition of every step stands in
  -- the result with the first worker whose response names it, a partition that no response names
  -- stands nowhere, and no two of the responses name one partition of one step.
  pub coalesce_partition_query_responses-owner :
      (responses : Dict K (Dict K (List K))) (steps : Dict K (Dict K K))
      → coalesce_partition_query_responses responses ≡ ok steps
      → ((step part : K) → owner step part steps ≡ claimant step part responses)
        × IsExclusive responses
  unfolding coalesce_partition_query_responses claimant lookup
  coalesce_partition_query_responses-owner responses steps h = (
    λ step part. add_workers-owner responses [] steps h step part,
    add_workers-IsExclusive responses [] steps h,
  )
