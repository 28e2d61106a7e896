-- ===== src/Validation/Migrated.antt =====
-- What a migration is that `validate_migration` accepts.
use wallaroo.Base.{◌≡◌, refl, arith, Bool, true, false, Option, none, some, List, []}
use wallaroo.Base.{◌∷◌, All, ◌↔◌, Result, ok, err, ◌>>=◌, if◌then◌else◌, Bool-cases, inl, inr}
use wallaroo.Base.Dict.{Eq, Dict, keys, contains, lookup, same_refl}
use wallaroo.Validation.{
  Partitions, Workers, minus, subset, same_set, same_dict, workers_of, test, keys_kept, has_moved,
  test_kept, test_moved, validate_migration, get_or_empty,
}

test_eq : (b : Bool) (next : Result (Unit {0})) → test b next ≡ ok tt → (b ≡ true) × (next ≡ ok tt)
test_eq true next h = (refl, h)
test_eq false next h = cc

after_kept :
    (kept moved : Result (Unit {0}))
    → (kept >>= λ _. moved) ≡ ok tt
    → (kept ≡ ok tt) × (moved ≡ ok tt)
after_kept (err x) moved h = cc
after_kept (ok _) moved h = (refl, h)

module _ {K : Type 0} ⦃e : Eq K⦄ where
  -- No member of the one list is one of the other.
  abbrev pub Apart : List K → List K → Type 0
  Apart xs ys = (x : K) → contains xs x ≡ true → contains ys x ≡ false

  -- The state is there after, with all its keys, and not with the same keys and workers.
  abbrev pub Moved : Partitions K → K × Dict K K → Type 0
  Moved post (state, parts) =
      (parts' : Dict K K) × (lookup state post ≡ some parts')
      × ((k : K) → contains (keys parts) k ≡ true → contains (keys parts') k ≡ true)
      × (same_dict parts parts' ≡ false)

  pub record IsMigrated (pre post : Partitions K) (workers : Workers K) : Type 0 where
    pub no_joining : Apart (workers_of pre) (get_or_empty workers.joining)
    pub no_leaving : Apart (workers_of post) (get_or_empty workers.leaving)
    pub moved : All (Moved post) pre

  contains-minus :
      (xs ys : List K) (x : K)
      → contains (minus xs ys) x
        ≡ (if contains xs x then (if contains ys x then false else true) else false)
  unfolding contains minus
  contains-minus [] ys x = refl
  contains-minus (j ∷ xs) ys x = ground (arith, contains-minus xs ys x)

  subset_to :
      (xs ys : List K) → subset xs ys ≡ true → (x : K) → contains xs x ≡ true → contains ys x ≡ true
  unfolding contains subset
  subset_to [] ys h x m = absurd (cc)
  subset_to (j ∷ xs) ys h x m = elim (Bool-cases (subset xs ys)) [
    | inl s ↦ ground (arith, subset_to xs ys s x)
    | inr s ↦ ground arith
  ]

  subset_from :
      (xs ys : List K)
      → ((x : K) → contains xs x ≡ true → contains ys x ≡ true)
      → subset xs ys ≡ true
  unfolding contains subset
  subset_from [] ys h = refl
  subset_from (j ∷ xs) ys h =
      let here : contains (j ∷ xs) j ≡ true = rw (same_refl j) refl in
      rw (h j here) (subset_from xs ys (λ x m. h x (ground arith)))

  minus-Apart : (xs ys : List K) → same_set (minus xs ys) xs ≡ true → Apart xs ys
  unfolding same_set
  minus-Apart xs ys h x m = elim (Bool-cases (subset xs (minus xs ys))) [
    | inl s ↦ ground (arith, subset_to xs (minus xs ys) s x m, contains-minus xs ys x)
    | inr s ↦ ground arith
  ]

  Apart-minus : (xs ys : List K) → Apart xs ys → same_set (minus xs ys) xs ≡ true
  unfolding same_set
  Apart-minus xs ys h =
      rw (subset_from (minus xs ys) xs (λ x m. ground (arith, contains-minus xs ys x)))
        (subset_from xs (minus xs ys) (λ x m. ground (arith, contains-minus xs ys x, h x m)))

  tests_to :
      (pre post : Partitions K)
      → test_kept pre post ≡ ok tt
      → test_moved pre post ≡ ok tt
      → All (Moved post) pre
  unfolding test_kept test_moved
  tests_to [] post h k = tt
  tests_to ((state, parts) ∷ pre) post h k =
      let (kept, h') = test_eq _ (test_kept pre post) h in
      let (moved, k') = test_eq _ (test_moved pre post) k in
      (go (lookup state post) refl kept moved, tests_to pre post h' k')
    where
      go :
          (o : Option (Dict K K))
          → lookup state post ≡ o
          → keys_kept parts o ≡ true
          → has_moved parts o ≡ true
          → Moved post (state, parts)
      go none e h k = absurd (cc)
      go (some parts') e h k = (parts', e, subset_to (keys parts) (keys parts') h, ground arith)

  tests_from :
      (pre post : Partitions K)
      → All (Moved post) pre
      → (test_kept pre post ≡ ok tt) × (test_moved pre post ≡ ok tt)
  unfolding test_kept test_moved
  tests_from [] post h = (refl, refl)
  tests_from ((state, parts) ∷ pre) post ((parts', found, kept, moved), h) =
      let (h', k') = tests_from pre post h in
      (rw (found, subset_from (keys parts) (keys parts') kept) h', rw found (rw moved k'))

  -- `validate_migration` passes just where no joining worker held a partition before, no leaving one
  -- holds one after, and each state from before is there after with all its keys, and is not the
  -- same dict.
  pub validate_migration-IsMigrated :
      (pre post : Partitions K) (workers : Workers K)
      → (validate_migration pre post workers ≡ ok tt) ↔ IsMigrated pre post workers
  unfolding validate_migration
  validate_migration-IsMigrated pre post workers = (there, back)
    where
      there : validate_migration pre post workers ≡ ok tt → IsMigrated pre post workers
      there h =
          let (j, h1) = test_eq _ _ h in
          let (l, h2) = test_eq _ _ h1 in
          let (k, m) = after_kept (test_kept pre post) (test_moved pre post) h2 in
          record {
            no_joining = minus-Apart _ _ j;
            no_leaving = minus-Apart _ _ l;
            moved = tests_to pre post k m;
          }

      back : IsMigrated pre post workers → validate_migration pre post workers ≡ ok tt
      back h =
          let (k, m) = tests_from pre post h.moved in
          rw (Apart-minus _ _ h.no_joining, Apart-minus _ _ h.no_leaving, k, m) refl
