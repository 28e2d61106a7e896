-- ===== src/Validation.antt =====
-- `validate_migration` of demos/resilience-demo/lib/validations.py. A partitions query response is
-- a dict of states, each with a dict from its keys to their workers. Sets are lists of their
-- members, with the operators' answers.
pub mod Migrated
pub mod Status
mod Tests
use wallaroo.Base.{ℕ, Bool, true, false, Option, none, some, List, [], ◌∷◌, ◌++◌, length, ◌==◌}
use wallaroo.Base.{◌>>=◌, if◌then◌else◌, Result, ok, err, migration_error, Error}
use wallaroo.Base.Dict.{Eq, same, Dict, keys, values, contains, lookup}

-- `workers.get('joining', [])`
abbrev pub get_or_empty {ℓ} : {A : Type ℓ} → Option (List A) → List A
get_or_empty none = []
get_or_empty (some xs) = xs

abbrev pub Partitions : Type 0 → Type 0
Partitions K = Dict K (Dict K K)

pub record Workers (K : Type 0) : Type 0 where
  pub joining : Option (List K)
  pub leaving : Option (List K)

-- A `try` around an `assert` that raises a MigrationError.
abbrev pub test : Bool → Result (Unit {0}) → Result (Unit {0})
test true next = next
test false next = err migration_error

module _ {K : Type 0} ⦃e : Eq K⦄ where
  -- `xs - ys`
  unfoldable pub minus : List K → List K → List K
  minus [] ys = []
  minus (x ∷ xs) ys = let rest = minus xs ys in if contains ys x then rest else x ∷ rest

  -- `xs <= ys`
  unfoldable pub subset : List K → List K → Bool
  subset [] ys = true
  subset (x ∷ xs) ys = let rest = subset xs ys in if contains ys x then rest else false

  -- `xs == ys`
  unfoldable pub same_set : List K → List K → Bool
  unfolding subset
  same_set xs ys = if subset xs ys then subset ys xs else false

  abbrev found_same : Option K → K → Bool
  found_same none v = false
  found_same (some w) v = same w v

  unfoldable pub entries_in : Dict K K → Dict K K → Bool
  entries_in [] d = true
  entries_in ((k, v) ∷ c) d =
      let rest = entries_in c d in if found_same (lookup k d) v then rest else false

  -- `==` of two dicts: as many entries, and each of the one in the other.
  unfoldable pub same_dict : Dict K K → Dict K K → Bool
  unfolding entries_in
  same_dict c d = if length c == length d then entries_in c d else false

  -- `set(chain(*[partitions[state].values() for state in partitions]))`
  unfoldable pub workers_of : Partitions K → List K
  workers_of [] = []
  workers_of ((state, parts) ∷ rest) = values parts ++ workers_of rest

  abbrev pub keys_kept : Dict K K → Option (Dict K K) → Bool
  keys_kept parts none = false
  keys_kept parts (some parts') = subset (keys parts) (keys parts')

  -- The states before are there after, with all their keys.
  unfoldable pub test_kept : Partitions K → Partitions K → Result (Unit {0})
  test_kept [] post = ok tt
  test_kept ((state, parts) ∷ pre) post =
      test (keys_kept parts (lookup state post)) (test_kept pre post)

  abbrev pub has_moved : Dict K K → Option (Dict K K) → Bool
  has_moved parts none = false
  has_moved parts (some parts') = if same_dict parts parts' then false else true

  -- The partitions of each state have moved.
  unfoldable pub test_moved : Partitions K → Partitions K → Result (Unit {0})
  test_moved [] post = ok tt
  test_moved ((state, parts) ∷ pre) post =
      test (has_moved parts (lookup state post)) (test_moved pre post)

  unfoldable pub validate_migration : Partitions K → Partitions K → Workers K → Result (Unit {0})
  unfolding minus same_set workers_of test_kept test_moved
  validate_migration pre post workers =
      test (same_set (minus (workers_of pre) (get_or_empty workers.joining)) (workers_of pre)) (
        test (same_set (minus (workers_of post) (get_or_empty workers.leaving)) (workers_of post))
          (test_kept pre post >>= λ _. test_moved pre post))
