-- ===== src/Validation/Tests.antt =====
-- `validate_migration` at concrete inputs: states, keys and workers are numbers.
use wallaroo.Base.{ℕ, ◌≡◌, refl, [], ◌∷◌, none, some, ◌↔◌, ok, err, migration_error}
use wallaroo.Base.Dict.{nat_eq, contains, lookup}
use wallaroo.Validation.{Partitions, Workers, validate_migration, same_dict}
use wallaroo.Validation.Migrated.{IsMigrated, validate_migration-IsMigrated}

-- State 1 has the keys 10 and 11 on worker 0; worker 2 joins.
abbrev before : Partitions ℕ
before = (1, (10, 0) ∷ (11, 0) ∷ []) ∷ []

abbrev after : Partitions ℕ
after = (1, (11, 2) ∷ (10, 0) ∷ []) ∷ []

abbrev joins : Workers ℕ
joins = record { joining = some (2 ∷ []); leaving = none }

migrated : validate_migration before after joins ≡ ok tt
unfolding validate_migration nat_eq contains lookup same_dict
migrated = refl

not_moved : validate_migration before before joins ≡ err migration_error
unfolding validate_migration nat_eq contains lookup same_dict
not_moved = refl

validate_migration-IsMigrated_example :
    (validate_migration before after joins ≡ ok tt) ↔ IsMigrated before after joins
validate_migration-IsMigrated_example = validate_migration-IsMigrated before after joins
