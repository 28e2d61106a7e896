-- ===== src/Validation/Status.antt =====
-- The tests of demos/resilience-demo/lib/validations.py on the responses of a cluster, and on a
-- sender. A key that a response has not is none.
use wallaroo.Base.{ℕ, Bool, Option, none, some, List, [], ◌∷◌, length, ◌==◌, ltb, if◌then◌else◌}
use wallaroo.Base.{◌>>=◌, Result, ok, err, key_error, assertion_error, not_empty_error}
use wallaroo.Base.Text.{Text}
use wallaroo.Base.Dict.{Dict}

pub record ClusterStatus : Type 0 where
  pub processing_messages : Option Bool
  pub worker_names : Option (List Text)
  pub worker_count : Option ℕ

abbrev pub item : {A : Type 0} → Option A → Result A
item none = err key_error
item (some a) = ok a

abbrev pub assert_that : Bool → Result (Unit {0})
assert_that b = if b then ok tt else err assertion_error

unfoldable pub is_processing : ClusterStatus → Result (Unit {0})
is_processing status = do processing ← item status.processing_messages; assert_that processing

unfoldable pub worker_count_matches : ClusterStatus → ℕ → Result (Unit {0})
worker_count_matches status count = do
  names ← item status.worker_names
  named ← assert_that (length names == count)
  workers ← item status.worker_count
  assert_that (workers == count)

-- `for state_name in state_entities`
unfoldable pub has_entities : Dict Text (List Text) → Result (Unit {0})
has_entities [] = ok tt
has_entities ((state, entities) ∷ rest) =
    assert_that (ltb 0 (length entities)) >>= λ checked. has_entities rest

unfoldable pub worker_has_state_entities : Dict Text (List Text) → Result (Unit {0})
unfolding has_entities
worker_has_state_entities state_entities =
    assert_that (ltb 0 (length state_entities)) >>= λ checked. has_entities state_entities

-- By the batch of the sender.
unfoldable pub validate_sender_is_flushed : List Text → Result (Unit {0})
validate_sender_is_flushed [] = ok tt
validate_sender_is_flushed (message ∷ batch) = err not_empty_error
