-- ===== src/Observability/Notifier/Normalized.antt =====
-- Which lists of tests an `ObservabilityNotifier` takes.
use wallaroo.Base.{◌≡◌, refl, Result, ok, err, value_error, attribute_error}
use wallaroo.Observability.Notifier.{
  Value, function, partial, sequence, dict, other, Values, no_more, more, init_tests, tests_of,
  normalize_all, normalize_test_tuple, get_func_name,
}

-- A test with its arguments, or a test alone.
abbrev pub Returns : {B : Type 0} → Result B → Type 0
Returns {B} r = (b : B) × (r ≡ ok b)

-- Two tests in one list are never taken, though each of them is taken in a list of its own: two
-- functions raise an AttributeError, and two tuples, each of a function and its arguments, a
-- ValueError.
pub init_tests_of_two :
    (f g : Value) (args args' : Values)
    → (Returns (get_func_name f) → Returns (init_tests (sequence (more f no_more))))
      × (Returns (get_func_name g)
          → init_tests (sequence (more f (more g no_more))) ≡ err attribute_error)
      × (init_tests (
            sequence (
              more
                (sequence (more f (more (sequence args) no_more)))
                (more (sequence (more g (more (sequence args') no_more))) no_more)))
          ≡ err value_error)
unfolding init_tests tests_of normalize_all normalize_test_tuple get_func_name
init_tests_of_two f g args args' = (taken f, refused g, refl)
  where
    taken :
        (f : Value) → Returns (get_func_name f) → Returns (init_tests (sequence (more f no_more)))
    taken (function name) h = (_, refl)
    taken (partial p) (name, h) = rw h (_, refl)
    taken (sequence vs) (name, h) = cc
    taken (dict d) (name, h) = cc
    taken (other n) (name, h) = cc

    refused :
        (g : Value)
        → Returns (get_func_name g)
        → init_tests (sequence (more f (more g no_more))) ≡ err attribute_error
    refused (function name) h = refl
    refused (partial p) h = refl
    refused (sequence vs) (name, h) = cc
    refused (dict d) (name, h) = cc
    refused (other n) (name, h) = cc
