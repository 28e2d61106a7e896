-- ===== src/Observability/Notifier.antt =====
-- `ObservabilityNotifier` of demos/resilience-demo/lib/observability.py: the tests that it is given,
-- and its loop. A test is called on a copy of the response, and what it returns is dropped.
pub mod Normalized
pub mod Passing
use wallaroo.Base.{ℕ, Bool, true, false, Option, none, some, List, [], ◌∷◌, ltb, if◌then◌else◌}
use wallaroo.Base.{Result, ok, err, ◌>>=◌, Error, timeout_error, observability_query_error}
use wallaroo.Base.{value_error, index_error, type_error, attribute_error}
use wallaroo.Base.Text.{Text}
use wallaroo.Threads.{Thread, new_thread, Verdict, goes_on, stops, Tick, poll_until}

-- The values that `tests` can be made of: a function, `functools.partial` of a value, a list or a
-- tuple, a dict by its items, or a value of another type.
mutual
  pub data Value : Type 0 where
    function : Text → Value
    partial : Value → Value
    sequence : Values → Value
    dict : Items → Value
    other : ℕ → Value

  pub data Values : Type 0 where
    no_more : Values
    more : Value → Values → Values

  pub data Items : Type 0 where
    no_items : Items
    item : Value → Value → Items → Items

-- `get_func_name`
unfoldable pub get_func_name : Value → Result Text
get_func_name (function name) = ok name
get_func_name (partial f) = get_func_name f
get_func_name (sequence vs) = err value_error
get_func_name (dict d) = err value_error
get_func_name (other n) = err value_error

-- The tuple `(name, test, args, kwargs)`.
pub record Test : Type 0 where
  pub name : Text
  pub call : Value
  pub args : Values
  pub kwargs : Items

abbrev keys_of : Items → Values
keys_of no_items = no_more
keys_of (item k v d) = more k (keys_of d)

-- `tuple(v)`
abbrev pub tuple_of : Value → Result Values
tuple_of (function name) = err type_error
tuple_of (partial f) = err type_error
tuple_of (sequence vs) = ok vs
tuple_of (dict d) = ok (keys_of d)
tuple_of (other n) = err type_error

-- `v.items()`
abbrev pub items_of : Value → Result Items
items_of (function name) = err attribute_error
items_of (partial f) = err attribute_error
items_of (sequence vs) = err attribute_error
items_of (dict d) = ok d
items_of (other n) = err attribute_error

abbrev with_second : Text → Value → Value → Result Test
with_second name call (dict d) =
    ok (record { name = name; call = call; args = no_more; kwargs = d })
with_second name call second = do
  args ← tuple_of second
  ok (record { name = name; call = call; args = args; kwargs = no_items })

abbrev with_rest : Text → Value → Values → Result Test
with_rest name call no_more =
    ok (record { name = name; call = call; args = no_more; kwargs = no_items })
with_rest name call (more second no_more) = with_second name call second
with_rest name call (more second (more third no_more)) = do
  args ← tuple_of second
  kwargs ← items_of third
  ok (record { name = name; call = call; args = args; kwargs = kwargs })
with_rest name call (more second (more third (more fourth rest))) = err value_error

abbrev alone : Value → Result Test
alone t = get_func_name t >>= λ name.
    ok (record { name = name; call = t; args = no_more; kwargs = no_items })

-- `_normalize_test_tuple`
unfoldable pub normalize_test_tuple : Value → Result Test
unfolding get_func_name
normalize_test_tuple (sequence no_more) = err index_error
normalize_test_tuple (sequence (more call rest)) =
    get_func_name call >>= λ name. with_rest name call rest
normalize_test_tuple (function name) = alone (function name)
normalize_test_tuple (partial f) = alone (partial f)
normalize_test_tuple (dict d) = alone (dict d)
normalize_test_tuple (other n) = alone (other n)

unfoldable pub normalize_all : Values → Result (List Test)
unfolding normalize_test_tuple
normalize_all no_more = ok []
normalize_all (more t ts) = do
  test ← normalize_test_tuple t
  tests ← normalize_all ts
  ok (test ∷ tests)

-- Of a list of two or three, whether the second is a list, a tuple or a dict. If it is not,
-- `self.tests` is never set.
abbrev pub test_tuple : Values → Value → Result Values
test_tuple vs (sequence second) = ok (more (sequence vs) no_more)
test_tuple vs (dict second) = ok (more (sequence vs) no_more)
test_tuple vs (function name) = err attribute_error
test_tuple vs (partial f) = err attribute_error
test_tuple vs (other n) = err attribute_error

-- `self.tests`, as `__init__` takes it from `tests`.
unfoldable pub tests_of : Value → Result Values
tests_of (sequence no_more) = ok no_more
tests_of (sequence (more first no_more)) = ok (more first no_more)
tests_of (sequence (more first (more second no_more))) =
    test_tuple (more first (more second no_more)) second
tests_of (sequence (more first (more second (more third no_more)))) =
    test_tuple (more first (more second (more third no_more))) second
tests_of (sequence (more first (more second (more third (more fourth rest))))) =
    ok (more first (more second (more third (more fourth rest))))
tests_of (function name) = ok (more (function name) no_more)
tests_of (partial f) = ok (more (partial f) no_more)
tests_of (dict d) = ok (more (dict d) no_more)
tests_of (other n) = ok (more (other n) no_more)

unfoldable pub init_tests : Value → Result (List Test)
unfolding tests_of normalize_all
init_tests tests = tests_of tests >>= normalize_all

-- One round of `run`: what the query gave, and the time behind it.
pub record Response (J : Type 0) : Type 0 where
  pub query : Result J
  pub elapsed : ℕ

abbrev pub has_raised : Result Bool → Bool
has_raised (ok returned) = false
has_raised (err e) = true

module _ {J : Type 0} where
  -- Whether `errors` has an entry.
  unfoldable pub any_error : List (J → Result Bool) → J → Bool
  any_error [] response = false
  any_error (t ∷ ts) response =
      let rest = any_error ts response in if has_raised (t response) then true else rest

module _ {J : Type 0} (timeout : ℕ) (tests : List (J → Result Bool)) where
  abbrev pub after_query : ℕ → Result J → Verdict
  after_query elapsed (err e) =
      if ltb timeout elapsed then stops (some observability_query_error) else goes_on
  after_query elapsed (ok response) =
      if any_error tests response
      then (if ltb timeout elapsed then stops (some timeout_error) else goes_on)
      else stops none

  unfoldable pub notifier_round : Response J → Verdict
  unfolding any_error
  notifier_round o = after_query o.elapsed o.query

  unfoldable pub observability_notifier : List (Tick (Response J)) → Thread
  unfolding notifier_round new_thread
  observability_notifier ticks = poll_until notifier_round ticks new_thread
