-- ===== src/Computations.antt =====
-- The computation classes that the decorators of machida/lib/wallaroo/__init__.py build around a user
-- function, the check of its arity, and the key extractors. The user's functions are parameters, and
-- may raise.
pub mod Arity
pub mod States
mod Tests
use wallaroo.Base.{ℕ, ◌-◌, Bool, true, false, Option, none, some, List, [], ◌∷◌, ltb, if◌then◌else◌}
use wallaroo.Base.{Result, ok, err, ◌>>=◌, parameter_error, type_error, value_error}
use wallaroo.Base.Text.{Text}

-- What `inspect.getargspec` says of a function or a method, of which `bound` says whether it is a
-- method of an object: its `self` counts among the arguments.
pub record ArgSpec : Type 0 where
  pub args : ℕ
  pub defaults : ℕ
  pub varargs : Bool
  pub bound : Bool

-- What a decorator is given: no callable, a callable that `inspect.getargspec` raises on, with the
-- numbers of arguments that it takes, or a function.
pub data Callable : Type 0 where
  not_callable : Callable
  no_spec : (ℕ → Bool) → Callable
  with_spec : ArgSpec → Callable

-- `_validate_arity_compatability`
unfoldable pub validate_arity_compatability : Callable → ℕ → Result (Unit {0})
validate_arity_compatability not_callable arity = err parameter_error
validate_arity_compatability (no_spec takes) arity = err type_error
validate_arity_compatability (with_spec spec) arity =
    let upper_bound = spec.args in
    let lower_bound = upper_bound - spec.defaults in
    if ltb upper_bound arity
    then err parameter_error
    else (if ltb arity lower_bound then err parameter_error else ok tt)

-- `Computation`, `ComputationMulti`, `StateComputation`, `StateComputationMulti`
pub data BaseClass : Type 0 where
  computation_class computation_multi_class : BaseClass
  state_computation_class state_computation_multi_class : BaseClass

abbrev pub is_multi : BaseClass → Bool
is_multi computation_class = false
is_multi computation_multi_class = true
is_multi state_computation_class = false
is_multi state_computation_multi_class = true

abbrev pub is_state : BaseClass → Bool
is_state computation_class = false
is_state computation_multi_class = false
is_state state_computation_class = true
is_state state_computation_multi_class = true

-- What is given as `state`: a class, whose call makes a state, or a `StateBuilder` of one, an object
-- that cannot be called.
pub data StateArg (S : Type 0) : Type 0 where
  state_class state_builder : Result S → StateArg S

abbrev pub call_state : {S : Type 0} → StateArg S → Result S
call_state (state_class made) = made
call_state (state_builder made) = err type_error

abbrev pub state_or_none : {S : Type 0} → Result S → Option S
state_or_none (ok s) = some s
state_or_none (err e) = none

-- `build_initial_state`: an exception is printed, and None is returned.
unfoldable pub build_initial_state : {S : Type 0} → StateArg S → Option S
build_initial_state state = state_or_none (call_state state)

-- `kwargs['state']`, which every state computation is given.
unfoldable pub initial_of : {S : Type 0} → Bool → Option (StateArg S) → Option (Option S)
unfolding build_initial_state
initial_of false state = none
initial_of true none = none
initial_of true (some state) = some (build_initial_state state)

-- What machida finds on a computation object: its name, the call under `compute` or `compute_multi`,
-- and the state. A call takes the data, and the state if there is one.
pub record Attributes (D S A : Type 0) : Type 0 where
  pub name : Text
  pub compute : Option (D → Option S → Result A)
  pub compute_multi : Option (D → Option S → Result A)
  pub initial_state : Option (Option S)
  pub is_stateful : Bool

-- The user's function, by the arguments that it is called with.
pub data Func (D S A : Type 0) : Type 0 where
  of_data : (D → Result A) → Func D S A
  of_data_state : (D → Option S → Result A) → Func D S A

module _ {D S A : Type 0} where
  -- `comp`: a function of the other number of arguments raises.
  unfoldable pub comp : BaseClass → Func D S A → D → Option S → Result A
  comp c (of_data f) d s = if is_state c then err type_error else f d
  comp c (of_data_state f) d s = if is_state c then f d s else err type_error

  -- Case 1 of `_wallaroo_wrap`.
  unfoldable pub wallaroo_wrap :
      Text → Func D S A → BaseClass → Option (StateArg S) → Attributes D S A
  unfolding initial_of comp
  wallaroo_wrap name func c state = record {
    name = name;
    compute = if is_multi c then none else some (comp c func);
    compute_multi = if is_multi c then some (comp c func) else none;
    initial_state = initial_of (is_state c) state;
    is_stateful = is_state c;
  }

  abbrev pub validated : Callable → ℕ → Attributes D S A → Result (Attributes D S A)
  validated spec arity c = validate_arity_compatability spec arity >>= λ checked. ok c

  unfoldable pub computation : Text → Callable → Func D S A → Result (Attributes D S A)
  unfolding validate_arity_compatability wallaroo_wrap
  computation name spec func = validated spec 1 (wallaroo_wrap name func computation_class none)

  unfoldable pub computation_multi : Text → Callable → Func D S A → Result (Attributes D S A)
  unfolding validate_arity_compatability wallaroo_wrap
  computation_multi name spec func =
      validated spec 1 (wallaroo_wrap name func computation_multi_class none)

  -- The state is given by its class, of which `state` is what a call gives.
  unfoldable pub state_computation :
      Text → Result S → Callable → Func D S A → Result (Attributes D S A)
  unfolding validate_arity_compatability wallaroo_wrap
  state_computation name state spec func =
      validated spec 2 (wallaroo_wrap name func state_computation_class (some (state_class state)))

  -- Here the class is put into a `StateBuilder`.
  unfoldable pub state_computation_multi :
      Text → Result S → Callable → Func D S A → Result (Attributes D S A)
  unfolding validate_arity_compatability wallaroo_wrap
  state_computation_multi name state spec func =
      validated spec 2
        (wallaroo_wrap name func state_computation_multi_class (some (state_builder state)))

-- What a key function returns: an integer or a text.
pub data Key : Type 0 where
  number : ℕ → Key
  text : Text → Key

-- `chr(res)` of Python 2 takes what a byte holds.
unfoldable pub extract_key : {D : Type 0} → (D → Result Key) → D → Result Text
extract_key func d = func d >>= key_of
  where
    key_of : Key → Result Text
    key_of (number n) = if ltb n 256 then ok (n ∷ []) else err value_error
    key_of (text t) = ok t
