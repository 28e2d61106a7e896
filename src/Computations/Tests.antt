-- ===== src/Computations/Tests.antt =====
-- Decorated functions at concrete inputs.
use wallaroo.Base.{ℕ, ◌+◌, ◌≡◌, ◌↔◌, refl, Option, none, some, Result, ok, true, false}
use wallaroo.Base.Text.{codes}
use wallaroo.Computations.{
  ArgSpec, Callable, with_spec, validate_arity_compatability, Func, Attributes, state_computation,
  state_computation_multi, state_computation_class, wallaroo_wrap, state_computation_multi_class,
  state_class, state_builder,
}
use wallaroo.Computations.Arity.{CanTake, validate_arity_compatability-CanTake}
use wallaroo.Computations.States.{state_computation_multi-no_state}

-- `def f(a, b, c=0)` and `def f(a, *rest)`
abbrev with_default : ArgSpec
with_default = record { args = 3; defaults = 1; varargs = false; bound = false }

abbrev with_rest : ArgSpec
with_rest = record { args = 1; defaults = 0; varargs = true; bound = false }

validate_arity_compatability-CanTake_example :
    (validate_arity_compatability (with_spec with_default) 2 ≡ ok tt)
    ↔ CanTake (with_spec with_default) 2
validate_arity_compatability-CanTake_example =
    validate_arity_compatability-CanTake with_default 2 refl refl

abbrev or_zero : Option ℕ → ℕ
or_zero none = 0
or_zero (some n) = n

abbrev add : ℕ → Option ℕ → Result ℕ
add d s = ok (d + or_zero s)

abbrev two_arguments : Callable
two_arguments = with_spec (record { args = 2; defaults = 0; varargs = false; bound = false })

abbrev one : Attributes ℕ ℕ ℕ
one =
    wallaroo_wrap (codes "add") (Func.of_data_state add) state_computation_class
      (some (state_class (ok 5)))

abbrev multi : Attributes ℕ ℕ ℕ
multi =
    wallaroo_wrap (codes "add") (Func.of_data_state add) state_computation_multi_class
      (some (state_builder (ok 5)))

state_computation_multi-no_state_example :
    (one.compute ≡ some add)
    × (one.compute_multi ≡ none)
    × (one.initial_state ≡ some (some 5))
    × (multi.compute ≡ none)
    × (multi.compute_multi ≡ some add)
    × (multi.initial_state ≡ some none)
unfolding state_computation state_computation_multi
state_computation_multi-no_state_example =
    state_computation_multi-no_state (codes "add") 5 two_arguments add one multi refl refl
