-- ===== src/Computations/States.antt =====
-- The initial states of the computations.
use wallaroo.Base.{ok-injective}
use wallaroo.Base.{Option, ℕ, ◌≡◌, sym, ap, none, some, Result, ok, >>=-eq-ok}
use wallaroo.Base.Text.{Text}
use wallaroo.Computations.{
  Callable, Func, Attributes, validate_arity_compatability, wallaroo_wrap, validated,
  state_computation, state_computation_multi, comp, initial_of,
}

module _ {D S A : Type 0} where
  validated_same :
      (spec : Callable) (n : ℕ) (c c' : Attributes D S A) → validated spec n c ≡ ok c' → c ≡ c'
  validated_same spec n c c' h =
      let (checked, passed, same_attributes) =
        >>=-eq-ok (validate_arity_compatability spec n) _ h in
      ok-injective same_attributes

  -- A state computation that a decorator makes of a function of the data and the state is called as
  -- that function, with the data and the state, starting from the state that its class makes; a
  -- multi state computation of the same class and function is called the same under its own name,
  -- but starts from None.
  pub state_computation_multi-no_state :
      (name : Text) (s : S) (spec : Callable) (f : D → Option S → Result A)
      (one multi : Attributes D S A)
      → state_computation name (ok s) spec (Func.of_data_state f) ≡ ok one
      → state_computation_multi name (ok s) spec (Func.of_data_state f) ≡ ok multi
      → (one.compute ≡ some f)
        × (one.compute_multi ≡ none)
        × (one.initial_state ≡ some (some s))
        × (multi.compute ≡ none)
        × (multi.compute_multi ≡ some f)
        × (multi.initial_state ≡ some none)
  unfolding state_computation state_computation_multi wallaroo_wrap initial_of comp
  state_computation_multi-no_state name s spec f one multi h k =
      let e = validated_same spec 2 _ one h in
      let d = validated_same spec 2 _ multi k in
      (
        sym (ap (λ (c : Attributes D S A). c.compute) e),
        sym (ap (λ (c : Attributes D S A). c.compute_multi) e),
        sym (ap (λ (c : Attributes D S A). c.initial_state) e),
        sym (ap (λ (c : Attributes D S A). c.compute) d),
        sym (ap (λ (c : Attributes D S A). c.compute_multi) d),
        sym (ap (λ (c : Attributes D S A). c.initial_state) d),
      )
