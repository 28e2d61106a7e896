-- ===== src/Computations/Arity.antt =====
-- Which functions a decorator takes.
use wallaroo.Base.{le→ltb, ◌-◌, ◌+◌, ℕ, ◌≤◌, ◌≡◌, ◌↔◌, ap, refl, ok, arith}
use wallaroo.Base.{Bool, true, false, if◌then◌else◌}
use wallaroo.Computations.{
  ArgSpec, Callable, not_callable, no_spec, with_spec, validate_arity_compatability,
}

-- The arguments that a call passes beside those that are written in it.
abbrev pub own_self : Bool → ℕ
own_self bound = if bound then 1 else 0

-- What a call leaves for `*args`.
abbrev pub Surplus : Bool → ℕ → Type 0
Surplus true extra = Unit
Surplus false extra = extra ≡ 0

-- That a function can be called with a number of positional arguments: those given, the object of a
-- method and defaults for the rest fill its parameters, and what is over goes to `*args`.
abbrev pub CanTake : Callable → ℕ → Type 0
CanTake not_callable n = ⊥
CanTake (no_spec takes) n = takes n ≡ true
CanTake (with_spec spec) n =
    (filled : ℕ) × ((extra : ℕ) × (filled ≤ spec.defaults)
      × Surplus spec.varargs extra
      × (n + own_self spec.bound + filled ≡ spec.args + extra))

-- A function that is no method of an object and has no `*args` passes the check for a number of
-- arguments just where it can be called with that many.
pub validate_arity_compatability-CanTake :
    (spec : ArgSpec) (n : ℕ)
    → spec.varargs ≡ false
    → spec.bound ≡ false
    → (validate_arity_compatability (with_spec spec) n ≡ ok tt) ↔ CanTake (with_spec spec) n
unfolding validate_arity_compatability
validate_arity_compatability-CanTake spec n v b = (there, back)
  where
    no_surplus : (varargs : Bool) → varargs ≡ false → Surplus varargs 0
    no_surplus true e = tt
    no_surplus false e = refl

    there : validate_arity_compatability (with_spec spec) n ≡ ok tt → CanTake (with_spec spec) n
    there h =
        let few : n ≤ spec.args = ground arith in
        let many : spec.args - spec.defaults ≤ n = ground arith in
        (
          spec.args - n,
          (
            0,
            omega (arith, few, many),
            no_surplus spec.varargs v,
            omega (arith, few, ap own_self b),
          ),
        )

    nothing_over :
        (varargs : Bool) (extra : ℕ) → varargs ≡ false → Surplus varargs extra → extra ≡ 0
    nothing_over true extra e u = absurd (cc)
    nothing_over false extra e u = u

    back : CanTake (with_spec spec) n → validate_arity_compatability (with_spec spec) n ≡ ok tt
    back (filled, (extra, most, over, sum)) =
        let none_over = nothing_over spec.varargs extra v over in
        let no_self : own_self spec.bound ≡ 0 = ap own_self b in
        let few : n ≤ spec.args = omega (arith, sum, none_over, no_self) in
        let many : spec.args - spec.defaults ≤ n = omega (arith, sum, most, none_over, no_self) in
        rw (le→ltb spec.args n few, le→ltb n (spec.args - spec.defaults) many) refl
