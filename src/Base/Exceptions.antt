-- ===== src/Base/Exceptions.antt =====
-- Python exceptions as values: the chain of calls that may raise.
use mathlib.Core.Path.{◌≡◌, refl}
use mathlib.Core.Logic.{◌⊎◌, inl, inr}

-- The classes of exception that the modelled code raises.
pub data Error : Type 0 where
  parameter_error index_error key_error attribute_error value_error migration_error : Error
  struct_error runtime_error stop_iteration unexpected_socket_error market_spread_error : Error
  timeout_error expectation_error cluster_error crashed_worker_error name_error : Error
  assertion_error duplicate_key_error not_empty_error runner_hasnt_started_error : Error
  observability_query_error os_error type_error system_exit : Error

-- A call returns or raises.
pub data Result {ℓ} (B : Type ℓ) : Type ℓ where
  err : Error → Result B
  ok : B → Result B

infixl 5 ◌>>=◌
abbrev pub ◌>>=◌ {ℓ κ} : {B : Type ℓ} {C : Type κ} → Result B → (B → Result C) → Result C
err raised >>= next = err raised
ok value >>= next = next value

pub Result-cases {ℓ} :
    {B : Type ℓ} (r : Result B) → ((b : B) × (r ≡ ok b)) ⊎ ((e : Error) × (r ≡ err e))
Result-cases (err raised) = inr (raised, refl)
Result-cases (ok value) = inl (value, refl)

-- A bind that returns is two calls that return.
pub >>=-eq-ok {ℓ κ} :
    {B : Type ℓ} {C : Type κ} (r : Result B) (next : B → Result C) {c : C}
    → (r >>= next) ≡ ok c
    → (b : B) × (r ≡ ok b) × (next b ≡ ok c)
>>=-eq-ok (err raised) next h = cc
>>=-eq-ok (ok value) next h = (value, refl, h)

pub ok-injective {ℓ} : {B : Type ℓ} {x y : B} → ok x ≡ ok y → x ≡ y
ok-injective e = cc
