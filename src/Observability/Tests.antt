-- ===== src/Observability/Tests.antt =====
-- Queries and notifiers at concrete inputs.
use wallaroo.Base.{ℕ, ◌≡◌, ◌↔◌, refl, Bool, true, false, none, List, [], ◌∷◌, map}
use wallaroo.Base.{Result, ok, err, attribute_error, value_error, assertion_error, os_error}
use wallaroo.Base.Text.{codes}
use wallaroo.Base.Dict.{Dict, nat_eq, lookup, insert}
use wallaroo.Threads.{new_thread, stop, look}
use wallaroo.Observability.{coalesce_partition_query_responses}
use wallaroo.Observability.Additions.{owner, claimant, IsExclusive}
use wallaroo.Observability.Partitions.{coalesce_partition_query_responses-owner}
use wallaroo.Observability.Notifier.{
  Response, Value, function, sequence, other, more, no_more, init_tests, get_func_name,
  observability_notifier,
}
use wallaroo.Observability.Notifier.Normalized.{Returns, init_tests_of_two}
use wallaroo.Observability.Notifier.Passing.{PassedInTime, observability_notifier-PassedInTime}

-- Workers 1 and 2 with a partition of step 5 each.
abbrev responses : Dict ℕ (Dict ℕ (List ℕ))
responses = (1, (5, 10 ∷ []) ∷ []) ∷ (2, (5, 11 ∷ []) ∷ []) ∷ []

abbrev coalesced : Dict ℕ (Dict ℕ ℕ)
coalesced = (5, (10, 1) ∷ (11, 2) ∷ []) ∷ []

coalesce_partition_query_responses-owner_example :
    ((step part : ℕ) → owner step part coalesced ≡ claimant step part responses)
    × IsExclusive responses
unfolding coalesce_partition_query_responses lookup insert nat_eq
coalesce_partition_query_responses-owner_example =
    coalesce_partition_query_responses-owner responses coalesced refl

abbrev rounds : List (Response Bool)
rounds =
    record { query = err os_error; elapsed = 1 }
    ∷ record { query = ok false; elapsed = 3 }
    ∷ record { query = ok true; elapsed = 40 }
    ∷ []

abbrev is_true : Bool → Result Bool
is_true true = ok true
is_true false = err assertion_error

observability_notifier-PassedInTime_example :
    (observability_notifier 30 (is_true ∷ []) (map look rounds) ≡ stop none new_thread)
    ↔ PassedInTime 30 (is_true ∷ []) rounds
observability_notifier-PassedInTime_example =
    observability_notifier-PassedInTime 30 (is_true ∷ []) rounds

abbrev f : Value
f = function (codes "f")

abbrev g : Value
g = function (codes "g")

two_functions :
    (Returns (get_func_name f) → Returns (init_tests (sequence (more f no_more))))
    × (Returns (get_func_name g)
        → init_tests (sequence (more f (more g no_more))) ≡ err attribute_error)
    × (init_tests (
          sequence (
            more
              (sequence (more f (more (sequence (more (other 2) no_more)) no_more)))
              (more (sequence (more g (more (sequence no_more) no_more))) no_more)))
        ≡ err value_error)
two_functions = init_tests_of_two f g (more (other 2) no_more) no_more
