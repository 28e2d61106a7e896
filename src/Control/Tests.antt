-- ===== src/Control/Tests.antt =====
-- The waiting threads at concrete inputs.
use wallaroo.Base.{ℕ, ◌≡◌, ◌↔◌, refl, true, false, none, some, List, [], ◌∷◌, map}
use wallaroo.Base.{arith, err, not_empty_error, timeout_error}
use wallaroo.Base.Dict.{nat_eq, contains}
use wallaroo.Threads.{new_thread, stop, look}
use wallaroo.Control.{
  SinkExpect, SinkLook, sink_expect, Attempt, try_until_timeout, AwaitLook, await_values, Status,
}
use wallaroo.Control.Expecting.{Received, sink_expect-Received, sink_expect-late}
use wallaroo.Control.Trying.{GaveUp, try_until_timeout-GaveUp}
use wallaroo.Control.Awaiting.{new_await, await_values_found}

abbrev expect_two : SinkExpect
expect_two = record { expected = 2; timeout = 30; allow_more = false }

abbrev sink_looks : List SinkLook
sink_looks = record { msgs = 1; elapsed = 3 } ∷ record { msgs = 2; elapsed = 31 } ∷ []

sink_expect-Received_example :
    (sink_expect expect_two (map look sink_looks) ≡ stop none new_thread)
    ↔ Received expect_two sink_looks
sink_expect-Received_example = sink_expect-Received expect_two sink_looks

late_sink : (sink_expect expect_two (map look sink_looks)).stop_event ≡ true
late_sink =
    sink_expect-late expect_two (record { msgs = 1; elapsed = 3 } ∷ [])
      (record { msgs = 2; elapsed = 31 }) [] (omega arith)

abbrev attempts : List Attempt
attempts =
    record { outcome = err not_empty_error; elapsed = 1 }
    ∷ record { outcome = err timeout_error; elapsed = 6 }
    ∷ []

try_until_timeout-GaveUp_example :
    (try_until_timeout 5 (map look attempts) ≡ stop (some timeout_error) new_thread)
    ↔ GaveUp 5 timeout_error attempts
try_until_timeout-GaveUp_example = try_until_timeout-GaveUp 5 attempts timeout_error

abbrev as_is : ℕ → ℕ
as_is n = n

abbrev awaits : List (AwaitLook ℕ)
awaits =
    record { arrived = 7 ∷ 8 ∷ []; elapsed = 1 } ∷ record { arrived = 9 ∷ []; elapsed = 2 } ∷ []

await_values_found_example :
    let s = await_values as_is 30 awaits (new_await as_is (8 ∷ 9 ∷ [])) in
    (s.thread.error ≡ none)
    × ((s.thread.stop_event ≡ true)
        ↔ ((v : ℕ) → contains (8 ∷ 9 ∷ []) v ≡ true → contains (map as_is s.sink_items) v ≡ true))
await_values_found_example =
    await_values_found as_is (8 ∷ 9 ∷ []) 30 awaits refl (omega arith, (omega arith, tt))

abbrev one_done : ℕ → Status
one_done n = record { failure = none; alive = false }
