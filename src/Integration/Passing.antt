-- ===== src/Integration/Passing.antt =====
-- What a test of demos/resilience-demo/lib/integration.py that passes has seen.
use wallaroo.Base.{
  ℕ, ◌<◌, ◌≡◌, refl, ap, true, Option, none, some, List, [], ◌∷◌, map, length, get_elem?,
  lt_of_get_elem?, All,
}
use wallaroo.Base.{Error, Result, ok, err, ◌>>=◌, >>=-eq-ok, index_error}
use mathlib.Core.Option.{some-injective}
use wallaroo.Base.Text.{Text}
use wallaroo.Base.Dict.{text_eq}
use wallaroo.Threads.{Thread, new_thread, stop, look}
use wallaroo.Control.{SinkExpect, sink_expect, await_values}
use wallaroo.Control.Awaiting.{new_await}
use wallaroo.Control.Expecting.{Received, sink_expect-Received}
use wallaroo.Cluster.Sinks.{
  Call, and_then-eq-ok, given, SinkRun, SenderEnd, result_of, joined-eq-ok, expect_at_sink,
  await_at_sink, choose,
}
use wallaroo.Integration.{validate}
use wallaroo.Integration.Validating.{Meets, validate-Meets, size_of}
use wallaroo.Integration.Run.{
  Test, World, expect_list, await_list, add_senders, run_senders, expect_all, await_all,
  wait_for_sinks, decode_all, pre_process, finish, body, leave, pipeline_test,
}

-- What `sink_expect` asks of a sink.
abbrev pub expectation : Test → ℕ → SinkExpect
expectation t c = record {
  expected = c;
  timeout = t.sink_stop_timeout;
  allow_more = t.sink_expect_allow_more;
}

-- Each sink that a number is given for has received that many messages in time, or more if allowed.
abbrev pub AllReceived : Test → List (SinkRun Text) → List ℕ → Type 0
AllReceived t [] cs = Unit
AllReceived t (s ∷ ss) [] = Unit
AllReceived t (s ∷ ss) (c ∷ cs) = Received (expectation t c) s.expect_looks × AllReceived t ss cs

-- The thread that waits at this sink for the values has stopped, with no error.
abbrev pub IsAwaited : Test → SinkRun Text → Result (List Text) → Type 0
IsAwaited t s v =
    (values : List Text) × (v ≡ ok values)
    × (let thread =
          (await_values (λ x. x) t.sink_stop_timeout s.await_looks
            (new_await (λ x. x) values)).thread in
        (thread.stop_event ≡ true) × (thread.error ≡ none))

abbrev pub AllAwaited : Test → List (SinkRun Text) → List (Result (List Text)) → Type 0
AllAwaited t [] vs = Unit
AllAwaited t (s ∷ ss) [] = Unit
AllAwaited t (s ∷ ss) (v ∷ vs) = IsAwaited t s v × AllAwaited t ss vs

-- The values are waited for only where no number is.
abbrev pub Waited : Test → List (SinkRun Text) → List ℕ → List (Result (List Text)) → Type 0
Waited t ss [] vs = AllAwaited t ss vs
Waited t ss (c ∷ cs) vs = AllReceived t ss (c ∷ cs)

-- The output of the sinks, decoded and processed.
abbrev pub Validated : Test → World → List Text → Type 0
Validated t w [] =
    (decoded : List (List Text)) × (decode_all t.decoder (map (λ s. s.items) w.sink_runs)
      ≡ ok decoded)
    × Meets t.newlines t.expected (pre_process t.pre_processor decoded)
Validated t w (f ∷ fs) = Unit

pub record Passed (t : Test) (w : World) : Type 0 where
  pub started : w.start ≡ ok tt
  pub addressed : All (λ i. i < length w.source_addrs) t.sources
  pub sent : All (λ s. s.error ≡ none) w.senders
  pub waited :
      Waited t w.sink_runs
        (expect_list t.sinks t.sink_expect)
        (await_list t.sinks t.sink_expect t.sink_await)
  pub stopped : w.stop_cluster ≡ ok tt
  pub validated : Validated t w t.validate_files
  pub left : w.exit none ≡ ok tt

add_senders-in_range :
    (addrs : List Text) (is : List ℕ)
    → add_senders addrs is ≡ ok tt
    → All (λ i. i < length addrs) is
unfolding add_senders
add_senders-in_range addrs [] h = tt
add_senders-in_range addrs (i ∷ is) h =
    go (add_senders-in_range addrs is) (get_elem? addrs i) refl h
  where
    go :
        (add_senders addrs is ≡ ok tt → All (λ i. i < length addrs) is)
        → (o : Option Text) → get_elem? addrs i ≡ o
        → (elim o [ none ↦ err index_error | some addr ↦ add_senders addrs is ]) ≡ ok tt
        → (i < length addrs) × All (λ i. i < length addrs) is
    go ih none e h = cc
    go ih (some a) e h = (lt_of_get_elem? addrs i e, ih h)

run_senders-no_error : (ss : List SenderEnd) → run_senders ss ≡ ok tt → All (λ s. s.error ≡ none) ss
unfolding run_senders
run_senders-no_error [] h = tt
run_senders-no_error (s ∷ ss) h =
    let (u, e, rest) = >>=-eq-ok (result_of tt s.error) (λ u. run_senders ss) h in
    (go s.error e, run_senders-no_error ss rest)
  where
    go : (o : Option Error) → result_of tt o ≡ ok tt → o ≡ none
    go none e = refl
    go (some x) e = cc

stopped_well : (t : Thread) → (t.stop_event ≡ true) × (t.error ≡ none) → t ≡ stop none new_thread
unfolding new_thread stop
stopped_well t (s, e) = λ i. record { stop_event = s i; error = e i }

expect_all-AllReceived :
    (t : Test) (ss : List (SinkRun Text)) (cs : List ℕ)
    → expect_all t ss cs ≡ some (ok tt)
    → AllReceived t ss cs
unfolding expect_all expect_at_sink choose
expect_all-AllReceived t [] cs h = tt
expect_all-AllReceived t (s ∷ ss) [] h = tt
expect_all-AllReceived t (s ∷ ss) (c ∷ cs) h =
    let (s', e, rest) =
      and_then-eq-ok (expect_at_sink (s ∷ ss) (expectation t c) (given s))
        (λ s'. expect_all t ss cs) h in
    let end = joined-eq-ok s (sink_expect (expectation t c) (map look s.expect_looks)) e in
    (
      (sink_expect-Received (expectation t c) s.expect_looks).0 (stopped_well _ end),
      expect_all-AllReceived t ss cs rest,
    )

await_all-AllAwaited :
    (t : Test) (ss : List (SinkRun Text)) (vs : List (Result (List Text)))
    → await_all t ss vs ≡ some (ok tt)
    → AllAwaited t ss vs
unfolding await_all await_at_sink choose
await_all-AllAwaited t [] vs h = tt
await_all-AllAwaited t (s ∷ ss) [] h = tt
await_all-AllAwaited t (s ∷ ss) (v ∷ vs) h =
    let (values, ev, h1) = and_then-eq-ok (some v) _ h in
    let (s', e, rest) =
      and_then-eq-ok (await_at_sink (λ x. x) (s ∷ ss) values t.sink_stop_timeout (given s))
        (λ s'. await_all t ss vs) h1 in
    ((values, some-injective _ _ ev, joined-eq-ok s _ e), await_all-AllAwaited t ss vs rest)

wait_for_sinks-Waited :
    (t : Test) (ss : List (SinkRun Text)) (cs : List ℕ) (vs : List (Result (List Text)))
    → wait_for_sinks t ss cs vs ≡ some (ok tt)
    → Waited t ss cs vs
unfolding wait_for_sinks await_all
wait_for_sinks-Waited t ss (c ∷ cs) vs h = expect_all-AllReceived t ss (c ∷ cs) h
wait_for_sinks-Waited t [] [] [] h = tt
wait_for_sinks-Waited t (s ∷ ss) [] [] h = tt
wait_for_sinks-Waited t ss [] (v ∷ vs) h = await_all-AllAwaited t ss (v ∷ vs) h

finish-Validated :
    (fuel : ℕ) (t : Test) (w : World) (fs : List Text) (saved : List (Text × Text))
    → size_of t.expected < fuel
    → finish fuel t w fs ≡ some (ok saved)
    → Validated t w fs
unfolding finish
finish-Validated fuel t w (f ∷ fs) saved n h = tt
finish-Validated fuel t w [] saved n h =
    let (decoded, ed, h1) =
      and_then-eq-ok (some (decode_all t.decoder (map (λ s. s.items) w.sink_runs))) _ h in
    let (u, ev, h2) =
      and_then-eq-ok (validate fuel t.newlines t.expected (pre_process t.pre_processor decoded)) _
        h1 in
    (
      decoded,
      some-injective _ _ ed,
      (validate-Meets fuel t.newlines t.expected (pre_process t.pre_processor decoded) n).0 ev,
    )

left_well :
    (exit : Option Error → Result (Unit {0})) (c : Call (List (Text × Text)))
    (saved : List (Text × Text))
    → leave exit c ≡ some (ok saved)
    → (c ≡ some (ok saved)) × (exit none ≡ ok tt)
left_well exit none saved h = cc
left_well exit (some (err e)) saved h = absurd (raises (exit (some e)) (some-injective _ _ h))
  where
    raises : (r : Result (Unit {0})) → (r >>= λ u. err e) ≡ ok saved → ⊥
    raises (err x) q = cc
    raises (ok u) q = cc
left_well exit (some (ok files)) saved h =
    let (u, e, q) = >>=-eq-ok (exit none) (λ u. ok files) (some-injective _ _ h) in (ap some q, e)

-- With fuel for more blocks than the expected stream has bytes, a test that ends without an error has
-- started and stopped its cluster, every source of its generators had an address, and every sender
-- ended without an error. Each sink that a number of messages is given for has received that many, or
-- more where more is allowed, while there was time; where there is no such number, the thread that waits at
-- each sink for values ended without an error. Where no file is named for another process, the decoded and processed
-- output of the sinks is what is expected.
pub pipeline_test-Passed :
    (fuel : ℕ) (t : Test) (w : World) (saved : List (Text × Text))
    → size_of t.expected < fuel
    → pipeline_test fuel t w ≡ some (ok saved)
    → Passed t w
unfolding pipeline_test body
pipeline_test-Passed fuel t w saved n h =
    let (u0, e0, h0) = and_then-eq-ok (some w.start) (λ u. leave w.exit (body fuel t w)) h in
    let (h1, el) = left_well w.exit (body fuel t w) saved h0 in
    let (u1, e1, h2) = and_then-eq-ok (some (add_senders w.source_addrs t.sources)) _ h1 in
    let (u2, e2, h3) = and_then-eq-ok (some (run_senders w.senders)) _ h2 in
    let (u3, e3, h4) =
      and_then-eq-ok
        (wait_for_sinks t w.sink_runs (expect_list t.sinks t.sink_expect)
          (await_list t.sinks t.sink_expect t.sink_await))
        _ h3 in
    let (u4, e4, h5) = and_then-eq-ok (some w.stop_cluster) _ h4 in
    record {
      started = some-injective _ _ e0;
      addressed = add_senders-in_range w.source_addrs t.sources (some-injective _ _ e1);
      sent = run_senders-no_error w.senders (some-injective _ _ e2);
      waited = wait_for_sinks-Waited t w.sink_runs _ _ e3;
      stopped = some-injective _ _ e4;
      validated = finish-Validated fuel t w t.validate_files saved n h5;
      left = el;
    }
