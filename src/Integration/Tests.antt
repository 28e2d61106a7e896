-- ===== src/Integration/Tests.antt =====
-- The validation at concrete inputs.
use wallaroo.Base.{
  ◌≡◌, ◌↔◌, refl, true, false, some, List, [], ◌∷◌, ok, err, arith, assertion_error,
}
use wallaroo.Base.Text.{Text, codes}
use wallaroo.Base.Dict.{text_eq}
use wallaroo.Integration.{parts, stream, items, validate}
use wallaroo.Base.{none}
use wallaroo.Threads.{new_thread, stop, poll_until}
use wallaroo.Control.{sink_expect, expect_round}
use wallaroo.Cluster.Sinks.{SinkRun, expect_at_sink, choose}
use wallaroo.EndPoints.Receiver.{save}
use wallaroo.Integration.{compare_blocks}
use wallaroo.Integration.Run.{
  Test, World, one_count, no_decoder, add_senders, run_senders, expect_all, wait_for_sinks,
  decode_all, finish, body, pipeline_test, save_files,
}
use wallaroo.Integration.Passing.{Passed, pipeline_test-Passed}
use wallaroo.Integration.Validating.{Meets, validate-Meets}

abbrev two_sinks : List (List Text)
two_sinks = (codes "ab" ∷ []) ∷ (codes "c" ∷ []) ∷ []

validate-Meets_example :
    (validate 4 false (stream (codes "abc")) (parts two_sinks) ≡ some (ok tt))
    ↔ Meets false (stream (codes "abc")) (parts two_sinks)
validate-Meets_example =
    validate-Meets 4 false (stream (codes "abc")) (parts two_sinks) (omega arith)

newlines_missing :
    validate 1 true (items (codes "ab" ∷ codes "c" ∷ [])) (parts two_sinks)
    ≡ some (err assertion_error)
unfolding validate text_eq
newlines_missing = refl

-- One source and one sink, of which two messages are expected.
abbrev a_test : Test
a_test = record {
  sources = 0 ∷ [];
  sinks = 1;
  newlines = false;
  expected = stream (codes "abc");
  decoder = no_decoder;
  pre_processor = none;
  sink_expect = some (one_count 2);
  sink_expect_allow_more = false;
  sink_stop_timeout = 30;
  sink_await = none;
  validate_files = [];
}

abbrev a_sink : SinkRun Text
a_sink = record {
  expect_looks = record { msgs = 1; elapsed = 0 } ∷ record { msgs = 2; elapsed = 1 } ∷ [];
  await_looks = [];
  items = codes "ab" ∷ codes "c" ∷ [];
}

abbrev a_world : World
a_world = record {
  start = ok tt;
  source_addrs = codes "127.0.0.1:20000" ∷ [];
  senders = record { error = none; is_alive = false } ∷ [];
  sink_runs = a_sink ∷ [];
  stop_cluster = ok tt;
  exit = λ e. ok tt;
}

pipeline_test-Passed_example : Passed a_test a_world
unfolding pipeline_test body add_senders run_senders wait_for_sinks expect_all expect_at_sink choose
    sink_expect expect_round poll_until new_thread stop finish decode_all validate compare_blocks
    text_eq
pipeline_test-Passed_example = pipeline_test-Passed 4 a_test a_world [] (omega arith) refl

-- The files for another process have no timestamps, whatever the mode that the test asks for.
saved :
    pipeline_test 4 (record a_test { validate_files = codes "out" ∷ [] }) a_world
    ≡ some (ok ((codes "out", codes "abc") ∷ []))
unfolding pipeline_test body add_senders run_senders wait_for_sinks expect_all expect_at_sink choose
    sink_expect expect_round poll_until new_thread stop finish decode_all save_files save text_eq
saved = refl
