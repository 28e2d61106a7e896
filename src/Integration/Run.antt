-- ===== src/Integration/Run.antt =====
-- `pipeline_test` of demos/resilience-demo/lib/integration.py, from its arguments to the end of the
-- test, over what the cluster, its senders and its sinks do. Log messages are left out, and the delay
-- of a test that waits for no sink.
use wallaroo.Base.{
  ℕ, Bool, false, Option, none, some, List, [], ◌∷◌, map, length, replicate, get_elem?, ◌==◌,
}
use wallaroo.Base.{if◌then◌else◌, Error, Result, ok, err, ◌>>=◌, index_error, type_error}
use wallaroo.Base.Text.{Text}
use wallaroo.Base.Dict.{text_eq}
use wallaroo.Cluster.Sinks.{
  Call, and_then, given, SinkRun, SenderEnd, result_of, expect_at_sink, await_at_sink,
}
use wallaroo.Integration.{Processed, parts, Expected, decode_sinks, validate}
use wallaroo.EndPoints.Receiver.{save}

-- `sink_expect`, a number or a list
pub data Counts : Type 0 where
  one_count : ℕ → Counts
  counts : List ℕ → Counts

-- An item of `sink_await`
pub data Await : Type 0 where
  value : Text → Await
  value_list : List Text → Await

-- `decoder`
pub data Decoders : Type 0 where
  no_decoder : Decoders
  one_decoder : (Text → Result Text) → Decoders
  decoders : List (Text → Result Text) → Decoders

pub record Test : Type 0 where
  -- The source that each generator is for.
  pub sources : List ℕ
  pub sinks : ℕ
  pub newlines : Bool
  pub expected : Expected
  pub decoder : Decoders
  pub pre_processor : Option (List (List Text) → Processed)
  pub sink_expect : Option Counts
  pub sink_expect_allow_more : Bool
  pub sink_stop_timeout : ℕ
  pub sink_await : Option (List Await)
  pub validate_files : List Text

-- What happens in a test: whether the cluster starts, the addresses of its sources, how its senders
-- end and what its sinks see; what `stop_cluster` raises, and what `__exit__` raises for an
-- error or for none.
pub record World : Type 0 where
  pub start : Result (Unit {0})
  pub source_addrs : List Text
  pub senders : List SenderEnd
  pub sink_runs : List (SinkRun Text)
  pub stop_cluster : Result (Unit {0})
  pub exit : Option Error → Result (Unit {0})

abbrev pub expect_list : ℕ → Option Counts → List ℕ
expect_list n none = []
expect_list n (some (one_count c)) = replicate n c
expect_list n (some (counts cs)) = cs

-- A set of values that are lists cannot be made.
abbrev pub hashable : List Await → Result (List Text)
hashable [] = ok []
hashable (value v ∷ vs) = hashable vs >>= λ rest. ok (v ∷ rest)
hashable (value_list l ∷ vs) = err type_error

abbrev pub await_values_of : Await → Result (List Text)
await_values_of (value v) = ok (v ∷ [])
await_values_of (value_list vs) = ok vs

-- Each sink gets its item, or all of them where there is another number of items than of sinks, which
-- is looked at only where there is no `sink_expect`.
abbrev pub await_list : ℕ → Option Counts → Option (List Await) → List (Result (List Text))
await_list n expect none = []
await_list n (some c) (some vs) = map await_values_of vs
await_list n none (some vs) =
    if length vs == n then map await_values_of vs else replicate n (hashable vs)

-- `cluster.source_addrs[idx]` for each generator
unfoldable pub add_senders : List Text → List ℕ → Result (Unit {0})
add_senders addrs [] = ok tt
add_senders addrs (idx ∷ is) = elim (get_elem? addrs idx) [
  | none ↦ err index_error
  | some addr ↦ add_senders addrs is
]

-- Each sender is started and joined; the error of one is raised.
unfoldable pub run_senders : List SenderEnd → Result (Unit {0})
run_senders [] = ok tt
run_senders (s ∷ ss) = result_of tt s.error >>= λ u. run_senders ss

unfoldable pub expect_all : Test → List (SinkRun Text) → List ℕ → Call (Unit {0})
expect_all t [] cs = some (ok tt)
expect_all t (s ∷ ss) [] = some (ok tt)
expect_all t (s ∷ ss) (c ∷ cs) =
    and_then
      (expect_at_sink (s ∷ ss)
        (record {
          expected = c;
          timeout = t.sink_stop_timeout;
          allow_more = t.sink_expect_allow_more;
        })
        (given s))
      (λ s'. expect_all t ss cs)

unfoldable pub await_all : Test → List (SinkRun Text) → List (Result (List Text)) → Call (Unit {0})
await_all t [] vs = some (ok tt)
await_all t (s ∷ ss) [] = some (ok tt)
await_all t (s ∷ ss) (v ∷ vs) = and_then (some v) (λ v'.
    and_then (await_at_sink (λ x. x) (s ∷ ss) v' t.sink_stop_timeout (given s))
      (λ s'. await_all t ss vs))

-- `sink_expect`, or else `sink_await`, if there is anything in it.
abbrev pub wait_await : Test → List (SinkRun Text) → List (Result (List Text)) → Call (Unit {0})
unfolding await_all
wait_await t ss [] = some (ok tt)
wait_await t ss (v ∷ vs) = await_all t ss (v ∷ vs)

unfoldable pub wait_for_sinks :
    Test → List (SinkRun Text) → List ℕ → List (Result (List Text)) → Call (Unit {0})
unfolding expect_all
wait_for_sinks t ss [] vs = wait_await t ss vs
wait_for_sinks t ss (c ∷ cs) vs = expect_all t ss (c ∷ cs)

-- `zip(cluster.sinks, validation_files)`. `giles_mode` is given to `save` as a Boolean, which is never
-- the text that `save` compares it with.
unfoldable pub save_files : List (SinkRun Text) → List Text → Result (List (Text × Text))
save_files [] fs = ok []
save_files (s ∷ ss) [] = ok []
save_files (s ∷ ss) (f ∷ fs) = do
  file ← save false s.items
  rest ← save_files ss fs
  ok ((f, file) ∷ rest)

unfoldable pub decode_all : Decoders → List (List Text) → Result (List (List Text))
decode_all no_decoder items = ok items
decode_all (one_decoder d) items = decode_sinks items (replicate (length items) d)
decode_all (decoders ds) items = decode_sinks items ds

abbrev pub pre_process : Option (List (List Text) → Processed) → List (List Text) → Processed
pre_process none items = parts items
pre_process (some p) items = p items

-- The validation, with fuel, or the files that another process validates.
unfoldable pub finish : ℕ → Test → World → List Text → Call (List (Text × Text))
unfolding save_files decode_all
finish fuel t w [] =
    and_then (some (decode_all t.decoder (map (λ s. s.items) w.sink_runs))) (λ decoded.
      and_then (validate fuel t.newlines t.expected (pre_process t.pre_processor decoded))
        (λ u. some (ok [])))
finish fuel t w (f ∷ fs) = some (save_files w.sink_runs (f ∷ fs))

-- The body of the `with` block.
unfoldable pub body : ℕ → Test → World → Call (List (Text × Text))
unfolding add_senders run_senders wait_for_sinks finish
body fuel t w = and_then (some (add_senders w.source_addrs t.sources)) (λ u.
    and_then (some (run_senders w.senders)) (λ u.
      and_then
        (wait_for_sinks t w.sink_runs (expect_list t.sinks t.sink_expect)
          (await_list t.sinks t.sink_expect t.sink_await))
        (λ u. and_then (some w.stop_cluster) (λ u. finish fuel t w t.validate_files))))

-- `__exit__` may raise in place of the error, which goes on else.
abbrev pub leave :
    (Option Error → Result (Unit {0})) → Call (List (Text × Text)) → Call (List (Text × Text))
leave exit none = none
leave exit (some (err e)) = some (exit (some e) >>= λ u. err e)
leave exit (some (ok files)) = some (exit none >>= λ u. ok files)

-- The test, with the files that it saves. What is raised is logged, and raised again.
unfoldable pub pipeline_test : ℕ → Test → World → Call (List (Text × Text))
unfolding body
pipeline_test fuel t w = and_then (some w.start) (λ u. leave w.exit (body fuel t w))
