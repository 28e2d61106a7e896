-- ===== src/Lib.antt =====
-- A verification library for the Python parts of Wallaroo: the API in which applications build
-- their pipelines, the codecs and the connectors of machida, the cluster harness with its end
-- points, waiting threads and observability queries, the choice of an EC2 instance, and three
-- example applications.
--
-- The program. An application's setup function makes pipelines with
-- machida/lib/wallaroo/__init__.py and hands a tuple of them to the engine. Messages enter and
-- leave through encoders and decoders that the same module wraps, and through the connectors of
-- machida/lib/wallaroo/experimental/__init__.py, which exchange framed records with the engine.
-- The harness under demos/resilience-demo/lib (a second copy is testing/tools/integration) starts
-- a cluster of workers, sends it generated records and receives its output; it grows and shrinks
-- the cluster, asks it for its state through a shell command, and waits in threads that look,
-- decide and sleep until a time is over.
--
-- The files.
-- - Base: names, list lemmas, exceptions as values (Base.Exceptions), dictionaries (Base.Dict),
--   text with Python's split and join (Base.Text), integers (Base.Int), slices (Base.Slice),
--   Boolean tests (Base.Tests).
-- - Struct: `struct.pack` and `struct.unpack` of the standard library, for the formats in use.
-- - Pipeline: `_PipelineTree`. Pipeline.Config: the configuration classes and the address
--   options. Pipeline.Objects: the class `Pipeline`, whose objects are indices into a store of
--   trees, so that which object a method changes and which it copies is part of the model. The
--   rows of a tree are values: that two trees share a row, which the copies in `clone` prevent,
--   is not expressed. Pipeline.Plan and Pipeline.Objects.Spec: what the API promises, immutable
--   plans; Pipeline.Shape, Pipeline.Refines, Pipeline.Objects.Simulation and .Merging: the tables
--   and the plans they denote; Pipeline.Objects.Correct: the refinement.
-- - Codec: `ConnectorEncoder`, `ConnectorDecoder` and `OctetDecoder` as `_wallaroo_wrap` makes
--   them.
-- - Computations: the computation classes of `_wallaroo_wrap` with their decorators and key
--   extractors, with .Arity and .States on them.
-- - Connector: `SinkConnector`; `select` is a parameter, the list of its outcomes.
--   Connector.Framing, .Pending, .Progress, .Delivery and .Teardown: frames, the sockets with
--   data, the messages of a stream that arrives in chunks, and the end of a connection.
--   Connector.Setup: how both connectors find their entry in an application, `connect` and
--   `listen`, with .Unfound. Connector.Source: `SourceConnector.write`; Connector.EndToEnd: from
--   one connector to the other.
-- - EndPoints: demos/resilience-demo/lib/end_points.py. EndPoints.Reader: `Reader`; .Frames: the
--   generators; .Files: `files_generator`, with .Whole; .Receiver and .Newlines: the two modes of
--   `SingleSocketReceiver`, `TCPReceiver.save`, with .Receiver.Accounts on what a receiver has
--   when it stops; .Sender: the inner loop of `Sender.run`, and .Sessions all of it, with
--   .Running, .SendsAll, .Keeping, .Wire, .Kept and .Recovers on what is sent, counted and got
--   out; .Sequences: `MultiSequenceGenerator`, with .CatchUp and .RoundRobin on its sequences
--   after and before `stop`.
-- - Threads: stoppable_thread.py of the same folder, and the loop that its subclasses share, over
--   the list of what they see; Threads.Polling: when such a loop stops. Control: the waiting
--   threads of control.py, with .Expecting, .Trying, .Awaiting and .Resuming on one thread each.
-- - External: external.py, with .Ports on the choice of ports; .Files: its directories and log
--   files, with .Cleared, .Saved and .Logged on them. TypedList: typed_list.py, with .Typed.
--   Observability: the queries and the coalescing of observability.py, with .Additions and
--   .Partitions on the latter; .Notifier: `ObservabilityNotifier`, with .Normalized on its tests
--   and .Passing on its loop; .Outputs: `RunnerReadyChecker`, `RunnerChecker`.
-- - Cluster: `Runner` and the worker management of cluster.py. Cluster.Counting, .Accounted: how
--   often the lists of a cluster hold a runner. Cluster.Commands: the templates and `str.format`,
--   with .Formatted on its two passes. Cluster.Start: `start_runners`. Cluster.Adding:
--   `add_runner`. Cluster.Scale: `shrink` and `confirm_migration`, with .Shrinking and .Migrating
--   on each. Cluster.Grow: `grow`, with .Growing. Cluster.Steps: the operations as a relation.
--   Cluster.Senders: pausing and resuming the senders. Cluster.Exit: `__exit__`, `__finally__`,
--   `raise_from_error`, with .Clean and .Killed. Cluster.Crashes: `CrashChecker` of control.py.
--   Cluster.Init: `__init__`, with .Ports and .Failing. Cluster.Report: `runner_data_format`.
-- - Integration: the validation of a test's output in integration.py, with .Validating on it;
--   .Run: `pipeline_test` as a whole, with .Passing. Cluster.Sinks: how a cluster waits for sinks
--   and senders.
-- - Validation: `validate_migration` of demos/resilience-demo/lib/validations.py, in .Migrated
--   what it accepts, and in .Status the tests on responses.
-- - Alphabet: the example application examples/python/alphabet/alphabet.py, and in .Totals what
--   it answers. Its applications of the API have the shape of the runs in Pipeline.Tests.
-- - MarketSpread: the example application examples/python/market_spread/market_spread.py, with
--   floats as a parameter, and in .Latest what an order is answered.
-- - WordCount: the example application examples/python/word_count/word_count.py, with .Words,
--   .Letters and .Splitting on its splitting and .Totals on its counts.
-- - Automagic: orchestration/terraform/automagic_instance.py, the instances that fit; .Choice:
--   the cheapest of them; .Output: the bid and the script as a whole; .Fits, .Passes, .Prices and
--   .Cheap on the choice, .Bids on the bid.
--
-- Bounds and fuel. Numbers that are packed are checked against their width as `struct` checks
-- them. The loops on a socket or a file take fuel: each round takes a byte at least. The loop
-- over ports takes fuel too. The waiting loops run along the list of what they see, which may end
-- before they do.
--
-- Not modelled: threads (each operation under a lock is one step; an operation of the cluster
-- that waits for a thread of its own is one step), the clock, which is what each look is given,
-- log messages and the texts of errors, the accepting and connecting of sockets, the command line
-- tools that scripts run, processes (what a process does is a view that an operation is given),
-- `argparse`, pickling, the Pony engine and its C extensions, the web user interface, the
-- inventory scripts under orchestration/ansible, which are other projects' code, the copy of the
-- harness under testing/tools/integration, and the services and applications that only tests use.
pub mod Base
pub mod Struct
pub mod Pipeline
pub mod Codec
pub mod Connector
pub mod EndPoints
pub mod TypedList
pub mod Automagic
pub mod Computations
pub mod Threads
pub mod Control
pub mod External
pub mod Observability
pub mod Validation
pub mod Cluster
pub mod Integration
pub mod Alphabet
pub mod MarketSpread
pub mod WordCount
