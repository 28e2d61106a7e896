-- ===== src/Cluster/Init.antt =====
-- `Cluster.__init__` of demos/resilience-demo/lib/cluster.py: the sinks, the ports, the runners, and
-- what is done when a step of the start raises. What the threads, the file system and the processes
-- do in it comes in as an argument.
pub mod Ports
pub mod Failing
mod Tests
use wallaroo.Base.{
  ℕ, zero, suc, ◌+◌, ◌*◌, Bool, false, Option, none, some, List, [], ◌∷◌, ◌++◌, map, take, drop,
  length,
}
use wallaroo.Base.{Error, Result, ok, err, ◌>>=◌, index_error, if◌then◌else◌}
use wallaroo.Base.Text.{Text, codes}
use wallaroo.External.{get_port_values}
use wallaroo.Cluster.{Runner, Cluster, View}
use wallaroo.Cluster.Commands.{Site}
use wallaroo.Cluster.Start.{Addresses, Settings, decimal, start_runners}
use wallaroo.Cluster.Steps.{new_cluster, keep_started}
use wallaroo.Cluster.Sinks.{Call}
use wallaroo.Cluster.Exit.{Session, finalize}

-- The arguments, and the directory that is given or made.
pub record Config : Type 0 where
  pub command : Text
  pub host : Text
  pub sources : ℕ
  pub workers : ℕ
  pub sinks : ℕ
  pub res_dir : Text

-- What happens in the start: of each sink the error behind its start and its address, and what the
-- waiting threads hold in the end.
pub record Startup : Type 0 where
  pub set_up : Result (Unit {0})
  pub metrics_addr : Result Text
  pub sink_error : ℕ → Option Error
  pub sink_addr : ℕ → Result Text
  pub is_free : ℕ → Bool
  pub fuel : ℕ
  pub view : View
  pub failure : Runner → Option Error
  pub not_ready : Option Error
  pub not_counted : Option Error
  pub last_view : View

abbrev pub new_session : Session
unfolding new_cluster
new_session = record {
  cluster = new_cluster;
  sinks = [];
  senders = [];
  stoppables = [];
  finalized = false;
  exited = false;
  raised = false;
  runner_data = none;
  cleanups = [];
}

-- A call that may raise, or wait for ever, behind another.
abbrev pub Attempted : Type 0
Attempted = Call (Unit {0}) × Session

abbrev pub and_step : Attempted → (Session → Attempted) → Attempted
and_step (none, s) next = (none, s)
and_step (some (err e), s) next = (some (err e), s)
and_step (some (ok u), s) next = next s

abbrev pub raise_if : Option Error → Session → Attempted
raise_if none s = (some (ok tt), s)
raise_if (some e) s = (some (err e), s)

-- The sinks, told apart by their numbers; each is kept before its error is looked at.
unfoldable pub start_sinks : (ℕ → Option Error) → ℕ → ℕ → Session → Attempted
start_sinks sink_error i zero s = (some (ok tt), s)
start_sinks sink_error i (suc n) s =
    and_step (raise_if (sink_error i) (record s { sinks = s.sinks ++ i ∷ [] }))
      (start_sinks sink_error (suc i) n)

unfoldable pub sink_addrs_of : (ℕ → Result Text) → List ℕ → Result (List Text)
sink_addrs_of sink_addr [] = ok []
sink_addrs_of sink_addr (i ∷ is) = do
  a ← sink_addr i
  rest ← sink_addrs_of sink_addr is
  ok (a ∷ rest)

abbrev pub address : Text → ℕ → Text
address host p = host ++ (codes ":" ++ decimal p)

-- `[addresses[i:i+3] for i in …]`, of a number of addresses that three divides.
unfoldable pub in_threes : List Text → List Addresses
in_threes (a ∷ b ∷ c ∷ rest) =
    record { my_control = a; my_data = b; my_external = c } ∷ in_threes rest
in_threes (a ∷ b ∷ []) = []
in_threes (a ∷ []) = []
in_threes [] = []

abbrev pub no_settings : Settings
no_settings = record { alt_block = []; alt_func = λ x. false; spikes = [] }

-- The addresses of the sources, and those of the workers.
unfoldable pub split_addresses : Config → List ℕ → List Text × List Addresses
unfolding in_threes
split_addresses c ports =
    let addresses = map (address c.host) ports in
    (take c.sources addresses, in_threes (drop c.sources addresses))

abbrev pub run_in : Session → Result (Unit {0}) × Cluster → Attempted
run_in s (r, c) = (some r, record s { cluster = c })

-- `self.runners[0].external` for the query
abbrev pub query_runners : Option Error → List Runner → Session → Attempted
query_runners not_counted [] s = (some (err index_error), s)
query_runners not_counted (r ∷ rs) s = raise_if not_counted s

unfoldable pub start_on :
    Config → Startup → Text → List Text → Session → Option (List ℕ) → Attempted
unfolding split_addresses start_runners
start_on c w metrics sinks s none = (none, s)
start_on c w metrics sinks s (some ports) =
    let (source_addrs, worker_addrs) = split_addresses c ports in
    let site : Site = record {
      command = c.command;
      source_addrs = source_addrs;
      sink_addrs = sinks;
      metrics_addr = metrics;
      res_dir = c.res_dir;
    } in
    and_step
      (run_in s (start_runners site no_settings w.view w.failure worker_addrs c.workers s.cluster))
      (λ s1.
        let s2 = record s1 { cluster = keep_started s1.cluster } in
        and_step (raise_if w.not_ready s2)
          (λ s3. query_runners w.not_counted s3.cluster.runners s3))

abbrev pub with_result : {B : Type 0} → Session → Result B → (B → Attempted) → Attempted
with_result s (err e) next = (some (err e), s)
with_result s (ok b) next = next b

-- The body of the `try`.
unfoldable pub start_everything : Config → Startup → Session → Attempted
unfolding start_sinks sink_addrs_of start_on
start_everything c w s = with_result s w.set_up (λ u. with_result s w.metrics_addr (λ metrics.
    and_step (start_sinks w.sink_error 0 c.sinks s) (λ s1.
      with_result s1 (sink_addrs_of w.sink_addr s1.sinks) (λ sinks.
        start_on c w metrics sinks s1
          (get_port_values w.is_free w.fuel (c.sources + 3 * c.workers) 20000)))))

-- On an error everything is finalized, and the error raised again.
abbrev pub raise_after : Error → Result (Unit {0}) × Session → Attempted
raise_after e (r, s) = (some (r >>= λ u. err e), s)

abbrev pub end_start : View → Attempted → Attempted
unfolding finalize
end_start view (none, s) = (none, s)
end_start view (some (ok u), s) = (some (ok u), s)
end_start view (some (err e), s) = raise_after e (finalize view s)

unfoldable pub init : Config → Startup → Attempted
unfolding start_everything end_start new_session
init c w = end_start w.last_view (start_everything c w new_session)
