-- ===== src/Cluster/Start.antt =====
-- `start_runners` of demos/resilience-demo/lib/cluster.py: the runners they make and
-- the checks behind their start.
use wallaroo.Base.{
  ℕ, zero, suc, ◌+◌, ◌-◌, ◌/◌, ◌%◌, Bool, Option, none, some, List, [], ◌∷◌, ◌++◌, map,
}
use wallaroo.Base.{ltb, get_elem?, if◌then◌else◌, Error, Result, ok, err, ◌>>=◌}
use wallaroo.Base.{cluster_error, index_error, runner_hasnt_started_error, length}
use wallaroo.Base.Text.{Text, codes}
use wallaroo.Base.Dict.{Dict, nat_eq, lookup}
use wallaroo.Cluster.{Runner, Cluster, Outcome, View, starts, Process, not_started, running, exited}
use wallaroo.Cluster.Commands.{
  Site, Spike, make_stub, fill_stub, spike_of, format, runner_command, initializer_cmd, worker_cmd,
  control_cmd, worker_count_cmd,
}

-- `str(n)`, with fuel; `n + 1` is enough.
unfoldable pub digits : ℕ → ℕ → Text → Text
digits zero n acc = acc
digits (suc fuel) n acc =
    let more = digits fuel (n / 10) ((48 + n % 10) ∷ acc) in
    if ltb n 10 then (48 + n) ∷ acc else more

abbrev pub decimal : ℕ → Text
decimal n = digits (suc n) n []

-- The control, data and external addresses of a worker.
pub record Addresses : Type 0 where
  pub my_control : Text
  pub my_data : Text
  pub my_external : Text

-- `alt_block`, `alt_func` and `spikes`
pub record Settings : Type 0 where
  pub alt_block : Text
  pub alt_func : ℕ → Bool
  pub spikes : Dict ℕ Spike

abbrev pub alt_of : Settings → ℕ → Text
alt_of s x = if s.alt_func x then s.alt_block else []

abbrev pub worker_name : ℕ → Text
worker_name x = codes "worker" ++ decimal x

abbrev pub new_runner : ℕ → Text → Text → Addresses → Runner
new_runner ident name command a = record {
  ident = ident;
  name = name;
  command = runner_command command;
  control = a.my_control;
  data_addr = a.my_data;
  external = a.my_external;
}

abbrev pub initializer_name : Text
initializer_name = codes "initializer"

-- The initializer, of `workers` workers.
unfoldable pub initializer_of : Settings → Text → ℕ → ℕ → Addresses → Result Runner
unfolding format fill_stub spike_of
initializer_of settings stub ident workers a = do
  spike_block ← spike_of (lookup 0 settings.spikes)
  count ← format worker_count_cmd ((codes "worker_count", decimal workers) ∷ [])
  block ← format initializer_cmd (
      (codes "worker_count", count)
      ∷ (codes "data_addr", a.my_data)
      ∷ (codes "external_addr", a.my_external)
      ∷ [])
  control ← format control_cmd ((codes "control_addr", a.my_control) ∷ [])
  cmd ← fill_stub stub (record {
    name = initializer_name;
    initializer_block = block;
    worker_block = [];
    join_block = control;
    alt_block = alt_of settings 0;
    spike_block = spike_block;
  })
  ok (new_runner ident initializer_name cmd a)

abbrev pub own_block : Addresses → Result Text
own_block a = format worker_cmd (
    (codes "control_addr", a.my_control)
    ∷ (codes "data_addr", a.my_data)
    ∷ (codes "external_addr", a.my_external)
    ∷ [])

-- Worker `x`, which is told the control address of the initializer.
unfoldable pub worker_of : Settings → Text → ℕ → ℕ → Addresses → Addresses → Result Runner
unfolding format fill_stub spike_of
worker_of settings stub ident x first a = do
  spike_block ← spike_of (lookup x settings.spikes)
  block ← own_block a
  control ← format control_cmd ((codes "control_addr", first.my_control) ∷ [])
  cmd ← fill_stub stub (record {
    name = worker_name x;
    initializer_block = [];
    worker_block = block;
    join_block = control;
    alt_block = alt_of settings x;
    spike_block = spike_block;
  })
  ok (new_runner ident (worker_name x) cmd a)

abbrev pub address_at : Option Addresses → Result Addresses
address_at none = err index_error
address_at (some a) = ok a

-- The runners that are appended up to an error, and whether there was one.
abbrev pub Made : Type 0
Made = List Runner × Result (Unit {0})

abbrev pub append_made : Result Runner → Made → Made
append_made (err e) more = ([], err e)
append_made (ok r) (rs, result) = (r ∷ rs, result)

abbrev pub worker_at : Settings → Text → ℕ → ℕ → Addresses → Option Addresses → Result Runner
worker_at settings stub ident x first o =
    address_at o >>= worker_of settings stub (ident + x) x first

-- `for x in range(1, workers)`, from `x`, as many as are left.
unfoldable pub workers_from : Settings → Text → ℕ → Addresses → List Addresses → ℕ → ℕ → Made
unfolding worker_of
workers_from settings stub ident first addrs x zero = ([], ok tt)
workers_from settings stub ident first addrs x (suc left) =
    append_made (worker_at settings stub ident x first (get_elem? addrs x))
      (workers_from settings stub ident first addrs (suc x) left)

abbrev pub all_from : Settings → ℕ → List Addresses → ℕ → Text → Result Addresses → Made
all_from settings ident addrs workers stub (err e) = ([], err e)
all_from settings ident addrs workers stub (ok first) =
    append_made (initializer_of settings stub ident workers first)
      (workers_from settings stub ident first addrs 1 (workers - 1))

abbrev pub from_stub : Settings → ℕ → List Addresses → ℕ → Result Text → Made
from_stub settings ident addrs workers (err e) = ([], err e)
from_stub settings ident addrs workers (ok stub) =
    if ltb workers 1
    then ([], err cluster_error)
    else all_from settings ident addrs workers stub (address_at (get_elem? addrs 0))

-- The runners that `start_runners` makes.
unfoldable pub make_runners : Site → Settings → ℕ → List Addresses → ℕ → Made
unfolding make_stub initializer_of workers_from
make_runners site settings ident addrs workers =
    from_stub settings ident addrs workers (make_stub site)

-- `assert(r.is_alive())`; a runner that has not started raises its own error.
abbrev pub check_started : Process → Option Error → Result (Unit {0})
check_started not_started failure = err runner_hasnt_started_error
check_started (exited code) failure = err cluster_error
check_started running none = ok tt
check_started running (some e) = err cluster_error

unfoldable pub check_runners : View → (Runner → Option Error) → List Runner → Result (Unit {0})
check_runners view failure [] = ok tt
check_runners view failure (r ∷ rs) =
    check_started (view r) (failure r) >>= λ _. check_runners view failure rs

abbrev pub start_made : View → (Runner → Option Error) → Cluster → Made → Outcome (Unit {0})
start_made view failure c (rs, err e) =
    (err e, record c { workers = c.workers ++ rs; next_ident = c.next_ident + length rs })
start_made view failure c (rs, ok done) = (
  check_runners view failure (c.workers ++ rs),
  record c {
    workers = c.workers ++ rs;
    next_ident = c.next_ident + length rs;
    events = c.events ++ map starts (c.workers ++ rs);
  },
)

-- `start_runners(self.workers, …)`
unfoldable pub start_runners :
    Site
    → Settings
    → View
    → (Runner → Option Error)
    → List Addresses
    → ℕ
    → Cluster
    → Outcome (Unit {0})
unfolding make_runners check_runners
start_runners site settings view failure addrs workers c =
    start_made view failure c (make_runners site settings c.next_ident addrs workers)
