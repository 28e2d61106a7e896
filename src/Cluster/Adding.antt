-- ===== src/Cluster/Adding.antt =====
-- `add_runner` of demos/resilience-demo/lib/cluster.py: a new worker that joins a cluster.
use wallaroo.Base.{ℕ, zero, suc, ◌+◌, Bool, true, false, Option, none, some, List, [], ◌∷◌, ◌++◌}
use wallaroo.Base.{if◌then◌else◌, Error, Result, ok, err, ◌>>=◌}
use wallaroo.Base.{name_error, cluster_error, crashed_worker_error, assertion_error}
use wallaroo.Base.Text.{Text, codes}
use wallaroo.Base.Dict.{nat_eq, lookup}
use wallaroo.Cluster.{
  Runner, Cluster, Outcome, View, starts, is_alive, Process, not_started, running, exited,
}
use wallaroo.Cluster.Commands.{
  Site, Spike, make_stub, fill_stub, format, join_cmd, worker_count_cmd,
}
use wallaroo.Cluster.Start.{
  decimal, Addresses, Settings, alt_of, worker_name, new_runner, own_block,
}

-- `any(r.is_alive() for r in runners)`, which stops at the first that is.
unfoldable pub any_alive : View → List Runner → Result Bool
any_alive view [] = ok false
any_alive view (r ∷ rs) =
    is_alive (view r) >>= λ alive. if alive then ok true else any_alive view rs

-- There must be a worker that is alive.
unfoldable pub can_join : View → List Runner → Result (Unit {0})
unfolding any_alive
can_join view [] = err cluster_error
can_join view (r ∷ rs) =
    any_alive view (r ∷ rs) >>= λ alive. if alive then ok tt else err cluster_error

-- Of a spike for the new worker: the name `x` of its message is not defined.
abbrev pub no_spike : Option Spike → Result Text
no_spike none = ok []
no_spike (some sc) = err name_error

-- `WORKER_COUNT_CMD.format(…) if workers else ''`
abbrev pub count_block : ℕ → Result Text
count_block zero = ok []
count_block (suc n) = format worker_count_cmd ((codes "worker_count", decimal (suc n)) ∷ [])

-- The runner that `add_runner` makes.
unfoldable pub joining_runner :
    Site → Settings → View → List Runner → ℕ → ℕ → ℕ → Text → Addresses → Result Runner
unfolding make_stub fill_stub format can_join
joining_runner site settings view runners ident worker_id workers control_addr a = do
  stub ← make_stub site
  allowed ← can_join view runners
  spike_block ← no_spike (lookup worker_id settings.spikes)
  block ← own_block a
  count ← count_block workers
  join_block ←
      format join_cmd ((codes "join_addr", control_addr) ∷ (codes "worker_count", count) ∷ [])
  cmd ← fill_stub stub (record {
    name = worker_name worker_id;
    initializer_block = [];
    worker_block = block;
    join_block = join_block;
    alt_block = alt_of settings worker_id;
    spike_block = spike_block;
  })
  ok (new_runner ident (worker_name worker_id) cmd a)

-- `assert(runner.is_alive())`, whose errors become a CrashedWorkerError, and the runner's own error.
abbrev pub check_joined : Process → Option Error → Result (Unit {0})
check_joined not_started failure = err crashed_worker_error
check_joined (exited code) failure = err crashed_worker_error
check_joined running none = ok tt
check_joined running (some e) = err assertion_error

abbrev pub add_made : View → (Runner → Option Error) → Cluster → Result Runner → Outcome Runner
add_made after failure c (err e) = (err e, c)
add_made after failure c (ok r) = (
  check_joined (after r) (failure r) >>= λ _. ok r,
  record c {
    workers = c.workers ++ r ∷ [];
    next_ident = c.next_ident + 1;
    events = c.events ++ starts r ∷ [];
  },
)

-- `add_runner(worker_id, self.workers, …)`: what the runners do before it, and the new one behind
-- its start.
unfoldable pub add_runner :
    Site
    → Settings
    → View
    → View
    → (Runner → Option Error)
    → ℕ
    → ℕ
    → Text
    → Addresses
    → Cluster
    → Outcome Runner
unfolding joining_runner
add_runner site settings before after failure worker_id workers control_addr a c =
    add_made after failure c
      (joining_runner site settings before c.workers c.next_ident worker_id workers control_addr a)
