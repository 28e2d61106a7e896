-- ===== src/Cluster/Exit.antt =====
-- How a `Cluster` of demos/resilience-demo/lib/cluster.py ends: `__exit__`, `__finally__`,
-- `raise_from_error` and `stop_background_threads`. The processes are seen at each phase of its own.
pub mod Clean
pub mod Killed
use wallaroo.Base.{
  ℕ, zero, suc, Bool, true, false, Option, none, some, List, [], ◌∷◌, ◌++◌, map, ◌==◌,
}
use wallaroo.Base.{if◌then◌else◌, Error, Result, ok, err, ◌>>=◌, cluster_error}
use wallaroo.Base.Text.{Text}
use wallaroo.Cluster.{
  Runner, Cluster, View, Code, status, signalled, Process, poll, is_alive, Event, kills,
  stops_process,
}

-- What is called on others than runners.
pub data Cleanup : Type 0 where
  stops_thread : ℕ → Option Error → Cleanup
  stops_sink stops_sender : ℕ → Cleanup
  stops_metrics cleans_resilience_path : Cleanup

-- `RunnerData`, of what `returncode` gives.
pub record RunnerData : Type 0 where
  pub name : Text
  pub command : Text
  pub returncode : Option Code

pub record Session : Type 0 where
  pub cluster : Cluster
  pub sinks : List ℕ
  pub senders : List ℕ
  pub stoppables : List ℕ
  pub finalized : Bool
  pub exited : Bool
  pub raised : Bool
  pub runner_data : Option (List RunnerData)
  pub cleanups : List Cleanup

-- `stop_background_threads`
unfoldable pub stop_background_threads : Option Error → Session → Session
stop_background_threads e s = record s {
  stoppables = [];
  cleanups = s.cleanups ++ map (λ t. stops_thread t e) s.stoppables;
}

abbrev pub calls : List Event → Session → Session
calls es s = record s { cluster = record s.cluster { events = s.cluster.events ++ es } }

unfoldable pub runner_data_of : View → List Runner → Result (List RunnerData)
runner_data_of view [] = ok []
runner_data_of view (r ∷ rs) = do
  code ← poll (view r)
  rest ← runner_data_of view rs
  ok (record { name = r.name; command = r.command; returncode = code } ∷ rest)

abbrev pub finish : Result (List RunnerData) → Session → Result (Unit {0}) × Session
finish (err e) s = (err e, s)
finish (ok data_of_runners) s = (
  ok tt,
  record s {
    runner_data = some data_of_runners;
    cleanups = s.cleanups ++ cleans_resilience_path ∷ [];
    finalized = true;
  },
)

-- Everything is killed and stopped, and then the data of the runners is taken.
abbrev pub clean_up : View → Session → Result (Unit {0}) × Session
clean_up view s = finish (runner_data_of view s.cluster.runners) (record s {
  cluster = record s.cluster { events = s.cluster.events ++ map kills s.cluster.runners };
  cleanups =
      s.cleanups ++ (map stops_sink s.sinks ++ (map stops_sender s.senders ++ stops_metrics ∷ []));
})

-- `__finally__`
unfoldable pub finalize : View → Session → Result (Unit {0}) × Session
unfolding stop_background_threads runner_data_of
finalize view s =
    let stopped = stop_background_threads none s in
    if s.finalized then (ok tt, stopped) else clean_up view stopped

-- `while self.workers: w = self.workers.pop() …`, over the workers from the last: those that are
-- alive, the dead workers, and the workers that an error leaves.
pub record Popped : Type 0 where
  pub alive : List Runner
  pub dead : List Runner
  pub left : List Runner
  pub result : Result (Unit {0})

abbrev pub keep_popped : Runner → Bool → List Runner → (List Runner → Popped) → Popped
keep_popped w true dead go = let p = go dead in record p { alive = w ∷ p.alive }
keep_popped w false dead go = go (dead ++ w ∷ [])

abbrev pub pop_one :
    Runner → List Runner → Result Bool → List Runner → (List Runner → Popped) → Popped
pop_one w ws (err e) dead go = record { alive = []; dead = dead; left = ws; result = err e }
pop_one w ws (ok alive) dead go = keep_popped w alive dead go

unfoldable pub pop_workers : View → List Runner → List Runner → Popped
pop_workers view [] dead = record { alive = []; dead = dead; left = []; result = ok tt }
pop_workers view (w ∷ ws) dead = pop_one w ws (is_alive (view w)) dead (pop_workers view ws)

-- `c not in (0, -9, -15)`
abbrev pub bad_exit : Option Code → Bool
bad_exit none = true
bad_exit (some (status zero)) = false
bad_exit (some (status (suc n))) = true
bad_exit (some (signalled n)) = if n == 9 then false else (if n == 15 then false else true)

-- Whether there is a bad exit; every return code is asked for.
unfoldable pub any_bad : View → List Runner → Result Bool
any_bad view [] = ok false
any_bad view (r ∷ rs) = do
  code ← poll (view r)
  rest ← any_bad view rs
  ok (if bad_exit code then true else rest)

abbrev pub reverse_onto : List Runner → List Runner → List Runner
reverse_onto [] acc = acc
reverse_onto (r ∷ rs) acc = reverse_onto rs (r ∷ acc)

abbrev pub raise_if : Bool → Result (Unit {0})
raise_if true = err cluster_error
raise_if false = ok tt

abbrev pub some_alive : List Runner → Bool
some_alive [] = false
some_alive (r ∷ rs) = true

-- What is raised once the workers have been popped.
abbrev pub judge : View → Popped → Result (Unit {0})
judge view p = do
  popped ← p.result
  all_gone ← raise_if (some_alive p.alive)
  bad ← any_bad view p.dead
  raise_if bad

-- What the processes do behind the join, when the return codes are asked for, and at the end.
pub record Views : Type 0 where
  pub at_join : View
  pub at_codes : View
  pub at_end : View

abbrev pub popped_session : Popped → Session → Session
popped_session p s = record s {
  cluster = record s.cluster { workers = reverse_onto p.left []; dead_workers = p.dead };
}

-- `finally`: an error of `__finally__` is raised in place of another.
abbrev pub leave : Result (Unit {0}) → Result (Unit {0}) × Session → Result (Unit {0}) × Session
leave judged (err e, s) = (err e, s)
leave judged (ok done, s) = (judged, record s { exited = true })

abbrev pub exit_stopped : Views → Session → Result (Unit {0}) × Session
exit_stopped v s =
    let p = pop_workers v.at_join (reverse_onto s.cluster.workers []) s.cluster.dead_workers in
    leave (judge v.at_codes p) (
      finalize v.at_end (
        popped_session p (
          calls (map stops_process s.cluster.workers ++ map stops_process s.cluster.dead_workers)
            s)))

-- `__exit__`, with the error that is raised in the context if there is one.
unfoldable pub exit : Views → Option Error → Session → Result (Unit {0}) × Session
unfolding stop_background_threads finalize pop_workers any_bad
exit v e s = if s.exited then (ok tt, s) else exit_stopped v (stop_background_threads e s)

abbrev pub after_exit : Result (Unit {0}) × Session → Result (Unit {0}) × Session
after_exit (err e, s) = (err e, s)
after_exit (ok done, s) = (ok tt, record s { raised = true })

-- `raise_from_error`
unfoldable pub raise_from_error : Views → Error → Session → Result (Unit {0}) × Session
unfolding exit stop_background_threads
raise_from_error v e s =
    if s.raised
    then (ok tt, s)
    else after_exit (exit v (some e) (stop_background_threads (some e) s))
