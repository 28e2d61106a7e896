-- ===== src/Cluster.antt =====
-- `Runner` and the worker management of `Cluster` in demos/resilience-demo/lib/cluster.py. A runner
-- is told from others by its identity; what its process does is a view that each call is given.
pub mod Counting
pub mod Accounted
pub mod Commands
pub mod Start
pub mod Adding
pub mod Scale
pub mod Grow
pub mod Exit
pub mod Steps
pub mod Senders
pub mod Crashes
pub mod Sinks
pub mod Init
pub mod Report
mod Tests
use wallaroo.Base.Slice.{slice}
use wallaroo.Base.{
  ℕ, zero, suc, ◌+◌, ◌-◌, Bool, true, false, Option, none, some, List, [], ◌∷◌, ◌++◌, map, ltb,
  ◌==◌,
}
use wallaroo.Base.{length, drop, take, get_elem?, if◌then◌else◌, Error, Result, ok, err, ◌>>=◌}
use wallaroo.Base.{value_error, index_error, attribute_error, runner_hasnt_started_error}
use wallaroo.Base.Int.{ℤ, pos, negsuc}
use wallaroo.Base.Text.{Text}
use wallaroo.Threads.{Thread, Tick, look}
use wallaroo.Control.{Attempt, try_until_timeout}

pub record Runner : Type 0 where
  pub ident : ℕ
  pub name : Text
  pub command : Text
  pub control : Text
  pub data_addr : Text
  pub external : Text

-- A return code: an exit status, or minus the number of a signal.
pub data Code : Type 0 where
  status signalled : ℕ → Code

-- `self.p`: None, or a process that runs, or one that has exited.
pub data Process : Type 0 where
  not_started running : Process
  exited : Code → Process

abbrev pub View : Type 0
View = Runner → Process

-- `poll()` and `returncode()`
abbrev pub poll : Process → Result (Option Code)
poll not_started = err runner_hasnt_started_error
poll running = ok none
poll (exited code) = ok (some code)

abbrev pub is_alive : Process → Result Bool
is_alive not_started = err runner_hasnt_started_error
is_alive running = ok true
is_alive (exited code) = ok false

-- What the cluster calls on its runners, in order.
pub data Event : Type 0 where
  starts kills stops_process : Runner → Event

pub record Cluster : Type 0 where
  pub workers : List Runner
  pub dead_workers : List Runner
  pub restarted_workers : List Runner
  pub runners : List Runner
  pub worker_id_counter : ℕ
  pub next_ident : ℕ
  pub events : List Event

abbrev pub Outcome : Type 0 → Type 0
Outcome B = Result B × Cluster

-- The position that an index of Python means in a list of a length.
abbrev pub resolve : ℤ → ℕ → Option ℕ
resolve (pos n) len = if ltb n len then some n else none
resolve (negsuc n) len = if ltb n len then some (len - suc n) else none

abbrev pub keeping : Runner → Option (Runner × List Runner) → Option (Runner × List Runner)
keeping x none = none
keeping x (some (r, rest)) = some (r, x ∷ rest)

-- The element at a position, and the others.
unfoldable pub take_out : ℕ → List Runner → Option (Runner × List Runner)
take_out i [] = none
take_out zero (x ∷ xs) = some (x, xs)
take_out (suc i) (x ∷ xs) = keeping x (take_out i xs)

abbrev pub found_or : {A : Type 0} → Error → Option A → Result A
found_or e none = err e
found_or e (some a) = ok a

abbrev pub at_position : List Runner → Option ℕ → Result (Runner × List Runner)
at_position xs none = err index_error
at_position xs (some i) = found_or index_error (take_out i xs)

-- `xs.pop(i)`
unfoldable pub pop : ℤ → List Runner → Result (Runner × List Runner)
unfolding take_out
pop i xs = at_position xs (resolve i (length xs))

abbrev pub keeping_all : Runner → Option (List Runner) → Option (List Runner)
keeping_all x none = none
keeping_all x (some rest) = some (x ∷ rest)

unfoldable pub remove_first : Runner → List Runner → Option (List Runner)
remove_first r [] = none
remove_first r (x ∷ xs) =
    let rest = remove_first r xs in if x.ident == r.ident then some xs else keeping_all x rest

-- `xs.remove(r)`
unfoldable pub remove : Runner → List Runner → Result (List Runner)
unfolding remove_first
remove r xs = found_or value_error (remove_first r xs)

-- What a worker is named by: itself, or its position.
pub data Ref : Type 0 where
  the_runner : Runner → Ref
  index : ℤ → Ref

abbrev pub kill_picked : Cluster → Result (Runner × List Runner) → Outcome Runner
kill_picked c (err e) = (err e, c)
kill_picked c (ok (r, rest)) = (
  ok r,
  record c {
    workers = rest;
    dead_workers = c.dead_workers ++ r ∷ [];
    events = c.events ++ kills r ∷ [];
  },
)

abbrev pub with_runner : Runner → List Runner → Result (Runner × List Runner)
with_runner r rest = ok (r, rest)

-- `kill_worker`
unfoldable pub kill_worker : Ref → Cluster → Outcome Runner
unfolding pop remove
kill_worker (the_runner r) c = kill_picked c (remove r c.workers >>= with_runner r)
kill_worker (index i) c = kill_picked c (pop i c.workers)

abbrev pub stop_picked : Cluster → Result (Runner × List Runner) → Outcome Runner
stop_picked c (err e) = (err e, c)
stop_picked c (ok (r, rest)) = (
  ok r,
  record c {
    workers = rest;
    dead_workers = c.dead_workers ++ r ∷ [];
    events = c.events ++ stops_process r ∷ [];
  },
)

-- `remove` returns None, and `None.stop()` raises.
abbrev pub stop_removed : Cluster → Result (List Runner) → Outcome Runner
stop_removed c (err e) = (err e, c)
stop_removed c (ok rest) = (err attribute_error, record c { workers = rest })

-- `stop_worker`
unfoldable pub stop_worker : Ref → Cluster → Outcome Runner
unfolding pop remove
stop_worker (the_runner r) c = stop_removed c (remove r c.workers)
stop_worker (index i) c = stop_picked c (pop i c.workers)

-- `stop_workers`
unfoldable pub stop_workers : Cluster → Cluster
stop_workers c = record c {
  workers = [];
  dead_workers = c.dead_workers ++ c.workers;
  events = c.events ++ map stops_process c.runners;
}

-- Which workers to restart: one, several, a slice of the dead workers, or one of them.
pub data Restart : Type 0 where
  the_one : Runner → Restart
  the_list : List Runner → Restart
  slice_of : Option ℤ → Option ℤ → Option ℤ → Restart
  dead_index : ℤ → Restart

abbrev at_dead : List Runner → Option ℕ → Result (List Runner)
at_dead xs none = err index_error
at_dead xs (some i) = found_or index_error (get_elem? xs i) >>= λ r. ok (r ∷ [])

unfoldable pub old_runners : Restart → List Runner → Result (List Runner)
unfolding slice
old_runners (the_one r) dead = ok (r ∷ [])
old_runners (the_list rs) dead = ok rs
old_runners (slice_of start stop step) dead = slice start stop step dead
old_runners (dead_index i) dead = at_dead dead (resolve i (length dead))

-- `respawn`, of each: new runners of the same command, name and addresses.
unfoldable pub respawn_all : ℕ → List Runner → List Runner
respawn_all n [] = []
respawn_all n (r ∷ rs) = record r { ident = n } ∷ respawn_all (suc n) rs

-- `check_alive`: it raises for a runner that has not started, and drops what `is_alive` returns.
unfoldable pub check_alive : View → List Runner → Result (Unit {0})
check_alive view [] = ok tt
check_alive view (r ∷ rs) = is_alive (view r) >>= λ alive. check_alive view rs

-- What each attempt of `check_alive` sees, and the time behind it.
abbrev pub start_attempts : List Runner → List (View × ℕ) → List (Tick Attempt)
start_attempts rs [] = []
start_attempts rs ((view, t) ∷ seen) =
    look (record { outcome = check_alive view rs; elapsed = t }) ∷ start_attempts rs seen

abbrev pub after_start : Cluster → List Runner → Option Error → Outcome (List Runner)
after_start c rs (some e) = (err e, c)
after_start c rs none = (
  ok rs,
  record c {
    workers = c.workers ++ rs;
    restarted_workers = c.restarted_workers ++ rs;
    runners = c.runners ++ rs;
  },
)

abbrev pub restart_all :
    ℕ → List (View × ℕ) → Cluster → Result (List Runner) → Outcome (List Runner)
restart_all timeout seen c (err e) = (err e, c)
restart_all timeout seen c (ok olds) =
    let rs = respawn_all c.next_ident olds in
    after_start
      (record c { next_ident = c.next_ident + length rs; events = c.events ++ map starts rs }) rs
      (try_until_timeout timeout (start_attempts rs seen)).error

-- `restart_worker`; its TryUntilTimeout has 5 seconds, and what is seen reaches its end.
unfoldable pub restart_worker : ℕ → List (View × ℕ) → Restart → Cluster → Outcome (List Runner)
unfolding old_runners respawn_all check_alive
restart_worker timeout seen which c = restart_all timeout seen c (old_runners which c.dead_workers)

-- `r.poll() not in (None, 0, -9, -15)`
abbrev pub bad_code : Option Code → Bool
bad_code none = false
bad_code (some (status zero)) = false
bad_code (some (status (suc n))) = true
bad_code (some (signalled n)) = if n == 9 then false else (if n == 15 then false else true)

abbrev keep_if : Bool → Runner → List Runner → Result (List Runner)
keep_if true r rs = ok (r ∷ rs)
keep_if false r rs = ok rs

-- `get_crashed_workers`
unfoldable pub crashed_of : View → List Runner → Result (List Runner)
crashed_of view [] = ok []
crashed_of view (r ∷ rs) = do
  code ← poll (view r)
  rest ← crashed_of view rs
  keep_if (bad_code code) r rest

unfoldable pub get_crashed_workers : View → Cluster → Result (List Runner)
unfolding crashed_of
get_crashed_workers view c = crashed_of view c.runners
