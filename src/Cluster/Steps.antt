-- ===== src/Cluster/Steps.antt =====
-- The life of a cluster as a relation: how it starts and what its operations make of it.
use wallaroo.Base.{length, Bool, ℕ, ◌≡◌, ap, Option, List, [], ◌++◌, ok, err, arith, Error}
use mathlib.Core.Path.{subst}
use wallaroo.Cluster.{
  Runner, Cluster, Outcome, View, Ref, kill_worker, stop_worker, stop_workers, Restart,
  restart_worker,
}
use wallaroo.Cluster.Commands.{Site}
use wallaroo.Cluster.Start.{Settings, Addresses, start_runners, start_made, Made, make_runners}
use wallaroo.Cluster.Scale.{Answers, Leaving, shrink}
use wallaroo.Cluster.Grow.{Joining, grow}
use wallaroo.Cluster.Scale.Shrinking.{shrink-IsAccounted}
use wallaroo.Cluster.Grow.Growing.{grow-IsAccounted}
use wallaroo.Cluster.Accounted.{
  IsAccounted-of_Moved, kill_worker-Moved, stop_worker-Moved, stop_workers-IsAccounted,
  restart_worker-IsAccounted,
}
use wallaroo.Cluster.Counting.{count, IsAccounted}

-- As `__init__` makes it, before it starts its runners.
unfoldable pub new_cluster : Cluster
new_cluster = record {
  workers = [];
  dead_workers = [];
  restarted_workers = [];
  runners = [];
  worker_id_counter = 0;
  next_ident = 0;
  events = [];
}

-- `self.runners.extend(self.workers)`, and the first number that no worker has.
abbrev pub keep_started : Cluster → Cluster
keep_started c = record c { runners = c.runners ++ c.workers; worker_id_counter = length c.workers }

-- An operation that returns, or a restart that returns or not.
pub data Step : Cluster → Cluster → Type 0 where
  kills_worker :
      {c c' : Cluster} (ref : Ref) (r : Runner) → kill_worker ref c ≡ (ok r, c') → Step c c'
  stops_worker :
      {c c' : Cluster} (ref : Ref) (r : Runner) → stop_worker ref c ≡ (ok r, c') → Step c c'
  stops_all : {c : Cluster} → Step c (stop_workers c)
  restarts :
      {c : Cluster} (timeout : ℕ) (seen : List (View × ℕ)) (which : Restart)
      → Step c (restart_worker timeout seen which c).1
  shrinks :
      {c c' : Cluster} (with_test : Bool) (a : Answers) (which : Leaving) (rs : List Runner)
      → shrink with_test a which c ≡ (ok rs, c')
      → Step c c'
  grows :
      {c c' : Cluster} (with_test : Bool) (a : Answers) (site : Site) (joins : List Joining)
      (rs : List Runner)
      → grow with_test a site joins c ≡ (ok rs, c')
      → Step c c'

pub data Reachable : Cluster → Type 0 where
  started :
      {c : Cluster} (site : Site) (settings : Settings) (view : View)
      (failure : Runner → Option Error)
      → (addrs : List Addresses) (workers : ℕ)
      → start_runners site settings view failure addrs workers new_cluster ≡ (ok tt, c)
      → Reachable (keep_started c)
  then_step : {c c' : Cluster} → Reachable c → Step c c' → Reachable c'

Step-IsAccounted : {c c' : Cluster} → Step c c' → IsAccounted c → IsAccounted c'
Step-IsAccounted {c} {c'} (kills_worker ref r e) h =
    IsAccounted-of_Moved r c c' (kill_worker-Moved ref c r c' e) h
Step-IsAccounted {c} {c'} (stops_worker ref r e) h =
    IsAccounted-of_Moved r c c' (stop_worker-Moved ref c r c' e) h
Step-IsAccounted {c} stops_all h = stop_workers-IsAccounted c h
Step-IsAccounted {c} (restarts timeout seen which) h =
    restart_worker-IsAccounted timeout seen which c h
Step-IsAccounted {c} {c'} (shrinks with_test a which rs e) h =
    shrink-IsAccounted with_test a which c rs c' h e
Step-IsAccounted {c} {c'} (grows with_test a site joins rs e) h =
    grow-IsAccounted with_test a site joins c rs c' h e

start_runners-IsAccounted :
    (site : Site) (settings : Settings) (view : View) (failure : Runner → Option Error)
    → (addrs : List Addresses) (workers : ℕ) (c : Cluster)
    → start_runners site settings view failure addrs workers new_cluster ≡ (ok tt, c)
    → IsAccounted (keep_started c)
unfolding start_runners new_cluster count
start_runners-IsAccounted site settings view failure addrs workers c h =
    go (make_runners site settings 0 addrs workers) h
  where
    go :
        (made : Made)
        → start_made view failure new_cluster made ≡ (ok tt, c)
        → IsAccounted (keep_started c)
    go (rs, err e) q = cc
    go (rs, ok done) q =
        subst (λ x. IsAccounted (keep_started x)) (ap (λ (o : Outcome (Unit {0})). o.1) q)
          (λ n. omega arith)

-- In a cluster that has started and whose operations have returned, in whatever order, each runner
-- stands as often among the workers and the dead workers as among the runners. A restart may also
-- have failed.
pub Reachable-IsAccounted : (c : Cluster) → Reachable c → IsAccounted c
Reachable-IsAccounted c (started site settings view failure addrs workers h) =
    start_runners-IsAccounted site settings view failure addrs workers _ h
Reachable-IsAccounted c (then_step r s) = Step-IsAccounted s (Reachable-IsAccounted _ r)
