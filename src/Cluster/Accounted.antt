-- ===== src/Cluster/Accounted.antt =====
-- The bookkeeping of the lists of a cluster by the operations on its workers.
use wallaroo.Base.{ℕ, ◌≡◌, refl, ap, Option, none, some, List, [], ◌∷◌, ◌++◌}
use wallaroo.Base.{Error, Result, ok, err, ◌>>=◌, arith, attribute_error}
use mathlib.Core.Path.{subst₂}
use wallaroo.Cluster.{
  old_runners, Runner, Cluster, Outcome, View, remove, Ref, the_runner, index, kill_worker,
  kill_picked, stop_worker, stop_picked, stop_removed, stop_workers, Restart, restart_worker,
  restart_all, after_start, with_runner,
}
use wallaroo.Cluster.Counting.{
  count, count-append, IsAccounted, TakenOut, pop-TakenOut, remove-TakenOut,
}

-- A worker that leaves for the dead workers stays accounted for.
abbrev pub Moved : Runner → Cluster → Cluster → Type 0
Moved r c c' =
    TakenOut r c.workers c'.workers
    × (c'.dead_workers ≡ c.dead_workers ++ r ∷ [])
    × (c'.runners ≡ c.runners)

pub IsAccounted-of_Moved :
    (r : Runner) (c c' : Cluster) → Moved r c c' → IsAccounted c → IsAccounted c'
unfolding count
IsAccounted-of_Moved r c c' (out, dead, same_runners) h n =
    rw (dead, same_runners, count-append n c.dead_workers (r ∷ [])) (omega (arith, h n, out n))

kill_picked-Moved :
    (c : Cluster) (p : Result (Runner × List Runner)) (r : Runner) (c' : Cluster)
    → ((r : Runner) (rest : List Runner) → p ≡ ok (r, rest) → TakenOut r c.workers rest)
    → kill_picked c p ≡ (ok r, c')
    → Moved r c c'
kill_picked-Moved c (err e) r c' out h = cc
kill_picked-Moved c (ok (r0, rest)) r c' out h =
    let same_runner : r0 ≡ r = cc in
    subst₂ (λ x y. Moved x c y) same_runner (ap (λ (p : Outcome Runner). p.1) h)
      (out r0 rest refl, refl, refl)

stop_picked-Moved :
    (c : Cluster) (p : Result (Runner × List Runner)) (r : Runner) (c' : Cluster)
    → ((r : Runner) (rest : List Runner) → p ≡ ok (r, rest) → TakenOut r c.workers rest)
    → stop_picked c p ≡ (ok r, c')
    → Moved r c c'
stop_picked-Moved c (err e) r c' out h = cc
stop_picked-Moved c (ok (r0, rest)) r c' out h =
    let same_runner : r0 ≡ r = cc in
    subst₂ (λ x y. Moved x c y) same_runner (ap (λ (p : Outcome Runner). p.1) h)
      (out r0 rest refl, refl, refl)

pub kill_worker-Moved :
    (ref : Ref) (c : Cluster) (r : Runner) (c' : Cluster)
    → kill_worker ref c ≡ (ok r, c')
    → Moved r c c'
unfolding kill_worker
kill_worker-Moved (the_runner s) c r c' h =
    kill_picked-Moved c _ r c' (λ r rest. picked (remove s c.workers) refl r rest) h
  where
    picked :
        (o : Result (List Runner))
        → remove s c.workers ≡ o
        → (r : Runner) (rest : List Runner) → (o >>= with_runner s) ≡ ok (r, rest)
        → TakenOut r c.workers rest
    picked (err e) q r rest h = cc
    picked (ok rest0) q r rest h =
        let same_runner : s ≡ r = cc in
        let same_rest : rest0 ≡ rest = cc in
        subst₂ (λ x y. TakenOut x c.workers y) same_runner same_rest
          (remove-TakenOut s c.workers rest0 q)
kill_worker-Moved (index i) c r c' h = kill_picked-Moved c _ r c' (pop-TakenOut i c.workers) h

-- By a position only: a worker that is named by itself is never stopped.
pub stop_worker-Moved :
    (ref : Ref) (c : Cluster) (r : Runner) (c' : Cluster)
    → stop_worker ref c ≡ (ok r, c')
    → Moved r c c'
unfolding stop_worker
stop_worker-Moved (the_runner s) c r c' h = never (remove s c.workers) h
  where
    never : (o : Result (List Runner)) → stop_removed c o ≡ (ok r, c') → Moved r c c'
    never (err e) h = cc
    never (ok rest) h = cc
stop_worker-Moved (index i) c r c' h = stop_picked-Moved c _ r c' (pop-TakenOut i c.workers) h

-- `stop_worker` of a runner that is a worker raises an AttributeError. The runner is then taken out of
-- the workers, the dead workers are as before, and nothing has been called on a runner.
pub stop_worker_loses :
    (r : Runner) (c : Cluster) (rest : List Runner)
    → remove r c.workers ≡ ok rest
    → ((stop_worker (the_runner r) c).0 ≡ err attribute_error)
      × TakenOut r c.workers (stop_worker (the_runner r) c).1.workers
      × ((stop_worker (the_runner r) c).1.dead_workers ≡ c.dead_workers)
      × ((stop_worker (the_runner r) c).1.events ≡ c.events)
unfolding stop_worker
stop_worker_loses r c rest h = rw h (refl, remove-TakenOut r c.workers rest h, refl, refl)

pub stop_workers-IsAccounted : (c : Cluster) → IsAccounted c → IsAccounted (stop_workers c)
unfolding stop_workers count
stop_workers-IsAccounted c h n = omega (arith, h n, count-append n c.dead_workers c.workers)

-- Workers that join leave the dead workers as they were.
pub joining-IsAccounted :
    (c c' : Cluster) (rs : List Runner)
    → c'.workers ≡ c.workers ++ rs
    → c'.dead_workers ≡ c.dead_workers
    → c'.runners ≡ c.runners ++ rs
    → IsAccounted c
    → IsAccounted c'
joining-IsAccounted c c' rs workers dead runners h n =
    rw (workers, dead, runners, count-append n c.workers rs, count-append n c.runners rs)
      (omega (arith, h n))

after_start-IsAccounted :
    (c : Cluster) (rs : List Runner) (e : Option Error)
    → IsAccounted c
    → IsAccounted (after_start c rs e).1
after_start-IsAccounted c rs (some e) h = h
after_start-IsAccounted c rs none h =
    joining-IsAccounted c (after_start c rs none).1 rs refl refl refl h

-- Whether the restart succeeds or not.
pub restart_worker-IsAccounted :
    (timeout : ℕ) (seen : List (View × ℕ)) (which : Restart) (c : Cluster)
    → IsAccounted c
    → IsAccounted (restart_worker timeout seen which c).1
unfolding restart_worker
restart_worker-IsAccounted timeout seen which c h = go (old_runners which c.dead_workers)
  where
    go : (o : Result (List Runner)) → IsAccounted (restart_all timeout seen c o).1
    go (err e) = h
    go (ok olds) = after_start-IsAccounted _ _ _ h
