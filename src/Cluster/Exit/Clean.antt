-- ===== src/Cluster/Exit/Clean.antt =====
-- What the end of a cluster has seen to.
use wallaroo.Base.{ℕ, ◌+◌, ◌≡◌, refl, sym, ap, ◌∙◌, Bool, true, false, Option, none, List, [], ◌∷◌}
use wallaroo.Base.{◌++◌, map, All, if◌then◌else◌, Error, Result, ok, err, >>=-eq-ok, arith}
use mathlib.Core.Path.{subst}
use wallaroo.Cluster.{Runner, Cluster, View, Code, poll, is_alive, stops_process}
use wallaroo.Cluster.Counting.{count, count-append}
use wallaroo.Cluster.Exit.{
  Session, Popped, pop_workers, pop_one, any_bad, bad_exit, raise_if, some_alive, judge, Views,
  exit, exit_stopped, leave, finalize, clean_up, finish, runner_data_of, RunnerData, reverse_onto,
  popped_session, stop_background_threads, calls,
}

-- Workers that were all popped.
record Emptied (ws dead : List Runner) (p : Popped) : Type 0 where
  none_left : p.left ≡ []
  all_kept : (n : ℕ) → count n p.alive + count n p.dead ≡ count n ws + count n dead

pop_workers-Emptied :
    (view : View) (ws dead : List Runner)
    → (pop_workers view ws dead).result ≡ ok tt
    → Emptied ws dead (pop_workers view ws dead)
unfolding pop_workers count
pop_workers-Emptied view [] dead h = record { none_left = refl; all_kept = λ n. refl }
pop_workers-Emptied view (w ∷ ws) dead h =
    go (is_alive (view w)) h (pop_workers-Emptied view ws dead)
      (pop_workers-Emptied view ws (dead ++ w ∷ []))
  where
    go :
        (o : Result Bool)
        → (pop_one w ws o dead (pop_workers view ws)).result ≡ ok tt
        → ((pop_workers view ws dead).result ≡ ok tt → Emptied ws dead (pop_workers view ws dead))
        → ((pop_workers view ws (dead ++ w ∷ [])).result ≡ ok tt
            → Emptied ws (dead ++ w ∷ []) (pop_workers view ws (dead ++ w ∷ [])))
        → Emptied (w ∷ ws) dead (pop_one w ws o dead (pop_workers view ws))
    go (err e) h alive gone = cc
    go (ok true) h alive gone =
        let ih = alive h in
        record { none_left = ih.none_left; all_kept = λ n. omega (arith, ih.all_kept n) }
    go (ok false) h alive gone =
        let ih = gone h in
        record {
          none_left = ih.none_left;
          all_kept = λ n. omega (arith, ih.all_kept n, count-append n dead (w ∷ []));
        }

-- A runner that exited with a code that is not bad.
abbrev pub Clean : View → Runner → Type 0
Clean view r = (code : Option Code) × (poll (view r) ≡ ok code) × (bad_exit code ≡ false)

both_false :
    (b rest : Bool) → ok (if b then true else rest) ≡ ok false → (b ≡ false) × (rest ≡ false)
both_false true rest h = cc
both_false false true h = cc
both_false false false h = (refl, refl)

any_bad-Clean : (view : View) (rs : List Runner) → any_bad view rs ≡ ok false → All (Clean view) rs
unfolding any_bad
any_bad-Clean view [] h = tt
any_bad-Clean view (r ∷ rs) h =
    let (code, polled, more) = >>=-eq-ok (poll (view r)) _ h in
    let (rest, others, last) = >>=-eq-ok (any_bad view rs) _ more in
    let (good, rest_good) = both_false (bad_exit code) rest last in
    ((code, polled, good), any_bad-Clean view rs (others ∙ ap ok rest_good))

judge-Clean :
    (view : View) (p : Popped)
    → judge view p ≡ ok tt
    → (p.result ≡ ok tt) × (p.alive ≡ []) × All (Clean view) p.dead
judge-Clean view p h =
    let (popped, emptied, more) = >>=-eq-ok p.result _ h in
    let (gone, none_alive, checked) = >>=-eq-ok (raise_if (some_alive p.alive)) _ more in
    let (bad, asked, last) = >>=-eq-ok (any_bad view p.dead) _ checked in
    (
      emptied,
      no_alive p.alive none_alive,
      any_bad-Clean view p.dead (asked ∙ ap ok (not_bad bad last)),
    )
  where
    no_alive : {x : Unit {0}} (rs : List Runner) → raise_if (some_alive rs) ≡ ok x → rs ≡ []
    no_alive [] h = refl
    no_alive (r ∷ rs) h = cc

    not_bad : (b : Bool) → raise_if b ≡ ok tt → b ≡ false
    not_bad true h = cc
    not_bad false h = refl

count-reverse_onto :
    (n : ℕ) (rs acc : List Runner) → count n (reverse_onto rs acc) ≡ count n rs + count n acc
unfolding count
count-reverse_onto n [] acc = omega arith
count-reverse_onto n (r ∷ rs) acc = omega (arith, count-reverse_onto n rs (r ∷ acc))

finish-cluster : (o : Result (List RunnerData)) (s : Session) → (finish o s).1.cluster ≡ s.cluster
finish-cluster (err e) s = refl
finish-cluster (ok rs) s = refl

-- `__finally__` leaves the lists of the workers.
finalize_keeps :
    (view : View) (s : Session)
    → ((finalize view s).1.cluster.workers ≡ s.cluster.workers)
      × ((finalize view s).1.cluster.dead_workers ≡ s.cluster.dead_workers)
unfolding finalize stop_background_threads
finalize_keeps view s = go s.finalized
  where
    stopped : Session
    stopped = stop_background_threads none s

    go :
        (b : Bool)
        → ((if b then (ok tt, stopped) else clean_up view stopped).1.cluster.workers
            ≡ s.cluster.workers)
          × ((if b then (ok tt, stopped) else clean_up view stopped).1.cluster.dead_workers
              ≡ s.cluster.dead_workers)
    go true = (refl, refl)
    go false =
        let same_cluster = finish-cluster (runner_data_of view s.cluster.runners) _ in
        (
          ap (λ (c : Cluster). c.workers) same_cluster,
          ap (λ (c : Cluster). c.dead_workers) same_cluster,
        )

finalize_done :
    (view : View) (s : Session) → (finalize view s).0 ≡ ok tt → (finalize view s).1.finalized ≡ true
unfolding finalize stop_background_threads
finalize_done view s h = go s.finalized refl h
  where
    stopped : Session
    stopped = stop_background_threads none s

    finished :
        (o : Result (List RunnerData)) (x : Session)
        → (finish o x).0 ≡ ok tt
        → (finish o x).1.finalized ≡ true
    finished (err e) x h = cc
    finished (ok rs) x h = refl

    go :
        (b : Bool)
        → s.finalized ≡ b
        → (if b then (ok tt, stopped) else clean_up view stopped).0 ≡ ok tt
        → (if b then (ok tt, stopped) else clean_up view stopped).1.finalized ≡ true
    go true e h = e
    go false e h = finished (runner_data_of view s.cluster.runners) _ h

-- No workers are left, every one of them is among the dead workers, none of whom has exited with a
-- bad code, and the cluster has exited and is finalized.
abbrev pub Left : Views → Session → Session → Type 0
Left v s s' =
    (s'.cluster.workers ≡ [])
    × ((n : ℕ)
        → count n s'.cluster.dead_workers
          ≡ count n s.cluster.workers + count n s.cluster.dead_workers)
    × All (Clean v.at_codes) s'.cluster.dead_workers
    × (s'.exited ≡ true)
    × (s'.finalized ≡ true)

-- An `__exit__` of a cluster that has not exited, if it returns, leaves no workers: every one of them
-- is among the dead workers, none of whom has exited with a bad code. The cluster has then exited.
pub exit-Clean :
    (v : Views) (e : Option Error) (s s' : Session)
    → s.exited ≡ false
    → exit v e s ≡ (ok tt, s')
    → Left v s s'
unfolding exit stop_background_threads count
exit-Clean v e s s' fresh h =
    let st = stop_background_threads e s in
    let p = pop_workers v.at_join (reverse_onto s.cluster.workers []) s.cluster.dead_workers in
    let x = popped_session p (
      calls (map stops_process s.cluster.workers ++ map stops_process s.cluster.dead_workers) st) in
    go p (pop_workers-Emptied v.at_join (reverse_onto s.cluster.workers []) s.cluster.dead_workers)
      (finalize v.at_end x) (finalize_keeps v.at_end x) (finalize_done v.at_end x)
      (sym (ap (λ b. if b then (ok tt, s) else exit_stopped v st) fresh) ∙ h)
  where
    go :
        (p : Popped)
        → (p.result ≡ ok tt → Emptied (reverse_onto s.cluster.workers []) s.cluster.dead_workers p)
        → (o : Result (Unit {0}) × Session)
        → (o.1.cluster.workers ≡ reverse_onto p.left []) × (o.1.cluster.dead_workers ≡ p.dead)
        → (o.0 ≡ ok tt → o.1.finalized ≡ true)
        → leave (judge v.at_codes p) o ≡ (ok tt, s')
        → Left v s s'
    go p emptied (err raised, s4) keeps done q = cc
    go p emptied (ok x, s4) keeps done q =
        let (popped, none_alive, clean) =
          judge-Clean v.at_codes p (ap (λ (o : Result (Unit {0}) × Session). o.0) q) in
        let all = emptied popped in
        subst (Left v s) (ap (λ (o : Result (Unit {0}) × Session). o.1) q) (
          keeps.0 ∙ ap (λ l. reverse_onto l []) all.none_left,
          λ n. rw keeps.1 (
              omega (
                arith,
                all.all_kept n,
                ap (count n) none_alive,
                count-reverse_onto n s.cluster.workers [],
              )),
          subst (All (Clean v.at_codes)) (sym keeps.1) clean,
          refl,
          done refl,
        )
