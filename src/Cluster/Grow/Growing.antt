-- ===== src/Cluster/Grow/Growing.antt =====
-- What a `grow` leaves of the lists of a cluster.
use wallaroo.Base.{ok-injective}
use wallaroo.Base.{ℕ, ◌≡◌, refl, ap, Bool, Option, none, some, List, [], ◌∷◌, ◌++◌}
use wallaroo.Base.{Result, ok, err, >>=-eq-ok, crashed_worker_error, Error, length}
use wallaroo.Base.Text.{Text}
use mathlib.Core.Path.{subst, subst₂}
use wallaroo.Validation.{Partitions}
use wallaroo.Cluster.{Runner, Cluster, Outcome, View, exited, Code}
use wallaroo.Cluster.Commands.{Site}
use wallaroo.Cluster.Start.{Addresses, Settings}
use wallaroo.Cluster.Adding.{add_runner, add_made, joining_runner, check_joined}
use wallaroo.Cluster.Accounted.{joining-IsAccounted}
use wallaroo.Cluster.Counting.{IsAccounted}
use wallaroo.Cluster.Scale.{Answers, first_of, partitions_if}
use wallaroo.Cluster.Grow.{
  Joining, grow, grow_from, grow_loop, grow_next, grown, keep_joined, add_first, confirm_grown,
}

-- A runner that was added and is kept among the runners leaves the cluster accounted for.
add_made-IsAccounted :
    (after : View) (failure : Runner → Option Error) (c : Cluster) (o : Result Runner) (r : Runner)
    (c' : Cluster)
    → IsAccounted c
    → add_made after failure c o ≡ (ok r, c')
    → IsAccounted (keep_joined r c')
add_made-IsAccounted after failure c (err e) r c' accounted h = cc
add_made-IsAccounted after failure c (ok r0) r c' accounted h =
    let (checked, passed, same_runner) =
      >>=-eq-ok (check_joined (after r0) (failure r0)) (λ _. ok r0)
        (ap (λ (p : Outcome Runner). p.0) h) in
    let there = (add_made after failure c (ok r0)).1 in
    subst₂ (λ x y. IsAccounted (keep_joined x y)) (ok-injective same_runner)
      (ap (λ (p : Outcome Runner). p.1) h)
      (joining-IsAccounted c (keep_joined r0 there) (r0 ∷ []) refl refl refl accounted)

add_first-IsAccounted :
    (site : Site) (by : ℕ) (j : Joining) (c : Cluster) (o : Option Runner) (r : Runner)
    (c' : Cluster)
    → IsAccounted c
    → add_first site by j c o ≡ (ok r, c')
    → IsAccounted (keep_joined r c')
unfolding add_runner
add_first-IsAccounted site by j c none r c' accounted h = cc
add_first-IsAccounted site by j c (some w) r c' accounted h =
    add_made-IsAccounted j.after j.failure c _ r c' accounted h

grow_loop-IsAccounted :
    (site : Site) (by : ℕ) (joins : List Joining) (c : Cluster) (rs : List Runner) (c' : Cluster)
    → IsAccounted c
    → grow_loop site by joins c ≡ (ok rs, c')
    → IsAccounted c'
unfolding grow_loop
grow_loop-IsAccounted site by [] c rs c' accounted h =
    subst IsAccounted (ap (λ (p : Outcome (List Runner)). p.1) h) accounted
grow_loop-IsAccounted site by (j ∷ joins) c rs c' accounted h =
    go (add_first site by j c (first_of c.workers))
      (λ r c1 e. add_first-IsAccounted site by j c (first_of c.workers) r c1 accounted e)
      (λ c1 rs' c2 h1 e. grow_loop-IsAccounted site by joins c1 rs' c2 h1 e) h
  where
    grown_on :
        (r : Runner) (o : Outcome (List Runner))
        → ((rs' : List Runner) (c2 : Cluster) → o ≡ (ok rs', c2) → IsAccounted c2)
        → grown r o ≡ (ok rs, c')
        → IsAccounted c'
    grown_on r (err e, c2) ih q = cc
    grown_on r (ok rs', c2) ih q =
        subst IsAccounted (ap (λ (p : Outcome (List Runner)). p.1) q) (ih rs' c2 refl)

    go :
        (o : Outcome Runner)
        → ((r : Runner) (c1 : Cluster) → o ≡ (ok r, c1) → IsAccounted (keep_joined r c1))
        → ((c1 : Cluster) (rs' : List Runner) (c2 : Cluster)
            → IsAccounted c1
            → grow_loop site by joins c1 ≡ (ok rs', c2)
            → IsAccounted c2)
        → grow_next o (grow_loop site by joins) ≡ (ok rs, c')
        → IsAccounted c'
    go (err e, c1) joined ih q = cc
    go (ok r, c1) joined ih q =
        grown_on r (grow_loop site by joins (keep_joined r c1))
          (λ rs' c2. ih (keep_joined r c1) rs' c2 (joined r c1 refl)) q

-- A grow that returns, with or without the test of the migration, keeps every runner either a worker
-- or a dead worker.
pub grow-IsAccounted :
    (with_test : Bool) (a : Answers) (site : Site) (joins : List Joining) (c : Cluster)
    (rs : List Runner)
    → (c' : Cluster) → IsAccounted c
    → grow with_test a site joins c ≡ (ok rs, c')
    → IsAccounted c'
unfolding grow
grow-IsAccounted with_test a site joins c rs c' accounted h = go (partitions_if with_test a) h
  where
    confirmed_on :
        (pre : Partitions Text) (o : Outcome (List Runner))
        → ((rs' : List Runner) (c2 : Cluster) → o ≡ (ok rs', c2) → IsAccounted c2)
        → confirm_grown with_test a pre o ≡ (ok rs, c')
        → IsAccounted c'
    confirmed_on pre (err e, c2) ih q = cc
    confirmed_on pre (ok rs', c2) ih q =
        subst IsAccounted (ap (λ (p : Outcome (List Runner)). p.1) q) (ih rs' c2 refl)

    go :
        (o : Result (Partitions Text))
        → grow_from with_test a site joins c o ≡ (ok rs, c')
        → IsAccounted c'
    go (err e) q = cc
    go (ok pre) q =
        confirmed_on pre (grow_loop site (length joins) joins c)
          (λ rs' c2. grow_loop-IsAccounted site (length joins) joins c rs' c2 accounted) q

-- A new runner that has exited behind its start raises a CrashedWorkerError. It is then the last of
-- the workers, it is not among the runners, and it was started.
pub add_runner_crashes :
    (site : Site) (settings : Settings) (before after : View) (failure : Runner → Option Error)
    → (worker_id workers : ℕ) (control_addr : Text) (a : Addresses) (c : Cluster) (r : Runner)
      (code : Code)
    → joining_runner site settings before c.workers c.next_ident worker_id workers control_addr a
      ≡ ok r
    → after r ≡ exited code
    → ((add_runner site settings before after failure worker_id workers control_addr a c).0
        ≡ err crashed_worker_error)
      × ((add_runner site settings before after failure worker_id workers control_addr a
            c).1.workers
          ≡ c.workers ++ r ∷ [])
      × ((add_runner site settings before after failure worker_id workers control_addr a
            c).1.runners
          ≡ c.runners)
unfolding add_runner
add_runner_crashes site settings before after failure worker_id workers control_addr a c r code made
      dead =
    rw (made, dead) (refl, refl, refl)
