-- ===== src/Cluster/Exit/Killed.antt =====
-- What `__finally__` has killed.
use wallaroo.Base.{◌≡◌, refl, sym, ap, true, false, Option, none, List, [], ◌∷◌}
use wallaroo.Base.{◌↔◌, ◌++◌, map, All, if◌then◌else◌, Result, ok, err, >>=-eq-ok}
use mathlib.Core.Path.{subst}
use wallaroo.Cluster.{Runner, View, Code, poll, kills}
use wallaroo.Cluster.Exit.{
  Session, finalize, clean_up, finish, runner_data_of, RunnerData, stop_background_threads,
}

abbrev pub Started : View → Runner → Type 0
Started view r = (code : Option Code) × (poll (view r) ≡ ok code)

runner_data_of-Started :
    (view : View) (rs : List Runner)
    → ((ds : List RunnerData) × (runner_data_of view rs ≡ ok ds)) ↔ All (Started view) rs
unfolding runner_data_of
runner_data_of-Started view [] = (λ h. tt, λ h. ([], refl))
runner_data_of-Started view (r ∷ rs) =
    let ih = runner_data_of-Started view rs in
    (
      λ (ds, h).
          let (code, polled, more) = >>=-eq-ok (poll (view r)) _ h in
          let (rest, others, last) = >>=-eq-ok (runner_data_of view rs) _ more in
          ((code, polled), ih.0 (rest, others)),
      λ ((code, polled), h).
          let (rest, others) = ih.1 h in
          (
            record { name = r.name; command = r.command; returncode = code } ∷ rest,
            rw (polled, others) refl,
          ),
    )

finish_facts :
    (o : Result (List RunnerData)) (s : Session)
    → s.finalized ≡ false
    → ((finish o s).1.cluster.events ≡ s.cluster.events)
      × (((finish o s).0 ≡ ok tt) ↔ ((finish o s).1.finalized ≡ true))
      × (((finish o s).0 ≡ ok tt) ↔ ((ds : List RunnerData) × (o ≡ ok ds)))
finish_facts (err e) s fresh = (refl, (λ h. cc, λ h. cc), (λ h. cc, λ (ds, h). cc))
finish_facts (ok rs) s fresh = (refl, (λ h. refl, λ h. refl), (λ h. (rs, refl), λ h. refl))

-- Every runner is killed; the end is for good where it returns, and it returns where every runner has
-- started.
abbrev pub AllKilled : View → Session → Result (Unit {0}) × Session → Type 0
AllKilled view s o =
    (o.1.cluster.events ≡ s.cluster.events ++ map kills s.cluster.runners)
    × ((o.0 ≡ ok tt) ↔ (o.1.finalized ≡ true))
    × ((o.0 ≡ ok tt) ↔ All (Started view) s.cluster.runners)

-- The first `__finally__` kills every runner, whether it returns or raises. It is done for good just
-- where it returns, and it returns just where every runner has started.
pub finalize_kills :
    (view : View) (s : Session) → s.finalized ≡ false → AllKilled view s (finalize view s)
unfolding finalize stop_background_threads
finalize_kills view s fresh =
    let stopped = stop_background_threads none s in
    let facts = finish_facts (runner_data_of view s.cluster.runners) _ fresh in
    let starting = runner_data_of-Started view s.cluster.runners in
    subst (AllKilled view s)
      (sym (ap (λ b. if b then (ok tt, stopped) else clean_up view stopped) fresh))
      (facts.0, facts.1, (λ h. starting.0 (facts.2.0 h), λ h. facts.2.1 (starting.1 h)))
