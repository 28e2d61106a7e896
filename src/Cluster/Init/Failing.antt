-- ===== src/Cluster/Init/Failing.antt =====
-- What a start of demos/resilience-demo/lib/cluster.py that raises leaves running.
use wallaroo.Base.{
  ℕ, zero, suc, ◌+◌, ◌*◌, ◌≡◌, refl, sym, ap, ◌∙◌, false, Option, none, some, List, [], ◌∷◌, ◌++◌,
  map, append-nil,
}
use wallaroo.Base.{Error, Result, ok, err, ◌>>=◌}
use wallaroo.Base.Text.{Text}
use wallaroo.External.{get_port_values}
use wallaroo.Cluster.{Runner, Cluster, View, Event, kills, starts}
use wallaroo.Cluster.Commands.{Site}
use wallaroo.Cluster.Start.{Addresses, Settings, start_runners, start_made, make_runners, Made}
use wallaroo.Cluster.Steps.{new_cluster}
use wallaroo.Cluster.Exit.{Session, finalize}
use wallaroo.Cluster.Exit.Killed.{Started, finalize_kills}
use wallaroo.Base.{All, ◌⊎◌, inl, inr}
use mathlib.Core.Path.{subst}
use wallaroo.Cluster.Init.{
  Config, Startup, new_session, and_step, raise_if, start_sinks, sink_addrs_of, split_addresses,
  no_settings, start_on, start_everything, end_start, init,
}

-- Starting the sinks leaves the rest of the session.
start_sinks_keeps :
    (f : ℕ → Option Error) (i n : ℕ) (s : Session)
    → let s' = (start_sinks f i n s).1 in (s'.cluster ≡ s.cluster) × (s'.finalized ≡ s.finalized)
unfolding start_sinks
start_sinks_keeps f i zero s = (refl, refl)
start_sinks_keeps f i (suc n) s =
    go (f i) (start_sinks_keeps f (suc i) n (record s { sinks = s.sinks ++ i ∷ [] }))
  where
    more : Session
    more = record s { sinks = s.sinks ++ i ∷ [] }

    go :
        (o : Option Error)
        → ((start_sinks f (suc i) n more).1.cluster ≡ s.cluster)
          × ((start_sinks f (suc i) n more).1.finalized ≡ s.finalized)
        → ((and_step (raise_if o more) (start_sinks f (suc i) n)).1.cluster ≡ s.cluster)
          × ((and_step (raise_if o more) (start_sinks f (suc i) n)).1.finalized ≡ s.finalized)
    go none ih = ih
    go (some e) ih = (refl, refl)

-- The runners that are made are among the workers, and not yet among the runners.
start_runners_keeps :
    (site : Site) (settings : Settings) (view : View) (failure : Runner → Option Error)
    (addrs : List Addresses) (n : ℕ) (c : Cluster)
    → (start_runners site settings view failure addrs n c).1.runners ≡ c.runners
unfolding start_runners
start_runners_keeps site settings view failure addrs n c =
    go (make_runners site settings c.next_ident addrs n)
  where
    go : (m : Made) → (start_made view failure c m).1.runners ≡ c.runners
    go (rs, err e) = refl
    go (rs, ok done) = refl

-- The session when the start of the runners has raised.
abbrev after_runners : Session → Cluster → Session
after_runners s c = record s { cluster = c }

finalize_unregistered :
    (view : View) (e : Error) (s : Session) (c : Cluster)
    → s.finalized ≡ false
    → c.runners ≡ []
    → let out = end_start view (some (err e), after_runners s c) in
      (out.0 ≡ some (err e)) × (out.1.cluster.events ≡ c.events)
unfolding finalize
finalize_unregistered view e s c f r =
    let k = finalize_kills view (after_runners s c) f in
    let returned : (finalize view (after_runners s c)).0 ≡ ok tt =
      k.2.1 (subst (λ rs. All (Started view) rs) (sym r) tt) in
    (
      ap (λ x. some (x >>= λ u. err e)) returned,
      k.0 ∙ (ap (λ rs. c.events ++ map kills rs) r ∙ append-nil c.events),
    )

-- Runners are started all, or none.
start_runners_events :
    (site : Site) (settings : Settings) (view : View) (failure : Runner → Option Error)
    (addrs : List Addresses) (n : ℕ)
    → let c' = (start_runners site settings view failure addrs n new_cluster).1 in
      (c'.events ≡ map starts c'.workers) ⊎ (c'.events ≡ [])
unfolding start_runners new_cluster
start_runners_events site settings view failure addrs n =
    go (make_runners site settings new_cluster.next_ident addrs n)
  where
    go :
        (m : Made)
        → ((start_made view failure new_cluster m).1.events
            ≡ map starts (start_made view failure new_cluster m).1.workers)
          ⊎ ((start_made view failure new_cluster m).1.events ≡ [])
    go (rs, err e) = inr refl
    go (rs, ok done) = inl refl

abbrev pub site_of : Config → Text → List Text → List ℕ → Site
site_of c metrics sinks ports = record {
  command = c.command;
  source_addrs = (split_addresses c ports).0;
  sink_addrs = sinks;
  metrics_addr = metrics;
  res_dir = c.res_dir;
}

-- Where all goes well up to the ports and the start of the runners then raises, as it does when one
-- of them has exited, that error is raised, and what was called on runners is their start
-- and nothing else: the runners that were started are not killed.
pub init_leaves_started :
    (c : Config) (w : Startup) (metrics : Text) (s1 : Session) (sinks : List Text) (ports : List ℕ)
    (e : Error) (c' : Cluster)
    → w.set_up ≡ ok tt
    → w.metrics_addr ≡ ok metrics
    → start_sinks w.sink_error 0 c.sinks new_session ≡ (some (ok tt), s1)
    → sink_addrs_of w.sink_addr s1.sinks ≡ ok sinks
    → get_port_values w.is_free w.fuel (c.sources + 3 * c.workers) 20000 ≡ some ports
    → start_runners
        (site_of c metrics sinks ports)
        no_settings
        w.view
        w.failure
        (split_addresses c ports).1
        c.workers
        new_cluster
      ≡ (err e, c')
    → ((init c w).0 ≡ some (err e))
      × (((init c w).1.cluster.events ≡ map starts c'.workers) ⊎ ((init c w).1.cluster.events ≡ []))
unfolding init start_everything new_session new_cluster start_on
init_leaves_started c w metrics s1 sinks ports e c' su me st si po ru =
    let keeps = start_sinks_keeps w.sink_error 0 c.sinks new_session in
    let same : s1.cluster ≡ new_cluster = ap (λ r. r.1.cluster) (sym st) ∙ keeps.0 in
    let fresh : s1.finalized ≡ false = ap (λ r. r.1.finalized) (sym st) ∙ keeps.1 in
    let none_kept : c'.runners ≡ [] =
      ap (λ r. r.1.runners) (sym ru)
      ∙ start_runners_keeps (site_of c metrics sinks ports) no_settings w.view w.failure
          (split_addresses c ports).1 c.workers new_cluster in
    let events : (c'.events ≡ map starts c'.workers) ⊎ (c'.events ≡ []) =
      subst
        (λ (r : Result (Unit {0}) × Cluster).
          (r.1.events ≡ map starts r.1.workers) ⊎ (r.1.events ≡ []))
        ru
        (start_runners_events (site_of c metrics sinks ports) no_settings w.view w.failure
          (split_addresses c ports).1 c.workers) in
    let out = finalize_unregistered w.last_view e s1 c' fresh none_kept in
    let ran : start_everything c w new_session ≡ (some (err e), after_runners s1 c') =
      rw (su, me, st, si, po, same, ru) refl in
    rw ran (out.0, either out.1 events)
  where
    either :
        {es : List Event}
        → es ≡ c'.events
        → (c'.events ≡ map starts c'.workers) ⊎ (c'.events ≡ [])
        → (es ≡ map starts c'.workers) ⊎ (es ≡ [])
    either p (inl q) = inl (p ∙ q)
    either p (inr q) = inr (p ∙ q)
