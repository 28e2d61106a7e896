-- ===== src/Cluster/Init/Tests.antt =====
-- A cluster of one worker and one sink on the first free ports.
use wallaroo.Base.{
  ℕ, ◌==◌, ◌≡◌, refl, Bool, true, false, none, some, List, [], ◌∷◌, ◌++◌, map, length, ok, err,
  cluster_error, ◌⊎◌, if◌then◌else◌,
}
use wallaroo.Base.Text.{codes, intercalate}
use wallaroo.Base.Dict.{lookup, text_eq}
use wallaroo.External.{get_port_values}
use wallaroo.External.Ports.{IsRising}
use wallaroo.Cluster.{Cluster, starts, exited, status}
use wallaroo.Cluster.Start.{start_runners, digits}
use wallaroo.Cluster.Steps.{new_cluster}
use wallaroo.Cluster.Exit.{Session}
use wallaroo.Cluster.Init.{
  Config, Startup, new_session, address, start_sinks, sink_addrs_of, split_addresses, no_settings,
  init,
}
use wallaroo.Cluster.Init.Ports.{all_addresses, split_addresses-all}
use wallaroo.Cluster.Init.Failing.{site_of, init_leaves_started}

abbrev config : Config
config = record {
  command = codes "app";
  host = codes "h";
  sources = 1;
  workers = 1;
  sinks = 1;
  res_dir = codes "/tmp/r";
}

abbrev is_free : ℕ → Bool
is_free p = if p == 20001 then false else true

abbrev ports : List ℕ
ports = 20000 ∷ 20002 ∷ 20003 ∷ 20004 ∷ []

split_addresses-all_example :
    IsRising is_free 20000 20007 ports
    × (length (split_addresses config ports).0 ≡ 1)
    × (length (split_addresses config ports).1 ≡ 1)
    × ((split_addresses config ports).0 ++ all_addresses (split_addresses config ports).1
        ≡ map (address (codes "h")) ports)
unfolding get_port_values
split_addresses-all_example = split_addresses-all is_free 7 20000 config ports refl

-- The runner has exited when it is looked at.
abbrev startup : Startup
startup = record {
  set_up = ok tt;
  metrics_addr = ok (codes "h:1");
  sink_error = λ i. none;
  sink_addr = λ i. ok (codes "h:2");
  is_free = is_free;
  fuel = 7;
  view = λ r. exited (status 1);
  failure = λ r. none;
  not_ready = none;
  not_counted = none;
  last_view = λ r. exited (status 1);
}

abbrev one_sink : Session
one_sink = record new_session { sinks = 0 ∷ [] }

abbrev crashed : Cluster
crashed =
    (start_runners (site_of config (codes "h:1") (codes "h:2" ∷ []) ports) no_settings startup.view
      startup.failure (split_addresses config ports).1 1 new_cluster).1

init_leaves_started_example :
    ((init config startup).0 ≡ some (err cluster_error))
    × (((init config startup).1.cluster.events ≡ map starts crashed.workers)
        ⊎ ((init config startup).1.cluster.events ≡ []))
unfolding get_port_values start_sinks sink_addrs_of split_addresses new_session new_cluster
    start_runners lookup text_eq intercalate digits
init_leaves_started_example =
    init_leaves_started config startup (codes "h:1") one_sink (codes "h:2" ∷ []) ports cluster_error
      crashed refl refl refl refl refl refl
