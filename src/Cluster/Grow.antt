-- ===== src/Cluster/Grow.antt =====
-- `grow` of demos/resilience-demo/lib/cluster.py.
pub mod Growing
use wallaroo.Base.{
  ℕ, zero, suc, ◌+◌, ◌-◌, ◌*◌, Bool, true, false, Option, none, some, List, [], ◌∷◌, ◌++◌, map,
}
use wallaroo.Base.{length, drop, take, leb, ltb, if◌then◌else◌, Error, Result, ok, err, ◌>>=◌}
use wallaroo.Base.{
  value_error, name_error, cluster_error, crashed_worker_error, not_empty_error, index_error,
}
use wallaroo.Base.Int.{ℤ, pos, negsuc}
use wallaroo.Base.Text.{Text, codes, split, intercalate}
use wallaroo.Base.Dict.{Dict, text_eq, contains}
use wallaroo.Threads.{Tick, look}
use wallaroo.Control.{Attempt, try_until_timeout}
use wallaroo.Observability.{coalesce_partition_query_responses}
use wallaroo.Validation.{Partitions, Workers, validate_migration, minus}
use wallaroo.Cluster.{Runner, Cluster, Outcome, View, remove_first}
use wallaroo.Cluster.Commands.{Site, comma}
use wallaroo.Cluster.Start.{Addresses, Settings, digits, decimal}
use wallaroo.Cluster.Adding.{add_runner}
use wallaroo.Cluster.Scale.{
  Answers, confirmed, partitions_if, names_of, first_of, confirm_migration,
}

-- What one new worker meets: its addresses, what the runners do before and behind its start, and
-- the errors of their threads.
pub record Joining : Type 0 where
  pub addresses : Addresses
  pub before : View
  pub after : View
  pub failure : Runner → Option Error

-- `["{}:{}".format(self.host, p) for p in new_ports[i*3: i*3 + 3]]`, for each `i`.
unfoldable pub addresses_of : Text → List ℕ → List Addresses
unfolding digits
addresses_of host [] = []
addresses_of host (p ∷ []) = []
addresses_of host (p ∷ q ∷ []) = []
addresses_of host (p ∷ q ∷ r ∷ ports) =
    record {
      my_control = host ++ (codes ":" ++ decimal p);
      my_data = host ++ (codes ":" ++ decimal q);
      my_external = host ++ (codes ":" ++ decimal r);
    }
    ∷ addresses_of host ports

abbrev pub plain_settings : Settings
plain_settings = record { alt_block = []; alt_func = λ x. false; spikes = [] }

-- A runner that was added is counted and kept among the runners.
abbrev pub keep_joined : Runner → Cluster → Cluster
keep_joined r c = record c {
  worker_id_counter = c.worker_id_counter + 1;
  runners = c.runners ++ r ∷ [];
}

abbrev pub grown : Runner → Outcome (List Runner) → Outcome (List Runner)
grown r (err e, c) = (err e, c)
grown r (ok rs, c) = (ok (r ∷ rs), c)

abbrev pub grow_next : Outcome Runner → (Cluster → Outcome (List Runner)) → Outcome (List Runner)
grow_next (err e, c) go = (err e, c)
grow_next (ok r, c) go = grown r (go (keep_joined r c))

abbrev pub add_first : Site → ℕ → Joining → Cluster → Option Runner → Outcome Runner
add_first site by j c none = (err index_error, c)
add_first site by j c (some w) =
    add_runner site plain_settings j.before j.after j.failure c.worker_id_counter by w.control
      j.addresses c

-- `for x in range(by)`, over what each new worker meets.
unfoldable pub grow_loop : Site → ℕ → List Joining → Cluster → Outcome (List Runner)
unfolding add_runner
grow_loop site by [] c = (ok [], c)
grow_loop site by (j ∷ joins) c =
    grow_next (add_first site by j c (first_of c.workers)) (grow_loop site by joins)

abbrev pub confirm_grown :
    Bool → Answers → Partitions Text → Outcome (List Runner) → Outcome (List Runner)
confirm_grown with_test a pre (err e, c) = (err e, c)
confirm_grown with_test a pre (ok rs, c) = (
  confirmed with_test a pre (record { joining = some (names_of rs); leaving = some [] }) >>= λ _.
      ok rs,
  c,
)

abbrev pub grow_from :
    Bool
    → Answers
    → Site
    → List Joining
    → Cluster
    → Result (Partitions Text)
    → Outcome (List Runner)
grow_from with_test a site joins c (err e) = (err e, c)
grow_from with_test a site joins c (ok pre) =
    confirm_grown with_test a pre (grow_loop site (length joins) joins c)

-- `grow(by=len(joins))`
unfoldable pub grow : Bool → Answers → Site → List Joining → Cluster → Outcome (List Runner)
unfolding grow_loop confirm_migration
grow with_test a site joins c = grow_from with_test a site joins c (partitions_if with_test a)
