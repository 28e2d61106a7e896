-- ===== src/Observability.antt =====
-- demos/resilience-demo/lib/observability.py: the queries of a cluster by `external_sender`, and the
-- map of partitions that is made of their responses. `json.loads` and the shell are parameters.
pub mod Additions
pub mod Partitions
pub mod Notifier
pub mod Outputs
mod Tests
use wallaroo.Base.{Option, some, none, List, [], ◌∷◌, ◌++◌, if◌then◌else◌, Result, ok, err, ◌>>=◌}
use wallaroo.Base.{key_error, duplicate_key_error}
use wallaroo.Base.Text.{Text, codes}
use wallaroo.Base.Dict.{Eq, text_eq, Dict, lookup, insert}
use wallaroo.External.{Outcome, run_shell_cmd, output_of}

-- `QUERY_TYPES`
abbrev pub query_types : Dict Text Text
query_types =
    (codes "partition-query", codes "partition-query")
    ∷ (codes "partition-counts", codes "partition-count-query")
    ∷ (codes "cluster-status", codes "cluster-status-query")
    ∷ (codes "state-entity-query", codes "state-entity-query")
    ∷ []

abbrev pub or_key_error : Option Text → Result Text
or_key_error none = err key_error
or_key_error (some t) = ok t

-- `external_sender_query`
unfoldable pub external_sender_query :
    (Text → List Text) → (List Text → Outcome) → Text → Text → Result Text
unfolding run_shell_cmd
external_sender_query split shell addr query_type = do
  t ← or_key_error (lookup query_type query_types)
  res ← run_shell_cmd split shell (
      codes "external_sender --external " ++ (addr ++ (codes " --type " ++ (t ++ codes " --json"))))
  output_of res

module _ {J : Type 0} (split : Text → List Text) (shell : List Text → Outcome)
    (loads : Text → Result J) where
  unfoldable pub partitions_query : Text → Result J
  unfolding external_sender_query
  partitions_query addr = do
    stdout ← external_sender_query split shell addr (codes "partition-query")
    loads stdout

  unfoldable pub cluster_status_query : Text → Result J
  unfolding external_sender_query
  cluster_status_query addr = do
    stdout ← external_sender_query split shell addr (codes "cluster-status")
    loads stdout

  unfoldable pub partition_counts_query : Text → Result J
  unfolding external_sender_query
  partition_counts_query addr = do
    stdout ← external_sender_query split shell addr (codes "partition-counts")
    loads stdout

  unfoldable pub state_entity_query : Text → Result J
  unfolding external_sender_query
  state_entity_query addr = do
    stdout ← external_sender_query split shell addr (codes "state-entity-query")
    loads stdout

  -- `for name, addr in addresses`, into the responses.
  unfoldable pub multi_states_from : List (Text × Text) → Dict Text J → Result (Dict Text J)
  unfolding external_sender_query
  multi_states_from [] responses = ok responses
  multi_states_from ((name, addr) ∷ addresses) responses = do
    resp ← external_sender_query split shell addr (codes "state-entity-query")
    parsed ← loads resp
    multi_states_from addresses (insert name parsed responses)

  unfoldable pub multi_states_query : List (Text × Text) → Result (Dict Text J)
  unfolding multi_states_from
  multi_states_query addresses = multi_states_from addresses []

module _ {K : Type 0} ⦃e : Eq K⦄ where
  abbrev pub or_empty : Option (Dict K K) → Dict K K
  or_empty none = []
  or_empty (some d) = d

  abbrev pub unless_there : Option K → Result (Dict K K) → Result (Dict K K)
  unless_there (some _) rest = err duplicate_key_error
  unless_there none rest = rest

  -- `for part in responses[worker][step]`
  unfoldable pub add_parts : K → List K → Dict K K → Result (Dict K K)
  add_parts worker [] steps = ok steps
  add_parts worker (part ∷ parts) steps =
      unless_there (lookup part steps) (add_parts worker parts (insert part worker steps))

  -- `for step in responses[worker].keys()`
  unfoldable pub add_steps : K → Dict K (List K) → Dict K (Dict K K) → Result (Dict K (Dict K K))
  unfolding add_parts
  add_steps worker [] steps = ok steps
  add_steps worker ((step, parts) ∷ rest) steps = do
    d ← add_parts worker parts (or_empty (lookup step steps))
    add_steps worker rest (insert step d steps)

  -- `for worker in responses.keys()`
  unfoldable pub add_workers :
      Dict K (Dict K (List K)) → Dict K (Dict K K) → Result (Dict K (Dict K K))
  unfolding add_steps
  add_workers [] steps = ok steps
  add_workers ((worker, row) ∷ rest) steps = do
    steps' ← add_steps worker row steps
    add_workers rest steps'

  unfoldable pub coalesce_partition_query_responses :
      Dict K (Dict K (List K)) → Result (Dict K (Dict K K))
  unfolding add_workers
  coalesce_partition_query_responses responses = add_workers responses []
