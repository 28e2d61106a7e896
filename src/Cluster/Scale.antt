-- ===== src/Cluster/Scale.antt =====
-- `shrink` and `confirm_migration` of demos/resilience-demo/lib/cluster.py.
pub mod Shrinking
pub mod Migrating
use wallaroo.Base.{
  ℕ, zero, suc, ◌+◌, ◌-◌, ◌*◌, Bool, true, false, Option, none, some, List, [], ◌∷◌, ◌++◌, map,
}
use wallaroo.Base.{length, drop, take, leb, ltb, if◌then◌else◌, Error, Result, ok, err, ◌>>=◌}
use wallaroo.Base.{
  value_error, name_error, cluster_error, crashed_worker_error, not_empty_error, index_error,
}
use wallaroo.Base.Int.{ℤ, pos, negsuc}
use wallaroo.Base.Text.{Text, codes, split, intercalate}
use wallaroo.Base.Dict.{Dict, text_eq, contains}
use wallaroo.Threads.{Tick, look}
use wallaroo.Control.{Attempt, try_until_timeout}
use wallaroo.Observability.{coalesce_partition_query_responses}
use wallaroo.Validation.{Partitions, Workers, validate_migration, minus}
use wallaroo.Cluster.{Runner, Cluster, Outcome, View, remove_first}
use wallaroo.Cluster.Commands.{Site, comma}

-- The responses of one round of queries of the workers, and the time behind it.
abbrev pub Round : Type 0
Round = Result (Dict Text (Dict Text (List Text))) × ℕ

-- `pre_process` and `validate_migration`
unfoldable pub migration_outcome :
    Partitions Text → Workers Text → Result (Dict Text (Dict Text (List Text))) → Result (Unit {0})
migration_outcome pre workers responses = do
  rs ← responses
  post ← coalesce_partition_query_responses rs
  validate_migration pre post workers

abbrev pub migration_attempt : Partitions Text → Workers Text → Round → Attempt
migration_attempt pre workers (responses, t) = record {
  outcome = migration_outcome pre workers responses;
  elapsed = t;
}

abbrev pub raise_of : Option Error → Result (Unit {0})
raise_of none = ok tt
raise_of (some e) = err e

-- `confirm_migration`; the rounds reach the end of its TryUntilTimeout, for which it waits.
unfoldable pub confirm_migration :
    ℕ → List Round → Partitions Text → Workers Text → Result (Unit {0})
unfolding migration_outcome
confirm_migration timeout rounds pre workers =
    raise_of
      (try_until_timeout timeout (map (λ r. look (migration_attempt pre workers r)) rounds)).error

-- What the shell and the workers answer to an operation: the partitions before, the response to the
-- shrink command, and the rounds of queries behind it.
pub record Answers : Type 0 where
  pub before : Result (Partitions Text)
  pub command : Text → Text → Result Text
  pub rounds : List Round
  pub timeout : ℕ

-- `workers`: names in a text, or a number.
pub data Leaving : Type 0 where
  by_names : Text → Leaving
  by_number : ℤ → Leaving

abbrev pub names_of : List Runner → List Text
names_of [] = []
names_of (r ∷ rs) = r.name ∷ names_of rs

-- `self.workers[-n:]`
abbrev pub last_workers : ℤ → List Runner → List Runner
last_workers (pos zero) rs = rs
last_workers (pos (suc n)) rs = drop (length rs - suc n) rs
last_workers (negsuc n) rs = drop (suc n) rs

-- `len(self.workers) <= n`
abbrev pub too_few : List Runner → ℤ → Bool
too_few rs (pos n) = leb (length rs) n
too_few rs (negsuc n) = false

-- `filter(lambda w: w.name in snames, self.workers)`
unfoldable pub named_in : List Text → List Runner → List Runner
named_in names [] = []
named_in names (r ∷ rs) =
    let rest = named_in names rs in if contains names r.name then r ∷ rest else rest

-- The first worker whose name stays.
unfoldable pub first_staying : List Text → List Runner → Option Runner
first_staying staying [] = none
first_staying staying (r ∷ rs) =
    let rest = first_staying staying rs in if contains staying r.name then some r else rest

abbrev pub first_of : List Runner → Option Runner
first_of [] = none
first_of (r ∷ rs) = some r

abbrev pub address_of : Option Runner → List Runner → Result (Text × List Runner)
address_of none leaving = err index_error
address_of (some r) leaving = ok (r.external, leaving)

abbrev pub is_nil {ℓ} : {A : Type ℓ} → List A → Bool
is_nil [] = true
is_nil (a ∷ rest) = false

-- The address that the command is sent to, and the runners that leave.
unfoldable pub choose_leaving : Leaving → List Runner → Result (Text × List Runner)
unfolding named_in first_staying
choose_leaving (by_names text) rs =
    let snames = split comma text in
    let complement = minus (names_of rs) snames in
    if is_nil complement
    then err value_error
    else address_of (first_staying complement rs) (named_in snames rs)
choose_leaving (by_number n) rs =
    if too_few rs n then err value_error else address_of (first_of rs) (last_workers n rs)

abbrev pub remove_next :
    Option (List Runner)
    → List Runner
    → (List Runner → Result (Unit {0}) × List Runner)
    → Result (Unit {0}) × List Runner
remove_next none rs go = (err value_error, rs)
remove_next (some rest) rs go = go rest

-- `for w in leaving: self.workers.remove(w)`, and the workers that are left.
unfoldable pub remove_all : List Runner → List Runner → Result (Unit {0}) × List Runner
remove_all [] rs = (ok tt, rs)
remove_all (r ∷ leaving) rs = remove_next (remove_first r rs) rs (remove_all leaving)

abbrev pub confirmed : Bool → Answers → Partitions Text → Workers Text → Result (Unit {0})
confirmed false a pre workers = ok tt
confirmed true a pre workers = confirm_migration a.timeout a.rounds pre workers

abbrev pub partitions_if : Bool → Answers → Result (Partitions Text)
partitions_if false a = ok []
partitions_if true a = a.before

-- What is left to do when the runners that leave are known, up to the command.
abbrev pub send_shrink : Bool → Answers → Text × List Runner → Result (Partitions Text)
send_shrink with_test a (address, leaving) = do
  pre ← partitions_if with_test a
  response ← a.command address (intercalate comma (names_of leaving))
  ok pre

abbrev pub shrunk :
    Bool
    → Answers
    → Cluster
    → List Runner
    → Partitions Text
    → Result (Unit {0}) × List Runner
    → Outcome (List Runner)
shrunk with_test a c leaving pre (err e, rest) = (err e, record c { workers = rest })
shrunk with_test a c leaving pre (ok done, rest) = (
  confirmed with_test a pre (record { joining = some []; leaving = some (names_of leaving) })
      >>= λ _. ok leaving,
  record c { workers = rest; dead_workers = c.dead_workers ++ leaving },
)

abbrev pub after_command :
    Bool → Answers → Cluster → List Runner → Result (Partitions Text) → Outcome (List Runner)
after_command with_test a c leaving (err e) = (err e, c)
after_command with_test a c leaving (ok pre) =
    shrunk with_test a c leaving pre (remove_all leaving c.workers)

abbrev pub shrink_chosen :
    Bool → Answers → Cluster → Result (Text × List Runner) → Outcome (List Runner)
shrink_chosen with_test a c (err e) = (err e, c)
shrink_chosen with_test a c (ok (address, leaving)) =
    after_command with_test a c leaving (send_shrink with_test a (address, leaving))

-- `shrink`
unfoldable pub shrink : Bool → Answers → Leaving → Cluster → Outcome (List Runner)
unfolding choose_leaving remove_all confirm_migration
shrink with_test a which c = shrink_chosen with_test a c (choose_leaving which c.workers)
