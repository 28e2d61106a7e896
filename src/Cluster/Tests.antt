-- ===== src/Cluster/Tests.antt =====
-- The cluster at concrete inputs.
use wallaroo.Base.{map}
use wallaroo.Base.Slice.{slice}
use wallaroo.Base.{
  ℕ, zero, ◌+◌, ◌<◌, ◌≡◌, refl, ap, ◌==◌, if◌then◌else◌, ◌>>=◌, true, false, Option, none, some,
  List, [], ◌∷◌, ◌++◌, arith,
}
use wallaroo.Base.{ok, err, Error, length, attribute_error, value_error}
use wallaroo.Base.Int.{pos, negsuc}
use wallaroo.Base.Text.{Text, codes, intercalate}
use wallaroo.Base.Dict.{Dict, text_eq, nat_eq, lookup, insert, contains}
use wallaroo.Threads.{poll_until}
use wallaroo.Control.{attempt_round, try_until_timeout}
use wallaroo.Observability.{coalesce_partition_query_responses}
use wallaroo.Validation.{Partitions, Workers, validate_migration, same_dict}
use wallaroo.Cluster.{
  Runner, Cluster, View, running, exited, not_started, signalled, the_runner, remove, remove_first,
  stop_worker, restart_worker, Outcome, stop_workers, dead_index,
}
use wallaroo.Validation.Status.{validate_sender_is_flushed}
use wallaroo.Cluster.Senders.{
  BatchLook, SenderThread, SeenFlushed, paused_now, pause_senders, pause_senders-SeenFlushed,
}
use wallaroo.Base.{inl, inr, All}
use wallaroo.Cluster.Accounted.{stop_worker_loses}
use wallaroo.Cluster.Counting.{IsAccounted, TakenOut}
use wallaroo.Cluster.Commands.{Site, Fields, format, make_stub, fill_stub}
use wallaroo.Cluster.Commands.Formatted.{one_pass, all_fields, make_stub-fill_stub}
use wallaroo.Cluster.Start.{Addresses, start_runners}
use wallaroo.Cluster.Scale.{Round, Answers, shrink, by_number, confirm_migration}
use wallaroo.Cluster.Grow.{plain_settings}
use wallaroo.Cluster.Scale.Shrinking.{shrink_leaves_some, shrink_by_zero}
use wallaroo.Cluster.Scale.Migrating.{ValidatedRound, confirm_migration-ValidatedRound}
use wallaroo.Cluster.Steps.{
  new_cluster, keep_started, started, then_step, restarts, stops_all, Reachable-IsAccounted,
}
use wallaroo.Cluster.Exit.{Session, Views, exit, finalize}
use wallaroo.Cluster.Exit.Killed.{AllKilled, finalize_kills}
use wallaroo.Cluster.Exit.Clean.{exit-Clean, Left}

abbrev site : Site
site = record {
  command = codes "app";
  source_addrs = [];
  sink_addrs = codes "h:1" ∷ [];
  metrics_addr = codes "h:2";
  res_dir = codes "/tmp/r";
}

abbrev fields : Fields
fields = record {
  name = codes "worker1";
  initializer_block = [];
  worker_block = codes "--my-control h:3";
  join_block = [];
  alt_block = [];
  spike_block = [];
}

make_stub-fill_stub_example :
    ((make_stub site >>= λ stub. fill_stub stub fields)
      ≡ format one_pass (all_fields site [] (codes "--out h:1") fields))
    × ((t : Text) × (format one_pass (all_fields site [] (codes "--out h:1") fields) ≡ ok t))
unfolding format lookup text_eq intercalate
make_stub-fill_stub_example =
    make_stub-fill_stub site [] (codes "--out h:1") fields refl refl (refl, (refl, (refl, tt))) tt
      (refl, (refl, (refl, (refl, (refl, (refl, (refl, (refl, (refl, tt)))))))))
      (refl, (refl, (refl, tt))) (refl, (refl, (refl, (refl, (refl, (refl, tt))))))

-- A command with a brace breaks the second pass.
command_with_brace :
    (make_stub (record site { command = codes "a{b" }) >>= λ stub. fill_stub stub fields)
    ≡ err value_error
unfolding make_stub fill_stub format lookup text_eq intercalate
command_with_brace = refl

abbrev addresses : ℕ → Addresses
addresses n = record {
  my_control = codes "h:" ++ ((48 + n) ∷ []);
  my_data = codes "h:1" ++ ((48 + n) ∷ []);
  my_external = codes "h:2" ++ ((48 + n) ∷ []);
}

abbrev all_run : View
all_run r = running

abbrev no_failure : Runner → Option Error
no_failure r = none

abbrev started_two : Cluster
started_two =
    (start_runners site plain_settings all_run no_failure (addresses 0 ∷ addresses 1 ∷ []) 2
      new_cluster).1

started_two-ok :
    (start_runners site plain_settings all_run no_failure
      (addresses 0 ∷ addresses 1 ∷ [])
      2
      new_cluster).0
    ≡ ok tt
unfolding start_runners new_cluster lookup text_eq nat_eq intercalate
started_two-ok = refl

ok_pair : {A : Type 0} (o : Outcome A) (a : A) → o.0 ≡ ok a → o ≡ (ok a, o.1)
ok_pair (r, c) a e = ap (λ x. (x, c)) e

-- Two workers are started, all are stopped, and one is restarted.
abbrev restarted : Cluster
restarted =
    (restart_worker 5 ((all_run, 1) ∷ []) (dead_index (pos 1))
      (stop_workers (keep_started started_two))).1

Reachable-IsAccounted_example : IsAccounted restarted
Reachable-IsAccounted_example = Reachable-IsAccounted restarted (
    then_step
      (then_step
        (started site plain_settings all_run no_failure (addresses 0 ∷ addresses 1 ∷ []) 2 (
          ok_pair
            (start_runners site plain_settings all_run no_failure (addresses 0 ∷ addresses 1 ∷ []) 2
              new_cluster)
            tt started_two-ok))
        stops_all)
      (restarts 5 ((all_run, 1) ∷ []) (dead_index (pos 1))))

abbrev runner : ℕ → Runner
runner n = record {
  ident = n;
  name = codes "w" ++ ((48 + n) ∷ []);
  command = [];
  control = [];
  data_addr = [];
  external = codes "h:" ++ ((48 + n) ∷ []);
}

abbrev three : Cluster
three = record {
  workers = runner 0 ∷ runner 1 ∷ runner 2 ∷ [];
  dead_workers = [];
  restarted_workers = [];
  runners = runner 0 ∷ runner 1 ∷ runner 2 ∷ [];
  worker_id_counter = 3;
  next_ident = 3;
  events = [];
}

-- The partition moves from worker `w2` to `w0`.
abbrev row : Text → Dict Text (Dict Text (List Text))
row worker = (worker, (codes "s", codes "k" ∷ []) ∷ []) ∷ []

abbrev owned_by : Text → Partitions Text
owned_by worker = (codes "s", (codes "k", worker) ∷ []) ∷ []

abbrev migrated : List Round
migrated = (ok (row (codes "w2")), 1) ∷ (ok (row (codes "w0")), 40) ∷ []

abbrev answers : Answers
answers = record {
  before = ok (owned_by (codes "w2"));
  command = λ address names. ok (codes "ok");
  rounds = migrated;
  timeout = 30;
}

abbrev leaving : Workers Text
leaving = record { joining = some []; leaving = some (codes "w2" ∷ []) }

confirm_migration-ValidatedRound_example : ValidatedRound (owned_by (codes "w2")) leaving migrated
unfolding confirm_migration try_until_timeout poll_until coalesce_partition_query_responses lookup
    validate_migration contains text_eq insert same_dict
confirm_migration-ValidatedRound_example =
    confirm_migration-ValidatedRound 30 (owned_by (codes "w2")) leaving
      ((ok (row (codes "w2")), 1) ∷ []) (ok (row (codes "w0"))) 40 [] (omega arith) refl

abbrev two_left : Cluster
two_left = record three { workers = runner 0 ∷ runner 1 ∷ []; dead_workers = runner 2 ∷ [] }

two_stay :
    (length (runner 2 ∷ []) ≡ 1)
    × (length two_left.workers + 1 ≡ length three.workers)
    × (0 < length two_left.workers)
unfolding shrink remove_first try_until_timeout poll_until coalesce_partition_query_responses lookup
    validate_migration contains text_eq insert same_dict
two_stay = shrink_leaves_some true answers 0 three (runner 2 ∷ []) two_left refl

all_shrunk :
    ((shrink false answers (by_number (pos zero)) three).0 ≡ ok three.workers)
    × ((shrink false answers (by_number (pos zero)) three).1.workers ≡ [])
    × ((shrink false answers (by_number (pos (length three.workers))) three).0 ≡ err value_error)
all_shrunk =
    shrink_by_zero answers three (runner 0) (runner 1 ∷ runner 2 ∷ []) (codes "ok") refl refl

worker_lost :
    ((stop_worker (the_runner (runner 1)) three).0 ≡ err attribute_error)
    × TakenOut (runner 1) three.workers (stop_worker (the_runner (runner 1)) three).1.workers
    × ((stop_worker (the_runner (runner 1)) three).1.dead_workers ≡ three.dead_workers)
    × ((stop_worker (the_runner (runner 1)) three).1.events ≡ three.events)
unfolding remove
worker_lost = stop_worker_loses (runner 1) three (runner 0 ∷ runner 2 ∷ []) refl

abbrev session : Session
session = record {
  cluster = two_left;
  sinks = 0 ∷ [];
  senders = 0 ∷ [];
  stoppables = 0 ∷ 1 ∷ [];
  finalized = false;
  exited = false;
  raised = false;
  runner_data = none;
  cleanups = [];
}

abbrev terminated : View
terminated r = exited (signalled 15)

abbrev views : Views
views = record { at_join = terminated; at_codes = terminated; at_end = terminated }

exit-Clean_example : Left views session (exit views none session).1
unfolding exit
exit-Clean_example = exit-Clean views none session (exit views none session).1 refl refl

-- Runner 1 has not started.
abbrev one_not_started : View
one_not_started r = if r.ident == 1 then not_started else running

finalize_kills_example : AllKilled one_not_started session (finalize one_not_started session)
finalize_kills_example = finalize_kills one_not_started session refl

-- Sender 0 flushes its batch while the other has none.
abbrev batches : SenderThread → List BatchLook
batches s =
    if s.ident == 0 then (codes "m" ∷ [], 1) ∷ ([], 2) ∷ ([], 31) ∷ [] else ([], 1) ∷ ([], 31) ∷ []

abbrev two_senders : List SenderThread
two_senders =
    record { ident = 0; paused = false; stop_event = false }
    ∷ record { ident = 1; paused = false; stop_event = false }
    ∷ []

pause_senders-SeenFlushed_example :
    ((pause_senders 30 batches two_senders).1 ≡ map paused_now two_senders)
    × All (λ s. SeenFlushed (batches (paused_now s))) two_senders
unfolding pause_senders poll_until attempt_round validate_sender_is_flushed
pause_senders-SeenFlushed_example =
    pause_senders-SeenFlushed 30 batches two_senders
      (inr (inr (inl (omega arith))), (inr (inl (omega arith)), tt)) refl

abbrev one_to_four : List ℕ
one_to_four = 1 ∷ 2 ∷ 3 ∷ 4 ∷ []

-- `[1, 2, 3, 4][:-1]` and `[1, 2, 3, 4][-1:0:-2]`
sliced :
    (slice none (some (negsuc 0)) none one_to_four ≡ ok (1 ∷ 2 ∷ 3 ∷ []))
    × (slice (some (negsuc 0)) (some (pos 0)) (some (negsuc 1)) one_to_four ≡ ok (4 ∷ 2 ∷ []))
unfolding slice
sliced = (refl, refl)
