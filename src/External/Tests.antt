-- ===== src/External/Tests.antt =====
-- Ports, directories and logs at concrete inputs.
use wallaroo.Base.{ℕ, ◌≡◌, refl, Bool, true, false, List, [], ◌∷◌, ◌==◌, if◌then◌else◌, length}
use wallaroo.Base.{◌+◌, none, some, inr, Result, ok}
use wallaroo.Base.Text.{Text, codes}
use wallaroo.Base.Dict.{lookup, insert, erase, text_eq}
use wallaroo.External.{get_port_values}
use wallaroo.External.Files.{
  file, directory, System, Rights, exists, create_resilience_dir, setup_resilience_path,
  clean_resilience_path, makedirs_if_not_exists, RunnerLog, Logs, write_all, move_all, save_cores,
  save_in, save_logs_to_file, EndPointLog,
}
use wallaroo.External.Saved.{found, save_logs_to_file-last_written}
use wallaroo.External.Cleared.{IsCleared, setup_resilience_path-IsCleared}
use wallaroo.External.Ports.{IsRising, get_port_values-IsRising}

-- All ports are free but 20001.
abbrev is_free : ℕ → Bool
is_free p = if p == 20001 then false else true

abbrev two_ports : List ℕ
two_ports = 20000 ∷ 20002 ∷ []

ports_rise : (length two_ports ≡ 2) × IsRising is_free 20000 20005 two_ports
unfolding get_port_values
ports_rise = get_port_values-IsRising is_free 5 2 20000 two_ports refl

abbrev all_rights : Rights
all_rights = record {
  may_make = λ d. true;
  may_remove = λ d n. true;
  may_remove_tree = λ d n. true;
  may_write = λ d n. true;
  may_move = λ n. true;
}

abbrev date_text : ℕ → Result Text
date_text n = ok ((48 + n) ∷ [])

abbrev log_of : Text → RunnerLog ℕ
log_of out = record {
  name = codes "w1";
  pid = codes "7";
  returncode = codes "0";
  stdout = out;
  start_time = some 3;
}

-- Two runners of one name, process and start.
abbrev logs : Logs ℕ
logs = record {
  log_stream = none;
  runner_data = log_of (codes "a") ∷ log_of (codes "b") ∷ [];
  sender_data = [];
  sink_data = [];
}

abbrev core_file : Text
core_file = codes "core.1"

abbrev before : System
before =
    (codes ".", (core_file, file []) ∷ [])
    ∷ (codes "res", (codes "old", file []) ∷ (codes "sub", directory) ∷ [])
    ∷ []

last_log_kept :
    found
      (codes "logs")
      (codes "w1.7.0.3.error.log")
      (save_logs_to_file date_text all_rights (codes ".") (codes "logs") logs before)
    ≡ some (file (codes "--- w1 (pid: 7, rc: 0) ->\n\nb\n\n--- w1 (pid: 7, rc: 0) <-"))
unfolding text_eq lookup
last_log_kept =
    save_logs_to_file-last_written date_text all_rights (codes ".") (codes "logs") logs before
      (codes "w1.7.0.3.error.log") (record { writes = λ n. refl; moves = λ n. refl }) (inr refl)
      refl

-- The data of a sender or a sink that started at 4.
abbrev data_of : Text → EndPointLog ℕ
data_of chunk = record {
  address = codes "h:1";
  start_time = some 4;
  chunks = chunk ∷ codes "!" ∷ [];
}

abbrev all_logs : Logs ℕ
all_logs = record {
  log_stream = some (codes "log");
  runner_data = log_of (codes "a") ∷ [];
  sender_data = data_of (codes "in") ∷ [];
  sink_data = data_of (codes "out") ∷ [];
}

core_moves :
    found
      (codes "logs")
      core_file
      (save_logs_to_file date_text all_rights (codes ".") (codes "logs") logs before)
    ≡ some (file [])
unfolding save_logs_to_file save_in save_cores write_all move_all makedirs_if_not_exists text_eq
    lookup insert erase
core_moves = refl

abbrev cleared : System
cleared = (codes ".", (core_file, file []) ∷ []) ∷ (codes "res", (codes "sub", directory) ∷ []) ∷ []

res_cleared : IsCleared all_rights (codes "res") before cleared
unfolding setup_resilience_path create_resilience_dir text_eq lookup insert
res_cleared = setup_resilience_path-IsCleared all_rights (codes "res") before cleared refl

cleaned : exists (codes "res") (clean_resilience_path all_rights false (codes "res") before) ≡ false
unfolding clean_resilience_path text_eq lookup insert erase
cleaned = refl
