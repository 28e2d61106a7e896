-- ===== src/External.antt =====
-- demos/resilience-demo/lib/external.py: shell commands and free ports. What a command does and
-- whether a port is free is for the operating system to say: it comes in as an argument.
pub mod Files
pub mod Saved
pub mod Logged
pub mod Cleared
pub mod Ports
mod Tests
use wallaroo.Base.{ℕ, zero, suc, ◌+◌, Bool, true, false, Option, none, some, List, [], ◌∷◌, ◌++◌}
use wallaroo.Base.{
  length, ltb, ◌==◌, if◌then◌else◌, Result, ok, err, ◌>>=◌, os_error, assertion_error,
}
use wallaroo.Base.Text.{Text, codes}

-- How `subprocess.check_output` ends: with the output, with a return code that is not 0, or with an
-- OSError of a number and a text.
pub data Outcome : Type 0 where
  exits : Text → Outcome
  called_process_error : Text → ℕ → List Text → Outcome
  os_fails : ℕ → Text → Outcome

-- The command as it was given, or split.
pub data Command : Type 0 where
  line : Text → Command
  words : List Text → Command

pub record ShellCmdResult : Type 0 where
  pub success : Bool
  pub output : Text
  pub return_code : ℕ
  pub command : Command

-- `run_shell_cmd`; `split` is `shlex.split`.
unfoldable pub run_shell_cmd :
    (Text → List Text) → (List Text → Outcome) → Text → Result ShellCmdResult
run_shell_cmd split shell cmd = elim (shell (split cmd)) [
  | exits out ↦
      ok (record { success = true; output = out; return_code = 0; command = words (split cmd) })
  | called_process_error out code args ↦
      ok (record { success = false; output = out; return_code = code; command = words args })
  | os_fails errno message ↦
      if errno == 2
      then ok (record { success = false; output = message; return_code = 2; command = line cmd })
      else err os_error
]

-- `assert(res.success)`, and the output.
abbrev pub output_of : ShellCmdResult → Result Text
output_of res = if res.success then ok res.output else err assertion_error

-- `send_shrink_command`
unfoldable pub send_shrink_command :
    (Text → List Text) → (List Text → Outcome) → Text → Text → Result Text
unfolding run_shell_cmd
send_shrink_command split shell addr workers =
    run_shell_cmd split shell
      (codes "cluster_shrinker --external " ++ (addr ++ (codes " --workers " ++ workers)))
    >>= output_of

-- `while len(ports) < num`, with fuel.
unfoldable pub ports_loop : (ℕ → Bool) → ℕ → ℕ → ℕ → List ℕ → Option (List ℕ)
ports_loop is_free zero num base_port ports = none
ports_loop is_free (suc fuel) num base_port ports =
    let more =
      ports_loop is_free fuel num (base_port + 1)
        (if is_free base_port then ports ++ base_port ∷ [] else ports) in
    if ltb (length ports) num then more else some ports

unfoldable pub get_port_values : (ℕ → Bool) → ℕ → ℕ → ℕ → Option (List ℕ)
unfolding ports_loop
get_port_values is_free fuel num base_port = ports_loop is_free fuel num base_port []
