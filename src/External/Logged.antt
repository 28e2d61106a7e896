-- ===== src/External/Logged.antt =====
-- What each log holds after `save_logs_to_file` of demos/resilience-demo/lib/external.py.
use wallaroo.Base.{false, some, List, [], ◌∷◌, ◌++◌, join, ◌≡◌, All}
use wallaroo.Base.Text.{Text, codes}
use wallaroo.Base.Dict.{same, text_eq}
use wallaroo.External.Files.{file, System, Logs, RunnerLog, EndPointLog}
use wallaroo.External.Saved.{found}

-- No two files have one name.
abbrev pub Distinct : List (Text × Text) → Type 0
Distinct [] = Unit
Distinct ((n, content) ∷ files) = All (λ f. same f.0 n ≡ false) files × Distinct files

module _ {D : Type 0} where
  -- A file holds what a runner has written, between marks.
  abbrev pub RunnerSaved : Text → System → RunnerLog D → Type 0
  RunnerSaved dir s rd =
      (name before behind : Text) × (found dir name s
        ≡ some (file (before ++ (rd.stdout ++ behind))))

  -- A file holds just the data of a sender or a sink.
  abbrev pub DataSaved : Text → System → EndPointLog D → Type 0
  DataSaved dir s d = (name : Text) × (found dir name s ≡ some (file (join d.chunks)))

  pub record AllSaved (dir : Text) (logs : Logs D) (s : System) : Type 0 where
    pub test :
        (t : Text) → logs.log_stream ≡ some t → found dir (codes "test.error.log") s ≡ some (file t)
    pub runners : All (RunnerSaved dir s) logs.runner_data
    pub senders : All (DataSaved dir s) logs.sender_data
    pub sinks : All (DataSaved dir s) logs.sink_data
