-- ===== src/External/Files.antt =====
-- The directories and log files of demos/resilience-demo/lib/external.py. The file system is a
-- dictionary of directories by their paths; what it allows and how a date is written are parameters.
use wallaroo.Base.{
  Bool, true, false, not, ◌&&◌, Option, none, some, List, [], ◌∷◌, ◌++◌, map, join, ◌==◌,
}
use wallaroo.Base.{if◌then◌else◌, Result, ok, err, os_error, take}
use wallaroo.Base.Text.{Text, codes}
use wallaroo.Base.Dict.{Dict, lookup, insert, erase, same, text_eq}

pub data Entry : Type 0 where
  file : Text → Entry
  directory : Entry

abbrev pub Entries : Type 0
Entries = Dict Text Entry

abbrev pub System : Type 0
System = Dict Text Entries

-- What the operating system allows, by directory and name. `may_remove` is about files only.
pub record Rights : Type 0 where
  pub may_make : Text → Bool
  pub may_remove : Text → Text → Bool
  pub may_remove_tree : Text → Text → Bool
  pub may_write : Text → Text → Bool
  pub may_move : Text → Bool

abbrev pub exists : Text → System → Bool
exists dir s = elim (lookup dir s) [ none ↦ false | some es ↦ true ]

-- `create_resilience_dir`; a failure is logged.
unfoldable pub create_resilience_dir : Rights → Text → System → System
create_resilience_dir rights dir s = if rights.may_make dir then insert dir [] s else s

-- `os.remove` fails on a directory.
abbrev pub removed : Rights → Text → Text → Entry → Bool
removed rights dir name (file content) = rights.may_remove dir name
removed rights dir name directory = false

abbrev pub remove_files : Rights → Text → Entries → Entries
remove_files rights dir [] = []
remove_files rights dir ((name, e) ∷ es) =
    let rest = remove_files rights dir es in
    if removed rights dir name e then rest else (name, e) ∷ rest

-- `os.listdir` raises where there is no directory.
abbrev pub clear : Rights → Text → System → Option Entries → Result System
clear rights dir s none = err os_error
clear rights dir s (some es) = ok (insert dir (remove_files rights dir es) s)

unfoldable pub setup_resilience_path : Rights → Text → System → Result System
unfolding create_resilience_dir
setup_resilience_path rights dir s =
    let s' = if exists dir s then s else create_resilience_dir rights dir s in
    clear rights dir s' (lookup dir s')

-- `shutil.rmtree` that ignores errors leaves what it may not remove.
abbrev pub remove_tree : Rights → Text → Entries → Entries
remove_tree rights dir [] = []
remove_tree rights dir ((name, e) ∷ es) =
    let rest = remove_tree rights dir es in
    if rights.may_remove_tree dir name then rest else (name, e) ∷ rest

abbrev pub after_tree : Text → Entries → System → System
after_tree dir [] s = erase dir s
after_tree dir (e ∷ es) s = insert dir (e ∷ es) s

abbrev pub rmtree : Rights → Text → System → Option Entries → System
rmtree rights dir s none = s
rmtree rights dir s (some es) = after_tree dir (remove_tree rights dir es) s

-- `keep` says whether KEEP_RESILIENCE_PATH is set.
unfoldable pub clean_resilience_path : Rights → Bool → Text → System → System
clean_resilience_path rights keep dir s =
    if not keep && exists dir s then rmtree rights dir s (lookup dir s) else s

unfoldable pub makedirs_if_not_exists : Rights → Text → System → Result System
makedirs_if_not_exists rights dir s =
    if exists dir s
    then ok s
    else (if rights.may_make dir then ok (insert dir [] s) else err os_error)

-- Numbers and codes as the texts that `format` makes of them.
pub record RunnerLog (D : Type 0) : Type 0 where
  pub name : Text
  pub pid : Text
  pub returncode : Text
  pub stdout : Text
  pub start_time : Option D

pub record EndPointLog (D : Type 0) : Type 0 where
  pub address : Text
  pub start_time : Option D
  pub chunks : List Text

pub record Logs (D : Type 0) : Type 0 where
  pub log_stream : Option Text
  pub runner_data : List (RunnerLog D)
  pub sender_data : List (EndPointLog D)
  pub sink_data : List (EndPointLog D)

-- `address.replace(':', '.')`
abbrev pub dotted : Text → Text
dotted [] = []
dotted (c ∷ t) = (if c == b':' then b'.' else c) ∷ dotted t

abbrev pub is_core : Text → Bool
is_core name = same (take 4 name) (codes "core")

-- `open(…, 'wb')` and `write`, of one file and of more until one fails.
abbrev pub put : Text → Text → Text → System → Option Entries → Bool × System
put dir name content s none = (false, s)
put dir name content s (some es) = (true, insert dir (insert name (file content) es) s)

abbrev pub write : Rights → Text → Text → Text → System → Bool × System
write rights dir name content s =
    if rights.may_write dir name then put dir name content s (lookup dir s) else (false, s)

abbrev pub then_write : Bool × System → (System → Bool × System) → Bool × System
then_write (false, s) rest = (false, s)
then_write (true, s) rest = rest s

unfoldable pub write_all : Rights → Text → List (Text × Text) → System → Bool × System
write_all rights dir [] s = (true, s)
write_all rights dir ((name, content) ∷ files) s =
    then_write (write rights dir name content s) (write_all rights dir files)

-- `shutil.move` of one core file, and of those that are listed.
abbrev pub move : Text → Text → Text → System → Option Entries → Option Entry → Bool × System
move cwd dir core s (some es) (some e) =
    let s' = insert cwd (erase core es) s in
    elim (lookup dir s') [ none ↦ (false, s) | some to ↦ (true, insert dir (insert core e to) s') ]
move cwd dir core s (some es) none = (false, s)
move cwd dir core s none e = (false, s)

abbrev pub entry_of : Text → Option Entries → Option Entry
entry_of name none = none
entry_of name (some es) = lookup name es

unfoldable pub move_all : Rights → Text → Text → List Text → System → Bool × System
move_all rights cwd dir [] s = (true, s)
move_all rights cwd dir (core ∷ cores) s =
    then_write
      (if rights.may_move core
        then move cwd dir core s (lookup cwd s) (entry_of core (lookup cwd s))
        else (false, s))
      (move_all rights cwd dir cores)

abbrev pub core_names : Entries → List Text
core_names [] = []
core_names ((name, e) ∷ es) = if is_core name then name ∷ core_names es else core_names es

abbrev pub cores_in : Option Entries → List Text
cores_in none = []
cores_in (some es) = core_names es

module _ {D : Type 0} (date_text : D → Result Text) where
  -- `strftime`, which gives nothing for no date and where it fails
  abbrev pub strftime : Option D → Text
  strftime none = []
  strftime (some d) = elim (date_text d) [ err e ↦ [] | ok t ↦ t ]

  abbrev pub test_log : Option Text → List (Text × Text)
  test_log none = []
  test_log (some t) = (codes "test.error.log", t) ∷ []

  abbrev pub identifier : RunnerLog D → Text
  identifier rd =
      codes "--- "
      ++ (rd.name
          ++ (codes " (pid: " ++ (rd.pid ++ (codes ", rc: " ++ (rd.returncode ++ codes ")")))))

  abbrev pub worker_log : RunnerLog D → Text × Text
  worker_log rd = (
    rd.name
        ++ (codes "."
            ++ (rd.pid
                ++ (codes "."
                    ++ (rd.returncode
                        ++ (codes "." ++ (strftime rd.start_time ++ codes ".error.log")))))),
    identifier rd
        ++ (codes " ->\n\n" ++ (rd.stdout ++ (codes "\n\n" ++ (identifier rd ++ codes " <-")))),
  )

  abbrev pub end_point_log : Text → EndPointLog D → Text × Text
  end_point_log kind d = (
    kind
        ++ (codes "_"
            ++ (dotted d.address ++ (codes "_" ++ (strftime d.start_time ++ codes ".error.dat")))),
    join d.chunks,
  )

  -- The files in the order in which they are written.
  abbrev pub log_files : Logs D → List (Text × Text)
  log_files logs =
      test_log logs.log_stream
      ++ (map worker_log logs.runner_data
          ++ (map (end_point_log (codes "sender")) logs.sender_data
              ++ map (end_point_log (codes "sink")) logs.sink_data))

  unfoldable pub save_cores : Rights → Text → Text → Bool × System → System
  unfolding move_all
  save_cores rights cwd dir (false, s) = s
  save_cores rights cwd dir (true, s) = (move_all rights cwd dir (cores_in (lookup cwd s)) s).1

  unfoldable pub save_in : Rights → Text → Text → Logs D → System → Result System → System
  unfolding write_all save_cores
  save_in rights cwd dir logs s (err e) = s
  save_in rights cwd dir logs s (ok s') =
      save_cores rights cwd dir (write_all rights dir (log_files logs) s')

  -- Whatever fails is logged and ends the saving.
  unfoldable pub save_logs_to_file : Rights → Text → Text → Logs D → System → System
  unfolding makedirs_if_not_exists save_in
  save_logs_to_file rights cwd dir logs s =
      save_in rights cwd dir logs s (makedirs_if_not_exists rights dir s)
