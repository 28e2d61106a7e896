-- ===== src/EndPoints/Files.antt =====
-- `files_generator` of demos/resilience-demo/lib/end_points.py, over the contents of the files. The
-- fuel is for the records of each file.
pub mod Whole
use wallaroo.Base.{ℕ, List, [], ◌∷◌, ◌++◌, Result, ok, err, value_error}
use wallaroo.Base.Text.{Text}
use wallaroo.Struct.{Bytes}
use wallaroo.EndPoints.Frames.{
  Ending, ended, stuck, raised, newline_file_generator, framed_file_generator,
}

pub data Mode : Type 0 where
  newlines framed other_mode : Mode

-- One path, or a list of paths.
pub data Paths : Type 0 where
  one_path : Text → Paths
  paths : List Text → Paths

abbrev pub path_list : Paths → List Text
path_list (one_path p) = p ∷ []
path_list (paths ps) = ps

-- What a file of lines gives; nothing is kept of one that raises.
abbrev pub lines_of : Result (List Bytes) → List Bytes × Ending
lines_of (err e) = ([], raised e)
lines_of (ok ls) = (ls, ended)

unfoldable pub one_file : ℕ → Mode → Bytes → List Bytes × Ending
unfolding newline_file_generator framed_file_generator
one_file fuel newlines file = lines_of (newline_file_generator file)
one_file fuel framed file = framed_file_generator fuel file
one_file fuel other_mode file = ([], raised value_error)

-- The rest of the files follows one that ended.
abbrev pub and_files : List Bytes × Ending → List Bytes × Ending → List Bytes × Ending
and_files (ls, ended) (more, e) = (ls ++ more, e)
and_files (ls, stuck) rest = (ls, stuck)
and_files (ls, raised e) rest = (ls, raised e)

unfoldable pub all_files : ℕ → Mode → (Text → Bytes) → List Text → List Bytes × Ending
unfolding one_file
all_files fuel mode content [] = ([], ended)
all_files fuel mode content (p ∷ ps) =
    and_files (one_file fuel mode (content p)) (all_files fuel mode content ps)

unfoldable pub files_generator : ℕ → Mode → (Text → Bytes) → Paths → List Bytes × Ending
unfolding all_files
files_generator fuel mode content ps = all_files fuel mode content (path_list ps)
