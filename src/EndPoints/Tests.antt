-- ===== src/EndPoints/Tests.antt =====
-- The theorems on the end points at concrete inputs.
use wallaroo.Base.{
  struct_error, some, ◌≡◌, refl, arith, List, [], ◌∷◌, ◌++◌, none, true, false, inr,
}
use wallaroo.Base.{ok, join, map}
use wallaroo.Struct.{unpack_be, Bytes, be}
use wallaroo.EndPoints.Reader.{Reader, read, fill, stream, read_lem}
use wallaroo.EndPoints.Frames.{ended, stuck, frame, pieces, IsRecord, framed_file_generator}
use wallaroo.EndPoints.Receiver.{
  run_framed, save, bytes_received, run_framed-empty, save-run_framed,
}
use wallaroo.EndPoints.Newlines.{}
use wallaroo.EndPoints.Sender.{Sender, run}
use wallaroo.EndPoints.Files.{
  framed, other_mode, one_path, paths, files_generator, all_files, one_file,
}
use wallaroo.EndPoints.Files.Whole.{files_generator-pieces}
use wallaroo.EndPoints.Frames.{raised}
use wallaroo.Base.{value_error}
use wallaroo.EndPoints.Sender.SendsAll.{SentAll, run-sends_each, run_framed-run}
use wallaroo.EndPoints.Sender.Sessions.{Attempt, refused, connected, connection}
use wallaroo.EndPoints.Receiver.Accounts.{Account, run_framed-Account}
use wallaroo.EndPoints.Sender.Kept.{IsKept}
use wallaroo.EndPoints.Sender.Recovers.{quiet, connection-SentAll}
use wallaroo.Base.{os_error, none}
use wallaroo.EndPoints.Sequences.{Generator, stop}
use wallaroo.EndPoints.Sequences.CatchUp.{at, drain, stop-catches_up}
use wallaroo.EndPoints.Sequences.RoundRobin.{turn, drain-turn}

-- Three chunks of one stream.
abbrev chunked : Reader
chunked = record { gen = (3 ∷ []) ∷ (4 ∷ 5 ∷ []) ∷ []; overflow = 1 ∷ 2 ∷ [] }

read_four : (read 4 chunked).0 ≡ 1 ∷ 2 ∷ 3 ∷ 4 ∷ []
unfolding read fill
read_four = refl

read_cut : ((read 4 chunked).0 ≡ 1 ∷ 2 ∷ 3 ∷ 4 ∷ []) × (stream (read 4 chunked).1 ≡ 5 ∷ [])
read_cut = read_lem 4 chunked

hi_IsRecord : IsRecord (b'h' ∷ b'i' ∷ [])
hi_IsRecord = record { fits = omega arith; nonempty = refl }

yo_IsRecord : IsRecord (b'y' ∷ b'o' ∷ b'!' ∷ [])
yo_IsRecord = record { fits = omega arith; nonempty = refl }

abbrev hi_yo : List Bytes
hi_yo = (b'h' ∷ b'i' ∷ []) ∷ (b'y' ∷ b'o' ∷ b'!' ∷ []) ∷ []

empty_frame :
    run_framed 5 (frame [] ++ frame (7 ∷ [])) (frame (6 ∷ []) ∷ []) ≡ (frame (6 ∷ []) ∷ [], ended)
empty_frame = run_framed-empty 4 (frame (7 ∷ [])) (frame (6 ∷ []) ∷ [])

-- A record, and a header cut by the end of the connection.
abbrev cut_short : Bytes
cut_short = 0 ∷ 0 ∷ 0 ∷ 1 ∷ 7 ∷ 0 ∷ 0 ∷ []

run_framed-Account_example :
    Account cut_short (run_framed 8 cut_short []).0 (run_framed 8 cut_short []).1
run_framed-Account_example = run_framed-Account 8 cut_short (omega arith)

cut_short_run : run_framed 8 cut_short [] ≡ ((0 ∷ 0 ∷ 0 ∷ 1 ∷ 7 ∷ []) ∷ [], raised struct_error)
unfolding run_framed unpack_be
cut_short_run = refl

save-run_framed_example :
    (bytes_received (run_framed 3 (join (map frame hi_yo)) []).0 ≡ 13)
    × ((file : Bytes) × (save false (run_framed 3 (join (map frame hi_yo)) []).0 ≡ ok file)
        × (framed_file_generator 4 file ≡ (pieces hi_yo, ended)))
unfolding be
save-run_framed_example =
    save-run_framed 3 4 hi_yo (hi_IsRecord, (yo_IsRecord, tt)) (omega arith) (omega arith)

-- A sender in batches of two, its records cut otherwise than into headers and bodies.
abbrev sender : Sender
sender = record {
  reader = record {
    gen = (0 ∷ 2 ∷ b'h' ∷ []) ∷ (b'i' ∷ 0 ∷ 0 ∷ 0 ∷ 3 ∷ b'y' ∷ []) ∷ (b'o' ∷ b'!' ∷ []) ∷ [];
    overflow = 0 ∷ 0 ∷ [];
  };
  batch_size = 2;
  batch = [];
  sent = [];
  bytes_sent = 0;
  is_stopped = false;
  wire = [];
}

all_sent : SentAll (join (map frame hi_yo)) (run (false ∷ true ∷ false ∷ []) sender)
unfolding be
all_sent =
    run-sends_each (false ∷ true ∷ false ∷ []) sender hi_yo refl refl
      (hi_IsRecord, (yo_IsRecord, tt)) (omega arith) refl

run_framed-run_example :
    run_framed 3 (join (run (false ∷ true ∷ false ∷ []) sender).0.sent) []
    ≡ (map frame hi_yo, ended)
unfolding be
run_framed-run_example =
    run_framed-run (false ∷ true ∷ false ∷ []) sender hi_yo 3 refl refl refl
      (hi_IsRecord, (yo_IsRecord, tt)) (omega arith) (omega arith) refl

abbrev sequences : Generator
sequences = record {
  base_value = 0;
  seqs = 2 ∷ 0 ∷ 1 ∷ [];
  idx = 1;
  remaining = [];
  max_val = none;
}

stop-catches_up_example :
    (g' : Generator) × (stop sequences ≡ ok g')
    × (drain 4 g' ≡ ((1, 1) ∷ (1, 2) ∷ (2, 2) ∷ [], at g' (2 ∷ 2 ∷ 2 ∷ []) (0 ∷ 0 ∷ 0 ∷ []), ended))
stop-catches_up_example = stop-catches_up sequences 2 (0 ∷ 1 ∷ []) 1 4 refl refl (omega arith)

turn_of_two :
    drain 2 (turn sequences (4 ∷ 9 ∷ []) 2)
    ≡ ((0, 5) ∷ (1, 10) ∷ [], turn sequences (5 ∷ 10 ∷ []) 2, stuck)
turn_of_two = drain-turn sequences 4 (9 ∷ []) 2 (inr (omega arith))

abbrev sender_IsKept : IsKept (join (map frame hi_yo)) sender
unfolding be
sender_IsKept = record {
  bodies = hi_yo;
  records = (hi_IsRecord, (yo_IsRecord, tt));
  left = refl;
  together = refl;
  counted = refl;
}

-- The first connection is refused, and the second breaks with a record in the batch.
abbrev broken : List Attempt
broken =
    refused os_error
    ∷ connected
        (quiet false ∷ record { stop_asked = false; is_paused = true; send_fails = some 2 } ∷ [])
    ∷ []

connection-SentAll_example :
    SentAll (join (map frame hi_yo)) (connection (map quiet (false ∷ true ∷ false ∷ [])) sender)
unfolding sender_IsKept
connection-SentAll_example =
    connection-SentAll (false ∷ true ∷ false ∷ []) sender (join (map frame hi_yo)) sender_IsKept
      refl (omega arith)

-- One framed file read twice, and a mode that there is not.
twice :
    files_generator 4 framed (λ p. join (map frame hi_yo)) (paths ([] ∷ [] ∷ []))
    ≡ (pieces hi_yo ++ pieces hi_yo, ended)
twice =
    files_generator-pieces 4 (λ p. join (map frame hi_yo)) (λ p. hi_yo) (paths ([] ∷ [] ∷ []))
      (
        (refl, (hi_IsRecord, (yo_IsRecord, tt)), omega arith),
        ((refl, (hi_IsRecord, (yo_IsRecord, tt)), omega arith), tt),
      )

bad_mode : files_generator 4 other_mode (λ p. []) (one_path []) ≡ ([], raised value_error)
unfolding files_generator all_files one_file
bad_mode = refl
