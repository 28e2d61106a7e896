-- ===== src/EndPoints/Sender.antt =====
-- `Sender`: the inner loop of `run`, which reads records and sends them in batches. The socket is
-- what was sent on it, its `data`, and `wire`, which is no field of the source but the bytes that the
-- sockets of all its connections got out. Each round of the loop is told whether the sender was
-- paused before it. Times and log messages are not modelled.
pub mod Running
pub mod SendsAll
pub mod Sessions
pub mod Keeping
pub mod Wire
pub mod Kept
pub mod Recovers
use wallaroo.Base.{ℕ, zero, suc, ◌+◌, ◌<◌, ◌≤◌, ◌≡◌, refl, sym, ap, ◌∙◌, arith, Bool, true, false}
use wallaroo.Base.{List, [], ◌∷◌, ◌++◌, length, take, drop, join, All, map, leb, if◌then◌else◌}
use wallaroo.Base.{
  Bool-cases, inl, inr, Error, Result, ok, err, append_assoc, append-nil, join-append,
  length-append,
}
use wallaroo.Struct.{Bytes, be, unpack_be}
use wallaroo.EndPoints.Reader.{Reader, read, stream, read_lem}
use wallaroo.EndPoints.Receiver.{run_framed, run_framed-frames}
use wallaroo.EndPoints.Frames.{
  pieces, join-pieces, is_empty, Ending, ended, stuck, raised, frame, IsRecord,
}
use wallaroo.EndPoints.Frames.{take-header, drop-header, is_empty-be}
use wallaroo.Struct.RoundTrip.{unpack_be-be}
use wallaroo.Base.{take-append_left, drop-append_left}
use mathlib.Core.Path.{subst}

pub record Sender : Type 0 where
  pub reader : Reader
  pub batch_size : ℕ
  pub batch : List Bytes
  pub sent : List Bytes
  pub bytes_sent : ℕ
  pub is_stopped : Bool
  pub wire : Bytes

-- `send`
unfoldable pub send : Bytes → Sender → Sender
send bs s = record s {
  sent = s.sent ++ bs ∷ [];
  bytes_sent = s.bytes_sent + length bs;
  wire = s.wire ++ bs;
}

abbrev pub no_batch : List Bytes → Bool
no_batch [] = true
no_batch (b ∷ bs) = false

unfoldable pub batch_send_final : Sender → Sender
unfolding send
batch_send_final s = if no_batch s.batch then s else record (send (join s.batch) s) { batch = [] }

unfoldable pub batch_send : Sender → Sender
unfolding batch_send_final
batch_send s = if leb s.batch_size (length s.batch) then batch_send_final s else s

unfoldable pub batch_append : Bytes → Sender → Sender
batch_append bs s = record s { batch = s.batch ++ bs ∷ [] }

-- `maybe_stop`
unfoldable pub maybe_stop : Sender → Sender
maybe_stop s = if no_batch s.batch then record s { is_stopped = true } else s

-- What one round reads.
pub data Got : Type 0 where
  none_left : Got
  bad : Error → Got
  got : Bytes → Bytes → Got

unfoldable pub read_body : Bytes → Reader → Result ℕ → Got × Reader
read_body header r (err e) = (bad e, r)
read_body header r (ok expect) =
    let (body, r') = read expect r in (if is_empty body then none_left else got header body, r')

unfoldable pub read_record : Reader → Got × Reader
read_record r =
    let (header, r') = read 4 r in
    if is_empty header then (none_left, r') else read_body header r' (unpack_be 4 header)

pub data Round : Type 0 where
  goes_on broke : Round
  failed : Error → Round

abbrev pub handle_record : Got × Reader → Sender → Sender × Round
handle_record (none_left, r) s = (maybe_stop (record s { reader = r }), broke)
handle_record (bad e, r) s = (record s { reader = r }, failed e)
handle_record (got header body, r) s =
    (batch_send (batch_append (header ++ body) (record s { reader = r })), goes_on)

-- While it is paused, the sender empties its batch.
abbrev pub pause : Bool → Sender → Sender
pause is_paused s = if is_paused then batch_send_final s else s

-- One round of the inner loop.
unfoldable pub round : Bool → Sender → Sender × Round
round is_paused s = handle_record (read_record (pause is_paused s).reader) (pause is_paused s)

abbrev pub after_round : Sender × Round → (Sender → Sender × Ending) → Sender × Ending
after_round (s, goes_on) go = go s
after_round (s, broke) go = (batch_send_final s, ended)
after_round (s, failed e) go = (s, raised e)

-- The rounds of one connection, while the sender is not stopped; `stuck` where the list ends and the
-- sender is still running.
unfoldable pub run : List Bool → Sender → Sender × Ending
unfolding round
run [] s = (s, stuck)
run (is_paused ∷ ps) s =
    if s.is_stopped then (batch_send_final s, ended) else after_round (round is_paused s) (run ps)
