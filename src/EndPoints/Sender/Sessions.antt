-- ===== src/EndPoints/Sender/Sessions.antt =====
-- `Sender.run` of demos/resilience-demo/lib/end_points.py as a whole: connections that are refused or
-- break, reconnecting, pauses, and a stop from another thread. A `sendall` that raises has got a
-- part of the batch out, and adds nothing to what counts as sent.
use wallaroo.Base.{
  ℕ, Bool, true, false, Option, none, some, List, [], ◌∷◌, ◌++◌, length, leb, take, join,
}
use wallaroo.Base.{if◌then◌else◌, Error, os_error}
use wallaroo.EndPoints.Reader.{Reader}
use wallaroo.EndPoints.Frames.{Ending, ended, stuck, raised}
use wallaroo.EndPoints.Sender.{
  Sender, batch_send_final, batch_append, maybe_stop, no_batch, Got, none_left, bad, got,
  read_record, Round, goes_on, broke, failed,
}

-- What other threads and the socket do in one round of the inner loop: where a `sendall` raises, how
-- many bytes it got out before.
pub record Moment : Type 0 where
  pub stop_asked : Bool
  pub is_paused : Bool
  pub send_fails : Option ℕ

-- `stop` sets the event of the thread and leaves the batch.
abbrev pub stop_if : Bool → Sender → Sender
stop_if asked s = if asked then record s { is_stopped = true } else s

-- `send` of the batch and its clearing, where the socket may raise.
abbrev pub try_send : Option ℕ → Sender → Sender × Round
try_send none s = (batch_send_final s, goes_on)
try_send (some out) s = (record s { wire = s.wire ++ take out (join s.batch) }, failed os_error)

-- `batch_send_final` and `batch_send`, where the socket may raise.
unfoldable pub try_send_final : Option ℕ → Sender → Sender × Round
try_send_final fails s = if no_batch s.batch then (s, goes_on) else try_send fails s

unfoldable pub try_batch_send : Option ℕ → Sender → Sender × Round
unfolding try_send_final
try_batch_send fails s =
    if leb s.batch_size (length s.batch) then try_send_final fails s else (s, goes_on)

unfoldable pub handle : Option ℕ → Got × Reader → Sender → Sender × Round
unfolding try_batch_send
handle fails (none_left, r) s = (maybe_stop (record s { reader = r }), broke)
handle fails (bad e, r) s = (record s { reader = r }, failed e)
handle fails (got header body, r) s =
    try_batch_send fails (batch_append (header ++ body) (record s { reader = r }))

abbrev pub then_read : Option ℕ → Sender × Round → Sender × Round
unfolding handle
then_read fails (s, goes_on) = handle fails (read_record s.reader) s
then_read fails (s, broke) = (s, broke)
then_read fails (s, failed e) = (s, failed e)

unfoldable pub moment_round : Moment → Sender → Sender × Round
unfolding try_send_final handle
moment_round m s =
    then_read m.send_fails (if m.is_paused then try_send_final m.send_fails s else (s, goes_on))

-- Behind the inner loop: the last of the batch is sent, and the socket closed.
abbrev pub ending_of : Sender × Round → Sender × Ending
ending_of (s, goes_on) = (s, ended)
ending_of (s, broke) = (s, ended)
ending_of (s, failed e) = (s, raised e)

abbrev pub next_moment : Option ℕ → Sender × Round → (Sender → Sender × Ending) → Sender × Ending
unfolding try_send_final
next_moment fails (s, goes_on) go = go s
next_moment fails (s, broke) go = ending_of (try_send_final fails s)
next_moment fails (s, failed e) go = (s, raised e)

-- One connection; `stuck` where the moments end and the sender is still running.
unfoldable pub connection : List Moment → Sender → Sender × Ending
unfolding moment_round try_send_final
connection [] s = (s, stuck)
connection (m ∷ ms) s =
    let s' = stop_if m.stop_asked s in
    if s'.is_stopped
    then ending_of (try_send_final m.send_fails s')
    else next_moment m.send_fails (moment_round m s') (connection ms)

pub data Attempt : Type 0 where
  refused : Error → Attempt
  connected : List Moment → Attempt

pub record Session : Type 0 where
  pub sender : Sender
  pub error : Option Error

-- What is raised is kept as the error of the thread.
abbrev pub catch : Option Error → Sender × Ending → Session × Bool
catch before (s, ended) = (record { sender = s; error = before }, true)
catch before (s, raised e) = (record { sender = s; error = some e }, true)
catch before (s, stuck) = (record { sender = s; error = before }, false)

abbrev pub try_attempt : Attempt → Session → Session × Bool
unfolding connection
try_attempt (refused e) t = (record t { error = some e }, true)
try_attempt (connected ms) t = catch t.error (connection ms t.sender)

abbrev pub again : Bool → Session × Bool → (Session → Session × Bool) → Session × Bool
again reconnect (t, false) go = (t, false)
again reconnect (t, true) go = if reconnect then go t else (t, true)

-- `run`, and whether it has returned when the attempts end.
unfoldable pub run_sessions : Bool → List Attempt → Session → Session × Bool
unfolding connection
run_sessions reconnect [] t = (t, t.sender.is_stopped)
run_sessions reconnect (a ∷ as') t =
    if t.sender.is_stopped
    then (t, true)
    else again reconnect (try_attempt a t) (run_sessions reconnect as')
