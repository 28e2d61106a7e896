-- ===== src/EndPoints/Sender/Recovers.antt =====
-- A connection of a sender of demos/resilience-demo/lib/end_points.py on which nothing goes wrong.
use mathlib.Core.Path.{subst}
use wallaroo.Base.{
  Bool, true, false, List, [], ◌∷◌, ◌++◌, ◌≡◌, refl, sym, ap, ◌∙◌, ◌<◌, length, map, leb,
  Bool-cases, inl, inr, if◌then◌else◌,
}
use wallaroo.Struct.{Bytes}
use wallaroo.EndPoints.Reader.{Reader}
use wallaroo.EndPoints.Sender.{
  Sender, batch_send_final, batch_send, batch_append, no_batch, Got, none_left, bad, got,
  handle_record, Round, goes_on, broke, failed, read_record, round, after_round, run,
}
use wallaroo.EndPoints.Sender.SendsAll.{flow, SentAll, run-sends_each}
use wallaroo.EndPoints.Sender.Sessions.{
  Moment, try_send_final, try_batch_send, handle, then_read, moment_round, ending_of, next_moment,
  connection,
}
use wallaroo.EndPoints.Sender.Kept.{IsKept}
use wallaroo.EndPoints.Sender.Running.{Runs, round-Runs}
use wallaroo.EndPoints.Frames.{ended}
use wallaroo.Base.{none}

-- A moment at which nobody stops the sender and the socket takes what it sends.
abbrev pub quiet : Bool → Moment
quiet is_paused = record { stop_asked = false; is_paused = is_paused; send_fails = none }

try_send_final-quiet : (s : Sender) → try_send_final none s ≡ (batch_send_final s, goes_on)
unfolding try_send_final batch_send_final
try_send_final-quiet s = elim (Bool-cases (no_batch s.batch)) [
  | inl e ↦ rw e refl
  | inr e ↦ rw e refl
]

try_batch_send-quiet : (s : Sender) → try_batch_send none s ≡ (batch_send s, goes_on)
unfolding try_batch_send batch_send
try_batch_send-quiet s = elim (Bool-cases (leb s.batch_size (length s.batch))) [
  | inl e ↦ rw e (try_send_final-quiet s)
  | inr e ↦ rw e refl
]

handle-quiet : (g : Got × Reader) (s : Sender) → handle none g s ≡ handle_record g s
unfolding handle
handle-quiet (none_left, r) s = refl
handle-quiet (bad e, r) s = refl
handle-quiet (got header body, r) s =
    try_batch_send-quiet (batch_append (header ++ body) (record s { reader = r }))

moment_round-quiet : (p : Bool) (s : Sender) → moment_round (quiet p) s ≡ round p s
unfolding moment_round round
moment_round-quiet true s =
    ap (then_read none) (try_send_final-quiet s)
    ∙ handle-quiet (read_record (batch_send_final s).reader) (batch_send_final s)
moment_round-quiet false s = handle-quiet (read_record s.reader) s

-- Such a connection is a run of the loop that is told of pauses only.
connection-run :
    (ps : List Bool) (s : Sender) → s.is_stopped ≡ false → connection (map quiet ps) s ≡ run ps s
unfolding connection run
connection-run [] s h = refl
connection-run (p ∷ ps) s h =
    ap
      (λ b.
        if b
        then ending_of (try_send_final none s)
        else next_moment none (moment_round (quiet p) s) (connection (map quiet ps)))
      h
    ∙ (ap (λ r. next_moment none r (connection (map quiet ps))) (moment_round-quiet p s)
        ∙ (go (round p s) (round-Runs p s h) (connection-run ps)
            ∙ sym (
                ap
                  (λ b. if b then (batch_send_final s, ended) else after_round (round p s) (run ps))
                  h)))
  where
    go :
        (r : Sender × Round)
        → Runs r
        → ((s' : Sender) → s'.is_stopped ≡ false → connection (map quiet ps) s' ≡ run ps s')
        → next_moment none r (connection (map quiet ps)) ≡ after_round r (run ps)
    go (s', goes_on) h ih = ih s' h
    go (s', broke) h ih = ap ending_of (try_send_final-quiet s')
    go (s', failed e) h ih = refl

-- Whatever connections broke before, a sender that is not stopped sends all that is left on the first
-- connection on which nothing goes wrong for more rounds than there are records left: the connection ends
-- with an empty batch, and all was sent in order.
pub connection-SentAll :
    (ps : List Bool) (s : Sender) (whole : Bytes) (k : IsKept whole s)
    → s.is_stopped ≡ false
    → length k.bodies < length ps
    → SentAll whole (connection (map quiet ps) s)
connection-SentAll ps s whole k h n = rw (connection-run ps s h) (
    subst (λ t. SentAll t (run ps s)) (ap (λ t. flow s ++ t) (sym k.left) ∙ k.together)
      (run-sends_each ps s k.bodies h k.counted k.records n k.left))
