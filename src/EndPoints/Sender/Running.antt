-- ===== src/EndPoints/Sender/Running.antt =====
-- The stop event of a sender of demos/resilience-demo/lib/end_points.py in its inner loop.
use wallaroo.Base.{Bool, true, false, ◌++◌, ◌≡◌, refl, ◌∙◌, length, leb, Bool-cases, inl, inr}
use wallaroo.EndPoints.Reader.{Reader}
use wallaroo.EndPoints.Sender.{
  Sender, send, batch_send_final, batch_send, batch_append, no_batch, Got, none_left, bad, got,
  handle_record, Round, goes_on, broke, failed, read_record, pause, round,
}

-- Sending leaves the stop event alone.
pub batch_send_final-is_stopped : (s : Sender) → (batch_send_final s).is_stopped ≡ s.is_stopped
unfolding batch_send_final send
batch_send_final-is_stopped s = elim (Bool-cases (no_batch s.batch)) [
  | inl e ↦ rw e refl
  | inr e ↦ rw e refl
]

pub batch_send-is_stopped : (s : Sender) → (batch_send s).is_stopped ≡ s.is_stopped
unfolding batch_send
batch_send-is_stopped s = elim (Bool-cases (leb s.batch_size (length s.batch))) [
  | inl e ↦ rw e (batch_send_final-is_stopped s)
  | inr e ↦ rw e refl
]

pub pause-is_stopped : (p : Bool) (s : Sender) → (pause p s).is_stopped ≡ s.is_stopped
pause-is_stopped true s = batch_send_final-is_stopped s
pause-is_stopped false s = refl

-- Where the loop goes on, the sender is not stopped.
abbrev pub Runs : Sender × Round → Type 0
Runs (s, goes_on) = s.is_stopped ≡ false
Runs (s, broke) = Unit
Runs (s, failed e) = Unit

handle_record-Runs :
    (g : Got × Reader) (s : Sender) → s.is_stopped ≡ false → Runs (handle_record g s)
unfolding batch_append
handle_record-Runs (none_left, r) s h = tt
handle_record-Runs (bad e, r) s h = tt
handle_record-Runs (got header body, r) s h =
    batch_send-is_stopped (batch_append (header ++ body) (record s { reader = r })) ∙ h

pub round-Runs : (p : Bool) (s : Sender) → s.is_stopped ≡ false → Runs (round p s)
unfolding round
round-Runs p s h =
    handle_record-Runs (read_record (pause p s).reader) (pause p s) (pause-is_stopped p s ∙ h)
