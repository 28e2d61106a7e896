-- ===== src/Threads.antt =====
-- demos/resilience-demo/lib/stoppable_thread.py, and the shape that the polling loops of the
-- harness share: look, decide, sleep, until one look decides or another thread stops this one.
pub mod Polling
use wallaroo.Base.{Bool, true, false, Option, none, some, List, [], ◌∷◌, if◌then◌else◌, Error}

-- `StoppableThread`
pub record Thread : Type 0 where
  pub stop_event : Bool
  pub error : Option Error

unfoldable pub new_thread : Thread
new_thread = record { stop_event = false; error = none }

-- `stop(error)`: an error that is given is kept.
unfoldable pub stop : Option Error → Thread → Thread
stop none t = record t { stop_event = true }
stop (some e) t = record { stop_event = true; error = some e }

-- What a look decides: to go on, to stop with an error or without, or to return from `run`.
pub data Verdict : Type 0 where
  goes_on returns : Verdict
  stops : Option Error → Verdict

-- What a loop meets: its next look, or a `stop` from another thread.
pub data Tick {ℓ} (O : Type ℓ) : Type ℓ where
  look : O → Tick O
  stop_by : Option Error → Tick O

module _ {ℓ} {O : Type ℓ} (decide : O → Verdict) where
  abbrev pub after_look : Verdict → Thread → (Thread → Thread) → Thread
  after_look goes_on t go = go t
  after_look returns t go = t
  after_look (stops e) t go = stop e t

  -- `while not self.stopped(): …`; a list that ends is a loop that still runs or has ended.
  unfoldable pub poll_until : List (Tick O) → Thread → Thread
  unfolding stop
  poll_until [] t = t
  poll_until (stop_by e ∷ ticks) t = poll_until ticks (stop e t)
  poll_until (look o ∷ ticks) t =
      let more = after_look (decide o) t (poll_until ticks) in if t.stop_event then t else more
