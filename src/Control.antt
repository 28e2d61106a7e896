-- ===== src/Control.antt =====
-- demos/resilience-demo/lib/control.py: the threads that wait for the cluster, for a sink, or for a
-- test to pass. Times are what `time.time() - started` gives at each look, in any unit.
pub mod Expecting
pub mod Awaiting
pub mod Trying
pub mod Resuming
mod Tests
use wallaroo.Base.Dict.{Eq, same}
use wallaroo.Base.{
  ◌+◌, ◌++◌, drop, ℕ, Bool, true, false, Option, none, some, List, [], ◌∷◌, ltb, ◌==◌,
}
use wallaroo.Base.{if◌then◌else◌, Error, Result, ok, err, timeout_error, expectation_error}
use wallaroo.Threads.{stop, Thread, new_thread, Verdict, goes_on, returns, stops, Tick, poll_until}

-- `SinkExpect`
pub record SinkExpect : Type 0 where
  pub expected : ℕ
  pub timeout : ℕ
  pub allow_more : Bool

-- The messages that a sink holds, and the time.
pub record SinkLook : Type 0 where
  pub msgs : ℕ
  pub elapsed : ℕ

abbrev pub late : ℕ → ℕ → Verdict → Verdict
late timeout elapsed v = if ltb timeout elapsed then stops (some timeout_error) else v

-- One round of `SinkExpect.run`.
unfoldable pub expect_round : SinkExpect → SinkLook → Verdict
expect_round c o =
    if ltb c.expected o.msgs
    then stops (if c.allow_more then none else some expectation_error)
    else (if o.msgs == c.expected then stops none else late c.timeout o.elapsed goes_on)

unfoldable pub sink_expect : SinkExpect → List (Tick SinkLook) → Thread
unfolding expect_round new_thread
sink_expect c ticks = poll_until (expect_round c) ticks new_thread

-- One attempt of `TryUntilTimeout.run`: what the test did, the making of its input included, and
-- the time after it.
pub record Attempt : Type 0 where
  pub outcome : Result (Unit {0})
  pub elapsed : ℕ

abbrev failed : ℕ → ℕ → Error → Verdict
failed timeout elapsed e = if ltb timeout elapsed then stops (some e) else goes_on

abbrev pub attempt_of : ℕ → ℕ → Result (Unit {0}) → Verdict
attempt_of timeout elapsed (ok _) = returns
attempt_of timeout elapsed (err e) = failed timeout elapsed e

unfoldable pub attempt_round : ℕ → Attempt → Verdict
attempt_round timeout o = attempt_of timeout o.elapsed o.outcome

unfoldable pub try_until_timeout : ℕ → List (Tick Attempt) → Thread
unfolding attempt_round new_thread
try_until_timeout timeout ticks = poll_until (attempt_round timeout) ticks new_thread

-- `SinkAwaitValue`: the values that were not seen yet, and how many of the sink's messages were
-- looked at. `sink_items` is the sink's list, to which its receivers append.
pub record SinkAwaitValue (A V : Type 0) : Type 0 where
  pub sink_items : List A
  pub wanted : List V
  pub position : ℕ
  pub thread : Thread

-- What has come since the last look, and the time.
pub record AwaitLook (A : Type 0) : Type 0 where
  pub arrived : List A
  pub elapsed : ℕ

abbrev pub no_values {ℓ} : {V : Type ℓ} → List V → Bool
no_values [] = true
no_values (v ∷ vs) = false

-- `for val in list(self.values): if sink_data == val: self.values.discard(val)`
unfoldable pub discard : {V : Type 0} ⦃e : Eq V⦄ → V → List V → List V
discard seen [] = []
discard seen (v ∷ vs) = let rest = discard seen vs in if same seen v then rest else v ∷ rest

module _ {A V : Type 0} ⦃e : Eq V⦄ (func : A → V) where
  abbrev after_item :
      SinkAwaitValue A V → (SinkAwaitValue A V → SinkAwaitValue A V) → SinkAwaitValue A V
  after_item s go =
      let more = go (record s { position = s.position + 1 }) in
      if no_values s.wanted then record s { thread = stop none s.thread } else more

  -- `while self.position < msgs`, over the messages that were not looked at.
  unfoldable pub scan_items : List A → SinkAwaitValue A V → SinkAwaitValue A V
  unfolding discard
  scan_items [] s = s
  scan_items (item ∷ items) s =
      after_item (record s { wanted = discard (func item) s.wanted }) (scan_items items)

  -- One round. The time is looked at whatever was found.
  unfoldable pub await_round : ℕ → AwaitLook A → SinkAwaitValue A V → SinkAwaitValue A V
  unfolding scan_items
  await_round timeout o s =
      let items = s.sink_items ++ o.arrived in
      let s' = scan_items (drop s.position items) (record s { sink_items = items }) in
      if ltb timeout o.elapsed
      then record s' { thread = stop (some timeout_error) s'.thread }
      else s'

  unfoldable pub await_values : ℕ → List (AwaitLook A) → SinkAwaitValue A V → SinkAwaitValue A V
  unfolding await_round
  await_values timeout [] s = s
  await_values timeout (o ∷ os) s =
      let more = await_values timeout os (await_round timeout o s) in
      if s.thread.stop_event then s else more

-- What `WaitForClusterToResumeProcessing` sees of a notifier behind a short join.
pub record Status : Type 0 where
  pub failure : Option Error
  pub alive : Bool

-- One cycle over the notifiers, and the time behind it.
pub record Cycle : Type 0 where
  pub status : ℕ → Status
  pub elapsed : ℕ

-- The notifiers are numbers; `finished` is the `break` when none is left.
pub record Resume : Type 0 where
  pub waiting : List ℕ
  pub thread : Thread
  pub finished : Bool

abbrev pub join_one : Option Error → Bool → ℕ → List ℕ → Thread → List ℕ × Thread → List ℕ × Thread
join_one (some e) alive w ws t rest = (w ∷ ws, stop (some e) t)
join_one none true w ws t (rest, t') = (w ∷ rest, t')
join_one none false w ws t (rest, t') = (rest, t')

-- `for obs in list(waiting): …`, up to the first that has an error.
unfoldable pub join_all : (ℕ → Status) → List ℕ → Thread → List ℕ × Thread
join_all status [] t = ([], t)
join_all status (w ∷ ws) t =
    join_one (status w).failure (status w).alive w ws t (join_all status ws t)

abbrev pub check_completion : ℕ → Cycle → List ℕ × Thread → Resume
check_completion timeout o ([], t) = record { waiting = []; thread = t; finished = true }
check_completion timeout o (w ∷ ws, t) = record {
  waiting = w ∷ ws;
  thread = if ltb timeout o.elapsed then stop (some timeout_error) t else t;
  finished = false;
}

abbrev pub is_over : Resume → Bool
is_over s = if s.finished then true else s.thread.stop_event

unfoldable pub resume_loop : ℕ → List Cycle → Resume → Resume
unfolding join_all
resume_loop timeout [] s = s
resume_loop timeout (o ∷ os) s =
    let more =
      resume_loop timeout os (check_completion timeout o (join_all o.status s.waiting s.thread)) in
    if is_over s then s else more

-- The runners that are alive, by the names of their notifiers.
abbrev pub alive_runners : List (ℕ × Bool) → List ℕ
alive_runners [] = []
alive_runners ((r, true) ∷ rs) = r ∷ alive_runners rs
alive_runners ((r, false) ∷ rs) = alive_runners rs

unfoldable pub wait_for_cluster : ℕ → List (ℕ × Bool) → List Cycle → Resume
unfolding resume_loop new_thread
wait_for_cluster timeout runners os =
    resume_loop timeout os
      (record { waiting = alive_runners runners; thread = new_thread; finished = false })
