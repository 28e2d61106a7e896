-- ===== src/EndPoints/Sender/Keeping.antt =====
-- What sending the batch, a round and a stop keep, `Sender.run` of
-- demos/resilience-demo/lib/end_points.py keeps across all its connections.
use wallaroo.Base.{ℕ, Bool, true, false, Option, List, [], ◌∷◌, if◌then◌else◌}
use wallaroo.EndPoints.Frames.{Ending, ended, stuck, raised}
use wallaroo.EndPoints.Sender.{Sender, Round, goes_on, broke, failed}
use wallaroo.EndPoints.Sender.Sessions.{
  Moment, stop_if, try_send_final, moment_round, ending_of, next_moment, connection, Attempt,
  refused, connected, Session, catch, try_attempt, again, run_sessions,
}

module _ (P : Sender → Type 0)
    (sends : (fails : Option ℕ) (s : Sender) → P s → P (try_send_final fails s).0)
    (rounds : (m : Moment) (s : Sender) → P s → P (moment_round m s).0)
    (stops : (s : Sender) → P s → P (record s { is_stopped = true })) where
  ending_of-keeps : (r : Sender × Round) → P r.0 → P (ending_of r).0
  ending_of-keeps (s, goes_on) k = k
  ending_of-keeps (s, broke) k = k
  ending_of-keeps (s, failed e) k = k

  connection-keeps : (ms : List Moment) (s : Sender) → P s → P (connection ms s).0
  unfolding connection
  connection-keeps [] s k = k
  connection-keeps (m ∷ ms) s k =
      let k' : P (stop_if m.stop_asked s) = asked m.stop_asked in
      go (connection-keeps ms) (stop_if m.stop_asked s) k' (stop_if m.stop_asked s).is_stopped
    where
      asked : (b : Bool) → P (stop_if b s)
      asked true = stops s k
      asked false = k

      next :
          ((s' : Sender) → P s' → P (connection ms s').0)
          → (r : Sender × Round) → P r.0
          → P (next_moment m.send_fails r (connection ms)).0
      next ih (s', goes_on) k' = ih s' k'
      next ih (s', broke) k' =
          ending_of-keeps (try_send_final m.send_fails s') (sends m.send_fails s' k')
      next ih (s', failed e) k' = k'

      go :
          ((s' : Sender) → P s' → P (connection ms s').0)
          → (s' : Sender) → P s'
          → (b : Bool)
          → P
              (if b
                then ending_of (try_send_final m.send_fails s')
                else next_moment m.send_fails (moment_round m s') (connection ms)).0
      go ih s' k' true = ending_of-keeps (try_send_final m.send_fails s') (sends m.send_fails s' k')
      go ih s' k' false = next ih (moment_round m s') (rounds m s' k')

  try_attempt-keeps : (a : Attempt) (t : Session) → P t.sender → P (try_attempt a t).0.sender
  unfolding connection
  try_attempt-keeps (refused e) t k = k
  try_attempt-keeps (connected ms) t k =
      go (connection ms t.sender) (connection-keeps ms t.sender k)
    where
      go : (r : Sender × Ending) → P r.0 → P (catch t.error r).0.sender
      go (s, ended) k' = k'
      go (s, stuck) k' = k'
      go (s, raised e) k' = k'

  pub run_sessions-keeps :
      (reconnect : Bool) (as' : List Attempt) (t : Session)
      → P t.sender
      → P (run_sessions reconnect as' t).0.sender
  unfolding run_sessions
  run_sessions-keeps reconnect [] t k = k
  run_sessions-keeps reconnect (a ∷ as') t k =
      go (λ t' k'. run_sessions-keeps reconnect as' t' k') t.sender.is_stopped
    where
      Later : Type 0
      Later = (t' : Session) → P t'.sender → P (run_sessions reconnect as' t').0.sender

      next :
          Later
          → (b : Bool) → (r : Session × Bool) → P r.0.sender
          → P (again b r (run_sessions reconnect as')).0.sender
      next ih b (t', false) k' = k'
      next ih true (t', true) k' = ih t' k'
      next ih false (t', true) k' = k'

      go :
          Later
          → (b : Bool)
          → P
              (if b
                then (t, true)
                else again reconnect (try_attempt a t) (run_sessions reconnect as')).0.sender
      go ih true = k
      go ih false = next ih reconnect (try_attempt a t) (try_attempt-keeps a t k)
