-- ===== src/Cluster/Senders.antt =====
-- The senders of a `Cluster` of demos/resilience-demo/lib/cluster.py: pausing with the wait for their
-- batches, resuming and stopping.
use wallaroo.Base.{
  ℕ, ◌<◌, ◌≡◌, ◌⊎◌, inl, inr, refl, Bool, true, false, Option, none, some, List, [], ◌∷◌, map,
}
use wallaroo.Base.{
  if◌then◌else◌, ltb, lt→ltb, All, Error, Result, ok, err, not_empty_error, ◌>>=◌, >>=-eq-ok, arith,
}
use wallaroo.Base.Text.{Text}
use wallaroo.Threads.{stop, new_thread, look, poll_until, after_look, stops, goes_on}
use wallaroo.Control.{Attempt, attempt_round, try_until_timeout}
use wallaroo.Validation.Status.{validate_sender_is_flushed}

-- The events of a sender's thread.
pub record SenderThread : Type 0 where
  pub ident : ℕ
  pub paused : Bool
  pub stop_event : Bool

abbrev pub stopped : SenderThread → SenderThread
stopped s = record s { stop_event = true }

abbrev pub resumed : SenderThread → SenderThread
resumed s = record s { paused = false }

abbrev pub paused_now : SenderThread → SenderThread
paused_now s = record s { paused = true }

-- `add_sender`, `stop_senders`, `resume_senders`
unfoldable pub add_sender : SenderThread → List SenderThread → List SenderThread
add_sender sender [] = sender ∷ []
add_sender sender (s ∷ ss) = s ∷ add_sender sender ss

unfoldable pub stop_senders : List SenderThread → List SenderThread
stop_senders ss = map stopped ss

unfoldable pub resume_senders : List SenderThread → List SenderThread
resume_senders ss = map resumed ss

-- A look at a sender: its batch, and the time.
abbrev pub BatchLook : Type 0
BatchLook = List Text × ℕ

abbrev pub flush_attempt : BatchLook → Attempt
flush_attempt (batch, t) = record { outcome = validate_sender_is_flushed batch; elapsed = t }

abbrev pub raise_of : Option Error → Result (Unit {0})
raise_of none = ok tt
raise_of (some e) = err e

unfoldable pub await_flush : ℕ → List BatchLook → Result (Unit {0})
unfolding try_until_timeout
await_flush timeout looks =
    raise_of (try_until_timeout timeout (map (λ o. look (flush_attempt o)) looks)).error

-- `wait_for_senders_to_flush`: one wait for each of the senders, by the looks at it up to the end of
-- the wait; the first error in the order of the senders is raised.
unfoldable pub wait_for_senders_to_flush :
    ℕ → (SenderThread → List BatchLook) → List SenderThread → Result (Unit {0})
unfolding await_flush
wait_for_senders_to_flush timeout looks [] = ok tt
wait_for_senders_to_flush timeout looks (s ∷ ss) =
    await_flush timeout (looks s) >>= λ flushed. wait_for_senders_to_flush timeout looks ss

-- `pause_senders`: all are paused, whatever the wait gives; the looks are at paused senders.
unfoldable pub pause_senders :
    ℕ → (SenderThread → List BatchLook) → List SenderThread → Result (Unit {0}) × List SenderThread
unfolding wait_for_senders_to_flush
pause_senders timeout looks ss =
    let paused = map paused_now ss in (wait_for_senders_to_flush timeout looks paused, paused)

-- Some look comes when the time is over.
abbrev pub ReachesEnd : ℕ → List BatchLook → Type 0
ReachesEnd timeout [] = ⊥
ReachesEnd timeout ((batch, t) ∷ looks) = (timeout < t) ⊎ ReachesEnd timeout looks

-- Some look finds no batch.
abbrev pub SeenFlushed : List BatchLook → Type 0
SeenFlushed [] = ⊥
SeenFlushed ((batch, t) ∷ looks) = (batch ≡ []) ⊎ SeenFlushed looks

await_flush-SeenFlushed :
    (timeout : ℕ) (looks : List BatchLook)
    → ReachesEnd timeout looks
    → await_flush timeout looks ≡ ok tt
    → SeenFlushed looks
unfolding await_flush validate_sender_is_flushed poll_until attempt_round stop
await_flush-SeenFlushed timeout [] reaches h = elim reaches [ ]
await_flush-SeenFlushed timeout (([], t) ∷ looks) reaches h = inl refl
await_flush-SeenFlushed timeout ((m ∷ batch, t) ∷ looks) reaches h =
    inr (go (ltb timeout t) refl h (await_flush-SeenFlushed timeout looks))
  where
    go :
        (b : Bool)
        → ltb timeout t ≡ b
        → raise_of (
            (after_look
              (attempt_round timeout)
              (if b then stops (some not_empty_error) else goes_on)
              new_thread
              (poll_until (attempt_round timeout) (map (λ o. look (flush_attempt o)) looks))).error)
          ≡ ok tt
        → (ReachesEnd timeout looks → await_flush timeout looks ≡ ok tt → SeenFlushed looks)
        → SeenFlushed looks
    go true e q ih = cc
    go false e q ih = elim reaches [
      | inl late ↦ absurd (ground (arith, lt→ltb timeout t late))
      | inr later ↦ ih later q
    ]

-- When a pause of the senders returns, and the looks at each sender reach the end of its wait, each
-- of them is paused and has been seen without a batch.
pub pause_senders-SeenFlushed :
    (timeout : ℕ) (looks : SenderThread → List BatchLook) (ss : List SenderThread)
    → All (λ s. ReachesEnd timeout (looks (paused_now s))) ss
    → (pause_senders timeout looks ss).0 ≡ ok tt
    → ((pause_senders timeout looks ss).1 ≡ map paused_now ss)
      × All (λ s. SeenFlushed (looks (paused_now s))) ss
unfolding pause_senders wait_for_senders_to_flush
pause_senders-SeenFlushed timeout looks ss reach h = (refl, flushed ss reach h)
  where
    flushed :
        (ss : List SenderThread)
        → All (λ s. ReachesEnd timeout (looks (paused_now s))) ss
        → wait_for_senders_to_flush timeout looks (map paused_now ss) ≡ ok tt
        → All (λ s. SeenFlushed (looks (paused_now s))) ss
    flushed [] reach h = tt
    flushed (s ∷ ss) (r, rs) h =
        let (done, first, rest) = >>=-eq-ok (await_flush timeout (looks (paused_now s))) _ h in
        (await_flush-SeenFlushed timeout (looks (paused_now s)) r first, flushed ss rs rest)
