-- ===== src/Control/Trying.antt =====
-- `TryUntilTimeout`: how its thread ends.
use wallaroo.Base.{ℕ, ◌<◌, ◌≤◌, ◌≡◌, ◌↔◌, refl, some, List, [], ◌∷◌}
use wallaroo.Base.{◌++◌, map, All, arith, Error, Result, ok, err}
use wallaroo.Threads.{new_thread, stop, goes_on, stops, look}
use wallaroo.Threads.Polling.{poll_until_iff, poll_until-returns}
use wallaroo.Control.{Attempt, attempt_round, attempt_of, try_until_timeout}

module _ (timeout : ℕ) where
  -- The test raised while there was time.
  abbrev pub Retries : Attempt → Type 0
  Retries o = (e : Error) × (o.outcome ≡ err e) × (o.elapsed ≤ timeout)

  abbrev pub GivesUp : Error → Attempt → Type 0
  GivesUp e o = (o.outcome ≡ err e) × (timeout < o.elapsed)

  attempt_of-goes_on :
      (n : ℕ) (r : Result (Unit {0}))
      → attempt_of timeout n r ≡ goes_on
      → (e : Error) × (r ≡ err e) × (n ≤ timeout)
  attempt_of-goes_on n (ok x) h = cc
  attempt_of-goes_on n (err e) h = (e, refl, ground arith)

  attempt_of-stops :
      (n : ℕ) (r : Result (Unit {0})) (e : Error)
      → (attempt_of timeout n r ≡ stops (some e)) ↔ ((r ≡ err e) × (timeout < n))
  attempt_of-stops n (ok x) e = ground arith
  attempt_of-stops n (err x) e = ground arith

  retry : (o : Attempt) → Retries o → attempt_round timeout o ≡ goes_on
  unfolding attempt_round
  retry o (e, r, n) = rw r (ground arith)

  all_to : (os : List Attempt) → All (λ o. attempt_round timeout o ≡ goes_on) os → All Retries os
  unfolding attempt_round
  all_to [] h = tt
  all_to (o ∷ os) (h, hs) = (attempt_of-goes_on o.elapsed o.outcome h, all_to os hs)

  all_from : (os : List Attempt) → All Retries os → All (λ o. attempt_round timeout o ≡ goes_on) os
  all_from [] h = tt
  all_from (o ∷ os) (h, hs) = (retry o h, all_from os hs)

  pub record GaveUp (e : Error) (os : List Attempt) : Type 0 where
    pub before : List Attempt
    pub last : Attempt
    pub rest : List Attempt
    pub splits : os ≡ before ++ last ∷ rest
    pub retries : All Retries before
    pub gives_up : GivesUp e last

  -- `TryUntilTimeout` stops with an error just where the attempts fail in time up to one that fails
  -- after it, whose error it is.
  pub try_until_timeout-GaveUp :
      (os : List Attempt) (e : Error)
      → (try_until_timeout timeout (map look os) ≡ stop (some e) new_thread) ↔ GaveUp e os
  unfolding try_until_timeout
  try_until_timeout-GaveUp os e = (there, back)
    where
      there : try_until_timeout timeout (map look os) ≡ stop (some e) new_thread → GaveUp e os
      there p =
          let d = (poll_until_iff (attempt_round timeout) os (some e)).0 p in
          record {
            before = d.before;
            last = d.last;
            rest = d.rest;
            splits = d.splits;
            retries = all_to d.before d.undecided;
            gives_up =
                (attempt_of-stops d.last.elapsed d.last.outcome e).0
                  (unfold attempt_round in d.verdict);
          }

      back : GaveUp e os → try_until_timeout timeout (map look os) ≡ stop (some e) new_thread
      back g = (poll_until_iff (attempt_round timeout) os (some e)).1 (record {
        before = g.before;
        last = g.last;
        rest = g.rest;
        splits = g.splits;
        undecided = all_from g.before g.retries;
        verdict =
            unfold attempt_round in (attempt_of-stops g.last.elapsed g.last.outcome e).1 g.gives_up;
      })

  -- An attempt that passes, late or not, behind attempts that failed in time, ends the thread
  -- without an error.
  pub try_until_timeout_passes :
      (before : List Attempt) (last : Attempt) (rest : List Attempt)
      → All Retries before
      → last.outcome ≡ ok tt
      → try_until_timeout timeout (map look (before ++ last ∷ rest)) ≡ new_thread
  unfolding try_until_timeout
  try_until_timeout_passes before last rest h p =
      poll_until-returns (attempt_round timeout) before last rest (all_from before h)
        (unfold attempt_round in rw p refl)
