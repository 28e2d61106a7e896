-- ===== src/Control/Expecting.antt =====
-- `SinkExpect`: how its thread ends.
use wallaroo.Base.{◌<◌, ◌≤◌, ◌≡◌, ◌↔◌, ◌⊎◌, true, none}
use wallaroo.Base.{List, [], ◌∷◌, ◌++◌, map, All, arith, ◌≢◌}
use wallaroo.Threads.{new_thread, stop, goes_on, returns, stops, look}
use wallaroo.Threads.Polling.{poll_until_iff, poll_until-ends, stops_of}
use wallaroo.Control.{SinkExpect, SinkLook, expect_round, sink_expect}

module _ (c : SinkExpect) where
  -- The sink holds too little, and there is time.
  abbrev pub Waits : SinkLook → Type 0
  Waits o = (o.msgs < c.expected) × (o.elapsed ≤ c.timeout)

  -- The sink holds what is expected, or more where more is allowed.
  abbrev pub Holds : SinkLook → Type 0
  Holds o = (o.msgs ≡ c.expected) ⊎ ((c.expected < o.msgs) × (c.allow_more ≡ true))

  expect_round-Waits : (o : SinkLook) → (expect_round c o ≡ goes_on) ↔ Waits o
  unfolding expect_round
  expect_round-Waits o = ground arith

  expect_round-Holds : (o : SinkLook) → (expect_round c o ≡ stops none) ↔ Holds o
  unfolding expect_round
  expect_round-Holds o = ground arith

  all_to : (os : List SinkLook) → All (λ o. expect_round c o ≡ goes_on) os → All Waits os
  all_to [] h = tt
  all_to (o ∷ os) (h, hs) = ((expect_round-Waits o).0 h, all_to os hs)

  all_from : (os : List SinkLook) → All Waits os → All (λ o. expect_round c o ≡ goes_on) os
  all_from [] h = tt
  all_from (o ∷ os) (h, hs) = ((expect_round-Waits o).1 h, all_from os hs)

  pub record Received (os : List SinkLook) : Type 0 where
    pub before : List SinkLook
    pub last : SinkLook
    pub rest : List SinkLook
    pub splits : os ≡ before ++ last ∷ rest
    pub waits : All Waits before
    pub holds : Holds last

  -- `SinkExpect` ends without an error just where one look finds what is expected, or more where
  -- more is allowed, and at every look before it the sink held too little and there was time.
  pub sink_expect-Received :
      (os : List SinkLook) → (sink_expect c (map look os) ≡ stop none new_thread) ↔ Received os
  unfolding sink_expect
  sink_expect-Received os = (there, back)
    where
      there : sink_expect c (map look os) ≡ stop none new_thread → Received os
      there p =
          let d = (poll_until_iff (expect_round c) os none).0 p in
          record {
            before = d.before;
            last = d.last;
            rest = d.rest;
            splits = d.splits;
            waits = all_to d.before d.undecided;
            holds = (expect_round-Holds d.last).0 d.verdict;
          }

      back : Received os → sink_expect c (map look os) ≡ stop none new_thread
      back r = (poll_until_iff (expect_round c) os none).1 (record {
        before = r.before;
        last = r.last;
        rest = r.rest;
        splits = r.splits;
        undecided = all_from r.before r.waits;
        verdict = (expect_round-Holds r.last).1 r.holds;
      })

  expect_round-ne-returns : (o : SinkLook) → expect_round c o ≢ returns
  unfolding expect_round
  expect_round-ne-returns o = ground arith

  -- Once a look comes after the time is over, `SinkExpect` has stopped, whatever the sink held.
  pub sink_expect-late :
      (before : List SinkLook) (last : SinkLook) (rest : List SinkLook)
      → c.timeout < last.elapsed
      → (sink_expect c (map look (before ++ last ∷ rest))).stop_event ≡ true
  unfolding sink_expect
  sink_expect-late before last rest h =
      let goes : expect_round c last ≢ goes_on =
        λ g. omega (arith, (expect_round-Waits last).0 g) in
      let (e, d) = stops_of (expect_round c last) goes (expect_round-ne-returns last) in
      poll_until-ends (expect_round c) before last rest e (all_ne before) d
    where
      all_ne : (os : List SinkLook) → All (λ o. expect_round c o ≢ returns) os
      all_ne [] = tt
      all_ne (o ∷ os) = (expect_round-ne-returns o, all_ne os)
