-- ===== src/Observability/Notifier/Passing.antt =====
-- When an `ObservabilityNotifier` ends without an error.
use wallaroo.Base.{ok-injective}
use wallaroo.Base.{ℕ, ◌≤◌, ◌≡◌, ◌↔◌, inl, inr, refl, sym, Bool, true, false, none, List, [], ◌∷◌}
use wallaroo.Base.{◌++◌, map, All, arith, Result, ok, err, ltb, Bool-cases, Result-cases}
use wallaroo.Base.{◌≢◌, some, timeout_error, if◌then◌else◌}
use mathlib.Core.Path.{subst}
use wallaroo.Threads.{new_thread, stop, Verdict, goes_on, stops, look}
use wallaroo.Threads.Polling.{poll_until_iff}
use wallaroo.Observability.Notifier.{
  Response, any_error, after_query, notifier_round, observability_notifier,
}

module _ {J : Type 0} where
  -- The test returns, with whatever value.
  abbrev pub Returned : J → (J → Result Bool) → Type 0
  Returned response t = (b : Bool) × (t response ≡ ok b)

  any_error-Returned :
      (ts : List (J → Result Bool)) (response : J)
      → (any_error ts response ≡ false) ↔ All (Returned response) ts
  unfolding any_error
  any_error-Returned [] response = (λ h. tt, λ h. refl)
  any_error-Returned (t ∷ ts) response =
      let ih = any_error-Returned ts response in
      elim (Result-cases (t response)) [
        | inl (b, q) ↦ rw q (λ h. ((b, refl), ih.0 h), λ h. ih.1 h.1)
        | inr (e, q) ↦ rw q (λ h. cc, λ h. let (b, r) = h.0 in cc)
      ]

module _ {J : Type 0} (timeout : ℕ) (tests : List (J → Result Bool)) where
  -- The query responds, and every test returns on the response.
  abbrev pub Passes : Response J → Type 0
  Passes o = (response : J) × (o.query ≡ ok response) × All (Returned response) tests

  -- There is time, and the query or a test has raised.
  abbrev pub Waits : Response J → Type 0
  Waits o = (o.elapsed ≤ timeout) × ¬ Passes o

  abbrev tested : Bool → ℕ → Verdict
  tested b n =
      if b then (if ltb timeout n then stops (some timeout_error) else goes_on) else stops none

  tested-stops : (b : Bool) (n : ℕ) → (tested b n ≡ stops none) ↔ (b ≡ false)
  tested-stops true n = ground arith
  tested-stops false n = ground arith

  tested-goes_on : (b : Bool) (n : ℕ) → (tested b n ≡ goes_on) ↔ ((n ≤ timeout) × (b ≡ true))
  tested-goes_on true n = ground arith
  tested-goes_on false n = ground arith

  abbrev Passed : Result J → Type 0
  Passed r = (response : J) × (r ≡ ok response) × All (Returned response) tests

  after_query-Passed :
      (n : ℕ) (r : Result J) → (after_query timeout tests n r ≡ stops none) ↔ Passed r
  after_query-Passed n (err e) = (λ h. absurd (stopped h), λ (response, q, all). cc)
    where
      stopped : after_query timeout tests n (err e) ≢ stops none
      stopped = ground arith
  after_query-Passed n (ok response) =
      let passed = any_error-Returned tests response in
      let stopping = tested-stops (any_error tests response) n in
      (
        λ h. (response, refl, passed.0 (stopping.0 h)),
        λ (found, q, all).
            stopping.1 (passed.1 (subst (λ x. All (Returned x) tests) (ok-injective (sym q)) all)),
      )

  after_query-Waits :
      (n : ℕ) (r : Result J)
      → (after_query timeout tests n r ≡ goes_on) ↔ ((n ≤ timeout) × ¬ Passed r)
  after_query-Waits n (err e) =
      (λ h. (waited n h, λ (response, q, all). cc), λ (h, failed). in_time n h)
    where
      waited : (n : ℕ) → after_query timeout tests n (err e) ≡ goes_on → n ≤ timeout
      waited n h = ground arith

      in_time : (n : ℕ) → n ≤ timeout → after_query timeout tests n (err e) ≡ goes_on
      in_time n h = ground arith
  after_query-Waits n (ok response) =
      let passed = any_error-Returned tests response in
      let going = tested-goes_on (any_error tests response) n in
      (
        λ h.
            let (in_time, raised) = going.0 h in
            (
              in_time,
              λ (found, q, all).
                  let clean =
                    passed.1 (subst (λ x. All (Returned x) tests) (ok-injective (sym q)) all) in
                  cc,
            ),
        λ (in_time, failed). elim (Bool-cases (any_error tests response)) [
          | inl raised ↦ going.1 (in_time, raised)
          | inr clean ↦ absurd (failed (response, refl, passed.0 clean))
        ],
      )

  all_to :
      (os : List (Response J))
      → All (λ o. notifier_round timeout tests o ≡ goes_on) os
      → All Waits os
  unfolding notifier_round
  all_to [] h = tt
  all_to (o ∷ os) (h, hs) = ((after_query-Waits o.elapsed o.query).0 h, all_to os hs)

  all_from :
      (os : List (Response J))
      → All Waits os
      → All (λ o. notifier_round timeout tests o ≡ goes_on) os
  unfolding notifier_round
  all_from [] h = tt
  all_from (o ∷ os) (h, hs) = ((after_query-Waits o.elapsed o.query).1 h, all_from os hs)

  pub record PassedInTime (os : List (Response J)) : Type 0 where
    pub before : List (Response J)
    pub last : Response J
    pub rest : List (Response J)
    pub splits : os ≡ before ++ last ∷ rest
    pub waits : All Waits before
    pub passes : Passes last

  -- An `ObservabilityNotifier` that no other thread stops ends without an error just where one
  -- round passes, its query responding and every test returning, whatever value and however late,
  -- and every round before it was in time and did not pass.
  pub observability_notifier-PassedInTime :
      (os : List (Response J))
      → (observability_notifier timeout tests (map look os) ≡ stop none new_thread)
        ↔ PassedInTime os
  unfolding observability_notifier
  observability_notifier-PassedInTime os = (there, back)
    where
      there :
          observability_notifier timeout tests (map look os) ≡ stop none new_thread
          → PassedInTime os
      there p =
          let d = (poll_until_iff (notifier_round timeout tests) os none).0 p in
          record {
            before = d.before;
            last = d.last;
            rest = d.rest;
            splits = d.splits;
            waits = all_to d.before d.undecided;
            passes =
                (after_query-Passed d.last.elapsed d.last.query).0
                  (unfold notifier_round in d.verdict);
          }

      back :
          PassedInTime os
          → observability_notifier timeout tests (map look os) ≡ stop none new_thread
      back r = (poll_until_iff (notifier_round timeout tests) os none).1 (record {
        before = r.before;
        last = r.last;
        rest = r.rest;
        splits = r.splits;
        undecided = all_from r.before r.waits;
        verdict =
            unfold notifier_round in (after_query-Passed r.last.elapsed r.last.query).1 r.passes;
      })
