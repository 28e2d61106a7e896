-- ===== src/Cluster/Scale/Migrating.antt =====
-- What a migration that is confirmed has met.
use wallaroo.Base.{
  ℕ, ◌<◌, ◌≡◌, refl, ap, ◌⊎◌, inl, inr, Bool, true, false, Option, some, List, [], ◌∷◌, ◌++◌, map,
  arith,
}
use wallaroo.Base.{Error, Result, ok, err, >>=-eq-ok, ltb, if◌then◌else◌, lt→ltb}
use wallaroo.Base.Text.{Text}
use wallaroo.Base.Dict.{Dict, text_eq}
use wallaroo.Threads.{new_thread, stop, look, poll_until, after_look, stops, goes_on}
use wallaroo.Control.{attempt_of, attempt_round, try_until_timeout}
use wallaroo.Observability.{coalesce_partition_query_responses}
use wallaroo.Validation.{Partitions, Workers, validate_migration}
use wallaroo.Cluster.Scale.{
  Round, migration_attempt, migration_outcome, confirm_migration, raise_of,
}

-- A round whose responses coalesce into partitions that are validated.
pub record ValidatedRound (pre : Partitions Text) (workers : Workers Text) (rounds : List Round)
    : Type 0 where
  pub before : List Round
  pub responses : Dict Text (Dict Text (List Text))
  pub elapsed : ℕ
  pub rest : List Round
  pub splits : rounds ≡ before ++ (ok responses, elapsed) ∷ rest
  pub post : Partitions Text
  pub coalesced : coalesce_partition_query_responses responses ≡ ok post
  pub validated : validate_migration pre post workers ≡ ok tt

module _ (timeout : ℕ) (pre : Partitions Text) (workers : Workers Text) where
  validated_here :
      (responses : Result (Dict Text (Dict Text (List Text)))) (t : ℕ) (rest : List Round)
      → migration_outcome pre workers responses ≡ ok tt
      → ValidatedRound pre workers ((responses, t) ∷ rest)
  unfolding migration_outcome
  validated_here (err e) t rest h = cc
  validated_here (ok rs) t rest h =
      let (post, coalesced, validated) = >>=-eq-ok (coalesce_partition_query_responses rs) _ h in
      record {
        before = [];
        responses = rs;
        elapsed = t;
        rest = rest;
        splits = refl;
        post = post;
        coalesced = coalesced;
        validated = validated;
      }

  validated_later :
      (r : Round) (rounds : List Round)
      → ValidatedRound pre workers rounds
      → ValidatedRound pre workers (r ∷ rounds)
  validated_later r rounds v = record {
    before = r ∷ v.before;
    responses = v.responses;
    elapsed = v.elapsed;
    rest = v.rest;
    splits = ap (λ t. r ∷ t) v.splits;
    post = v.post;
    coalesced = v.coalesced;
    validated = v.validated;
  }

  abbrev error_from : Result (Unit {0}) → ℕ → List Round → Option Error
  error_from outcome t rounds =
      (after_look (attempt_round timeout) (attempt_of timeout t outcome) new_thread (
        poll_until (attempt_round timeout)
          (map (λ r. look (migration_attempt pre workers r)) rounds))).error

  -- A round that fails in time hands over to those behind it, and a late one raises.
  passed_or_later :
      (o : Result (Unit {0})) (t : ℕ) (rounds : List Round)
      → raise_of (error_from o t rounds) ≡ ok tt
      → (o ≡ ok tt)
        ⊎ ((ltb timeout t ≡ false) × (confirm_migration timeout rounds pre workers ≡ ok tt))
  unfolding stop confirm_migration try_until_timeout
  passed_or_later (ok x) t rounds q = inl refl
  passed_or_later (err e) t rounds q = inr (go (ltb timeout t) q)
    where
      go :
          (b : Bool)
          → raise_of (
              (after_look
                (attempt_round timeout)
                (if b then stops (some e) else goes_on)
                new_thread
                (poll_until
                  (attempt_round timeout)
                  (map (λ r. look (migration_attempt pre workers r)) rounds))).error)
            ≡ ok tt
          → (b ≡ false) × (confirm_migration timeout rounds pre workers ≡ ok tt)
      go true q = cc
      go false q = (refl, q)

  -- A `confirm_migration` that returns, of rounds of which one comes when the time is over, has met
  -- a round whose responses coalesce into partitions that pass `validate_migration` against those
  -- before.
  pub confirm_migration-ValidatedRound :
      (before : List Round) (responses : Result (Dict Text (Dict Text (List Text)))) (t : ℕ)
      → (rest : List Round) → timeout < t
      → confirm_migration timeout (before ++ (responses, t) ∷ rest) pre workers ≡ ok tt
      → ValidatedRound pre workers (before ++ (responses, t) ∷ rest)
  unfolding confirm_migration try_until_timeout poll_until attempt_round
  confirm_migration-ValidatedRound [] responses t rest late h =
      elim (passed_or_later (migration_outcome pre workers responses) t rest h) [
        | inl passed ↦ validated_here responses t rest passed
        | inr (in_time, later) ↦ absurd (ground (arith, lt→ltb timeout t late))
      ]
  confirm_migration-ValidatedRound ((responses', t') ∷ before) responses t rest late h =
      elim (passed_or_later (migration_outcome pre workers responses') t'
        (before ++ (responses, t) ∷ rest) h) [
          | inl passed ↦ validated_here responses' t' _ passed
          | inr (in_time, later) ↦
              validated_later _ _
                (confirm_migration-ValidatedRound before responses t rest late later)
        ]
