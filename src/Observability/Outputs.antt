-- ===== src/Observability/Outputs.antt =====
-- `RunnerReadyChecker` and `RunnerChecker` of demos/resilience-demo/lib/observability.py: the threads
-- that read a runner's output until it shows what they look for.
use wallaroo.Base.{ℕ, Bool, true, false, none, some, List, [], ◌∷◌, map, All, ltb, if◌then◌else◌}
use wallaroo.Base.{◌≡◌, refl, ap, ◌∙◌, ◌⊎◌, inl, inr, arith, timeout_error}
use wallaroo.Base.Text.{Text}
use wallaroo.Threads.{
  Thread, new_thread, stop, Verdict, goes_on, returns, stops, Tick, look, poll_until, after_look,
}

-- The output that a look reads, and the time.
pub record OutputLook : Type 0 where
  pub stdout : Text
  pub elapsed : ℕ

abbrev pub is_empty : Text → Bool
is_empty [] = true
is_empty (c ∷ cs) = false

-- One round of `RunnerReadyChecker.run`; `found` is the search of its pattern. When the time is over
-- the name `runners_output_format` is not defined, and the NameError ends the thread.
unfoldable pub ready_round : (Text → Bool) → ℕ → OutputLook → Verdict
ready_round found timeout o =
    if is_empty o.stdout
    then goes_on
    else (if found o.stdout
        then stops none
        else (if ltb timeout o.elapsed then returns else goes_on))

unfoldable pub runner_ready : (Text → Bool) → ℕ → List (Tick OutputLook) → Thread
unfolding ready_round new_thread
runner_ready found timeout ticks = poll_until (ready_round found timeout) ticks new_thread

module _ {P : Type 0} (search : P → Text → Bool) (timeout : ℕ) where
  -- `self.compiled.pop(0)`, and the end if none is left.
  abbrev pub after_match : List P → Thread → (List P → Thread) → Thread
  after_match [] t go = stop none t
  after_match (p ∷ ps) t go = go (p ∷ ps)

  -- One round of `RunnerChecker.run`. `self.compiled[0]` of no patterns ends the thread.
  abbrev pub check_output : OutputLook → List P → Thread → (List P → Thread) → Thread
  check_output o [] t go = if is_empty o.stdout then go [] else t
  check_output o (p ∷ ps) t go =
      if is_empty o.stdout
      then go (p ∷ ps)
      else (if search p o.stdout
          then after_match ps t go
          else (if ltb timeout o.elapsed then stop (some timeout_error) t else go (p ∷ ps)))

  unfoldable pub runner_check : List OutputLook → List P → Thread → Thread
  unfolding stop
  runner_check [] ps t = t
  runner_check (o ∷ os) ps t =
      if t.stop_event then t else check_output o ps t (λ qs. runner_check os qs t)

-- Whether a look reads an output with the pattern.
unfoldable pub seen : {P : Type 0} → (P → Text → Bool) → List OutputLook → P → Bool
seen search [] p = false
seen search (o ∷ os) p = let rest = seen search os p in if search p o.stdout then true else rest

module _ {P : Type 0} (search : P → Text → Bool) (timeout : ℕ) where
  seen_later :
      (o : OutputLook) (os : List OutputLook) (ps : List P)
      → All (λ p. seen search os p ≡ true) ps
      → All (λ p. seen search (o ∷ os) p ≡ true) ps
  unfolding seen
  seen_later o os [] h = tt
  seen_later o os (p ∷ ps) (h, hs) = (ground arith, seen_later o os ps hs)

  matched_or_goes_on :
      (p : P) (ps : List P) (go : List P → Thread) (e m l : Bool)
      → (if e
          then go (p ∷ ps)
          else (if m
              then after_match search timeout ps new_thread go
              else (if l then stop (some timeout_error) new_thread else go (p ∷ ps))))
        ≡ stop none new_thread
      → (go (p ∷ ps) ≡ stop none new_thread)
        ⊎ ((m ≡ true) × (after_match search timeout ps new_thread go ≡ stop none new_thread))
  unfolding stop new_thread
  matched_or_goes_on p ps go true m l h = inl h
  matched_or_goes_on p ps go false true l h = inr (refl, h)
  matched_or_goes_on p ps go false false true h = cc
  matched_or_goes_on p ps go false false false h = inl h

  -- When a `RunnerChecker` stops without an error, each of its patterns was in an output that it
  -- read.
  pub runner_check-seen :
      (os : List OutputLook) (ps : List P)
      → runner_check search timeout os ps new_thread ≡ stop none new_thread
      → All (λ p. seen search os p ≡ true) ps
  unfolding runner_check stop new_thread seen
  runner_check-seen [] ps h = cc
  runner_check-seen (o ∷ os) [] h = tt
  runner_check-seen (o ∷ os) (p ∷ ps) h =
      elim (matched_or_goes_on p ps (λ qs. runner_check search timeout os qs new_thread)
        (is_empty o.stdout) (search p o.stdout) (ltb timeout o.elapsed) h) [
          | inl on ↦ seen_later o os (p ∷ ps) (runner_check-seen os (p ∷ ps) on)
          | inr (now, after) ↦ (rw now refl, rest ps after (runner_check-seen os ps))
        ]
    where
      rest :
          (ps : List P)
          → after_match search timeout ps new_thread
              (λ qs. runner_check search timeout os qs new_thread)
            ≡ stop none new_thread
          → (runner_check search timeout os ps new_thread ≡ stop none new_thread
              → All (λ p. seen search os p ≡ true) ps)
          → All (λ p. seen search (o ∷ os) p ≡ true) ps
      rest [] after ih = tt
      rest (q ∷ qs) after ih = seen_later o os (q ∷ qs) (ih after)

module _ {P : Type 0} where
  -- While nothing is written, neither thread ends, whatever the time is.
  pub empty_never_ends :
      (search : P → Text → Bool) (found : Text → Bool) (timeout : ℕ) (ps : List P)
      (os : List OutputLook)
      → All (λ (o : OutputLook). o.stdout ≡ []) os
      → (runner_check search timeout os ps new_thread ≡ new_thread)
        × (runner_ready found timeout (map look os) ≡ new_thread)
  unfolding runner_check runner_ready ready_round new_thread poll_until
  empty_never_ends search found timeout ps [] h = (refl, refl)
  empty_never_ends search found timeout ps (o ∷ os) (h, hs) =
      let ih = empty_never_ends search found timeout ps os hs in
      (
        still_checks o ps h (λ qs. runner_check search timeout os qs new_thread) ∙ ih.0,
        ap
              (λ v.
                after_look (ready_round found timeout) v new_thread
                  (poll_until (ready_round found timeout) (map look os)))
              (still_looks o h)
            ∙ ih.1,
      )
    where
      still_checks :
          (o : OutputLook) (ps : List P)
          → o.stdout ≡ []
          → (go : List P → Thread) → check_output search timeout o ps new_thread go ≡ go ps
      still_checks o [] h go = rw h refl
      still_checks o (p ∷ ps) h go = rw h refl

      still_looks : (o : OutputLook) → o.stdout ≡ [] → ready_round found timeout o ≡ goes_on
      still_looks o h = rw h refl

-- A `RunnerReadyChecker` never has an error, whatever it reads and however late.
pub runner_ready-error :
    (found : Text → Bool) (timeout : ℕ) (os : List OutputLook)
    → (runner_ready found timeout (map look os)).error ≡ none
unfolding runner_ready ready_round new_thread poll_until stop
runner_ready-error found timeout [] = refl
runner_ready-error found timeout (o ∷ os) =
    go (is_empty o.stdout) (found o.stdout) (ltb timeout o.elapsed)
      (runner_ready-error found timeout os)
  where
    go :
        (e m l : Bool)
        → (runner_ready found timeout (map look os)).error ≡ none
        → (after_look
            (ready_round found timeout)
            (if e then goes_on else (if m then stops none else (if l then returns else goes_on)))
            new_thread
            (poll_until (ready_round found timeout) (map look os))).error
          ≡ none
    go true m l ih = ih
    go false true l ih = refl
    go false false true ih = refl
    go false false false ih = ih
