-- ===== src/Control/Resuming.antt =====
-- `WaitForClusterToResumeProcessing`: what it knows when it finishes.
use wallaroo.Base.{
  ℕ, ◌≡◌, ◌⊎◌, inl, inr, refl, sym, ap, ◌∙◌, Bool, true, false, Option, none, some, List, [],
}
use wallaroo.Base.{◌∷◌, All, Error, Bool-cases, if◌then◌else◌}
use mathlib.Core.Path.{subst}
use wallaroo.Threads.{Thread}
use wallaroo.Control.{
  Status, Cycle, Resume, join_one, join_all, check_completion, is_over, resume_loop, alive_runners,
  wait_for_cluster,
}

-- The notifier ended without an error.
abbrev pub IsFinished : Status → Type 0
IsFinished o = (o.failure ≡ none) × (o.alive ≡ false)

-- It was seen so in one of the cycles.
abbrev pub FinishedIn : List Cycle → ℕ → Type 0
FinishedIn [] w = ⊥
FinishedIn (o ∷ os) w = IsFinished (o.status w) ⊎ FinishedIn os w

module _ (P : ℕ → Type 0) (status : ℕ → Status) where
  All-right : (ws : List ℕ) → All P ws → All (λ w. IsFinished (status w) ⊎ P w) ws
  All-right [] h = tt
  All-right (w ∷ ws) (h, hs) = (inr h, All-right ws hs)

  -- Who is no longer waited for has ended without an error.
  join_all-All :
      (ws : List ℕ) (t : Thread)
      → All P (join_all status ws t).0
      → All (λ w. IsFinished (status w) ⊎ P w) ws
  unfolding join_all
  join_all-All [] t h = tt
  join_all-All (w ∷ ws) t h = go (status w).failure (status w).alive refl refl h (join_all-All ws t)
    where
      go :
          (failure : Option Error) (alive : Bool)
          → (status w).failure ≡ failure
          → (status w).alive ≡ alive
          → All P (join_one failure alive w ws t (join_all status ws t)).0
          → (All P (join_all status ws t).0 → All (λ w. IsFinished (status w) ⊎ P w) ws)
          → All (λ w. IsFinished (status w) ⊎ P w) (w ∷ ws)
      go (some x) alive e a h k = All-right (w ∷ ws) h
      go none true e a (h, hs) k = (inr h, k hs)
      go none false e a h k = (inl (e, a), k h)

check_completion-waiting :
    (timeout : ℕ) (o : Cycle) (r : List ℕ × Thread) → (check_completion timeout o r).waiting ≡ r.0
check_completion-waiting timeout o ([], t) = refl
check_completion-waiting timeout o (w ∷ ws, t) = refl

resume_loop-All :
    (timeout : ℕ) (os : List Cycle) (s : Resume)
    → (resume_loop timeout os s).waiting ≡ []
    → All (FinishedIn os) s.waiting
unfolding resume_loop
resume_loop-All timeout [] s h = subst (All (FinishedIn [])) (sym h) tt
resume_loop-All timeout (o ∷ os) s h = elim (Bool-cases (is_over s)) [
  | inl over ↦ subst (All (FinishedIn (o ∷ os))) (sym (sym (over_waiting over) ∙ h)) tt
  | inr more ↦ join_all-All (FinishedIn os) o.status s.waiting s.thread (
      subst (All (FinishedIn os))
        (check_completion-waiting timeout o (join_all o.status s.waiting s.thread))
        (resume_loop-All timeout os _ (sym (goes_waiting more) ∙ h)))
]
  where
    over_waiting : is_over s ≡ true → (resume_loop timeout (o ∷ os) s).waiting ≡ s.waiting
    over_waiting e =
        ap
          (λ b.
            (if b
              then s
              else resume_loop timeout os
                  (check_completion timeout o (join_all o.status s.waiting s.thread))).waiting)
          e

    goes_waiting :
        is_over s ≡ false
        → (resume_loop timeout (o ∷ os) s).waiting
          ≡ (resume_loop timeout os
              (check_completion timeout o (join_all o.status s.waiting s.thread))).waiting
    goes_waiting e =
        ap
          (λ b.
            (if b
              then s
              else resume_loop timeout os
                  (check_completion timeout o (join_all o.status s.waiting s.thread))).waiting)
          e

-- When nothing is waited for any more, the notifier of every runner that was alive has been seen to
-- end without an error.
pub wait_for_cluster-FinishedIn :
    (timeout : ℕ) (runners : List (ℕ × Bool)) (os : List Cycle)
    → (wait_for_cluster timeout runners os).waiting ≡ []
    → All (FinishedIn os) (alive_runners runners)
unfolding wait_for_cluster
wait_for_cluster-FinishedIn timeout runners os h = resume_loop-All timeout os _ h
