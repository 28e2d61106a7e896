-- ===== src/Threads/Polling.antt =====
-- When a polling loop stops, and with what error.
use wallaroo.Base.{true, Option, none, some, List, [], ◌∷◌, ◌++◌, map, All, ◌≡◌, refl}
use wallaroo.Base.{ap, ◌∙◌, Error, ◌↔◌, ◌≢◌}
use wallaroo.Threads.{
  Thread, new_thread, stop, Verdict, goes_on, returns, stops, Tick, look, stop_by, poll_until,
  after_look,
}
use mathlib.Core.Path.{subst}

-- A verdict that neither goes on nor returns stops.
pub stops_of : (v : Verdict) → v ≢ goes_on → v ≢ returns → (e : Option Error) × (v ≡ stops e)
stops_of goes_on g r = absurd (g refl)
stops_of returns g r = absurd (r refl)
stops_of (stops e) g r = (e, refl)

module _ {ℓ} {O : Type ℓ} (decide : O → Verdict) where
  -- The first look that does not go on, and what it decides.
  pub record Decided (v : Verdict) (os : List O) : Type ℓ where
    pub before : List O
    pub last : O
    pub rest : List O
    pub splits : os ≡ before ++ last ∷ rest
    pub undecided : All (λ o. decide o ≡ goes_on) before
    pub verdict : decide last ≡ v

  Decided-cons :
      (v : Verdict) (o : O) (os : List O) → decide o ≡ goes_on → Decided v os → Decided v (o ∷ os)
  Decided-cons v o os e d = record {
    before = o ∷ d.before;
    last = d.last;
    rest = d.rest;
    splits = ap (λ t. o ∷ t) d.splits;
    undecided = (e, d.undecided);
    verdict = d.verdict;
  }

  Decided-here : (v : Verdict) (o : O) (os : List O) → decide o ≡ v → Decided v (o ∷ os)
  Decided-here v o os e = record {
    before = [];
    last = o;
    rest = os;
    splits = refl;
    undecided = tt;
    verdict = e;
  }

  -- A loop that stopped was stopped by its first decisive look, whose error it holds.
  pub poll_until-Decided :
      (os : List O)
      → (poll_until decide (map look os) new_thread).stop_event ≡ true
      → Decided (stops (poll_until decide (map look os) new_thread).error) os
  unfolding poll_until new_thread
  poll_until-Decided [] h = cc
  poll_until-Decided (o ∷ os) h = go (decide o) refl h (poll_until-Decided os)
    where
      go :
          (v : Verdict)
          → decide o ≡ v
          → (after_look decide v new_thread (poll_until decide (map look os))).stop_event ≡ true
          → ((poll_until decide (map look os) new_thread).stop_event ≡ true
              → Decided (stops (poll_until decide (map look os) new_thread).error) os)
          → Decided
              (stops (after_look decide v new_thread (poll_until decide (map look os))).error)
              (o ∷ os)
      go goes_on e h ih = Decided-cons _ o os e (ih h)
      go returns e h ih = cc
      go (stops none) e h ih = Decided-here (stops none) o os e
      go (stops (some x)) e h ih = Decided-here (stops (some x)) o os e

  -- Looks that go on and then one that stops, or returns: the loop ends with what that one decides.
  pub poll_until-stops :
      (before : List O) (last : O) (rest : List O) (e : Option Error)
      → All (λ o. decide o ≡ goes_on) before
      → decide last ≡ stops e
      → poll_until decide (map look (before ++ last ∷ rest)) new_thread ≡ stop e new_thread
  unfolding poll_until new_thread
  poll_until-stops [] last rest e h d =
      ap (λ v. after_look decide v new_thread (poll_until decide (map look rest))) d
  poll_until-stops (o ∷ before) last rest e (g, h) d =
      ap
        (λ v. after_look decide v new_thread (poll_until decide (map look (before ++ last ∷ rest))))
        g
      ∙ poll_until-stops before last rest e h d

  pub poll_until-returns :
      (before : List O) (last : O) (rest : List O)
      → All (λ o. decide o ≡ goes_on) before
      → decide last ≡ returns
      → poll_until decide (map look (before ++ last ∷ rest)) new_thread ≡ new_thread
  unfolding poll_until new_thread
  poll_until-returns [] last rest h d =
      ap (λ v. after_look decide v new_thread (poll_until decide (map look rest))) d
  poll_until-returns (o ∷ before) last rest (g, h) d =
      ap
        (λ v. after_look decide v new_thread (poll_until decide (map look (before ++ last ∷ rest))))
        g
      ∙ poll_until-returns before last rest h d

  -- A thread that is stopped stays so, whatever it would see.
  pub poll_until-stopped :
      (ticks : List (Tick O)) (t : Thread)
      → t.stop_event ≡ true
      → (poll_until decide ticks t).stop_event ≡ true
  unfolding poll_until stop
  poll_until-stopped [] t h = h
  poll_until-stopped (stop_by none ∷ ticks) t h =
      poll_until-stopped ticks (record t { stop_event = true }) refl
  poll_until-stopped (stop_by (some e) ∷ ticks) t h =
      poll_until-stopped ticks (record { stop_event = true; error = some e }) refl
  poll_until-stopped (look o ∷ ticks) t h = rw h refl

  -- A loop none of whose looks returns, and that has met a look that stops it, has stopped.
  pub poll_until-ends :
      (before : List O) (last : O) (rest : List O) (e : Option Error)
      → All (λ o. decide o ≢ returns) before
      → decide last ≡ stops e
      → (poll_until decide (map look (before ++ last ∷ rest)) new_thread).stop_event ≡ true
  unfolding poll_until new_thread stop
  poll_until-ends [] last rest none h d =
      ap (λ v. (after_look decide v new_thread (poll_until decide (map look rest))).stop_event) d
  poll_until-ends [] last rest (some e) h d =
      ap (λ v. (after_look decide v new_thread (poll_until decide (map look rest))).stop_event) d
  poll_until-ends (o ∷ before) last rest e (g, h) d =
      go (decide o) g (poll_until-ends before last rest e h d)
    where
      go :
          (v : Verdict)
          → v ≢ returns
          → (poll_until decide (map look (before ++ last ∷ rest)) new_thread).stop_event ≡ true
          → (after_look decide v new_thread
              (poll_until decide (map look (before ++ last ∷ rest)))).stop_event
            ≡ true
      go goes_on n ih = ih
      go returns n ih = absurd (n refl)
      go (stops none) n ih = refl
      go (stops (some x)) n ih = refl

  error_of : (e : Option Error) → (stop e new_thread).error ≡ e
  unfolding stop new_thread
  error_of none = refl
  error_of (some e) = refl

  stop_of : (e : Option Error) → (stop e new_thread).stop_event ≡ true
  unfolding stop
  stop_of none = refl
  stop_of (some e) = refl

  pub poll_until_iff :
      (os : List O) (e : Option Error)
      → (poll_until decide (map look os) new_thread ≡ stop e new_thread) ↔ Decided (stops e) os
  poll_until_iff os e = (there, back)
    where
      there : poll_until decide (map look os) new_thread ≡ stop e new_thread → Decided (stops e) os
      there p =
          subst (λ v. Decided v os) (ap (λ (t : Thread). stops t.error) p ∙ ap stops (error_of e))
            (poll_until-Decided os (ap (λ (t : Thread). t.stop_event) p ∙ stop_of e))

      back : Decided (stops e) os → poll_until decide (map look os) new_thread ≡ stop e new_thread
      back d =
          ap (λ l. poll_until decide (map look l) new_thread) d.splits
          ∙ poll_until-stops d.before d.last d.rest e d.undecided d.verdict
