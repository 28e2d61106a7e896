-- ===== src/External/Ports.antt =====
-- The ports that `get_port_values` gives.
use wallaroo.Base.{ℕ, zero, suc, ◌+◌, ◌<◌, ◌≤◌, ◌≡◌, sym, ap, ◌∙◌, Bool, true, false, some}
use wallaroo.Base.{
  List, [], ◌∷◌, ◌++◌, length, take, arith, ltb, if◌then◌else◌, Bool-cases, inl, inr,
}
use wallaroo.Base.{append_assoc, append-nil, length-append, le→ltb, lt→ltb}
use wallaroo.Base.{ltb→lt}
use mathlib.Core.Path.{subst}
use wallaroo.External.{ports_loop, get_port_values}

next : (base fuel : ℕ) → base + 1 + fuel ≡ base + suc fuel
next base fuel = omega arith

full : (num n : ℕ) → n ≤ num → ltb n num ≡ false → n ≡ num
full num n l e = ground arith

some-injective : {xs ys : List ℕ} → some xs ≡ some ys → xs ≡ ys
some-injective e = cc

module _ (is_free : ℕ → Bool) where
  -- The free ports among the `n` from `base` on.
  abbrev pub free_ports : ℕ → ℕ → List ℕ
  free_ports zero base = []
  free_ports (suc n) base =
      let rest = free_ports n (base + 1) in if is_free base then base ∷ rest else rest

  ports_loop-take :
      (n k fuel num base : ℕ) (ports : List ℕ)
      → length ports + k ≡ num
      → k ≤ length (free_ports n base)
      → n < fuel
      → ports_loop is_free fuel num base ports ≡ some (ports ++ take k (free_ports n base))
  unfolding ports_loop
  ports_loop-take n k zero num base ports e h f = absurd (omega arith)
  ports_loop-take n zero (suc fuel) num base ports e h f =
      rw (le→ltb (length ports) num (omega arith)) (ap some (sym (append-nil ports)))
  ports_loop-take zero (suc k) (suc fuel) num base ports e h f = absurd (omega arith)
  ports_loop-take (suc n) (suc k) (suc fuel) num base ports e h f =
      elim (Bool-cases (is_free base)) [
        | inl free ↦
            let longer : length (ports ++ base ∷ []) + k ≡ num =
              omega (arith, length-append {0} ports (base ∷ [])) in
            let enough : k ≤ length (free_ports n (base + 1)) = ground arith in
            rw (lt→ltb (length ports) num (omega arith), free)
              (ports_loop-take n k fuel num (base + 1) (ports ++ base ∷ []) longer enough
                  (omega arith)
                ∙ ap some (append_assoc ports (base ∷ []) (take k (free_ports n (base + 1)))))
        | inr taken ↦
            let enough : suc k ≤ length (free_ports n (base + 1)) = ground arith in
            rw (lt→ltb (length ports) num (omega arith), taken)
              (ports_loop-take n (suc k) fuel num (base + 1) ports e enough (omega arith))
      ]

  -- Where `num` of the `n` ports from `base_port` on are free, `get_port_values` ends within `n`
  -- tries and gives the first `num` of them.
  pub get_port_values-take :
      (n num fuel base_port : ℕ)
      → num ≤ length (free_ports n base_port)
      → n < fuel
      → get_port_values is_free fuel num base_port ≡ some (take num (free_ports n base_port))
  unfolding get_port_values
  get_port_values-take n num fuel base_port h f =
      ports_loop-take n num fuel num base_port [] (omega arith) h f

  -- Ports that rise from `base` on, each free and below `top`.
  abbrev pub IsRising : ℕ → ℕ → List ℕ → Type 0
  IsRising base top [] = Unit {0}
  IsRising base top (p ∷ ps) = (base ≤ p) × (p < top) × (is_free p ≡ true) × IsRising (p + 1) top ps

  IsRising-weaken :
      (base base' top : ℕ) (ps : List ℕ)
      → base ≤ base'
      → IsRising base' top ps
      → IsRising base top ps
  IsRising-weaken base base' top [] h r = tt
  IsRising-weaken base base' top (p ∷ ps) h (b, t, f, r) = (omega arith, t, f, r)

  IsRising-snoc :
      (base p top : ℕ) (ps : List ℕ)
      → IsRising base p ps
      → base ≤ p
      → p < top
      → is_free p ≡ true
      → IsRising base top (ps ++ p ∷ [])
  IsRising-snoc base p top [] r b t f = (b, t, f, tt)
  IsRising-snoc base p top (q ∷ ps) (bq, tq, fq, r) b t f =
      (bq, omega arith, fq, IsRising-snoc (q + 1) p top ps r (omega arith) t f)

  IsRising-top :
      (base top top' : ℕ) (ps : List ℕ) → top ≤ top' → IsRising base top ps → IsRising base top' ps
  IsRising-top base top top' [] h r = tt
  IsRising-top base top top' (p ∷ ps) h (b, t, f, r) =
      (b, omega arith, f, IsRising-top (p + 1) top top' ps h r)

  ports_loop-IsRising :
      (start fuel num base : ℕ) (ports out : List ℕ)
      → start ≤ base
      → length ports ≤ num
      → IsRising start base ports
      → ports_loop is_free fuel num base ports ≡ some out
      → (length out ≡ num) × IsRising start (base + fuel) out
  unfolding ports_loop
  ports_loop-IsRising start zero num base ports out s l r e = cc
  ports_loop-IsRising start (suc fuel) num base ports out s l r e =
      elim (Bool-cases (ltb (length ports) num)) [
        | inl more ↦
            let rest = rw more at e in
            elim (Bool-cases (is_free base)) [
              | inl free ↦
                  let kept =
                    ports_loop-IsRising start fuel num (base + 1) (ports ++ base ∷ []) out
                      (omega arith)
                      (omega (arith, length-append {0} ports (base ∷ []), ltb→lt _ _ more))
                      (IsRising-snoc start base (base + 1) ports r s (omega arith) free)
                      (rw free at rest) in
                  (kept.0, subst (λ t. IsRising start t out) (next base fuel) kept.1)
              | inr taken ↦
                  let kept =
                    ports_loop-IsRising start fuel num (base + 1) ports out (omega arith) l
                      (IsRising-top start base (base + 1) ports (omega arith) r)
                      (rw taken at rest) in
                  (kept.0, subst (λ t. IsRising start t out) (next base fuel) kept.1)
            ]
        | inr done ↦
            let same : ports ≡ out = some-injective (rw done at e) in
            (
              ap length (sym same) ∙ full num (length ports) l done,
              subst (IsRising start (base + suc fuel)) same
                  (IsRising-top start base (base + suc fuel) ports (omega arith) r),
            )
      ]

  -- Whatever `get_port_values` gives: as many ports as were asked for, each free, not below
  -- `base_port` and above the one before it, and not more than one beyond `base_port` for each try.
  pub get_port_values-IsRising :
      (fuel num base_port : ℕ) (ports : List ℕ)
      → get_port_values is_free fuel num base_port ≡ some ports
      → (length ports ≡ num) × IsRising base_port (base_port + fuel) ports
  unfolding get_port_values
  get_port_values-IsRising fuel num base_port ports e =
      ports_loop-IsRising base_port fuel num base_port [] ports (omega arith) (omega arith) tt e
