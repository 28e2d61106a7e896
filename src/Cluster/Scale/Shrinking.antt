-- ===== src/Cluster/Scale/Shrinking.antt =====
-- What a `shrink` that returns leaves of the lists of a cluster.
use wallaroo.Base.{ok-injective}
use wallaroo.Base.{
  ℕ, zero, suc, ◌+◌, ◌-◌, ◌<◌, ◌≡◌, refl, sym, ap, ◌∙◌, Bool, true, false, Option, none, some,
}
use wallaroo.Base.{
  List, [], ◌∷◌, ◌++◌, ◌==◌, ==_refl, if◌then◌else◌, Result, ok, err, ◌>>=◌, arith, length,
  length-drop,
}
use wallaroo.Base.{>>=-eq-ok, drop, leb, value_error, lt→leb, le→leb}
use wallaroo.Base.Int.{pos}
use wallaroo.Base.Text.{Text, intercalate}
use mathlib.Core.Path.{subst, subst₂}
use wallaroo.Cluster.{Runner, Cluster, Outcome, remove_first, keeping_all}
use wallaroo.Cluster.Commands.{comma}
use wallaroo.Cluster.Counting.{count, one_if, count-append, IsAccounted, remove_first-TakenOut}
use wallaroo.Cluster.Scale.{
  Answers, Leaving, by_number, names_of, shrink, shrink_chosen, after_command, shrunk,
  choose_leaving, remove_all, remove_next, last_workers, send_shrink, confirmed, address_of,
  first_of,
}
use wallaroo.Validation.{Partitions}

remove_all-count :
    (leaving rs rest : List Runner)
    → remove_all leaving rs ≡ (ok tt, rest)
    → (n : ℕ) → count n rs ≡ count n leaving + count n rest
unfolding remove_all count
remove_all-count [] rs rest h n =
    let same_rest : rs ≡ rest = ap (λ (p : Result (Unit {0}) × List Runner). p.1) h in
    rw same_rest (omega arith)
remove_all-count (r ∷ leaving) rs rest h n =
    go (remove_first r rs) refl (λ mid q. remove_all-count leaving mid rest q n) h
  where
    go :
        (o : Option (List Runner))
        → remove_first r rs ≡ o
        → ((mid : List Runner)
            → remove_all leaving mid ≡ (ok tt, rest)
            → count n mid ≡ count n leaving + count n rest)
        → remove_next o rs (remove_all leaving) ≡ (ok tt, rest)
        → count n rs ≡ one_if (r.ident == n) + count n leaving + count n rest
    go none e ih q = cc
    go (some mid) e ih q = omega (arith, ih mid q, remove_first-TakenOut r rs mid e n)

-- The runners that a shrink that returns has chosen, and the lists behind it.
record Shrunk (which : Leaving) (c : Cluster) (leaving : List Runner) (c' : Cluster) : Type 0 where
  address : Text
  chosen : choose_leaving which c.workers ≡ ok (address, leaving)
  taken : remove_all leaving c.workers ≡ (ok tt, c'.workers)
  dead : c'.dead_workers ≡ c.dead_workers ++ leaving
  kept : c'.runners ≡ c.runners

shrink-Shrunk :
    (with_test : Bool) (a : Answers) (which : Leaving) (c : Cluster) (rs : List Runner)
    (c' : Cluster)
    → shrink with_test a which c ≡ (ok rs, c')
    → Shrunk which c rs c'
unfolding shrink
shrink-Shrunk with_test a which c rs c' h = go (choose_leaving which c.workers) refl h
  where
    removed :
        (address : Text) (leaving : List Runner) (pre : Partitions Text)
        → choose_leaving which c.workers ≡ ok (address, leaving)
        → (o : Result (Unit {0}) × List Runner) → remove_all leaving c.workers ≡ o
        → shrunk with_test a c leaving pre o ≡ (ok rs, c')
        → Shrunk which c rs c'
    removed address leaving pre chosen (err e, rest) q h = cc
    removed address leaving pre chosen (ok done, rest) q h =
        let (checked, passed, same_leaving) =
          >>=-eq-ok (confirmed with_test a pre _) (λ _. ok leaving)
            (ap (λ (p : Outcome (List Runner)). p.0) h) in
        subst₂ (λ l d. Shrunk which c l d) (ok-injective same_leaving)
          (ap (λ (p : Outcome (List Runner)). p.1) h)
          (record { address = address; chosen = chosen; taken = q; dead = refl; kept = refl })

    sent :
        (address : Text) (leaving : List Runner)
        → choose_leaving which c.workers ≡ ok (address, leaving)
        → (o : Result (Partitions Text)) → after_command with_test a c leaving o ≡ (ok rs, c')
        → Shrunk which c rs c'
    sent address leaving chosen (err e) h = cc
    sent address leaving chosen (ok pre) h =
        removed address leaving pre chosen (remove_all leaving c.workers) refl h

    go :
        (o : Result (Text × List Runner))
        → choose_leaving which c.workers ≡ o
        → shrink_chosen with_test a c o ≡ (ok rs, c')
        → Shrunk which c rs c'
    go (err e) q h = cc
    go (ok (address, leaving)) q h =
        sent address leaving q (send_shrink with_test a (address, leaving)) h

-- A shrink that returns, by names or by a number, with or without the test of the migration, keeps
-- every runner either a worker or a dead worker.
pub shrink-IsAccounted :
    (with_test : Bool) (a : Answers) (which : Leaving) (c : Cluster) (rs : List Runner)
    (c' : Cluster)
    → IsAccounted c
    → shrink with_test a which c ≡ (ok rs, c')
    → IsAccounted c'
shrink-IsAccounted with_test a which c rs c' accounted h n =
    let s = shrink-Shrunk with_test a which c rs c' h in
    rw (s.dead, s.kept, count-append n c.dead_workers rs)
      (omega (arith, accounted n, remove_all-count rs c.workers c'.workers s.taken n))

remove_first-length :
    (r : Runner) (rs rest : List Runner)
    → remove_first r rs ≡ some rest
    → length rs ≡ suc (length rest)
unfolding remove_first
remove_first-length r [] rest h = cc
remove_first-length r (x ∷ xs) rest h =
    go (x.ident == r.ident) (remove_first r xs) (remove_first-length r xs) h
  where
    go :
        (b : Bool) (o : Option (List Runner))
        → ((rest : List Runner) → o ≡ some rest → length xs ≡ suc (length rest))
        → (if b then some xs else keeping_all x o) ≡ some rest
        → suc (length xs) ≡ suc (length rest)
    go true o ih h = let same_rest : xs ≡ rest = cc in rw same_rest refl
    go false none ih h = cc
    go false (some tail) ih h =
        let same_rest : x ∷ tail ≡ rest = cc in rw (sym same_rest) (ap suc (ih tail refl))

remove_all-length :
    (leaving rs rest : List Runner)
    → remove_all leaving rs ≡ (ok tt, rest)
    → length rs ≡ length leaving + length rest
unfolding remove_all
remove_all-length [] rs rest h =
    let same_rest : rs ≡ rest = ap (λ (p : Result (Unit {0}) × List Runner). p.1) h in
    rw same_rest (omega arith)
remove_all-length (r ∷ leaving) rs rest h =
    go (remove_first r rs) refl (λ mid q. remove_all-length leaving mid rest q) h
  where
    go :
        (o : Option (List Runner))
        → remove_first r rs ≡ o
        → ((mid : List Runner)
            → remove_all leaving mid ≡ (ok tt, rest)
            → length mid ≡ length leaving + length rest)
        → remove_next o rs (remove_all leaving) ≡ (ok tt, rest)
        → length rs ≡ suc (length leaving) + length rest
    go none e ih q = cc
    go (some mid) e ih q = omega (arith, ih mid q, remove_first-length r rs mid e)

chosen_by_number :
    (k : ℕ) (rs : List Runner) (address : Text) (leaving : List Runner)
    → choose_leaving (by_number (pos (suc k))) rs ≡ ok (address, leaving)
    → (length leaving ≡ suc k) × (suc k < length rs)
unfolding choose_leaving
chosen_by_number k rs address leaving h = go (leb (length rs) (suc k)) refl (first_of rs) h
  where
    go :
        (b : Bool)
        → leb (length rs) (suc k) ≡ b
        → (o : Option Runner)
        → (if b then err value_error else address_of o (last_workers (pos (suc k)) rs))
          ≡ ok (address, leaving)
        → (length leaving ≡ suc k) × (suc k < length rs)
    go true e o q = cc
    go false e none q = cc
    go false e (some r) q =
        let same_leaving : drop (length rs - suc k) rs ≡ leaving = cc in
        let fewer : suc k < length rs = ground arith in
        (rw (sym same_leaving) (omega (arith, fewer, length-drop (length rs - suc k) rs)), fewer)

-- A shrink by a positive number that returns takes that many workers, and at least one is left.
pub shrink_leaves_some :
    (with_test : Bool) (a : Answers) (k : ℕ) (c : Cluster) (rs : List Runner) (c' : Cluster)
    → shrink with_test a (by_number (pos (suc k))) c ≡ (ok rs, c')
    → (length rs ≡ suc k) × (length c'.workers + suc k ≡ length c.workers) × (0 < length c'.workers)
shrink_leaves_some with_test a k c rs c' h =
    let s = shrink-Shrunk with_test a (by_number (pos (suc k))) c rs c' h in
    let (many, fewer) = chosen_by_number k c.workers s.address rs s.chosen in
    let all = remove_all-length rs c.workers c'.workers s.taken in
    (many, omega (arith, many, all), omega (arith, many, fewer, all))

remove_all_self : (rs : List Runner) → remove_all rs rs ≡ (ok tt, [])
unfolding remove_all remove_first
remove_all_self [] = refl
remove_all_self (r ∷ rs) = rw (==_refl r.ident) (remove_all_self rs)

zero_chosen :
    (w : Runner) (ws rs : List Runner)
    → rs ≡ w ∷ ws
    → choose_leaving (by_number (pos zero)) rs ≡ ok (w.external, rs)
unfolding choose_leaving
zero_chosen w ws rs e =
    subst (λ rs. choose_leaving (by_number (pos zero)) rs ≡ ok (w.external, rs)) (sym e)
      (rw (lt→leb (suc (length ws)) 0 (omega arith)) refl)

all_refused : (rs : List Runner) → choose_leaving (by_number (pos (length rs))) rs ≡ err value_error
unfolding choose_leaving
all_refused rs = rw (le→leb (length rs) (length rs) (omega arith)) refl

-- A shrink by zero, without the test of the migration, is not refused: where there is a worker and the
-- command succeeds, it takes all of the workers, though all of them by their number would be refused.
pub shrink_by_zero :
    (a : Answers) (c : Cluster) (w : Runner) (ws : List Runner) (response : Text)
    → c.workers ≡ w ∷ ws
    → a.command w.external (intercalate comma (names_of c.workers)) ≡ ok response
    → ((shrink false a (by_number (pos zero)) c).0 ≡ ok c.workers)
      × ((shrink false a (by_number (pos zero)) c).1.workers ≡ [])
      × ((shrink false a (by_number (pos (length c.workers))) c).0 ≡ err value_error)
unfolding shrink
shrink_by_zero a c w ws response e h = (
  ap (λ (p : Outcome (List Runner)). p.0) all_taken,
  ap (λ (p : Outcome (List Runner)). p.1.workers) all_taken,
  ap (λ o. (shrink_chosen false a c o).0) (all_refused c.workers),
)
  where
    sent : send_shrink false a (w.external, c.workers) ≡ ok []
    sent = ap (λ o. o >>= λ response. ok []) h

    all_taken :
        shrink false a (by_number (pos zero)) c
        ≡ (ok c.workers, record c { workers = []; dead_workers = c.dead_workers ++ c.workers })
    all_taken =
        ap (shrink_chosen false a c) (zero_chosen w ws c.workers e)
        ∙ ap (after_command false a c c.workers) sent
        ∙ ap (shrunk false a c c.workers []) (remove_all_self c.workers)
