-- ===== src/Cluster/Crashes.antt =====
-- `CrashChecker` of demos/resilience-demo/lib/control.py: the thread that ends a cluster when one of
-- its runners has crashed.
use wallaroo.Base.{◌≡◌, ap, ◌∙◌, List, [], ◌∷◌, ◌++◌, All, Result, ok, err, cluster_error}
use wallaroo.Cluster.{Runner, View, get_crashed_workers}
use wallaroo.Cluster.Exit.{Session, Views, raise_from_error}

-- What a round does with the crashed workers; an error of `get_crashed_workers` ends the thread.
abbrev pub after_crashes :
    Views
    → Session
    → Result (List Runner)
    → Result (Unit {0}) × Session
    → Result (Unit {0}) × Session
after_crashes v s (err e) more = (err e, s)
after_crashes v s (ok []) more = more
after_crashes v s (ok (r ∷ rs)) more = raise_from_error v cluster_error s

-- `CrashChecker.run`, over what the runners do at each round; the cluster is as it was between them.
unfoldable pub crash_checker : Views → List View → Session → Result (Unit {0}) × Session
unfolding get_crashed_workers raise_from_error
crash_checker v [] s = (ok tt, s)
crash_checker v (view ∷ rounds) s =
    after_crashes v s (get_crashed_workers view s.cluster) (crash_checker v rounds s)

-- The first round that finds crashed workers hands a ClusterError to `raise_from_error`, if no round
-- before it found one or raised, and nothing else is done to the cluster.
pub crash_checker-raise_from_error :
    (v : Views) (s : Session) (before : List View) (view : View) (rest : List View) (r : Runner)
    → (rs : List Runner) → All (λ view. get_crashed_workers view s.cluster ≡ ok []) before
    → get_crashed_workers view s.cluster ≡ ok (r ∷ rs)
    → crash_checker v (before ++ view ∷ rest) s ≡ raise_from_error v cluster_error s
unfolding crash_checker
crash_checker-raise_from_error v s [] view rest r rs clean crashed =
    ap (λ o. after_crashes v s o (crash_checker v rest s)) crashed
crash_checker-raise_from_error v s (b ∷ before) view rest r rs (c, clean) crashed =
    ap (λ o. after_crashes v s o (crash_checker v (before ++ view ∷ rest) s)) c
    ∙ crash_checker-raise_from_error v s before view rest r rs clean crashed
