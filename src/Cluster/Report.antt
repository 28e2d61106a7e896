-- ===== src/Cluster/Report.antt =====
-- `runner_data_format` of demos/resilience-demo/lib/cluster.py: the end of the output of each runner that
-- has exited badly. Process numbers are texts.
use wallaroo.Base.{
  ℕ, suc, ◌-◌, ◌≡◌, refl, ap, arith, false, Option, none, some, List, [], ◌∷◌, ◌++◌, All, length,
  drop, length-drop, min, ◌==◌, if◌then◌else◌,
}
use wallaroo.Base.Text.{Text, codes, intercalate}
use wallaroo.Cluster.{Code, status, signalled}
use wallaroo.Cluster.Commands.{split_lines}
use wallaroo.Cluster.Exit.{bad_exit}
use wallaroo.Cluster.Start.{decimal}

pub record RunnerReport : Type 0 where
  pub name : Text
  pub pid : Text
  pub returncode : Option Code
  pub stdout : Text

-- `str` of a return code
abbrev pub code_text : Option Code → Text
code_text none = codes "None"
code_text (some (status n)) = decimal n
code_text (some (signalled n)) = codes "-" ++ decimal n

-- `lines[-from_tail:]`, which is all of them for 0.
unfoldable pub tail_of : ℕ → List Text → List Text
tail_of n ls = if n == 0 then ls else drop (length ls - n) ls

abbrev pub identifier : RunnerReport → Text
identifier rd =
    codes "--- "
    ++ (rd.name
        ++ (codes " (pid: "
            ++ (rd.pid ++ (codes ", rc: " ++ (code_text rd.returncode ++ codes ")")))))

unfoldable pub format_runner : ℕ → RunnerReport → Text
unfolding tail_of intercalate split_lines
format_runner n rd =
    identifier rd
    ++ (codes " ->\n\n"
        ++ (intercalate 10 (tail_of n (split_lines rd.stdout false))
            ++ (codes "\n\n" ++ (identifier rd ++ codes " <-"))))

-- The runners that the default `filter_fn` lets through.
unfoldable pub format_bad : ℕ → List RunnerReport → List Text
unfolding format_runner
format_bad n [] = []
format_bad n (rd ∷ rds) =
    let rest = format_bad n rds in
    if bad_exit rd.returncode then format_runner n rd ∷ rest else rest

-- `'\n===\n'.join(…)`
abbrev pub join_reports : List Text → Text
join_reports [] = []
join_reports (t ∷ []) = t
join_reports (t ∷ u ∷ ts) = t ++ (codes "\n===\n" ++ join_reports (u ∷ ts))

unfoldable pub runner_data_format : ℕ → List RunnerReport → Text
unfolding format_bad
runner_data_format n rds = join_reports (format_bad n rds)

-- Of runners that all exited well, or were killed or stopped, nothing is reported.
pub runner_data_format-nil :
    (n : ℕ) (rds : List RunnerReport)
    → All (λ rd. bad_exit rd.returncode ≡ false) rds
    → runner_data_format n rds ≡ []
unfolding runner_data_format
runner_data_format-nil n rds h = ap join_reports (no_reports rds h)
  where
    no_reports :
        (rds : List RunnerReport)
        → All (λ rd. bad_exit rd.returncode ≡ false) rds
        → format_bad n rds ≡ []
    no_reports [] h = refl
    no_reports (rd ∷ rds) (g, h) = rw g (no_reports rds h)

-- A positive number of lines is kept, or all of them where there are fewer.
pub length-tail_of :
    (n : ℕ) (ls : List Text) → length (tail_of (suc n) ls) ≡ min (suc n) (length ls)
unfolding tail_of
length-tail_of n ls = grind (arith, length-drop (length ls - suc n) ls)
