-- ===== src/Cluster/Commands.antt =====
-- The command lines of the runners of demos/resilience-demo/lib/cluster.py: the templates, Python's
-- `str.format` on fields that are names, and the line that a `Runner` makes of a command. Templates
-- are texts by their code points.
pub mod Formatted
use wallaroo.Base.{
  ℕ, zero, suc, Bool, true, false, Option, none, some, List, [], ◌∷◌, ◌++◌, map, ◌==◌, leb,
}
use wallaroo.Base.{
  if◌then◌else◌, Error, Result, ok, err, ◌>>=◌, value_error, key_error, index_error, name_error,
  ◌&&◌,
}
use wallaroo.Base.Text.{Text, codes, cons_head, intercalate}
use wallaroo.Base.Dict.{Dict, text_eq, nat_eq, lookup, contains}

-- What a character is for `format`, and what came before it.
pub data Brace : Type 0 where
  opening closing no_brace : Brace

pub data Scan : Type 0 where
  plain opened closed : Scan
  field : Text → Scan

abbrev pub brace_of : ℕ → Brace
brace_of c = if c == 123 then opening else (if c == 125 then closing else no_brace)

abbrev pub value_of : Option Text → Result Text → Result Text
value_of none rest = err key_error
value_of (some v) rest = rest >>= λ t. ok (v ++ t)

abbrev pub emit : ℕ → Result Text → Result Text
emit c rest = rest >>= λ t. ok (c ∷ t)

-- One character; `go` formats what follows it.
abbrev pub format_char : Dict Text Text → Scan → ℕ → Brace → (Scan → Result Text) → Result Text
format_char d plain c opening go = go opened
format_char d plain c closing go = go closed
format_char d plain c no_brace go = emit c (go plain)
format_char d opened c opening go = emit c (go plain)
format_char d opened c closing go = err index_error
format_char d opened c no_brace go = go (field (c ∷ []))
format_char d closed c opening go = err value_error
format_char d closed c closing go = emit c (go plain)
format_char d closed c no_brace go = err value_error
format_char d (field name) c opening go = err value_error
format_char d (field name) c closing go = value_of (lookup name d) (go plain)
format_char d (field name) c no_brace go = go (field (name ++ c ∷ []))

abbrev pub format_end : Scan → Result Text
format_end plain = ok []
format_end opened = err value_error
format_end closed = err value_error
format_end (field name) = err value_error

unfoldable pub format_from : Dict Text Text → Text → Scan → Result Text
format_from d [] scan = format_end scan
format_from d (c ∷ s) scan = format_char d scan c (brace_of c) (format_from d s)

-- `template.format(**d)`
unfoldable pub format : Text → Dict Text Text → Result Text
unfolding format_from
format template d = format_from d template plain

abbrev pub base_command : Text
base_command =
    codes "{command} \\\n    {in_block} \\\n    {out_block} \\\n    --metrics {metrics_addr} \\\n"
    ++ (codes
          "    --resilience-dir {res_dir} \\\n    --name {{name}} \\\n    {{initializer_block}} \\\n"
        ++ (codes
              "    {{worker_block}} \\\n    {{join_block}} \\\n    {{spike_block}} \\\n    {{alt_block}} \\\n"
            ++ codes "    --ponythreads=1 \\\n    --ponypinasio \\\n    --ponynoblock"))

abbrev pub in_block : Text
in_block = codes "--in {inputs}"

abbrev pub out_block : Text
out_block = codes "--out {outputs}"

abbrev pub initializer_cmd : Text
initializer_cmd =
    codes
      "{worker_count} \\\n    --data {data_addr} \\\n    --external {external_addr} \\\n    --cluster-initializer"

abbrev pub worker_cmd : Text
worker_cmd =
    codes
      "\n    --my-control {control_addr} \\\n    --my-data {data_addr} \\\n    --external {external_addr}"

abbrev pub join_cmd : Text
join_cmd = codes "--join {join_addr} \\\n    {worker_count}"

abbrev pub control_cmd : Text
control_cmd = codes "--control {control_addr}"

abbrev pub worker_count_cmd : Text
worker_count_cmd = codes "--worker-count {worker_count}"

abbrev pub spike_cmd : Text
spike_cmd = codes "--spike-drop \\\n    {prob} \\\n    {margin} \\\n    {seed}"

abbrev pub spike_seed : Text
spike_seed = codes "--spike-seed {seed}"

abbrev pub spike_prob : Text
spike_prob = codes "--spike-prob {prob}"

abbrev pub spike_margin : Text
spike_margin = codes "--spike-margin {margin}"

-- What every worker's command shares, numbers as the texts that `str` gives.
pub record Site : Type 0 where
  pub command : Text
  pub source_addrs : List Text
  pub sink_addrs : List Text
  pub metrics_addr : Text
  pub res_dir : Text

abbrev pub comma : ℕ
comma = 44

-- `IN_BLOCK.format(…) if source_addrs else ''`
abbrev pub block_unless_none : Text → Text → List Text → Result Text
block_unless_none template name [] = ok []
block_unless_none template name (a ∷ rest) =
    format template ((name, intercalate comma (a ∷ rest)) ∷ [])

-- `cmd_stub`
unfoldable pub make_stub : Site → Result Text
unfolding format
make_stub site = do
  inputs ← block_unless_none in_block (codes "inputs") site.source_addrs
  outputs ← block_unless_none out_block (codes "outputs") site.sink_addrs
  format base_command (
      (codes "command", site.command)
      ∷ (codes "in_block", inputs)
      ∷ (codes "out_block", outputs)
      ∷ (codes "metrics_addr", site.metrics_addr)
      ∷ (codes "res_dir", site.res_dir)
      ∷ [])

-- The fields of a worker.
pub record Fields : Type 0 where
  pub name : Text
  pub initializer_block : Text
  pub worker_block : Text
  pub join_block : Text
  pub alt_block : Text
  pub spike_block : Text

unfoldable pub fill_stub : Text → Fields → Result Text
unfolding format
fill_stub stub f = format stub (
    (codes "name", f.name)
    ∷ (codes "initializer_block", f.initializer_block)
    ∷ (codes "worker_block", f.worker_block)
    ∷ (codes "join_block", f.join_block)
    ∷ (codes "alt_block", f.alt_block)
    ∷ (codes "spike_block", f.spike_block)
    ∷ [])

-- A spike's settings; a seed that is there is a text.
pub record Spike : Type 0 where
  pub probability : Text
  pub margin : Text
  pub seed : Option Text

abbrev pub seed_of : Option Text → Result Text
seed_of none = ok []
seed_of (some seed) = format spike_seed ((codes "seed", seed) ∷ [])

-- The spike block of `start_runners`.
unfoldable pub spike_of : Option Spike → Result Text
unfolding format
spike_of none = ok []
spike_of (some sc) = do
  prob ← format spike_prob ((codes "prob", sc.probability) ∷ [])
  margin ← format spike_margin ((codes "margin", sc.margin) ∷ [])
  seed ← seed_of sc.seed
  format spike_cmd ((codes "prob", prob) ∷ (codes "margin", margin) ∷ (codes "seed", seed) ∷ [])

abbrev blank : ℕ → Bool
blank c = if c == 32 then true else (if leb 9 c then leb c 13 else false)

abbrev backslash : ℕ → Bool
backslash c = c == 92

-- What a character is for `splitlines`.
pub data Line : Type 0 where
  newline carriage_return in_line : Line

abbrev pub line_of : ℕ → Line
line_of c = if c == 10 then newline else (if c == 13 then carriage_return else in_line)

abbrev pub next_line : Bool → ℕ → Line → (Bool → List Text) → List Text
next_line true c newline go = go false
next_line false c newline go = [] ∷ go false
next_line after_cr c carriage_return go = [] ∷ go true
next_line after_cr c in_line go = cons_head c (go false)

-- `s.splitlines()`; a newline behind a carriage return ends no other line.
unfoldable pub split_lines : Text → Bool → List Text
split_lines [] after_cr = []
split_lines (c ∷ s) after_cr = next_line after_cr c (line_of c) (split_lines s)

unfoldable pub left_strip : (ℕ → Bool) → Text → Text
left_strip p [] = []
left_strip p (c ∷ s) = let rest = left_strip p s in if p c then rest else c ∷ s

abbrev pub kept_end : Bool → ℕ → Text → Text
kept_end b c [] = if b then [] else c ∷ []
kept_end b c (d ∷ s) = c ∷ d ∷ s

unfoldable pub right_strip : (ℕ → Bool) → Text → Text
right_strip p [] = []
right_strip p (c ∷ s) = kept_end (p c) c (right_strip p s)

unfoldable pub strip : (ℕ → Bool) → Text → Text
unfolding left_strip right_strip
strip p s = right_strip p (left_strip p s)

-- The command that a `Runner` keeps.
unfoldable pub runner_command : Text → Text
unfolding split_lines strip
runner_command command =
    intercalate 32 (map (λ v. strip blank (strip backslash v)) (split_lines command false))
