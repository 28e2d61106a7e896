-- ===== src/EndPoints/Sequences.antt =====
-- `MultiSequenceGenerator` of `end_points`: a growable collection of sequences, from which values
-- are sent in turn, and which all reach the same value after `stop`. The lock makes each operation
-- one step. `'{:07d}'.format` is a parameter.
pub mod CatchUp
pub mod RoundRobin
use wallaroo.Base.{ℕ, zero, suc, ◌+◌, ◌-◌, max, List, [], ◌∷◌, ◌++◌, length, get_elem?, set, map}
use wallaroo.Base.{replicate, leb, ◌==◌, if◌then◌else◌, Option, some, none, Bool, true, false}
use wallaroo.Base.{Error, Result, ok, err, ◌>>=◌, index_error, value_error, attribute_error}
use wallaroo.Base.{stop_iteration}
use wallaroo.Struct.{Bytes, pack_be, pack_s}

-- `max_val` is no attribute before `stop`.
pub record Generator : Type 0 where
  pub base_value : ℕ
  pub seqs : List ℕ
  pub idx : ℕ
  pub remaining : List ℕ
  pub max_val : Option ℕ

-- `__init__`
unfoldable pub new_generator : ℕ → ℕ → Generator
new_generator base_parts base_value = record {
  base_value = base_value;
  seqs = replicate base_parts base_value;
  idx = 0;
  remaining = [];
  max_val = none;
}

unfoldable first_nonzero_from : ℕ → List ℕ → Result ℕ
first_nonzero_from idx [] = err value_error
first_nonzero_from idx (item ∷ seq) =
    let rest = first_nonzero_from (idx + 1) seq in if item == 0 then rest else ok idx

unfoldable pub first_nonzero_index : List ℕ → Result ℕ
unfolding first_nonzero_from
first_nonzero_index seq = first_nonzero_from 0 seq

-- What `_next_value_` and `_next_catchup_value` give: a sequence and its value, or an exception.
abbrev pub Sent : Type 0
Sent = Result (ℕ × ℕ)

abbrev next_at : Generator → Option ℕ → Sent × Generator
next_at g none = (err index_error, g)
next_at g (some v) =
    (ok (g.idx, v + 1), record g { seqs = set g.seqs g.idx (v + 1); idx = g.idx + 1 })

abbrev pub wrapped : Generator → Generator
wrapped g = if leb (length g.seqs) g.idx then record g { idx = 0 } else g

-- `_next_value_`
unfoldable pub next_value : Generator → Sent × Generator
next_value g = next_at (wrapped g) (get_elem? (wrapped g).seqs (wrapped g).idx)

-- `self.seqs[idx] += 1`, then `self._remaining[idx] -= 1`
abbrev catch_up : Generator → ℕ → Option ℕ → Option ℕ → Sent × Generator
catch_up g idx none r = (err index_error, g)
catch_up g idx (some v) none = (err index_error, record g { seqs = set g.seqs idx (v + 1) })
catch_up g idx (some v) (some r) = (
  ok (idx, v + 1),
  record g { seqs = set g.seqs idx (v + 1); remaining = set g.remaining idx (r - 1) },
)

-- `if not self.max_val: self._remaining = []`, then `self.throw()`
abbrev all_caught_up : Generator → Option ℕ → Sent × Generator
all_caught_up g none = (err attribute_error, g)
all_caught_up g (some zero) = (err stop_iteration, record g { remaining = [] })
all_caught_up g (some (suc m)) = (err stop_iteration, g)

abbrev catch_up_from : Generator → Result ℕ → Sent × Generator
catch_up_from g (ok idx) = catch_up g idx (get_elem? g.seqs idx) (get_elem? g.remaining idx)
catch_up_from g (err e) = all_caught_up g g.max_val

-- `_next_catchup_value`
unfoldable pub next_catchup_value : Generator → Sent × Generator
next_catchup_value g = catch_up_from g (first_nonzero_index g.remaining)

abbrev pub no_items : List ℕ → Bool
no_items [] = true
no_items (x ∷ xs) = false

unfoldable pub add_sequence : Generator → Generator
add_sequence g = if no_items g.remaining then record g { seqs = g.seqs ++ g.base_value ∷ [] } else g

-- `max` of a list that is not empty.
abbrev pub max_from : ℕ → List ℕ → ℕ
max_from m [] = m
max_from m (v ∷ vs) = max_from (max m v) vs

abbrev stop_at : Generator → List ℕ → Result Generator
stop_at g [] = err value_error
stop_at g (v ∷ vs) =
    let m = max_from v vs in ok (record g { remaining = map (λ x. m - x) g.seqs; max_val = some m })

-- `stop`; `max([])` raises.
unfoldable pub stop : Generator → Result Generator
stop g = stop_at g g.seqs

-- What `send` does under the lock.
unfoldable pub next_sent : Generator → Sent × Generator
unfolding next_value next_catchup_value
next_sent g = if no_items g.remaining then next_value g else next_catchup_value g

-- `format_value`, `struct.pack('>IQ7s', 15, value, '{:07d}'.format(partition))`
unfoldable pub format_value : (ℕ → Bytes) → ℕ → ℕ → Result Bytes
format_value format_07d value partition = do
  size ← pack_be 4 15
  number ← pack_be 8 value
  ok (size ++ (number ++ pack_s 7 (format_07d partition)))

-- `send`
unfoldable pub send : (ℕ → Bytes) → Generator → Result Bytes × Generator
unfolding next_sent
send format_07d g =
    let (sent, g') = next_sent g in (sent >>= λ v. format_value format_07d v.1 v.0, g')
