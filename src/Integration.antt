-- ===== src/Integration.antt =====
-- The validation of a test's output in `pipeline_test` of demos/resilience-demo/lib/integration.py.
pub mod Validating
pub mod Run
pub mod Passing
mod Tests
use wallaroo.Base.{
  ℕ, zero, suc, ◌+◌, Bool, true, false, Option, none, some, List, [], ◌∷◌, ◌++◌, map, take, drop,
}
use wallaroo.Base.{join, length, if◌then◌else◌, Result, ok, err, assertion_error, ◌>>=◌}
use wallaroo.Base.Text.{Text}
use wallaroo.Base.Dict.{Eq, text_eq, same}

-- What a comparison of two streams finds: that both end together, or the first blocks that differ,
-- with the positions in the expected stream around its block.
pub data Comparison : Type 0 where
  all_equal : Comparison
  differs : ℕ → ℕ → Text → Text → Comparison

abbrev pub both_empty : Text → Text → Bool
both_empty [] [] = true
both_empty [] (c ∷ cs) = false
both_empty (c ∷ cs) proc = false

-- `while True: …`, 50 bytes at a time, from a position; with fuel.
unfoldable pub compare_blocks : ℕ → ℕ → Text → Text → Option Comparison
compare_blocks zero start expected processed = none
compare_blocks (suc fuel) start expected processed =
    let exp = take 50 expected in
    let proc = take 50 processed in
    let more = compare_blocks fuel (start + length exp) (drop 50 expected) (drop 50 processed) in
    if both_empty exp proc
    then some all_equal
    else (if same exp proc then more else some (differs start (start + length exp) exp proc))

-- `decoded`, by one decoder for each sink.
unfoldable pub decode_items : {A : Type 0} → (A → Result Text) → List A → Result (List Text)
decode_items decoder [] = ok []
decode_items decoder (item ∷ items) = do
  d ← decoder item
  ds ← decode_items decoder items
  ok (d ∷ ds)

-- `zip(cluster.sinks, decoder)`
unfoldable pub decode_sinks :
    {A : Type 0} → List (List A) → List (A → Result Text) → Result (List (List Text))
unfolding decode_items
decode_sinks [] decoders = ok []
decode_sinks (sink ∷ sinks) [] = ok []
decode_sinks (sink ∷ sinks) (decoder ∷ decoders) = do
  d ← decode_items decoder sink
  ds ← decode_sinks sinks decoders
  ok (d ∷ ds)

unfoldable pub same_items : List Text → List Text → Bool
same_items [] [] = true
same_items [] (y ∷ ys) = false
same_items (x ∷ xs) [] = false
same_items (x ∷ xs) (y ∷ ys) = let rest = same_items xs ys in if same x y then rest else false

-- `expected`: a stream, or a list of items.
pub data Expected : Type 0 where
  stream : Text → Expected
  items : List Text → Expected

abbrev pub add_newlines : Bool → List Text → List Text
add_newlines newlines es = if newlines then map (λ e. e ++ 10 ∷ []) es else es

abbrev pub raise_unless_equal : Option Comparison → Option (Result (Unit {0}))
raise_unless_equal none = none
raise_unless_equal (some all_equal) = some (ok tt)
raise_unless_equal (some (differs start stop exp proc)) = some (err assertion_error)

-- `processed`: the items of the sinks, or a string that the pre-processor made of them.
pub data Processed : Type 0 where
  parts : List (List Text) → Processed
  text : Text → Processed

-- What is read of the output as a stream.
abbrev pub bytes_of : Processed → Text
bytes_of (parts processed) = join (join processed)
bytes_of (text processed) = processed

-- `flattened`: the characters of a string are strings.
abbrev pub flattened : Processed → List Text
flattened (parts processed) = join processed
flattened (text processed) = map (λ c. c ∷ []) processed

-- The validation, with fuel for the blocks.
unfoldable pub validate : ℕ → Bool → Expected → Processed → Option (Result (Unit {0}))
unfolding compare_blocks same_items
validate fuel newlines (stream expected) processed =
    raise_unless_equal (compare_blocks fuel 0 expected (bytes_of processed))
validate fuel newlines (items expected) processed =
    if same_items (add_newlines newlines expected) (flattened processed)
    then some (ok tt)
    else some (err assertion_error)
