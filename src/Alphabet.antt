-- ===== src/Alphabet.antt =====
-- The example application examples/python/alphabet/alphabet.py: votes for letters, and their running
-- totals. A text is the list of its code points; `'%d' % n` is a parameter.
pub mod Totals
mod Tests
use wallaroo.Base.{ℕ, ◌+◌, ◌<◌, Option, none, some, List, [], ◌∷◌, ◌++◌, take, drop, ltb, ◌==◌}
use wallaroo.Base.{
  if◌then◌else◌, length, Result, ok, err, ◌>>=◌, key_error, value_error, struct_error,
}
use wallaroo.Base.Text.{Text}
use wallaroo.Base.Dict.{Dict, lookup, insert, text_eq}
use wallaroo.Struct.{Bytes, unpack_be}

pub record Votes : Type 0 where
  pub letter : Text
  pub votes : ℕ

-- `AllVotes`, with its `votes_by_letter`
abbrev pub AllVotes : Type 0
AllVotes = Dict Text Votes

abbrev pub or_no_votes : Text → Option Votes → Votes
or_no_votes letter none = record { letter = letter; votes = 0 }
or_no_votes letter (some v) = v

-- `update`. The object that is stored is changed and stored again.
unfoldable pub update : Votes → AllVotes → AllVotes
update msg s =
    let v = or_no_votes msg.letter (lookup msg.letter s) in
    insert msg.letter (record v { votes = v.votes + msg.votes }) s

-- `get_votes` gives a new object.
unfoldable pub get_votes : Text → AllVotes → Result Votes
get_votes letter s = elim (lookup letter s) [
  | none ↦ err key_error
  | some vbl ↦ ok (record { letter = letter; votes = vbl.votes })
]

-- The state computation `add votes`.
unfoldable pub add_votes : Votes → AllVotes → Result Votes × AllVotes
unfolding update get_votes
add_votes msg s = let s' = update msg s in (get_votes msg.letter s', s')

-- `letter.decode("utf-8")` of a single byte, which must be ASCII.
unfoldable pub decode_letter : Bytes → Result Text
decode_letter [] = ok []
decode_letter (b ∷ bs) = if ltb b 128 then ok (b ∷ bs) else err value_error

-- `struct.unpack(">sI", bs)` wants five bytes.
unfoldable pub decoder : Bytes → Result Votes
unfolding decode_letter
decoder bs =
    if length bs == 5
    then (do
      vote_count ← unpack_be 4 (drop 1 bs)
      letter ← decode_letter (take 1 bs)
      ok (record { letter = letter; votes = vote_count }))
    else err struct_error

-- `"%s => %d\n"`
unfoldable pub encoder : (ℕ → Text) → Votes → Text
encoder decimal msg = msg.letter ++ (b' ' ∷ b'=' ∷ b'>' ∷ b' ' ∷ decimal msg.votes) ++ 10 ∷ []
