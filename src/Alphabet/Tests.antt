-- ===== src/Alphabet/Tests.antt =====
-- The alphabet application at concrete inputs.
use wallaroo.Base.{◌+◌, ◌≡◌, [], ◌∷◌, ok}
use wallaroo.Alphabet.{Votes, add_votes}
use wallaroo.Alphabet.Totals.{after, total, add_votes-total}

abbrev for_a : Votes
for_a = record { letter = b'a' ∷ []; votes = 3 }

abbrev for_b : Votes
for_b = record { letter = b'b' ∷ []; votes = 5 }

add_votes-total_example :
    (add_votes for_a (after (for_a ∷ for_b ∷ []) [])).0
    ≡ ok (record { letter = b'a' ∷ []; votes = total (b'a' ∷ []) (for_a ∷ for_b ∷ []) + 3 })
add_votes-total_example = add_votes-total (for_a ∷ for_b ∷ []) for_a
