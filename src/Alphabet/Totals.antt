-- ===== src/Alphabet/Totals.antt =====
-- What the application sends for the messages it gets.
use wallaroo.Base.{ℕ, ◌+◌, ◌<◌, ◌^◌, ◌≡◌, refl, ap, ◌∙◌, arith, some}
use wallaroo.Base.{List, [], ◌∷◌, if◌then◌else◌, ok, Bool-cases, inl, inr, lt→ltb}
use wallaroo.Base.Text.{Text}
use wallaroo.Base.Dict.{same, same_refl, same→≡, lookup, lookup-insert, text_eq}
use wallaroo.Struct.{be}
use wallaroo.Struct.RoundTrip.{length-be, unpack_be-be}
use wallaroo.Alphabet.{
  Votes, AllVotes, or_no_votes, update, get_votes, add_votes, decoder, decode_letter,
}

-- The state after the messages, the first one first.
unfoldable pub after : List Votes → AllVotes → AllVotes
unfolding add_votes
after [] s = s
after (msg ∷ rest) s = after rest (add_votes msg s).1

-- The votes for a letter in the messages.
abbrev pub total : Text → List Votes → ℕ
total l [] = 0
total l (msg ∷ rest) = (if same msg.letter l then msg.votes else 0) + total l rest

abbrev pub counted : Text → AllVotes → ℕ
counted l s = (or_no_votes l (lookup l s)).votes

abbrev updated : Votes → AllVotes → Votes
updated msg s = record (or_no_votes msg.letter (lookup msg.letter s)) {
  votes = counted msg.letter s + msg.votes;
}

no_more : (n : ℕ) → n + 0 ≡ n
no_more n = omega arith

lookup-update :
    (l : Text) (msg : Votes) (s : AllVotes)
    → lookup l (update msg s) ≡ (if same msg.letter l then some (updated msg s) else lookup l s)
unfolding update
lookup-update l msg s = lookup-insert l msg.letter (updated msg s) s

counted-update :
    (l : Text) (msg : Votes) (s : AllVotes)
    → counted l (update msg s) ≡ (if same msg.letter l then msg.votes else 0) + counted l s
counted-update l msg s =
    ap (λ o. (or_no_votes l o).votes) (lookup-update l msg s)
    ∙ elim (Bool-cases (same msg.letter l)) [
      | inl e ↦
          let here : counted msg.letter s ≡ counted l s =
            ap (λ k. counted k s) (same→≡ msg.letter l e) in
          rw e (omega (arith, here))
      | inr e ↦ rw e (omega arith)
    ]

counted-after :
    (l : Text) (msgs : List Votes) (s : AllVotes)
    → counted l (after msgs s) ≡ total l msgs + counted l s
unfolding after add_votes
counted-after l [] s = omega arith
counted-after l (msg ∷ rest) s =
    omega (arith, counted-after l rest (update msg s), counted-update l msg s)

get_votes-update :
    (msg : Votes) (s : AllVotes)
    → get_votes msg.letter (update msg s)
      ≡ ok (record { letter = msg.letter; votes = counted msg.letter s + msg.votes })
unfolding get_votes
get_votes-update msg s = rw (lookup-update msg.letter msg s, same_refl msg.letter, get_votes) refl

-- Whatever messages came before, the next one is answered with its letter and with all the votes for
-- it, those of the messages before and its own; the computation does not raise.
pub add_votes-total :
    (before : List Votes) (msg : Votes)
    → (add_votes msg (after before [])).0
      ≡ ok (record { letter = msg.letter; votes = total msg.letter before + msg.votes })
unfolding add_votes lookup
add_votes-total before msg =
    get_votes-update msg (after before [])
    ∙ ap (λ n. ok (record { letter = msg.letter; votes = n + msg.votes }))
        (counted-after msg.letter before [] ∙ no_more (total msg.letter before))

-- The decoder reads an ASCII letter and a count of four bytes.
pub decoder-be :
    (letter votes : ℕ)
    → letter < 128
    → votes < 256 ^ 4
    → decoder (letter ∷ be 4 votes) ≡ ok (record { letter = letter ∷ []; votes = votes })
unfolding decoder decode_letter
decoder-be letter votes h k =
    rw (length-be 4 votes, unpack_be-be 4 votes k, lt→ltb letter 128 h) refl
