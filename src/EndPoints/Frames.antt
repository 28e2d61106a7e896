-- ===== src/EndPoints/Frames.antt =====
-- The generators of framed records: `sequence_generator`, `iter_generator`,
-- `newline_file_generator` and `framed_file_generator`. Each is modelled by what it yields over a
-- whole run. The header format is the default, `'>I'`, and `on_next` is not given.
use wallaroo.Base.{ℕ, zero, suc, ◌+◌, ◌-◌, ◌^◌, ◌<◌, ◌≤◌, ◌≡◌, ◌≢◌, refl, ap, ◌∙◌, arith}
use wallaroo.Base.{List, [], ◌∷◌, ◌++◌, length, take, drop, join, All, map, Bool, true, false}
use wallaroo.Base.{Error, Result, ok, err, ◌>>=◌, if◌then◌else◌, append_assoc, length-append}
use wallaroo.Base.{take-append_left, drop-append_left, length-drop}
use wallaroo.Base.Text.{split}
use wallaroo.Struct.{Bytes, be, pack_be, unpack_be, pack_s}
use wallaroo.Struct.RoundTrip.{length-be, unpack_be-be, pack_be-eq-ok, pack_s_self}

abbrev pub is_empty : Bytes → Bool
is_empty [] = true
is_empty (b ∷ bs) = false

-- How a loop came to its end; `stuck` is no end, but fuel that ran out.
pub data Ending : Type 0 where
  ended stuck : Ending
  raised : Error → Ending

-- One record: its length in four bytes, and its body.
abbrev pub frame : Bytes → Bytes
frame body = be 4 (length body) ++ body

-- The records as the generators yield them, header and body apart.
abbrev pub pieces : List Bytes → List Bytes
pieces [] = []
pieces (body ∷ bodies) = be 4 (length body) ∷ body ∷ pieces bodies

-- `for x in range(start+1, stop+1)`: the first number and how many are left.
unfoldable pub sequence_from : ℕ → ℕ → Bytes → Result (List Bytes)
sequence_from zero x partition = ok []
sequence_from (suc n) x partition =
    let rest = sequence_from n (x + 1) partition in
    do
      header ← pack_be 4 (8 + length partition)
      value ← pack_be 8 x
      more ← rest
      ok (header ∷ (value ++ pack_s (length partition) partition) ∷ more)

unfoldable pub sequence_generator : ℕ → ℕ → Bytes → Result (List Bytes)
unfolding sequence_from
sequence_generator stop start partition = sequence_from (stop - start) (start + 1) partition

unfoldable pub iter_generator : {A : Type 0} → (A → Bytes) → List A → Result (List Bytes)
iter_generator to_string [] = ok []
iter_generator to_string (val ∷ items) =
    let rest = iter_generator to_string items in
    do
      let strung = to_string val
      header ← pack_be 4 (length strung)
      more ← rest
      ok (header ∷ strung ∷ more)

-- The lines that `readline` gives, less their newline; empty ones are passed over.
unfoldable pub yield_lines : List Bytes → Result (List Bytes)
yield_lines [] = ok []
yield_lines (o ∷ lines) =
    let rest = yield_lines lines in
    if is_empty o
    then rest
    else do header ← pack_be 4 (length o); more ← rest; ok (header ∷ o ∷ more)

unfoldable pub newline_file_generator : Bytes → Result (List Bytes)
unfolding yield_lines split
newline_file_generator file = yield_lines (split 10 file)

-- One round of reading: no header or no body ends it, and a cut header raises.
pub data Next : Type 0 where
  no_more : Next
  bad : Error → Next
  found : Bytes → Bytes → Bytes → Next

abbrev pub read_body : Bytes → Bytes → Result ℕ → Next
read_body header rest (err e) = bad e
read_body header rest (ok expect) =
    if is_empty (take expect rest)
    then no_more
    else found header (take expect rest) (drop expect rest)

unfoldable pub next_record : Bytes → Next
next_record bytes =
    if is_empty (take 4 bytes)
    then no_more
    else read_body (take 4 bytes) (drop 4 bytes) (unpack_be 4 (take 4 bytes))

abbrev yield_record : Next → (Bytes → List Bytes × Ending) → List Bytes × Ending
yield_record no_more go = ([], ended)
yield_record (bad e) go = ([], raised e)
yield_record (found header body rest) go = (header ∷ body ∷ (go rest).0, (go rest).1)

-- The loop over the bytes of the file that are still to be read.
unfoldable pub framed_file_generator : ℕ → Bytes → List Bytes × Ending
unfolding next_record
framed_file_generator zero file = ([], stuck)
framed_file_generator (suc fuel) file = yield_record (next_record file) (framed_file_generator fuel)

-- A record that the format can carry and that the readers do not take for the end.
pub record IsRecord (body : Bytes) : Type 0 where
  pub fits : length body < 256 ^ 4
  pub nonempty : is_empty body ≡ false

module _ (body rest : Bytes) where
  pub take-header : take 4 (frame body ++ rest) ≡ be 4 (length body)
  take-header =
      rw append_assoc
        (take-append_left 4 (be 4 (length body)) (body ++ rest) (length-be 4 (length body)))

  pub drop-header : drop 4 (frame body ++ rest) ≡ body ++ rest
  drop-header =
      rw append_assoc
        (drop-append_left 4 (be 4 (length body)) (body ++ rest) (length-be 4 (length body)))

pub is_empty-be : (n v : ℕ) → is_empty (be (suc n) v) ≡ false
is_empty-be n v = go (be (suc n) v) (length-be (suc n) v)
  where
    go : (bs : Bytes) → length bs ≡ suc n → is_empty bs ≡ false
    go [] e = absurd (omega arith)
    go (b ∷ bs) e = refl

-- A record at the front is read whole.
pub next_record-frame :
    (body rest : Bytes)
    → IsRecord body
    → next_record (frame body ++ rest) ≡ found (be 4 (length body)) body rest
unfolding next_record
next_record-frame body rest h =
    rw (take-header body rest, drop-header body rest)
      (rw (is_empty-be 3 (length body), unpack_be-be 4 (length body) h.fits)
        (rw (
          take-append_left (length body) body rest refl,
          drop-append_left (length body) body rest refl,
          h.nonempty,
        )))

pub next_record-nil : next_record [] ≡ no_more
unfolding next_record
next_record-nil = refl

-- A record without a body is taken for the end, whatever follows.
pub next_record-empty : (rest : Bytes) → next_record (frame [] ++ rest) ≡ no_more
unfolding next_record
next_record-empty rest =
    rw (take-header [] rest, drop-header [] rest)
      (rw (is_empty-be 3 0, unpack_be-be 4 0 (omega arith)))

-- Each record that is read takes a byte at least.
pub next_record-shrinks :
    (bytes header body rest : Bytes)
    → next_record bytes ≡ found header body rest
    → length rest < length bytes
unfolding next_record
next_record-shrinks [] header body rest h = absurd (cc)
next_record-shrinks (b ∷ bytes) header body rest h = go (unpack_be 4 (take 4 (b ∷ bytes))) h
  where
    go :
        (r : Result ℕ)
        → read_body (take 4 (b ∷ bytes)) (drop 4 (b ∷ bytes)) r ≡ found header body rest
        → length rest < length (b ∷ bytes)
    go (err e) k = absurd (cc)
    go (ok n) k = ground (arith, length-drop n (drop 4 (b ∷ bytes)), length-drop 4 (b ∷ bytes))

-- From a file of records the generator yields each header and each body, and ends.
pub framed_file_generator-pieces :
    (fuel : ℕ) (bodies : List Bytes)
    → All IsRecord bodies
    → length bodies < fuel
    → framed_file_generator fuel (join (map frame bodies)) ≡ (pieces bodies, ended)
unfolding framed_file_generator
framed_file_generator-pieces zero bodies h n = absurd (omega arith)
framed_file_generator-pieces (suc fuel) [] h n = refl
framed_file_generator-pieces (suc fuel) (body ∷ bodies) (r, h) n =
    let more = framed_file_generator-pieces fuel bodies h (omega arith) in
    ap (λ x. yield_record x (framed_file_generator fuel))
      (next_record-frame body (join (map frame bodies)) r)
    ∙ ap (λ o. (be 4 (length body) ∷ body ∷ o.0, o.1)) more

-- The loop ends, whatever the file, with more fuel than the file has bytes.
pub framed_file_generator-ends :
    (fuel : ℕ) (file : Bytes) → length file < fuel → (framed_file_generator fuel file).1 ≢ stuck
unfolding framed_file_generator
framed_file_generator-ends zero file h = absurd (omega arith)
framed_file_generator-ends (suc fuel) file h = go (next_record file) refl (λ header body rest e.
    framed_file_generator-ends fuel rest
      (omega (arith, next_record-shrinks file header body rest e)))
  where
    go :
        (x : Next)
        → next_record file ≡ x
        → ((header body rest : Bytes)
            → next_record file ≡ found header body rest
            → (framed_file_generator fuel rest).1 ≢ stuck)
        → (yield_record x (framed_file_generator fuel)).1 ≢ stuck
    go no_more e k = λ p. cc
    go (bad x) e k = λ p. cc
    go (found header body rest) e k = k header body rest e

-- `iter_generator` yields the records of its items, where their lengths fit the header.
pub iter_generator-pieces :
    {A : Type 0} (to_string : A → Bytes) (items : List A)
    → All IsRecord (map to_string items)
    → iter_generator to_string items ≡ ok (pieces (map to_string items))
unfolding iter_generator
iter_generator-pieces to_string [] h = refl
iter_generator-pieces to_string (val ∷ items) (r, h) =
    rw (pack_be-eq-ok 4 (length (to_string val)) r.fits, iter_generator-pieces to_string items h)

pub join-pieces : (bodies : List Bytes) → join (pieces bodies) ≡ join (map frame bodies)
join-pieces [] = refl
join-pieces (body ∷ bodies) =
    rw append_assoc (ap (λ t. be 4 (length body) ++ (body ++ t)) (join-pieces bodies))

-- The bodies of `sequence_generator`: the numbers in eight bytes, each with the partition.
abbrev pub numbered : ℕ → ℕ → Bytes → List Bytes
numbered zero x partition = []
numbered (suc n) x partition = (be 8 x ++ partition) ∷ numbered n (x + 1) partition

sequence_from-pieces :
    (n x : ℕ) (partition : Bytes)
    → n + x ≤ 256 ^ 8
    → 8 + length partition < 256 ^ 4
    → sequence_from n x partition ≡ ok (pieces (numbered n x partition))
unfolding sequence_from
sequence_from-pieces zero x partition h k = refl
sequence_from-pieces (suc n) x partition h k =
    let size : length (be 8 x ++ partition) ≡ 8 + length partition =
      omega (arith, length-append {0} (be 8 x) partition, length-be 8 x) in
    rw (
      pack_be-eq-ok 4 (8 + length partition) k,
      pack_be-eq-ok 8 x (omega arith),
      sequence_from-pieces n (x + 1) partition (omega arith) k,
      pack_s_self partition,
      size,
    )

-- `sequence_generator` yields the records of the numbers above `start`, up to `stop` and with it.
pub sequence_generator-pieces :
    (stop start : ℕ) (partition : Bytes)
    → start ≤ stop
    → stop < 256 ^ 8
    → 8 + length partition < 256 ^ 4
    → sequence_generator stop start partition
      ≡ ok (pieces (numbered (stop - start) (start + 1) partition))
unfolding sequence_generator
sequence_generator-pieces stop start partition h k l =
    sequence_from-pieces (stop - start) (start + 1) partition (omega arith) l
