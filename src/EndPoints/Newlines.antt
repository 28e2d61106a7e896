-- ===== src/EndPoints/Newlines.antt =====
-- `SingleSocketReceiver.run_newlines`. The socket is the list of chunks that `recv` returns before
-- the empty one at its close. The state is the unfinished line (`data`, joined) and the accumulator.
use wallaroo.Base.{◌≡◌, refl, ap, ◌∙◌, sym, List, [], ◌∷◌, ◌++◌, map, append_assoc}
use wallaroo.Base.{false, if◌then◌else◌, append-nil, All}
use wallaroo.Base.Text.{split, Lacks, split_of_Lacks, split-append}
use wallaroo.Struct.{Bytes}
use wallaroo.EndPoints.Frames.{is_empty}

pub record Lines : Type 0 where
  pub line : Bytes
  pub accumulator : List Bytes

-- `append` in this mode: the newline that `split` took off is put back.
unfoldable pub append : Bytes → Lines → Lines
append bs s = record s { accumulator = s.accumulator ++ (bs ++ 10 ∷ []) ∷ [] }

-- `for s in split[:-1]: self.append(s)`, and the last part, if not empty, begins the next line.
unfoldable pub append_parts : List Bytes → Lines → Lines
unfolding append
append_parts [] s = s
append_parts (last ∷ []) s = if is_empty last then s else record s { line = s.line ++ last }
append_parts (part ∷ next ∷ parts) s = append_parts (next ∷ parts) (append part s)

-- The first part ends the unfinished line, if there is one or if the part is not empty.
unfoldable pub append_first : Bytes → Lines → Lines
unfolding append
append_first s0 s =
    if is_empty s0
    then (if is_empty s.line then s else append s.line (record s { line = [] }))
    else append (s.line ++ s0) (record s { line = [] })

abbrev handle_parts : List Bytes → Lines → Lines
handle_parts [] s = s
handle_parts (s0 ∷ parts) s = append_parts parts (append_first s0 s)

-- One round. At the close the unfinished line is appended, and the round goes on all the same.
unfoldable pub newlines_round : Bytes → Lines → Lines
unfolding append_parts append_first split
newlines_round buf s =
    handle_parts (split 10 buf)
      (if is_empty buf then (if is_empty s.line then s else append s.line s) else s)

unfoldable pub run_newlines : List Bytes → Lines → Lines
unfolding newlines_round
run_newlines [] s = newlines_round [] s
run_newlines (buf ∷ bufs) s = run_newlines bufs (newlines_round buf s)

abbrev with_newline : Bytes → Bytes
with_newline l = l ++ 10 ∷ []

-- A chunk that ends in a newline and holds whole lines, of which the first is not empty.
abbrev pub chunk_of : List Bytes → Bytes
chunk_of [] = []
chunk_of (l ∷ ls) = l ++ (10 ∷ chunk_of ls)

split-chunk_of : (ls : List Bytes) → All (Lacks 10) ls → split 10 (chunk_of ls) ≡ ls ++ [] ∷ []
split-chunk_of [] h = unfold split in refl
split-chunk_of (l ∷ ls) (h, hs) =
    split-append 10 l (chunk_of ls) h ∙ ap (λ t. l ∷ t) (split-chunk_of ls hs)

append_parts-lines :
    (ls : List Bytes) (s : Lines)
    → append_parts (ls ++ [] ∷ []) s
      ≡ record s { accumulator = s.accumulator ++ map with_newline ls }
unfolding append_parts
append_parts-lines [] s = λ i. record s { accumulator = sym (append-nil s.accumulator) i }
append_parts-lines (l ∷ []) s = refl
append_parts-lines (l ∷ m ∷ ls) s = append_parts-lines (m ∷ ls) (append l s) ∙ λ i. record s {
  accumulator = append_assoc s.accumulator (with_newline l ∷ []) (map with_newline (m ∷ ls)) i;
}

-- A chunk of whole lines, the first not empty, is appended line by line.
pub newlines_round-chunk_of :
    (l : Bytes) (ls acc : List Bytes)
    → All (Lacks 10) (l ∷ ls)
    → is_empty l ≡ false
    → newlines_round (chunk_of (l ∷ ls)) (record { line = []; accumulator = acc })
      ≡ record { line = []; accumulator = acc ++ map (λ x. x ++ 10 ∷ []) (l ∷ ls) }
unfolding newlines_round
newlines_round-chunk_of [] ls acc h n = absurd (cc)
newlines_round-chunk_of (c ∷ l) ls acc h n =
    ap (λ parts. handle_parts parts (record { line = []; accumulator = acc }))
      (split-chunk_of ((c ∷ l) ∷ ls) h)
    ∙ append_parts-lines ls (record { line = []; accumulator = acc ++ with_newline (c ∷ l) ∷ [] })
    ∙ λ i. record {
      line = [];
      accumulator = append_assoc acc (with_newline (c ∷ l) ∷ []) (map with_newline ls) i;
    }

newlines_round-part :
    (part : Bytes) (acc : List Bytes)
    → Lacks 10 part
    → is_empty part ≡ false
    → newlines_round part (record { line = []; accumulator = acc })
      ≡ record { line = []; accumulator = acc ++ (part ++ 10 ∷ []) ∷ [] }
unfolding newlines_round
newlines_round-part [] acc h n = absurd (cc)
newlines_round-part (c ∷ part) acc h n =
    ap (λ parts. handle_parts parts (record { line = []; accumulator = acc }))
      (split_of_Lacks 10 (c ∷ part) h)

-- A chunk with no newline in it is appended as a line of its own: a line that arrives in two
-- chunks is recorded as two lines.
pub newlines_round-splits_line :
    (front back : Bytes) (acc : List Bytes)
    → Lacks 10 front
    → Lacks 10 back
    → is_empty front ≡ false
    → is_empty back ≡ false
    → newlines_round
        (back ++ 10 ∷ [])
        (newlines_round front (record { line = []; accumulator = acc }))
      ≡ record {
        line = [];
        accumulator = (acc ++ (front ++ 10 ∷ []) ∷ []) ++ (back ++ 10 ∷ []) ∷ [];
      }
newlines_round-splits_line front back acc h k n m =
    ap (newlines_round (back ++ 10 ∷ [])) (newlines_round-part front acc h n)
    ∙ newlines_round-chunk_of back [] (acc ++ (front ++ 10 ∷ []) ∷ []) (k, tt) m

-- At the close an unfinished line is appended twice.
pub newlines_round-doubles_line :
    (line : Bytes) (acc : List Bytes)
    → is_empty line ≡ false
    → newlines_round [] (record { line = line; accumulator = acc }) ≡ record {
      line = [];
      accumulator = (acc ++ (line ++ 10 ∷ []) ∷ []) ++ (line ++ 10 ∷ []) ∷ [];
    }
unfolding newlines_round
newlines_round-doubles_line [] acc n = absurd (cc)
newlines_round-doubles_line (c ∷ line) acc n = refl
