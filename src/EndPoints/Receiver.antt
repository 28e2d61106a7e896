-- ===== src/EndPoints/Receiver.antt =====
-- `SingleSocketReceiver` in the framed mode, and what `TCPReceiver` keeps and saves. The socket is
-- the bytes that it will give before it is closed: `recv` with MSG_WAITALL gives as many as are
-- asked for, or all that are left.
pub mod Accounts
use wallaroo.Base.{ℕ, zero, suc, ◌+◌, ◌<◌, ◌≡◌, ◌≢◌, refl, ap, ◌∙◌, arith, take-append-drop}
use wallaroo.Base.{
  List, [], ◌∷◌, ◌++◌, length, take, drop, join, All, map, append_assoc, append-nil,
}
use wallaroo.Base.{Result, ok, ◌>>=◌, length-append, sym, Bool, false, if◌then◌else◌}
use wallaroo.Struct.{Bytes, pack_be}
use wallaroo.EndPoints.Frames.{
  Ending, ended, stuck, raised, frame, pieces, IsRecord, Next, no_more, bad, found, next_record,
  next_record-frame, next_record-empty, next_record-shrinks, framed_file_generator,
  framed_file_generator-pieces,
}

-- `self.append(''.join((header, data)))` in the framed mode.
abbrev pub append_record :
    Next → (Bytes → List Bytes → List Bytes × Ending) → List Bytes → List Bytes × Ending
append_record no_more go acc = (acc, ended)
append_record (bad e) go acc = (acc, raised e)
append_record (found header body rest) go acc = go rest (acc ++ (header ++ body) ∷ [])

-- `run_framed`, with the accumulator.
unfoldable pub run_framed : ℕ → Bytes → List Bytes → List Bytes × Ending
unfolding next_record
run_framed zero sock acc = (acc, stuck)
run_framed (suc fuel) sock acc = append_record (next_record sock) (run_framed fuel) acc

-- From a socket that gives records the receiver appends each, whole and in order, and stops.
pub run_framed-frames :
    (fuel : ℕ) (bodies acc : List Bytes)
    → All IsRecord bodies
    → length bodies < fuel
    → run_framed fuel (join (map frame bodies)) acc ≡ (acc ++ map frame bodies, ended)
unfolding run_framed
run_framed-frames zero bodies acc h n = absurd (omega arith)
run_framed-frames (suc fuel) [] acc h n = ap (λ t. (t, ended)) (sym (append-nil acc))
run_framed-frames (suc fuel) (body ∷ bodies) acc (r, h) n =
    ap (λ x. append_record x (run_framed fuel) acc)
      (next_record-frame body (join (map frame bodies)) r)
    ∙ run_framed-frames fuel bodies (acc ++ frame body ∷ []) h (omega arith)
    ∙ ap (λ t. (t, ended)) (append_assoc acc (frame body ∷ []) (map frame bodies))

-- A record without a body stops the receiver: what follows on the socket is not received.
pub run_framed-empty :
    (fuel : ℕ) (rest : Bytes) (acc : List Bytes)
    → run_framed (suc fuel) (frame [] ++ rest) acc ≡ (acc, ended)
unfolding run_framed
run_framed-empty fuel rest acc =
    ap (λ x. append_record x (run_framed fuel) acc) (next_record-empty rest)

-- `TCPReceiver.save` with its header length of four; `giles` puts a counter behind each header.
unfoldable pub save_from : ℕ → Bool → List Bytes → Result Bytes
save_from c giles [] = ok []
save_from c giles (item ∷ items) =
    let rest = save_from (c + 1) giles items in
    do
      count ← (if giles then pack_be 8 c else ok [])
      more ← rest
      ok (take 4 item ++ (count ++ (drop 4 item ++ more)))

unfoldable pub save : Bool → List Bytes → Result Bytes
unfolding save_from
save giles items = save_from 0 giles items

-- `bytes_received`
unfoldable pub bytes_received : List Bytes → ℕ
bytes_received [] = 0
bytes_received (item ∷ items) = length item + bytes_received items

save_from-join : (c : ℕ) (items : List Bytes) → save_from c false items ≡ ok (join items)
unfolding save_from
save_from-join c [] = refl
save_from-join c (item ∷ items) =
    rw (save_from-join (c + 1) items, ← append_assoc (take 4 item) (drop 4 item) (join items))
      (ap (λ t. ok (t ++ join items)) (take-append-drop 4 item))

bytes_received-join : (items : List Bytes) → bytes_received items ≡ length (join items)
unfolding bytes_received
bytes_received-join [] = refl
bytes_received-join (item ∷ items) =
    omega (arith, length-append {0} item (join items), bytes_received-join items)

-- What a receiver took from a socket that gave records is counted and saved byte for byte, and a
-- generator over the saved file yields the same records.
pub save-run_framed :
    (fuel fuel' : ℕ) (bodies : List Bytes)
    → All IsRecord bodies
    → length bodies < fuel
    → length bodies < fuel'
    → let items = (run_framed fuel (join (map frame bodies)) []).0 in
      (bytes_received items ≡ length (join (map frame bodies)))
      × ((file : Bytes) × (save false items ≡ ok file)
          × (framed_file_generator fuel' file ≡ (pieces bodies, ended)))
unfolding save
save-run_framed fuel fuel' bodies h n n' = rw (run_framed-frames fuel bodies [] h n) (
  bytes_received-join (map frame bodies),
  (
    join (map frame bodies),
    save_from-join 0 (map frame bodies),
    framed_file_generator-pieces fuel' bodies h n',
  ),
)
