-- ===== src/EndPoints/Receiver/Accounts.antt =====
-- What a receiver of demos/resilience-demo/lib/end_points.py in the framed mode has taken from a socket
-- when it stops, and what it has left.
use mathlib.Core.Path.{subst}
use wallaroo.Base.{
  ℕ, zero, suc, ◌+◌, ◌<◌, ◌≤◌, ◌≡◌, ◌⊎◌, inl, inr, refl, sym, ap, ◌∙◌, arith, List, [], ◌∷◌, ◌++◌,
  length, take, drop, join, All, Bool, true, false, Error, Result, ok, err, struct_error,
  if◌then◌else◌, append_assoc, take-append-drop, take-append_left, length-take, length-append,
  append-nil, ◌≢◌,
}
use wallaroo.Struct.{Bytes, unpack_be}
use wallaroo.EndPoints.Frames.{
  Ending, ended, stuck, raised, is_empty, Next, no_more, bad, found, read_body, next_record,
  next_record-shrinks,
}
use wallaroo.EndPoints.Receiver.{run_framed, append_record}

-- A record that was taken: a header of four bytes, and a body that is not empty and not longer than
-- the header says; it is shorter where the socket was closed within it.
abbrev pub IsTaken : Bytes → Type 0
IsTaken r = (n : ℕ) × (unpack_be 4 (take 4 r) ≡ ok n) × (4 < length r) × (length r ≤ 4 + n)

-- What is left where the receiver stops: nothing, or a header with no body; where it raises, a part
-- of a header.
abbrev pub Left : Ending → Bytes → Type 0
Left ended rest =
    (rest ≡ []) ⊎ ((n : ℕ) × (unpack_be 4 (take 4 rest) ≡ ok n) × (take n (drop 4 rest) ≡ []))
Left stuck rest = ⊥
Left (raised e) rest = (e ≡ struct_error) × (0 < length rest) × (length rest < 4)

-- The bytes of a socket are the records taken, one behind the other, and what is left.
pub record Account (sock : Bytes) (items : List Bytes) (e : Ending) : Type 0 where
  pub rest : Bytes
  pub all_bytes : sock ≡ join items ++ rest
  pub taken : All IsTaken items
  pub left : Left e rest

-- What one round takes.
abbrev Explained : Bytes → Next → Type 0
Explained sock no_more = Left ended sock
Explained sock (bad e) = Left (raised e) sock
Explained sock (found header body rest) =
    IsTaken (header ++ body) × (sock ≡ (header ++ body) ++ rest)

is_empty-nil : (bs : Bytes) → is_empty bs ≡ true → bs ≡ []
is_empty-nil [] e = refl
is_empty-nil (b ∷ bs) e = cc

is_empty-nonempty : (bs : Bytes) → is_empty bs ≡ false → 0 < length bs
is_empty-nonempty [] e = cc
is_empty-nonempty (b ∷ bs) e = omega arith

unpack_be-ok : (bs : Bytes) (n : ℕ) → unpack_be 4 bs ≡ ok n → length bs ≡ 4
unfolding unpack_be
unpack_be-ok bs n h = ground arith

unpack_be-err :
    (bs : Bytes) (e : Error) → unpack_be 4 bs ≡ err e → (e ≡ struct_error) × (length bs ≢ 4)
unfolding unpack_be
unpack_be-err bs e h = ground arith

body-Explained :
    (sock : Bytes) (n : ℕ) (b : Bool)
    → unpack_be 4 (take 4 sock) ≡ ok n
    → is_empty (take n (drop 4 sock)) ≡ b
    → Explained sock
        (if b then no_more else found (take 4 sock) (take n (drop 4 sock)) (drop n (drop 4 sock)))
body-Explained sock n true u e = inr (n, u, is_empty-nil (take n (drop 4 sock)) e)
body-Explained sock n false u e =
    let header : Bytes = take 4 sock in
    let body : Bytes = take n (drop 4 sock) in
    let four : length header ≡ 4 = unpack_be-ok header n u in
    let size : length (header ++ body) ≡ 4 + length body =
      omega (arith, length-append {0} header body, four) in
    (
      (
        n,
        ap (unpack_be 4) (take-append_left 4 header body four) ∙ u,
        omega (arith, size, is_empty-nonempty body e),
        omega (arith, size, length-take {0} n (drop 4 sock)),
      ),
      sym (take-append-drop 4 sock)
          ∙ ap (λ t. header ++ t) (sym (take-append-drop n (drop 4 sock)))
          ∙ sym (append_assoc header body (drop n (drop 4 sock))),
    )

next_record-Explained : (sock : Bytes) → Explained sock (next_record sock)
unfolding next_record
next_record-Explained [] = inl refl
next_record-Explained (b ∷ bs) = go (unpack_be 4 (take 4 (b ∷ bs))) refl
  where
    go :
        (r : Result ℕ)
        → unpack_be 4 (take 4 (b ∷ bs)) ≡ r
        → Explained (b ∷ bs) (read_body (take 4 (b ∷ bs)) (drop 4 (b ∷ bs)) r)
    go (err e) u =
        let (same_error, short) = unpack_be-err (take 4 (b ∷ bs)) e u in
        (same_error, omega arith, omega (arith, short, length-take {0} 4 (b ∷ bs)))
    go (ok n) u = body-Explained (b ∷ bs) n (is_empty (take n (drop 4 (b ∷ bs)))) u refl

-- With the records that were there before.
run_framed-from :
    (fuel : ℕ) (sock : Bytes) (acc : List Bytes)
    → length sock < fuel
    → (items : List Bytes) × ((run_framed fuel sock acc).0 ≡ acc ++ items)
      × Account sock items (run_framed fuel sock acc).1
unfolding run_framed
run_framed-from zero sock acc h = absurd (omega arith)
run_framed-from (suc fuel) sock acc h =
    go (next_record sock) refl (next_record-Explained sock) (λ header body rest e.
      run_framed-from fuel rest (acc ++ (header ++ body) ∷ [])
        (omega (arith, next_record-shrinks sock header body rest e)))
  where
    Out : List Bytes × Ending → Type 0
    Out o = (items : List Bytes) × (o.0 ≡ acc ++ items) × Account sock items o.1

    go :
        (x : Next)
        → next_record sock ≡ x
        → Explained sock x
        → ((header body rest : Bytes)
            → next_record sock ≡ found header body rest
            → (items : List Bytes) × ((run_framed fuel rest (acc ++ (header ++ body) ∷ [])).0
                ≡ (acc ++ (header ++ body) ∷ []) ++ items)
              × Account rest items (run_framed fuel rest (acc ++ (header ++ body) ∷ [])).1)
        → Out (append_record x (run_framed fuel) acc)
    go no_more e x k =
        ([], sym (append-nil acc), record { rest = sock; all_bytes = refl; taken = tt; left = x })
    go (bad err') e x k =
        ([], sym (append-nil acc), record { rest = sock; all_bytes = refl; taken = tt; left = x })
    go (found header body rest) e (t, s) k =
        let (items, same_items, a) = k header body rest e in
        (
          (header ++ body) ∷ items,
          same_items ∙ append_assoc acc ((header ++ body) ∷ []) items,
          record {
            rest = a.rest;
            all_bytes =
                s
                ∙ ap (λ r. (header ++ body) ++ r) a.all_bytes
                ∙ sym (append_assoc (header ++ body) (join items) a.rest);
            taken = (t, a.taken);
            left = a.left;
          },
        )

-- With more fuel than the socket gives bytes, the receiver stops or raises, whatever they are: the
-- records that it has, each a header with a body that is not empty and not longer than the header
-- says, are one behind the other all of the bytes up to what is left. Nothing is left, or a header
-- without a body, where it stops; a struct.error is raised just for one to three bytes at the end.
pub run_framed-Account :
    (fuel : ℕ) (sock : Bytes)
    → length sock < fuel
    → Account sock (run_framed fuel sock []).0 (run_framed fuel sock []).1
run_framed-Account fuel sock h =
    let (items, e, a) = run_framed-from fuel sock [] h in
    subst (λ l. Account sock l (run_framed fuel sock []).1) (sym e) a
