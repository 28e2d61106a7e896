-- ===== src/EndPoints/Sender/Wire.antt =====
-- The bytes that the sockets of a sender of demos/resilience-demo/lib/end_points.py got out, beside
-- those that it counts as sent: a `sendall` that raises may have got a part of its batch out.
use wallaroo.Base.{
  ℕ, Bool, true, false, Option, none, some, [], ◌∷◌, ◌++◌, sym, join, length, leb, take,
  if◌then◌else◌,
}
use mathlib.Core.Path.{subst}
use wallaroo.Struct.{Bytes}
use wallaroo.EndPoints.Reader.{Reader}
use wallaroo.EndPoints.Sender.{
  Sender, send, batch_send_final, batch_append, maybe_stop, no_batch, Got, none_left, bad, got,
  Round, goes_on, broke, failed, read_record,
}
use wallaroo.EndPoints.Sender.SendsAll.{join-snoc}
use wallaroo.EndPoints.Sender.Sessions.{
  Moment, try_send, try_send_final, try_batch_send, handle, then_read, moment_round,
}

-- That the first bytes are among the second, in order.
pub data IsWithin : Bytes → Bytes → Type 0 where
  nothing : IsWithin [] []
  kept : (b : ℕ) (xs ys : Bytes) → IsWithin xs ys → IsWithin (b ∷ xs) (b ∷ ys)
  passed : (b : ℕ) (xs ys : Bytes) → IsWithin xs ys → IsWithin xs (b ∷ ys)

nil-IsWithin : (bs : Bytes) → IsWithin [] bs
nil-IsWithin [] = nothing
nil-IsWithin (b ∷ bs) = passed b [] bs (nil-IsWithin bs)

IsWithin_self : (bs : Bytes) → IsWithin bs bs
IsWithin_self [] = nothing
IsWithin_self (b ∷ bs) = kept b bs bs (IsWithin_self bs)

append-IsWithin : (xs ys bs : Bytes) → IsWithin xs ys → IsWithin (xs ++ bs) (ys ++ bs)
append-IsWithin _ _ bs nothing = IsWithin_self bs
append-IsWithin _ _ bs (kept b xs ys h) = kept b (xs ++ bs) (ys ++ bs) (append-IsWithin xs ys bs h)
append-IsWithin _ _ bs (passed b xs ys h) =
    passed b (xs ++ bs) (ys ++ bs) (append-IsWithin xs ys bs h)

longer-IsWithin : (xs ys bs : Bytes) → IsWithin xs ys → IsWithin xs (ys ++ bs)
longer-IsWithin _ _ bs nothing = nil-IsWithin bs
longer-IsWithin _ _ bs (kept b xs ys h) = kept b xs (ys ++ bs) (longer-IsWithin xs ys bs h)
longer-IsWithin _ _ bs (passed b xs ys h) = passed b xs (ys ++ bs) (longer-IsWithin xs ys bs h)

-- What counts as sent has gone out, in order.
abbrev pub IsOut : Sender → Type 0
IsOut s = IsWithin (join s.sent) s.wire

batch_send_final-IsOut : (s : Sender) → IsOut s → IsOut (batch_send_final s)
unfolding batch_send_final send
batch_send_final-IsOut s h = go (no_batch s.batch)
  where
    go : (b : Bool) → IsOut (if b then s else record (send (join s.batch) s) { batch = [] })
    go true = h
    go false =
        subst (λ t. IsWithin t (s.wire ++ join s.batch)) (sym (join-snoc s.sent (join s.batch)))
          (append-IsWithin (join s.sent) s.wire (join s.batch) h)

pub try_send_final-IsOut :
    (fails : Option ℕ) (s : Sender) → IsOut s → IsOut (try_send_final fails s).0
unfolding try_send_final
try_send_final-IsOut fails s h = go (no_batch s.batch) fails
  where
    go : (b : Bool) (fails : Option ℕ) → IsOut (if b then (s, goes_on) else try_send fails s).0
    go true fails = h
    go false none = batch_send_final-IsOut s h
    go false (some out) = longer-IsWithin (join s.sent) s.wire (take out (join s.batch)) h

handle-IsOut :
    (fails : Option ℕ) (g : Got × Reader) (s : Sender) → IsOut s → IsOut (handle fails g s).0
unfolding handle maybe_stop try_batch_send batch_append
handle-IsOut fails (none_left, r) s h = go (no_batch s.batch)
  where
    go :
        (b : Bool)
        → IsOut (if b then record s { reader = r; is_stopped = true } else record s { reader = r })
    go true = h
    go false = h
handle-IsOut fails (bad e, r) s h = h
handle-IsOut fails (got header body, r) s h =
    let s' : Sender = batch_append (header ++ body) (record s { reader = r }) in
    go s' h (leb s'.batch_size (length s'.batch))
  where
    go :
        (s' : Sender)
        → IsOut s'
        → (b : Bool) → IsOut (if b then try_send_final fails s' else (s', goes_on)).0
    go s' h' true = try_send_final-IsOut fails s' h'
    go s' h' false = h'

pub moment_round-IsOut : (m : Moment) (s : Sender) → IsOut s → IsOut (moment_round m s).0
unfolding moment_round
moment_round-IsOut m s h =
    go (if m.is_paused then try_send_final m.send_fails s else (s, goes_on)) (paused m.is_paused)
  where
    paused : (b : Bool) → IsOut (if b then try_send_final m.send_fails s else (s, goes_on)).0
    paused true = try_send_final-IsOut m.send_fails s h
    paused false = h

    go : (r : Sender × Round) → IsOut r.0 → IsOut (then_read m.send_fails r).0
    go (s', goes_on) h' = handle-IsOut m.send_fails (read_record s'.reader) s' h'
    go (s', broke) h' = h'
    go (s', failed e) h' = h'
