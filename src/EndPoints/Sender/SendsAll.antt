-- ===== src/EndPoints/Sender/SendsAll.antt =====
-- What a sender has sent when its loop ends.
use wallaroo.Base.{ℕ, ◌+◌, ◌<◌, ◌≡◌, refl, sym, ap, ◌∙◌, arith, Bool, true, false}
use wallaroo.Base.{List, [], ◌∷◌, ◌++◌, length, take, drop, join, All, map, leb}
use wallaroo.Base.{
  if◌then◌else◌, Bool-cases, inl, inr, append_assoc, append-nil, join-append, length-append,
}
use wallaroo.Struct.{Bytes, be}
use wallaroo.EndPoints.Reader.{Reader, read, stream, read_lem}
use wallaroo.EndPoints.Receiver.{run_framed, run_framed-frames}
use wallaroo.EndPoints.Frames.{pieces, join-pieces, Ending, ended, frame, IsRecord}
use wallaroo.EndPoints.Frames.{take-header, drop-header, is_empty-be}
use wallaroo.Struct.RoundTrip.{unpack_be-be}
use wallaroo.Base.{take-append_left, drop-append_left}
use mathlib.Core.Path.{subst}
use wallaroo.EndPoints.Sender.Running.{batch_send-is_stopped, pause-is_stopped}
use wallaroo.EndPoints.Sender.{
  Sender, send, batch_send_final, batch_send, batch_append, maybe_stop, no_batch, read_body,
  read_record, none_left, got, pause, round, run, after_round,
}

-- What was sent and what waits in the batch.
abbrev pub flow : Sender → Bytes
flow s = join s.sent ++ join s.batch

abbrev pub IsCounted : Sender → Type 0
IsCounted s = s.bytes_sent ≡ length (join s.sent)

pub join-snoc : (xs : List Bytes) (bs : Bytes) → join (xs ++ bs ∷ []) ≡ join xs ++ bs
join-snoc xs bs = join-append xs (bs ∷ []) ∙ ap (λ t. join xs ++ t) (append-nil bs)

no_batch→nil : (b : List Bytes) → no_batch b ≡ true → b ≡ []
no_batch→nil [] e = refl
no_batch→nil (x ∷ b) e = absurd (cc)

pub batch_send_final-flow :
    (s : Sender)
    → IsCounted s
    → (flow (batch_send_final s) ≡ flow s)
      × IsCounted (batch_send_final s)
      × ((batch_send_final s).batch ≡ [])
      × ((batch_send_final s).reader ≡ s.reader)
unfolding batch_send_final send
batch_send_final-flow s c = elim (Bool-cases (no_batch s.batch)) [
  | inl e ↦ rw e (refl, c, no_batch→nil s.batch e, refl)
  | inr e ↦ rw e (
    append-nil _ ∙ join-snoc s.sent (join s.batch),
    ap (λ n. n + length (join s.batch)) c
        ∙ sym (
            ap length (join-snoc s.sent (join s.batch))
            ∙ length-append (join s.sent) (join s.batch)),
    refl,
    refl,
  )
]

-- A sender that holds `bs` more than `s` did, its reader being at `r`.
abbrev After : Sender → Bytes → Reader → Sender → Type 0
After s bs r s' = (flow s' ≡ flow s ++ bs) × IsCounted s' × (s'.reader ≡ r)

pub batch_send-flow :
    (s : Sender)
    → IsCounted s
    → (flow (batch_send s) ≡ flow s) × IsCounted (batch_send s) × ((batch_send s).reader ≡ s.reader)
unfolding batch_send
batch_send-flow s c = elim (Bool-cases (leb s.batch_size (length s.batch))) [
  | inl e ↦ let f = batch_send_final-flow s c in rw e (f.0, f.1, f.3)
  | inr e ↦ rw e (refl, c, refl)
]

append_send-After :
    (s : Sender) (r : Reader) (bs : Bytes)
    → IsCounted s
    → After s bs r (batch_send (batch_append bs (record s { reader = r })))
unfolding batch_append
append_send-After s r bs c =
    let f = batch_send-flow (batch_append bs (record s { reader = r })) c in
    (
      f.0
          ∙ ap (λ t. join s.sent ++ t) (join-snoc s.batch bs)
          ∙ sym (append_assoc (join s.sent) (join s.batch) bs),
      f.1,
      f.2,
    )

pause-After :
    (is_paused : Bool) (s : Sender) → IsCounted s → After s [] s.reader (pause is_paused s)
pause-After true s c =
    let f = batch_send_final-flow s c in (f.0 ∙ sym (append-nil (flow s)), f.1, f.3)
pause-After false s c = (sym (append-nil (flow s)), c, refl)

pub read_record-frame :
    (body rest : Bytes) (r : Reader)
    → IsRecord body
    → stream r ≡ frame body ++ rest
    → (r' : Reader) × (read_record r ≡ (got (be 4 (length body)) body, r')) × (stream r' ≡ rest)
unfolding read_record read_body
read_record-frame body rest r h e =
    let header : (read 4 r).0 ≡ be 4 (length body) =
      (read_lem 4 r).0 ∙ ap (take 4) e ∙ take-header body rest in
    let after : stream (read 4 r).1 ≡ body ++ rest =
      (read_lem 4 r).1 ∙ ap (drop 4) e ∙ drop-header body rest in
    let body_read : (read (length body) (read 4 r).1).0 ≡ body =
      (read_lem (length body) (read 4 r).1).0
      ∙ ap (take (length body)) after
      ∙ take-append_left (length body) body rest refl in
    (
      (read (length body) (read 4 r).1).1,
      rw (header, is_empty-be 3 (length body), unpack_be-be 4 (length body) h.fits, body_read)
          (rw h.nonempty refl),
      (read_lem (length body) (read 4 r).1).1
          ∙ ap (drop (length body)) after
          ∙ drop-append_left (length body) body rest refl,
    )

pub read_record-nil : (r : Reader) → stream r ≡ [] → read_record r ≡ (none_left, (read 4 r).1)
unfolding read_record
read_record-nil r e =
    let header : (read 4 r).0 ≡ [] = (read_lem 4 r).0 ∙ ap (take 4) e in rw header refl

-- A run that ended with all its bytes, `bs`, sent and counted.
pub record SentAll (bs : Bytes) (out : Sender × Ending) : Type 0 where
  pub done : out.1 ≡ ended
  pub flushed : out.0.batch ≡ []
  pub all_sent : join out.0.sent ≡ bs
  pub counted : out.0.bytes_sent ≡ length bs

maybe_stop_self :
    (s : Sender) (r : Reader) → IsCounted s → After s [] r (maybe_stop (record s { reader = r }))
unfolding maybe_stop
maybe_stop_self s r c = elim (Bool-cases (no_batch s.batch)) [
  | inl e ↦ rw e (sym (append-nil (flow s)), c, refl)
  | inr e ↦ rw e (sym (append-nil (flow s)), c, refl)
]

final-SentAll :
    (s : Sender) (bs : Bytes) → IsCounted s → flow s ≡ bs → SentAll bs (batch_send_final s, ended)
final-SentAll s bs c e =
    let f = batch_send_final-flow s c in
    let sent : join (batch_send_final s).sent ≡ bs =
      sym (append-nil _) ∙ ap (λ b. join (batch_send_final s).sent ++ join b) (sym f.2) ∙ f.0 ∙ e in
    record { done = refl; flushed = f.2; all_sent = sent; counted = f.1 ∙ ap length sent }

still_runs :
    (p : Bool) (s : Sender) (bs : Bytes) (r : Reader)
    → s.is_stopped ≡ false
    → (batch_send (batch_append bs (record (pause p s) { reader = r }))).is_stopped ≡ false
unfolding batch_append
still_runs p s bs r w =
    batch_send-is_stopped (batch_append bs (record (pause p s) { reader = r }))
    ∙ pause-is_stopped p s
    ∙ w

run-goes_on :
    (p : Bool) (ps : List Bool) (s : Sender)
    → s.is_stopped ≡ false
    → run (p ∷ ps) s ≡ after_round (round p s) (run ps)
unfolding run
run-goes_on p ps s w =
    ap (λ b. if b then (batch_send_final s, ended) else after_round (round p s) (run ps)) w

-- However a generator cuts its records and whenever the sender is paused, the loop of a sender that
-- is not stopped ends with a round for each record and one more, with an empty batch, and with all that waited in the batch
-- and all the records sent, in order and counted.
pub run-sends_each :
    (ps : List Bool) (s : Sender) (bodies : List Bytes)
    → s.is_stopped ≡ false
    → IsCounted s
    → All IsRecord bodies
    → length bodies < length ps
    → stream s.reader ≡ join (map frame bodies)
    → SentAll (flow s ++ join (map frame bodies)) (run ps s)
unfolding run round
run-sends_each [] s bodies w c h n e = absurd (omega arith)
run-sends_each (p ∷ ps) s [] w c h n e =
    let a = pause-After p s c in
    let m = maybe_stop_self (pause p s) (read 4 (pause p s).reader).1 a.1 in
    subst (SentAll (flow s ++ [])) (sym (run-goes_on p ps s w)) (
      rw (read_record-nil (pause p s).reader (ap stream a.2 ∙ e))
        (final-SentAll _ _ m.1 (m.0 ∙ append-nil _ ∙ a.0)))
run-sends_each (p ∷ ps) s (body ∷ bodies) w c (r, h) n e =
    let a = pause-After p s c in
    let got =
      read_record-frame body (join (map frame bodies)) (pause p s).reader r (ap stream a.2 ∙ e) in
    let b = append_send-After (pause p s) got.0 (frame body) a.1 in
    subst (SentAll (flow s ++ join (map frame (body ∷ bodies)))) (sym (run-goes_on p ps s w)) (
      rw got.1 (
        subst
          (λ t. SentAll t (
            run ps
              (batch_send (batch_append (frame body) (record (pause p s) { reader = got.0 })))))
          (ap (λ t. t ++ join (map frame bodies))
              (b.0 ∙ ap (λ t. t ++ frame body) (a.0 ∙ append-nil _))
            ∙ append_assoc (flow s) (frame body) (join (map frame bodies)))
          (run-sends_each ps _ bodies (still_runs p s (frame body) got.0 w) b.1 h (omega arith)
            (ap stream b.2 ∙ got.2))))

-- What a sender that is not stopped sent of the records of a generator on a connection that takes
-- all, with an empty batch and nothing sent before, is received whole and in order, however the rounds and the batches fell.
pub run_framed-run :
    (ps : List Bool) (s : Sender) (bodies : List Bytes) (fuel : ℕ)
    → s.is_stopped ≡ false
    → IsCounted s
    → flow s ≡ []
    → All IsRecord bodies
    → length bodies < length ps
    → length bodies < fuel
    → stream s.reader ≡ join (pieces bodies)
    → run_framed fuel (join (run ps s).0.sent) [] ≡ (map frame bodies, ended)
run_framed-run ps s bodies fuel w c f h n l e =
    let out = run-sends_each ps s bodies w c h n (e ∙ join-pieces bodies) in
    ap (λ t. run_framed fuel t []) (out.all_sent ∙ ap (λ t. t ++ join (map frame bodies)) f)
    ∙ run_framed-frames fuel bodies [] h l
