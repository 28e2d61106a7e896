-- ===== src/Connector/Pending.antt =====
-- The list of sockets with data, `_pending`: what keeps a socket there while its buffer can hold a
-- header.
use wallaroo.Base.{ℕ, ◌<◌, ◌≡◌, ◌⊎◌, inl, inr, refl, ap, ◌∙◌, arith, true}
use wallaroo.Base.{List, [], ◌∷◌, ◌++◌, length, ltb, ◌==◌, ok, ◌>>=◌}
use wallaroo.Base.{Bool-cases, some}
use wallaroo.Base.Dict.{contains, nat_eq, lookup, lookup-insert, same_refl}
use wallaroo.Struct.{Bytes}
use wallaroo.Codec.{Decoder}
use wallaroo.Connector.{Sink, remove_first, settle, store, decoded, deliver, read_one, pop}

-- A buffer that may hold a header belongs to a pending socket.
abbrev pub IsPending : ℕ → ℕ → Bytes → Sink → Type 0
IsPending header_len k buf s = (length buf < header_len) ⊎ (contains s.pending k ≡ true)

pub append-contains : (k : ℕ) (xs : List ℕ) → contains (xs ++ k ∷ []) k ≡ true
unfolding contains
append-contains k [] = ground arith
append-contains k (x ∷ xs) = ground (arith, append-contains k xs)

remove_first-contains :
    (k : ℕ) (xs : List ℕ) → contains xs k ≡ true → (ys : List ℕ) × (remove_first k xs ≡ ok ys)
unfolding contains remove_first
remove_first-contains k [] h = cc
remove_first-contains k (x ∷ xs) h = elim (Bool-cases (k == x)) [
  | inl e ↦ (xs, rw e refl)
  | inr e ↦ let (ys, r) = remove_first-contains k xs (ground arith) in (x ∷ ys, rw (e, r) refl)
]

-- A pending socket is settled without an error: its buffers stay, and it is pending where its rest
-- may hold a header.
pub settle-IsPending :
    (header_len k : ℕ) (rest : Bytes) (s : Sink)
    → contains s.pending k ≡ true
    → (s' : Sink) × (settle header_len k rest s ≡ ok s')
      × (s'.buffers ≡ s.buffers)
      × IsPending header_len k rest s'
unfolding settle
settle-IsPending header_len k rest s h = elim (Bool-cases (ltb (length rest) header_len)) [
  | inl e ↦
      let (ys, r) = remove_first-contains k s.pending h in
      (record s { pending = ys }, rw (e, r) refl, refl, inl (ground (arith, e)))
  | inr e ↦ (s, rw e refl, refl, inr h)
]

module _ {A : Type 0} (d : Decoder A) where
  -- `_read_one` of a pending socket whose buffer holds a payload that decodes: the value, with the
  -- rest in the buffer.
  pub read_one-delivers :
      (k : ℕ) (s : Sink) (buf payload rest : Bytes) (value : A)
      → lookup k s.buffers ≡ some buf
      → contains s.pending k ≡ true
      → pop d buf ≡ ok (some (payload, rest))
      → d.decode payload ≡ ok value
      → (s' : Sink) × (read_one d k s ≡ (ok (some value), s'))
        × (lookup k s'.buffers ≡ some rest)
        × IsPending d.header_length k rest s'
  unfolding read_one deliver
  read_one-delivers k s buf payload rest value h p w e =
      let (s', settled, same_buffers, pending) =
        settle-IsPending d.header_length k rest (store k rest s) p in
      let found : read_one d k s ≡ deliver d k buf s (pop d buf) = rw (h, read_one) refl in
      (
        s',
        found
            ∙ ap (deliver d k buf s) w
            ∙ ap (decoded d payload (store k rest s)) settled
            ∙ ap (λ r. (r >>= λ message. ok (some message), s')) e,
        ap (lookup k) same_buffers ∙ lookup-insert k k rest s.buffers ∙ rw (same_refl k) refl,
        pending,
      )
