-- ===== src/Connector/Teardown.antt =====
-- A connection that is torn down while it is pending.
use wallaroo.Base.{ℕ, ◌≡◌, ap, ◌∙◌, arith, none, some, List, [], ◌∷◌, Result, ok, err, ◌>>=◌}
use wallaroo.Base.{key_error}
use wallaroo.Base.Dict.{lookup, erase, lookup-erase, nat_eq, same_refl, Dict}
use wallaroo.Struct.{Bytes}
use wallaroo.Codec.{Decoder}
use wallaroo.Connector.{Sink, Selected, teardown_connection, scan, read, read_one, remove_first}

lookup-erase_self : (k : ℕ) (d : Dict ℕ Bytes) → lookup k (erase k d) ≡ none
lookup-erase_self k d = lookup-erase k k d ∙ rw (same_refl k)

torn_down :
    (k : ℕ) (s s' : Sink)
    → teardown_connection k s ≡ ok s'
    → (s'.pending ≡ s.pending) × (lookup k s'.buffers ≡ none)
unfolding teardown_connection
torn_down k s s' h = go (remove_first k s.connections) h
  where
    go :
        (o : Result (List ℕ))
        → (o >>= λ connections. elim (lookup k s.buffers) [
          | none ↦ err key_error
          | some _ ↦ ok (record s { connections = connections; buffers = erase k s.buffers })
        ])
          ≡ ok s'
        → (s'.pending ≡ s.pending) × (lookup k s'.buffers ≡ none)
    go (err e) q = cc
    go (ok connections) q = ground (arith, lookup-erase_self k s.buffers)

-- The buffer of a connection that is torn down is gone, while its place among the pending sockets
-- is kept: where it is the first of them, the next `read` raises a KeyError.
pub read-teardown_connection :
    {A : Type 0} (d : Decoder A) (sels : List Selected) (k : ℕ) (rest : List ℕ) (s s' : Sink)
    → s.pending ≡ k ∷ rest
    → teardown_connection k s ≡ ok s'
    → (read d sels s').0 ≡ err key_error
unfolding read
read-teardown_connection d sels k rest s s' p h =
    let (same_pending, gone) = torn_down k s s' h in
    let missing : read_one d k s' ≡ (err key_error, s') = unfold read_one in rw (gone, read_one) in
    let first : (scan d (k ∷ rest) s').0 ≡ err key_error =
      unfold scan in rw (ap (λ o. o.0) missing, scan) in
    let raised : (scan d s'.pending s').0 ≡ err key_error =
      ap (λ l. (scan d l s').0) (same_pending ∙ p) ∙ first in
    go sels raised
  where
    go :
        (l : List Selected)
        → (scan d s'.pending s').0 ≡ err key_error
        → (read d l s').0 ≡ err key_error
    go [] e = e
    go (sel ∷ l) e = rw (e, read)
