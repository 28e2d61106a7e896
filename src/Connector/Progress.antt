-- ===== src/Connector/Progress.antt =====
-- A buffer that holds a whole message gives it.
use wallaroo.Base.{ℕ, ◌≡◌, ap, ◌∙◌, true, some, ◌++◌, ok}
use wallaroo.Base.Dict.{lookup, nat_eq, contains}
use wallaroo.Struct.{Bytes}
use wallaroo.Codec.{Decoder}
use wallaroo.Connector.{Sink, read_one}
use wallaroo.Connector.Framing.{pop_frame}
use wallaroo.Connector.Pending.{read_one-delivers}
use wallaroo.Connector.Delivery.{Message, IsMessage}

module _ {A : Type 0} (d : Decoder A) where
  -- Where the buffer of a pending connection holds a whole message, and whatever behind it,
  -- `_read_one` returns the message's value, and the buffer then holds what was behind it.
  pub read_one-IsMessage :
      (k : ℕ) (s : Sink) (m : Message A) (rest : Bytes)
      → IsMessage d m
      → contains s.pending k ≡ true
      → lookup k s.buffers ≡ some (m.header ++ (m.payload ++ rest))
      → ((read_one d k s).0 ≡ ok (some m.value)) × (lookup k (read_one d k s).1.buffers ≡ some rest)
  read_one-IsMessage k s m rest i p h =
      let (s', given, after, pending) =
        read_one-delivers d k s (m.header ++ (m.payload ++ rest)) m.payload rest m.value h p
          (pop_frame d m.header m.payload rest i.frame) i.decodes in
      (ap (λ r. r.0) given, ap (λ r. lookup k r.1.buffers) given ∙ after)
