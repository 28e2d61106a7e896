-- ===== src/Connector/Framing.antt =====
-- What `_read_one` takes off a buffer.
use wallaroo.Base.{ℕ, ◌+◌, ◌<◌, ◌≤◌, ◌≡◌, refl, sym, ap, ◌∙◌, arith, none, some}
use wallaroo.Base.{[], ◌++◌, length, take, drop, length-append, ltb}
use wallaroo.Base.{take-append_left, drop-append_left, ok, lt→ltb, le→ltb}
use wallaroo.Base.{take-eq_of_append, drop-drop, Bool-cases, inl, inr}
use wallaroo.Base.{false}
use wallaroo.Base.Dict.{nat_eq}
use wallaroo.Struct.{Bytes}
use wallaroo.Codec.{Decoder}
use wallaroo.Connector.{pop}

ltb_false→le : (a b : ℕ) → ltb a b ≡ false → b ≤ a
ltb_false→le a b h = ground arith

module _ {A : Type 0} (d : Decoder A) where
  -- A header, and a payload of the length that the header gives.
  pub record IsFrame (header payload : Bytes) : Type 0 where
    pub header_fits : length header ≡ d.header_length
    pub payload_fits : d.payload_length header ≡ ok (length payload)

  -- A frame at the front of the buffer comes off whole.
  pub pop_frame :
      (header payload rest : Bytes)
      → IsFrame header payload
      → pop d (header ++ (payload ++ rest)) ≡ ok (some (payload, rest))
  unfolding pop
  pop_frame header payload rest f =
      let buf : Bytes = header ++ (payload ++ rest) in
      let size : length buf ≡ d.header_length + length payload + length rest = omega (
        arith,
        length-append {0} header (payload ++ rest),
        length-append {0} payload rest,
        f.header_fits,
      ) in
      let behind : drop d.header_length buf ≡ payload ++ rest =
        drop-append_left d.header_length header (payload ++ rest) f.header_fits in
      rw
        (
          le→ltb (length buf) d.header_length (omega (arith, size)),
          take-append_left d.header_length header (payload ++ rest) f.header_fits,
          f.payload_fits,
        )
        (rw
          (
            le→ltb (length buf) (d.header_length + length payload) (omega (arith, size)),
            behind,
            take-append_left (length payload) payload rest refl,
          )
          (λ i. ok (
            some (
              payload,
              (sym (drop-drop (length payload) d.header_length buf)
                    ∙ ap (drop (length payload)) behind
                    ∙ drop-append_left (length payload) payload rest refl)
                  i,
            ))))

  -- A part of a frame waits, and stays as it is.
  pub pop_part :
      (buf later header payload rest : Bytes)
      → IsFrame header payload
      → buf ++ later ≡ header ++ (payload ++ rest)
      → length buf < length header + length payload
      → pop d buf ≡ ok none
  unfolding pop
  pop_part buf later header payload rest f e short =
      elim (Bool-cases (ltb (length buf) d.header_length)) [
        | inl c ↦ rw c
        | inr c ↦
            let cut =
              take-eq_of_append buf later header (payload ++ rest) e
                (omega (arith, f.header_fits, ltb_false→le (length buf) d.header_length c)) in
            let front : take d.header_length buf ≡ header =
              ap (λ n. take n buf) (sym f.header_fits) ∙ cut.0 in
            rw (c, front, f.payload_fits)
              (rw (
                lt→ltb (length buf) (d.header_length + length payload)
                  (omega (arith, f.header_fits, short))))
      ]

  pub pop_nothing : 0 < d.header_length → pop d [] ≡ ok none
  unfolding pop
  pop_nothing h = rw (lt→ltb 0 d.header_length h)
