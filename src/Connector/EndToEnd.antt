-- ===== src/Connector/EndToEnd.antt =====
-- From the source connector's `write` to the messages that a connector's reader delivers.
use wallaroo.Base.{
  inl, ℕ, ◌<◌, ◌^◌, ◌≡◌, refl, sym, ap, ◌∙◌, arith, Option, none, some, List, [], ◌∷◌,
}
use wallaroo.Base.{◌++◌, append_assoc, append-nil, All, map, Result, ok}
use wallaroo.Base.Dict.{lookup, nat_eq}
use wallaroo.Struct.{Bytes}
use wallaroo.Codec.{connector_decoder, part_bytes, seq_number}
use wallaroo.Codec.RoundTrip.{decode-connector_encode, frame_size}
use wallaroo.Connector.{Sink}
use wallaroo.Connector.Source.{write, write_all, send_all, after_write}
use wallaroo.Connector.Delivery.{
  Event, arrivals, Message, wire, values, IsMessage, run, Delivered, delivery,
}

abbrev sent_bytes : Option Bytes → Bytes
sent_bytes none = []
sent_bytes (some bs) = bs

module _ {A B : Type 0} (func : A → Result Bytes) (user : Bytes → Result B) where
  -- A message that the user's encoder takes, within the length field, and the value that the user's
  -- decoder reads from it.
  pub record IsSendable (m : A × B) : Type 0 where
    pub encoded : Bytes
    pub encodes : func m.0 ≡ ok encoded
    pub decodes : user encoded ≡ ok m.1
    pub fits : frame_size [] encoded < 256 ^ 4

  write_message :
      (m : A × B) (sent : Bytes)
      → IsSendable m
      → (w : Message B) × (write func m.0 (some sent)
          ≡ (ok tt, some (sent ++ (w.header ++ w.payload))))
        × IsMessage (connector_decoder user) w
        × (w.value ≡ m.1)
  unfolding write part_bytes seq_number
  write_message m sent h =
      let (header, (payload, e, l, p, d)) =
        decode-connector_encode func user m.0 h.encoded none none h.encodes h.fits (omega arith)
          (omega arith) in
      (
        record { header = header; payload = payload; value = m.1 },
        ap (send_all sent) e,
        record { frame = record { header_fits = l; payload_fits = p }; decodes = d ∙ h.decodes },
        refl,
      )

  write_all_from :
      (msgs : List (A × B)) (sent : Bytes)
      → All IsSendable msgs
      → (ms : List (Message B)) × (write_all func (map (λ m. m.0) msgs) (some sent)
          ≡ (ok tt, some (sent ++ wire ms)))
        × All (IsMessage (connector_decoder user)) ms
        × (values ms ≡ map (λ m. m.1) msgs)
  unfolding write_all
  write_all_from [] sent h = ([], ap (λ t. (ok tt, some t)) (sym (append-nil sent)), tt, refl)
  write_all_from (m ∷ msgs) sent (h, hs) =
      let (w, e, i, v) = write_message m sent h in
      let (ms, es, is, vs) = write_all_from msgs (sent ++ (w.header ++ w.payload)) hs in
      (
        w ∷ ms,
        ap (λ r. after_write r (write_all func (map (λ m. m.0) msgs))) e
            ∙ es
            ∙ ap (λ t. (ok tt, some t)) (append_assoc sent (w.header ++ w.payload) (wire ms)),
        (i, is),
        λ j. v j ∷ vs j,
      )

  -- Messages that the users' encoder and decoder take are all written to a new connection, and a
  -- reader to whose connection the bytes come, the first ones in whatever chunks and with whatever
  -- calls of `_read_one` between them, delivers the values of the first messages, each once and in
  -- order, and holds the rest.
  pub write_all-Delivered :
      (msgs : List (A × B)) (k : ℕ) (evs : List Event) (later : Bytes) (s : Sink)
      → All IsSendable msgs
      → lookup k s.buffers ≡ some []
      → (write_all func (map (λ m. m.0) msgs) (some [])).1 ≡ some (arrivals evs ++ later)
      → (ms : List (Message B)) × ((write_all func (map (λ m. m.0) msgs) (some [])).0 ≡ ok tt)
        × (values ms ≡ map (λ m. m.1) msgs)
        × Delivered (connector_decoder user) k later ms (run (connector_decoder user) k evs s)
  unfolding connector_decoder
  write_all-Delivered msgs k evs later s h e w =
      let (ms, es, is, vs) = write_all_from msgs [] h in
      (
        ms,
        ap (λ r. r.0) es,
        vs,
        delivery (connector_decoder user) k evs s [] later ms (omega arith) is (inl (omega arith)) e
            (ap sent_bytes (sym w ∙ ap (λ r. r.1) es)),
      )
