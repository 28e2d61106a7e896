-- ===== src/Connector/Tests.antt =====
-- The theorems on the connector codec and the sink connector at concrete inputs.
use wallaroo.Base.{inl, ◌≡◌, refl, arith, none, some, List, [], ◌∷◌, ◌++◌}
use wallaroo.Base.{Result, ok, err, key_error, length}
use wallaroo.Base.Int.{pos}
use wallaroo.Base.Dict.{nat_eq, lookup, erase, contains}
use wallaroo.Struct.{Bytes, pack_le, unpack_le, unpack_le_from, pack_q, pack_s}
use wallaroo.Codec.{Decoder, part_bytes, seq_number, connector_encode, connector_decoder}
use wallaroo.Codec.RoundTrip.{decode-connector_encode}
use wallaroo.Connector.{Sink, read, teardown_connection}
use wallaroo.Connector.Delivery.{Event, arrive, poll, Message, IsMessage, run, Delivered, delivery}
use wallaroo.Connector.Teardown.{read-teardown_connection}
use wallaroo.Connector.Source.{write_all}
use wallaroo.Connector.EndToEnd.{IsSendable, write_all-Delivered}
use wallaroo.Connector.Delivery.{values}
use wallaroo.Codec.{pack_meta}
use wallaroo.Struct.{le}
use wallaroo.Connector.{read_one}
use wallaroo.Connector.Progress.{read_one-IsMessage}

-- Users' functions that pass bytes on.
abbrev raw : Bytes → Result Bytes
raw bs = ok bs

abbrev decoder : Decoder Bytes
decoder = connector_decoder raw

encode_hi :
    connector_encode raw (b'h' ∷ b'i' ∷ []) (some (b'p' ∷ [])) (some (pos 258))
    ≡ ok (13 ∷ 0 ∷ 0 ∷ 0 ∷ 9 ∷ 0 ∷ b'p' ∷ 2 ∷ 1 ∷ 0 ∷ 0 ∷ 0 ∷ 0 ∷ 0 ∷ 0 ∷ b'h' ∷ b'i' ∷ [])
unfolding connector_encode part_bytes seq_number pack_le pack_q pack_s
encode_hi = refl

decode-connector_encode_example :
    (header : Bytes) × ((payload : Bytes) × (connector_encode raw (b'h' ∷ []) none none
        ≡ ok (header ++ payload))
      × (length header ≡ decoder.header_length)
      × (decoder.payload_length header ≡ ok (length payload))
      × (decoder.decode payload ≡ ok (b'h' ∷ [])))
unfolding part_bytes seq_number
decode-connector_encode_example =
    decode-connector_encode raw raw (b'h' ∷ []) (b'h' ∷ []) none none refl (omega arith)
      (omega arith) (omega arith)

abbrev message : Message Bytes
message = record { header = 3 ∷ 0 ∷ 0 ∷ 0 ∷ []; payload = 0 ∷ 0 ∷ 7 ∷ []; value = 7 ∷ [] }

message-IsMessage : IsMessage decoder message
unfolding connector_decoder unpack_le unpack_le_from
message-IsMessage = record {
  frame = record { header_fits = refl; payload_fits = refl };
  decodes = refl;
}

abbrev idle : Sink
idle = record { acceptor = 0; connections = 0 ∷ 1 ∷ []; buffers = (1, []) ∷ []; pending = 1 ∷ [] }

abbrev chunks : List Event
chunks =
    arrive (3 ∷ 0 ∷ [])
    ∷ poll
    ∷ arrive (0 ∷ 0 ∷ 0 ∷ [])
    ∷ poll
    ∷ arrive (0 ∷ 7 ∷ 3 ∷ [])
    ∷ poll
    ∷ poll
    ∷ []

abbrev later : Bytes
later = 0 ∷ 0 ∷ 0 ∷ 0 ∷ 0 ∷ 7 ∷ []

delivery_example : Delivered decoder 1 later (message ∷ message ∷ []) (run decoder 1 chunks idle)
unfolding connector_decoder lookup nat_eq
delivery_example =
    delivery decoder 1 chunks idle [] later (message ∷ message ∷ []) (omega arith)
      (message-IsMessage, (message-IsMessage, tt)) (inl (omega arith)) refl refl

read-teardown_connection_example :
    (read decoder []
      (record { acceptor = 0; connections = 0 ∷ []; buffers = []; pending = 1 ∷ [] })).0
    ≡ err key_error
unfolding teardown_connection lookup contains nat_eq erase
read-teardown_connection_example = read-teardown_connection decoder [] 1 [] idle _ refl refl

abbrev seven : Bytes × Bytes
seven = (7 ∷ [], 7 ∷ [])

seven-IsSendable : IsSendable raw raw seven
seven-IsSendable = record { encoded = 7 ∷ []; encodes = refl; decodes = refl; fits = omega arith }

-- The first bytes of the message, and a call of `_read_one`.
abbrev first_bytes : List Event
first_bytes = arrive (11 ∷ 0 ∷ []) ∷ poll ∷ arrive (0 ∷ 0 ∷ 8 ∷ 0 ∷ []) ∷ poll ∷ []

abbrev to_come : Bytes
to_come = 255 ∷ 255 ∷ 255 ∷ 255 ∷ 255 ∷ 255 ∷ 255 ∷ 255 ∷ 7 ∷ []

write_all-Delivered_example :
    (ms : List (Message Bytes)) × ((write_all raw ((7 ∷ []) ∷ []) (some [])).0 ≡ ok tt)
    × (values ms ≡ (7 ∷ []) ∷ [])
    × Delivered decoder 1 to_come ms (run decoder 1 first_bytes idle)
unfolding write_all connector_encode pack_meta part_bytes seq_number pack_le pack_q pack_s le lookup
    nat_eq
write_all-Delivered_example =
    write_all-Delivered raw raw (seven ∷ []) 1 first_bytes to_come idle (seven-IsSendable, tt) refl
      refl

-- A sink that holds the message and two bytes of the next one.
abbrev holds_message : Sink
holds_message = record {
  acceptor = 0;
  connections = 0 ∷ 1 ∷ [];
  buffers = (1, 3 ∷ 0 ∷ 0 ∷ 0 ∷ 0 ∷ 0 ∷ 7 ∷ 9 ∷ 9 ∷ []) ∷ [];
  pending = 1 ∷ [];
}

read_one-IsMessage_example :
    ((read_one decoder 1 holds_message).0 ≡ ok (some (7 ∷ [])))
    × (lookup 1 (read_one decoder 1 holds_message).1.buffers ≡ some (9 ∷ 9 ∷ []))
unfolding lookup contains nat_eq
read_one-IsMessage_example =
    read_one-IsMessage decoder 1 holds_message message (9 ∷ 9 ∷ []) message-IsMessage refl refl
