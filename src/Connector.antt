-- ===== src/Connector.antt =====
-- `SinkConnector` of machida/lib/wallaroo/experimental/__init__.py: the buffers of its
-- connections, the list of sockets with data, and the loop of `read` over `select`. A socket is a
-- number. What `select` and `recv` return comes in as a list of outcomes, since the operating
-- system chooses it; `read` is blocked where the list ends.
pub mod Framing
pub mod Pending
pub mod Delivery
pub mod Teardown
pub mod Progress
pub mod Source
pub mod EndToEnd
pub mod Setup
pub mod Unfound
mod Tests
use wallaroo.Base.{ℕ, zero, suc, ◌+◌, Bool, true, false, Option, none, some, List, [], ◌∷◌, ◌++◌}
use wallaroo.Base.{length, take, drop, ltb, ◌==◌, if◌then◌else◌, Result, ok, err, ◌>>=◌}
use wallaroo.Base.{key_error, value_error, unexpected_socket_error}
use wallaroo.Base.Dict
use wallaroo.Base.Dict.{Dict, lookup, insert, erase, nat_eq, contains}
use wallaroo.Struct.{Bytes}
use wallaroo.Codec.{Decoder}

pub record Sink : Type 0 where
  pub acceptor : ℕ
  pub connections : List ℕ
  pub buffers : Dict ℕ Bytes
  pub pending : List ℕ

-- A readable socket: the acceptor with the connection it accepts, or a connection with its bytes.
pub data Ready : Type 0 where
  accepts : ℕ → Ready
  receives : ℕ → Bytes → Ready

-- One outcome of `select`.
pub record Selected : Type 0 where
  pub exceptional : List ℕ
  pub readable : List Ready

-- `list.remove`: the first occurrence goes, and a ValueError is raised where there is none.
unfoldable pub remove_first : ℕ → List ℕ → Result (List ℕ)
remove_first x [] = err value_error
remove_first x (y ∷ ys) =
    let rest = remove_first x ys in if x == y then ok ys else (do others ← rest; ok (y ∷ others))

-- The first payload of a buffer and what is behind it; `none` while it is not complete.
unfoldable pub pop : {A : Type 0} → Decoder A → Bytes → Result (Option (Bytes × Bytes))
pop d buffered = if ltb (length buffered) d.header_length then ok none else do
  expected ← d.payload_length (take d.header_length buffered)
  if ltb (length buffered) (d.header_length + expected)
      then ok none
      else ok (
          some (
            take expected (drop d.header_length buffered),
            drop (d.header_length + expected) buffered,
          ))

abbrev pub store : ℕ → Bytes → Sink → Sink
store socket buffered s = record s { buffers = insert socket buffered s.buffers }

-- A socket whose rest cannot hold a header is no longer pending.
unfoldable pub settle : ℕ → ℕ → Bytes → Sink → Result Sink
unfolding remove_first
settle header_len socket rest s =
    if ltb (length rest) header_len
    then (do pending ← remove_first socket s.pending; ok (record s { pending = pending }))
    else ok s

module _ {A : Type 0} (d : Decoder A) where
  -- The message, once the socket is settled.
  abbrev pub decoded : Bytes → Sink → Result Sink → Result (Option A) × Sink
  decoded payload s (err e) = (err e, s)
  decoded payload s (ok s') = ((do message ← d.decode payload; ok (some message)), s')

  -- The buffer is stored back before the socket is settled and the payload decoded.
  unfoldable pub deliver :
      ℕ → Bytes → Sink → Result (Option (Bytes × Bytes)) → Result (Option A) × Sink
  unfolding settle
  deliver socket buffered s (err e) = (err e, s)
  deliver socket buffered s (ok none) = (ok none, store socket buffered s)
  deliver socket buffered s (ok (some (payload, rest))) =
      decoded payload (store socket rest s)
        (settle d.header_length socket rest (store socket rest s))

  -- `_read_one`: a message where the buffer holds one, whole.
  unfoldable pub read_one : ℕ → Sink → Result (Option A) × Sink
  unfolding deliver
  read_one socket s = elim (lookup socket s.buffers) [
    | none ↦ (err key_error, s)
    | some buffered ↦ deliver socket buffered s (pop d buffered)
  ]

  -- `for socket in self._pending`
  unfoldable pub scan : List ℕ → Sink → Result (Option A) × Sink
  scan [] s = (ok none, s)
  scan (socket ∷ rest) s =
      let (r, s') = read_one socket s in
      elim r [
        | err e ↦ (err e, s')
        | ok (some message) ↦ (ok (some message), s')
        | ok none ↦ scan rest s'
      ]

-- `_setup_connection`
unfoldable pub setup_connection : ℕ → Sink → Sink
setup_connection conn s = record s {
  connections = s.connections ++ conn ∷ [];
  buffers = insert conn [] s.buffers;
}

-- `_teardown_connection`. The list of pending sockets is left as it is.
unfoldable pub teardown_connection : ℕ → Sink → Result Sink
unfolding remove_first
teardown_connection conn s = do
  connections ← remove_first conn s.connections
  elim (lookup conn s.buffers) [
    | none ↦ err key_error
    | some _ ↦ ok (record s { connections = connections; buffers = erase conn s.buffers })
  ]

unfoldable pub teardown_all : List ℕ → Sink → Result Sink
unfolding teardown_connection
teardown_all [] s = ok s
teardown_all (socket ∷ rest) s =
    if socket == s.acceptor
    then err unexpected_socket_error
    else do s' ← teardown_connection socket s; teardown_all rest s'

-- The branch of `_select_any` for one readable socket.
unfoldable pub receive : Ready → Sink → Result Sink
unfolding setup_connection
receive (accepts conn) s = ok (setup_connection conn s)
receive (receives socket bytes) s = elim (lookup socket s.buffers) [
  | none ↦ err key_error
  | some buffered ↦ ok (record s {
    buffers = insert socket (buffered ++ bytes) s.buffers;
    pending = s.pending ++ socket ∷ [];
  })
]

unfoldable pub receive_all : List Ready → Sink → Result Sink
unfolding receive
receive_all [] s = ok s
receive_all (r ∷ rs) s = do s' ← receive r s; receive_all rs s'

unfoldable pub select_any : Selected → Sink → Result Sink
unfolding teardown_all receive_all
select_any sel s = do s' ← teardown_all sel.exceptional s; receive_all sel.readable s'

-- `read`: `ok none` where it waits for `select` to return. What a raise in the handling of `select`
-- has written is not modelled: the state is the one before it.
unfoldable pub read : {A : Type 0} → Decoder A → List Selected → Sink → Result (Option A) × Sink
read d [] s = scan d s.pending s
read d (sel ∷ sels) s =
    let (r, s') = scan d s.pending s in
    elim r [
      | err e ↦ (err e, s')
      | ok (some message) ↦ (ok (some message), s')
      | ok none ↦ elim (select_any sel s') [ err e ↦ (err e, s') | ok s'' ↦ read d sels s'' ]
    ]
