-- ===== src/Connector/Source.antt =====
-- `SourceConnector.write`. The connection is what was sent on it; there is none before `connect`.
use wallaroo.Base.{Option, none, some, List, [], ◌∷◌, ◌++◌, Result, ok, err, runtime_error}
use wallaroo.Struct.{Bytes}
use wallaroo.Codec.{connector_encode}

abbrev pub send_all : Bytes → Result Bytes → Result (Unit {0}) × Option Bytes
send_all sent (err e) = (err e, some sent)
send_all sent (ok payload) = (ok tt, some (sent ++ payload))

abbrev pub after_write :
    Result (Unit {0}) × Option Bytes
    → (Option Bytes → Result (Unit {0}) × Option Bytes)
    → Result (Unit {0}) × Option Bytes
after_write (err e, conn) go = (err e, conn)
after_write (ok _, conn) go = go conn

module _ {A : Type 0} (func : A → Result Bytes) where
  unfoldable pub write : A → Option Bytes → Result (Unit {0}) × Option Bytes
  write message none = (err runtime_error, none)
  write message (some sent) = send_all sent (connector_encode func message none none)

  -- Messages that are written one after the other, up to the first that raises.
  unfoldable pub write_all : List A → Option Bytes → Result (Unit {0}) × Option Bytes
  unfolding write
  write_all [] conn = (ok tt, conn)
  write_all (message ∷ messages) conn = after_write (write message conn) (write_all messages)
