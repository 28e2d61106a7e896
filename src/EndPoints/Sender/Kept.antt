-- ===== src/EndPoints/Sender/Kept.antt =====
-- What a sender of demos/resilience-demo/lib/end_points.py has sent, holds and has not read yet, across
-- connections that break.
use wallaroo.Base.{List, ◌++◌, ◌≡◌, join, All, map}
use wallaroo.Struct.{Bytes}
use wallaroo.EndPoints.Reader.{Reader, stream}
use wallaroo.EndPoints.Frames.{frame, IsRecord}
use wallaroo.EndPoints.Sender.{Sender}
use wallaroo.EndPoints.Sender.SendsAll.{flow, IsCounted}

-- What was sent, what waits in the batch, and records that the reader still gives are together `whole`.
pub record IsKept (whole : Bytes) (s : Sender) : Type 0 where
  pub bodies : List Bytes
  pub records : All IsRecord bodies
  pub left : stream s.reader ≡ join (map frame bodies)
  pub together : flow s ++ stream s.reader ≡ whole
  pub counted : IsCounted s
