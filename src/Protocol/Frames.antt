-- ===== src/Protocol/Frames.antt =====
-- protocol/frames.py.
use teensy_io.Base.{ℕ}
use teensy_io.Base.Int.{ℤ}
use teensy_io.Protocol.Commands.{ResourceKind}

pub record TelemetryFrame : Type 0 where
  pub kind : ResourceKind
  pub resource_id : ℕ
  pub value : ℤ

pub record EdgeEvent : Type 0 where
  pub kind : ResourceKind
  pub resource_id : ℕ
  pub value : ℤ
  pub timestamp_us : ℕ
