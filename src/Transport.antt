-- ===== src/Transport.antt =====
-- transport/base.py: the methods of the abstract `Transport`, over a state `T` of the link. Each may
-- raise. `now` is what `time.monotonic()` reads, in whole microseconds, at that state: time passes
-- in the calls of the transport.
pub mod Lawful
pub mod Serial
use teensy_io.Base.{ℕ, Bool, List}
use teensy_io.Protocol.Exec.{Exec}

pub record Transport (T : Type 0) : Type 0 where
  pub open_link : Exec T (Unit {0})
  pub close_link : Exec T (Unit {0})
  pub write : List ℕ → Exec T (Unit {0})
  pub read : ℕ → Exec T (List ℕ)
  pub read_available : ℕ → Exec T (List ℕ)
  pub is_open : T → Bool
  pub now : T → ℕ
