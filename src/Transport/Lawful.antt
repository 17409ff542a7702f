-- ===== src/Transport/Lawful.antt =====
-- What the client relies on in a transport.
use teensy_io.Base.{ℕ, List, length, ◌≤◌, ◌<◌, ◌≡◌, ◌≢◌}
use teensy_io.Protocol.Errors.{ok, stuck}
use teensy_io.Transport.{Transport}

-- A read returns at most as many bytes as were asked for, as `serial.Serial.read` documents.
pub record IsBounded {T : Type 0} (io : Transport T) : Type 0 where
  pub read_bounded :
      (n : ℕ) (t : T) (bytes : List ℕ) → (io.read n t).0 ≡ ok bytes → length bytes ≤ n
  pub available_bounded :
      (n : ℕ) (t : T) (bytes : List ℕ) → (io.read_available n t).0 ≡ ok bytes → length bytes ≤ n

-- A blocking read that returns has taken time, and no read that returns turns the clock back.
pub record IsTicking {T : Type 0} (io : Transport T) : Type 0 where
  pub read_takes_time :
      (n : ℕ) (t : T) (bytes : List ℕ)
      → (io.read n t).0 ≡ ok bytes
      → io.now t < io.now (io.read n t).1
  pub available_monotone :
      (n : ℕ) (t : T) (bytes : List ℕ)
      → (io.read_available n t).0 ≡ ok bytes
      → io.now t ≤ io.now (io.read_available n t).1

-- A read of what has come in takes time as well, if it returns a byte.
pub record IsPaced {T : Type 0} (io : Transport T) : Type 0 where
  pub available_takes_time :
      (n : ℕ) (t : T) (bytes : List ℕ)
      → (io.read_available n t).0 ≡ ok bytes
      → 0 < length bytes
      → io.now t < io.now (io.read_available n t).1

-- Every call comes back, with a result or an exception.
pub record IsLive {T : Type 0} (io : Transport T) : Type 0 where
  pub write_ends : (bytes : List ℕ) (t : T) → (io.write bytes t).0 ≢ stuck
  pub read_ends : (n : ℕ) (t : T) → (io.read n t).0 ≢ stuck
  pub available_ends : (n : ℕ) (t : T) → (io.read_available n t).0 ≢ stuck
