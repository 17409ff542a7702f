-- ===== src/Device/Control.antt =====
-- client.py: `ping`, `get_info`, `reset_config`, `heartbeat`, `emergency_stop`, `clear_emergency_stop`.
use teensy_io.Base.{
  ℕ, zero, suc, ltb, ◌==◌, ◌&&◌, Bool, true, false, List, [], ◌∷◌, map, if◌then◌else◌,
}
use teensy_io.Protocol.Commands.{CommandId}
use teensy_io.Protocol.Errors.{Error, Result, ok, err}
use teensy_io.Protocol.Exec.{Exec, pure, lift, ◌>>=◌, ◌>>◌}
use teensy_io.Resources.Session.{Channel}

-- Equality of two byte strings.
unfoldable pub bytes_eq : List ℕ → List ℕ → Bool
bytes_eq [] [] = true
bytes_eq (x ∷ xs) (y ∷ ys) = x == y && bytes_eq xs ys
bytes_eq _ _ = false

-- `payload.split(b"\x00", 1)[0]`
unfoldable pub before_zero : List ℕ → List ℕ
before_zero [] = []
before_zero (zero ∷ bs) = []
before_zero (suc b ∷ bs) = suc b ∷ before_zero bs

-- `decode("ascii", errors="replace")`, as code points
unfoldable pub ascii : List ℕ → List ℕ
ascii = map (λ b. if ltb b 128 then b else 0xFFFD)

-- What `get_info` returns.
pub record Info : Type 0 where
  pub digital_pins : ℕ
  pub counters : ℕ
  pub version : List ℕ

-- A payload of less than two bytes is an `IndexError`.
unfoldable pub info_of : List ℕ → Result Info
unfolding before_zero ascii
info_of (digital_pins ∷ counters ∷ rest) = ok (record {
  digital_pins = digital_pins;
  counters = counters;
  version = ascii (before_zero rest);
})
info_of _ = err Error.index_error

module _ {S : Type 0} (io : Channel S) where
  -- `== b"pong"`
  unfoldable pub ping : Exec S Bool
  unfolding bytes_eq
  ping = do
    answer ← io.send CommandId.ping [] true
    pure (bytes_eq answer (112 ∷ 111 ∷ 110 ∷ 103 ∷ []))

  unfoldable pub get_info : Exec S Info
  unfolding info_of
  get_info = do payload ← io.send CommandId.get_info [] true; lift (info_of payload)

  unfoldable pub reset_config : Exec S (Unit {0})
  reset_config = io.send CommandId.reset_config [] true >> pure tt

  unfoldable pub heartbeat : Exec S (Unit {0})
  heartbeat = io.send CommandId.heartbeat [] true >> pure tt

  unfoldable pub emergency_stop : Exec S (Unit {0})
  emergency_stop = io.send CommandId.emergency_stop [] true >> pure tt

  unfoldable pub clear_emergency_stop : Exec S (Unit {0})
  clear_emergency_stop = io.send CommandId.clear_emergency_stop [] true >> pure tt
