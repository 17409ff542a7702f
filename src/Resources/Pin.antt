-- ===== src/Resources/Pin.antt =====
-- resources/pin.py. A callback is a number, as in the client's lists.
use Prim.Native.String.{String}
use teensy_io.Base.{ℕ, ◌==◌, bit_or, Bool, true, false, not, Option, some, List, [], ◌∷◌}
use teensy_io.Base.Int.{ℤ, pos}
use teensy_io.Protocol.Commands.{CommandId, ResourceKind, kind_code}
use teensy_io.Protocol.Errors.{Error, Result, ok, err}
use teensy_io.Protocol.Exec.{Exec, pure, gets, lift, modify, ◌>>=◌, ◌>>◌}
use teensy_io.Resources.{Io, Held, on_io, bytes_of, lookup, required}

pub record Pin : Type 0 where
  pub physical_pin : Option ℤ

abbrev pub pull_codes : List (String × ℕ)
pull_codes =
    ("floating", 0) ∷ ("none", 0) ∷ ("up", 1) ∷ ("pullup", 1) ∷ ("down", 2) ∷ ("pulldown", 2) ∷ []

abbrev edge_flags : List (String × ℕ)
edge_flags = ("rising", 0x02) ∷ ("falling", 0x04) ∷ ("both", 0x06) ∷ []

-- `int(value)` of a Boolean
abbrev pub flag : Bool → ℤ
flag true = pos 1
flag false = pos 0

-- `bool(response[0])`
unfoldable pub first_bit : List ℕ → Result Bool
first_bit [] = err Error.index_error
first_bit (b ∷ bs) = ok (not (b == 0))

module _ {S : Type 0} (io : Io S) where
  -- `initial` is what `int(initial)` gives, or raises.
  unfoldable pub configure_output : ℤ → Result ℤ → Exec (Held Pin S) (Unit {0})
  configure_output physical_pin initial = do
    modify (λ h. record h { self = record { physical_pin = some physical_pin } })
    level ← lift initial
    payload ← lift (bytes_of (physical_pin ∷ level ∷ []))
    on_io (io.command CommandId.config_digital_output payload true)
    pure tt

  -- `pull` is the key for the display of codes, or what the search for it raises.
  unfoldable pub configure_input : ℤ → Result String → Exec (Held Pin S) (Unit {0})
  configure_input physical_pin pull = do
    modify (λ h. record h { self = record { physical_pin = some physical_pin } })
    key ← lift pull
    pull_code ← lift (lookup key pull_codes)
    payload ← lift (bytes_of (physical_pin ∷ pos pull_code ∷ []))
    on_io (io.command CommandId.config_digital_input payload true)
    pure tt

  unfoldable pub read : Exec (Held Pin S) Bool
  unfolding first_bit
  read = do
    checked ← gets (λ h. required h.self.physical_pin)
    pin ← lift checked
    payload ← lift (bytes_of (pin ∷ []))
    response ← on_io (io.command CommandId.digital_read payload true)
    lift (first_bit response)

  unfoldable pub write : Bool → Exec (Held Pin S) (Unit {0})
  write value = do
    checked ← gets (λ h. required h.self.physical_pin)
    pin ← lift checked
    payload ← lift (bytes_of (pin ∷ flag value ∷ []))
    on_io (io.command CommandId.digital_write payload true)
    pure tt

  unfoldable pub on_edge : String → ℕ → Exec (Held Pin S) (Unit {0})
  on_edge edge callback = do
    checked ← gets (λ h. required h.self.physical_pin)
    pin ← lift checked
    on_io (io.add_edge_callback pin callback)
    flags ← lift (lookup edge edge_flags)
    payload ← lift (
        bytes_of
          (pos (kind_code ResourceKind.digital) ∷ pin ∷ pos 0 ∷ pos 0 ∷ pos (bit_or 1 flags) ∷ []))
    on_io (io.command CommandId.subscribe payload true)
    pure tt
