-- ===== src/Device/Refs.antt =====
-- client.py: `_resource_ref`, `subscribe`, `unsubscribe`.
use Prim.Native.String.{String}
use teensy_io.Base.{
  ℕ, ◌/◌, ◌%◌, ltb, Option, none, some, List, [], ◌∷◌, ◌++◌, Bool, true, if◌then◌else◌,
}
use teensy_io.Base.Int.{ℤ, pos, negsuc}
use teensy_io.Protocol.Commands.{CommandId, ResourceKind, kind_code}
use teensy_io.Protocol.Errors.{Error, Result, ok, err}
use teensy_io.Protocol.Exec.{Exec, pure, lift, gets, ◌>>=◌, ◌>>◌}
use teensy_io.Resources.{bytes_of}
use teensy_io.Resources.Pin.{flag}
use teensy_io.Resources.Session.{Board, Channel, on_session}
use teensy_io.Device.{find_item}

-- `items[name].number` where the name is known and has a number
abbrev pub numbered : {P : Type 0} → (P → Option ℤ) → String → List (String × P) → Option ℤ
numbered number name items = elim (find_item name items) [ none ↦ none | some p ↦ number p ]

-- `self.id` as an `int`
abbrev id_number : Option ℕ → Option ℤ
id_number none = none
id_number (some id) = some (pos id)

-- The first that there is, or a `KeyError`.
unfoldable pub first_number : List (ResourceKind × Option ℤ) → Result (ResourceKind × ℤ)
first_number [] = err Error.key_error
first_number ((kind, some number) ∷ rest) = ok (kind, number)
first_number ((kind, none) ∷ rest) = first_number rest

module _ {S : Type 0} where
  -- The numbers under which a name is known, with the kinds, in the order of the search.
  unfoldable pub candidates : String → Board S → List (ResourceKind × Option ℤ)
  unfolding find_item
  candidates name b =
      (ResourceKind.digital, numbered (λ p. p.physical_pin) name b.pins)
      ∷ (ResourceKind.analog, numbered (λ a. a.physical_pin) name b.analogs)
      ∷ (ResourceKind.counter, numbered (λ c. id_number c.id) name b.counters)
      ∷ (ResourceKind.encoder, numbered (λ e. id_number e.id) name b.encoders)
      ∷ (ResourceKind.dac, numbered (λ d. id_number d.id) name b.dacs)
      ∷ []

  -- `_resource_ref`
  unfoldable pub resource_ref : String → Board S → Result (ResourceKind × ℤ)
  unfolding candidates first_number
  resource_ref name b = first_number (candidates name b)

-- `struct.pack("<H", value)`
unfoldable pub pack_u16 : ℤ → Result (List ℕ)
pack_u16 (pos n) = if ltb n 65536 then ok ((n % 256) ∷ (n / 256) ∷ []) else err Error.struct_error
pack_u16 (negsuc n) = err Error.struct_error

module _ {S : Type 0} (io : Channel S) where
  -- `rate_hz` is what `int` makes of the rate, or 0 for `None`.
  unfoldable pub subscribe : String → Result ℤ → Bool → Exec (Board S) (Unit {0})
  unfolding resource_ref pack_u16
  subscribe name rate_hz on_change = do
    found ← gets (resource_ref name)
    ref ← lift found
    hz ← lift rate_hz
    front ← lift (bytes_of (pos (kind_code ref.0) ∷ ref.1 ∷ []))
    packed ← lift (pack_u16 hz)
    flags ← lift (bytes_of (flag on_change ∷ []))
    on_session (io.send CommandId.subscribe (front ++ (packed ++ flags)) true)
    pure tt

  unfoldable pub unsubscribe : String → Exec (Board S) (Unit {0})
  unfolding resource_ref
  unsubscribe name = do
    found ← gets (resource_ref name)
    ref ← lift found
    payload ← lift (bytes_of (pos (kind_code ref.0) ∷ ref.1 ∷ []))
    on_session (io.send CommandId.unsubscribe payload true)
    pure tt
