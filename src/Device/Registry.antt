-- ===== src/Device/Registry.antt =====
-- One object for each name: what a method of `pin(name)` left in it is what the next one finds.
use Prim.Native.String.{String}
use teensy_io.Base.{
  ℕ, ◌<◌, ◌/◌, ◌%◌, Bool, true, false, Bool-cases, List, [], ◌∷◌, some, if◌then◌else◌, inl, inr,
}
use teensy_io.Base.{◌≡◌, refl, arith}
use text.Mathlib.TextEquality.{eq_iff}
use teensy_io.Base.Int.{ℤ, pos}
use teensy_io.Protocol.Commands.{CommandId, ResourceKind, kind_code}
use teensy_io.Protocol.Errors.{Result, ok}
use teensy_io.Protocol.Exec.{pure, ◌>>◌}
use teensy_io.Resources.{Held, bytes_of, text_eq}
use teensy_io.Resources.Pin
use teensy_io.Resources.Session.{Board, Channel, board_io, on_session, setdefault, new_pin}
use teensy_io.Device.{find_item, put_item, named, on_pin}
use teensy_io.Device.Refs.{resource_ref, subscribe, candidates, first_number, pack_u16}

module _ {P : Type 0} (name : String) where
  find_item-setdefault :
      (new : P) (items : List (String × P))
      → find_item name (setdefault name new items).1 ≡ some (setdefault name new items).0
  unfolding find_item setdefault
  find_item-setdefault new [] = rw ((eq_iff name name).1 refl) refl
  find_item-setdefault new ((n, item) ∷ rest) = elim (Bool-cases (text_eq name n)) [
    | inl here ↦ ground arith
    | inr later ↦ rw later (rw later (find_item-setdefault new rest))
  ]

  find_item-put_item :
      (p q : P) (items : List (String × P))
      → find_item name items ≡ some p
      → find_item name (put_item name q items) ≡ some q
  unfolding find_item put_item
  find_item-put_item p q [] h = absurd (cc)
  find_item-put_item p q ((n, item) ∷ rest) h = elim (Bool-cases (text_eq name n)) [
    | inl here ↦ ground arith
    | inr later ↦ rw later (rw later (find_item-put_item p q rest (ground arith)))
  ]

  setdefault-found :
      (new p : P) (items : List (String × P))
      → find_item name items ≡ some p
      → setdefault name new items ≡ (p, items)
  unfolding find_item setdefault
  setdefault-found new p [] h = absurd (cc)
  setdefault-found new p ((n, item) ∷ rest) h = elim (Bool-cases (text_eq name n)) [
    | inl here ↦ ground arith
    | inr later ↦ ground (arith, setdefault-found new p rest)
  ]

  put_item_same :
      (p : P) (items : List (String × P))
      → find_item name items ≡ some p
      → put_item name p items ≡ items
  unfolding find_item put_item
  put_item_same p [] h = absurd (cc)
  put_item_same p ((n, item) ∷ rest) h = elim (Bool-cases (text_eq name n)) [
    | inl here ↦ ground arith
    | inr later ↦ ground (arith, put_item_same p rest)
  ]

module _ {S : Type 0} (io : Channel S) (name : String) (n : ℕ) where
  configure_output-self :
      (initial : Result ℤ) (h : Held Pin.Pin (Board S))
      → ((Pin.configure_output (board_io io) (pos n) initial h).1.self
          ≡ record { physical_pin = some (pos n) })
        × ((Pin.configure_output (board_io io) (pos n) initial h).1.io.pins ≡ h.io.pins)
  unfolding Pin.configure_output board_io
  configure_output-self initial h = (ground arith, ground arith)

  -- The pin is registered with its number, whatever came of the command.
  find-configured :
      (initial : Result ℤ) (b : Board S)
      → find_item name (on_pin name (Pin.configure_output (board_io io) (pos n) initial) b).1.pins
        ≡ some (record { physical_pin = some (pos n) })
  unfolding on_pin named
  find-configured initial b =
      let entry = setdefault name new_pin b.pins in
      let h : Held Pin.Pin (Board S) = record {
        self = entry.0;
        io = record b { pins = entry.1 };
      } in
      let (self_set, pins_kept) = configure_output-self initial h in
      rw (self_set, pins_kept)
        (find_item-put_item name entry.0 (record { physical_pin = some (pos n) }) entry.1
          (find_item-setdefault name new_pin b.pins))

  -- A method of a registered pin that leaves the pin as it is.
  write-registered :
      (value : Bool) (b : Board S)
      → n < 256
      → find_item name b.pins ≡ some (record { physical_pin = some (pos n) })
      → on_pin name (Pin.write (board_io io) value) b
        ≡ (on_session (io.send CommandId.digital_write (n ∷ (if value then 1 else 0) ∷ []) true)
              >> pure tt)
            b
  unfolding on_pin named Pin.write bytes_of board_io
  write-registered true b fits found =
      rw
        (
          setdefault-found name new_pin (record { physical_pin = some (pos n) }) b.pins found,
          on_pin,
        )
        (ground (arith, put_item_same name (record { physical_pin = some (pos n) }) b.pins found))
  write-registered false b fits found =
      rw
        (
          setdefault-found name new_pin (record { physical_pin = some (pos n) }) b.pins found,
          on_pin,
        )
        (ground (arith, put_item_same name (record { physical_pin = some (pos n) }) b.pins found))

  ref-registered :
      (b : Board S)
      → find_item name b.pins ≡ some (record { physical_pin = some (pos n) })
      → resource_ref name b ≡ ok (ResourceKind.digital, pos n)
  unfolding resource_ref candidates first_number
  ref-registered b found = ground arith

  subscribe-registered :
      (hz : ℕ) (on_change : Bool) (b : Board S)
      → n < 256
      → hz < 65536
      → find_item name b.pins ≡ some (record { physical_pin = some (pos n) })
      → subscribe io name (ok (pos hz)) on_change b
        ≡ (on_session (
                io.send CommandId.subscribe
                  (1 ∷ n ∷ (hz % 256) ∷ (hz / 256) ∷ (if on_change then 1 else 0) ∷ [])
                  true)
              >> pure tt)
            b
  unfolding subscribe bytes_of kind_code pack_u16
  subscribe-registered hz true b fits rate found = rw (ref-registered b found) (ground arith)
  subscribe-registered hz false b fits rate found = rw (ref-registered b found) (ground arith)

  -- After `pin(name).configure_output(n, …)`, whatever came of its command, the name stands for the
  -- pin n: `pin(name).write(value)` sends the one command to write the value to the pin n, and
  -- `subscribe(name, hz, on_change)` the one that subscribes to it, with the rate as two bytes.
  pub configured_pin-commands :
      (initial : Result ℤ) (b : Board S) (value : Bool) (hz : ℕ) (on_change : Bool)
      → n < 256
      → hz < 65536
      → (let b' = (on_pin name (Pin.configure_output (board_io io) (pos n) initial) b).1 in
          (on_pin name (Pin.write (board_io io) value) b'
            ≡ (on_session (io.send CommandId.digital_write (n ∷ (if value then 1 else 0) ∷ []) true)
                  >> pure tt)
                b')
          × (subscribe io name (ok (pos hz)) on_change b'
              ≡ (on_session (
                      io.send CommandId.subscribe
                        (1 ∷ n ∷ (hz % 256) ∷ (hz / 256) ∷ (if on_change then 1 else 0) ∷ [])
                        true)
                    >> pure tt)
                  b'))
  configured_pin-commands initial b value hz on_change fits rate =
      let b' = (on_pin name (Pin.configure_output (board_io io) (pos n) initial) b).1 in
      let found = find-configured initial b in
      (write-registered value b' fits found, subscribe-registered hz on_change b' fits rate found)
