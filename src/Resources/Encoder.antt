-- ===== src/Resources/Encoder.antt =====
-- resources/encoder.py.
use Prim.Native.String.{String}
use teensy_io.Base.{ℕ, Option, some, List, [], ◌∷◌, true}
use teensy_io.Base.{◌≡◌, arith}
use teensy_io.Base.Int.{ℤ, pos, ◌-ℤ◌}
use teensy_io.Protocol.Commands.{CommandId}
use teensy_io.Protocol.Errors.{Result, ok}
use teensy_io.Protocol.Exec.{Exec, pure, gets, lift, modify, ◌>>=◌, ◌>>◌}
use teensy_io.Client.Inbox.{unpack_i32}
use teensy_io.Resources.Deltas.{sum_from, repeat, differences_lem}
use teensy_io.Base.{refl}
use teensy_io.Resources.{Io, Held, on_io, lookup, bytes_of, required}

pub record QuadratureEncoder : Type 0 where
  pub name : String
  pub id : Option ℕ
  pub last_position : ℤ

abbrev pub encoder_modes : List (String × ℕ)
encoder_modes = ("x1", 1) ∷ ("x2", 2) ∷ ("x4", 4) ∷ []

module _ {S : Type 0} (io : Io S) where
  -- `pin_a` and `pin_b` are what `int` makes of them, or raises.
  unfoldable pub attach : Result ℤ → Result ℤ → String → Exec (Held QuadratureEncoder S) (Unit {0})
  attach pin_a pin_b mode = do
    mode_code ← lift (lookup mode encoder_modes)
    name ← gets (λ h. h.self.name)
    id ← on_io (io.encoder_id name)
    modify (λ h. record h { self = record h.self { id = some id } })
    a ← lift pin_a
    b ← lift pin_b
    payload ← lift (bytes_of (pos id ∷ a ∷ b ∷ pos mode_code ∷ []))
    on_io (io.command CommandId.config_encoder payload true)
    pure tt

  unfoldable pub read : Exec (Held QuadratureEncoder S) ℤ
  read = do
    checked ← gets (λ h. required h.self.id)
    id ← lift checked
    payload ← lift (bytes_of (pos id ∷ []))
    response ← on_io (io.command CommandId.encoder_read payload true)
    lift (unpack_i32 response)

  unfoldable pub delta : Exec (Held QuadratureEncoder S) ℤ
  unfolding read
  delta = do
    position ← read
    change ← gets (λ h. position -ℤ h.self.last_position)
    modify (λ h. record h { self = record h.self { last_position = position } })
    pure change

  unfoldable pub reset : Exec (Held QuadratureEncoder S) (Unit {0})
  reset = do
    checked ← gets (λ h. required h.self.id)
    id ← lift checked
    payload ← lift (bytes_of (pos id ∷ []))
    on_io (io.command CommandId.encoder_reset payload true)
    modify (λ h. record h { self = record h.self { last_position = pos 0 } })

module _ {S : Type 0} (io : Io S) where
  -- Reading leaves the encoder as it was.
  read-self : (h : Held QuadratureEncoder S) → (read io h).1.self ≡ h.self
  unfolding read
  read-self h = ground arith

  -- While nothing else is done to the encoder, the results of `delta` add up: however the position
  -- moves between the calls, the sum of what they return is the position that the last of them read,
  -- less the one that was read before the first.
  pub deltas-sum :
      (n : ℕ) (h : Held QuadratureEncoder S) (ds : List ℤ)
      → (repeat n (delta io) h).0 ≡ ok ds
      → (repeat n (delta io) h).1.self.last_position ≡ sum_from h.self.last_position ds
  unfolding delta
  deltas-sum =
      differences_lem (read io) (λ e. e.last_position) (λ e z. record e { last_position = z })
        (λ e z. refl) read-self
