-- ===== src/Resources/Dac.antt =====
-- resources/dac.py.
use Prim.Native.String.{String}
use native.Mathlib.Nat.{pow-le-pow_right, one-le-pow}
use teensy_io.Base.{
  Bool-cases, ℕ, ◌+◌, ◌-◌, ◌^◌, ◌<◌, ◌≤◌, Option, some, List, [], ◌∷◌, ◌++◌, true, if◌then◌else◌,
  ltb,
}
use teensy_io.Base.{◌≡◌, ◌⊎◌, inl, inr, refl, arith, All, IsByte}
use teensy_io.Base.Int.{ℤ, pos, negsuc}
use teensy_io.Protocol.Commands.{CommandId}
use teensy_io.Protocol.Errors.{Error, Result, ok, err}
use teensy_io.Protocol.Exec.{Exec, pure, gets, lift, modify, raise_if, ◌>>=◌, ◌>>◌}
use teensy_io.Protocol.Packet.{to_bytes2}
use teensy_io.Protocol.Decoder.{from_bytes}
use teensy_io.Base.Floats.{Float}
use teensy_io.Resources.Pwm.{scaled_unit}
use teensy_io.Resources.{Io, Held, on_io, bytes_of, outside, required, u7_address}

pub record DacOutput : Type 0 where
  pub name : String
  pub id : Option ℕ
  pub bus_name : Option String
  pub address : Option ℤ
  pub channels : ℕ
  pub resolution_bits : ℕ

-- `(1 << bits) - 1 if bits < 16 else 0xFFFF`
unfoldable pub max_value : ℕ → ℕ
max_value bits = if ltb bits 16 then 2 ^ bits - 1 else 0xFFFF

-- `channel < 0 or channel >= self.channels`
unfoldable pub check_channel : ℤ → ℕ → Result (Unit {0})
check_channel (pos c) channels = if ltb c channels then ok tt else err Error.value_error
check_channel (negsuc c) channels = err Error.value_error

-- `int(value).to_bytes(2, "little")` of a value that has been checked
abbrev pub value_bytes : ℤ → List ℕ
value_bytes (pos v) = to_bytes2 v
value_bytes (negsuc v) = []

module _ {S : Type 0} (io : Io S) where
  -- `bus_number` is the `bus` of `self.io.i2c_bus(bus)`.
  unfoldable pub attach_i2c : Option ℤ → String → ℤ → ℤ → ℤ → Exec (Held DacOutput S) (Unit {0})
  unfolding u7_address
  attach_i2c bus_number bus address channels resolution_bits = do
    number ← lift (required bus_number)
    raise_if (outside 1 255 channels) Error.value_error
    raise_if (outside 1 16 resolution_bits) Error.value_error
    name ← gets (λ h. h.self.name)
    id ← on_io (io.dac_id name)
    modify (λ h. record h { self = record h.self { id = some id; bus_name = some bus } })
    checked ← lift (u7_address address)
    modify (λ h. record h {
      self = record h.self {
        address = some checked;
        channels = natural channels;
        resolution_bits = natural resolution_bits;
      };
    })
    payload ← lift (bytes_of (pos id ∷ number ∷ checked ∷ channels ∷ resolution_bits ∷ []))
    on_io (io.command CommandId.config_dac payload true)
    pure tt
    where
      natural : ℤ → ℕ
      natural (pos n) = n
      natural (negsuc n) = 0

  unfoldable pub write_raw : ℤ → ℤ → Exec (Held DacOutput S) (Unit {0})
  unfolding check_channel max_value
  write_raw value channel = do
    checked ← gets (λ h. required h.self.id)
    id ← lift checked
    channel_check ← gets (λ h. check_channel channel h.self.channels)
    lift channel_check
    too_large ← gets (λ h. outside 0 (max_value h.self.resolution_bits) value)
    raise_if too_large Error.value_error
    front ← lift (bytes_of (pos id ∷ channel ∷ []))
    on_io (io.command CommandId.dac_write_raw (front ++ value_bytes value) true)
    pure tt

  unfoldable pub write_normalized : Float → ℤ → Exec (Held DacOutput S) (Unit {0})
  unfolding check_channel scaled_unit
  write_normalized value channel = do
    checked ← gets (λ h. required h.self.id)
    id ← lift checked
    channel_check ← gets (λ h. check_channel channel h.self.channels)
    lift channel_check
    scaled ← lift (scaled_unit 10000 value)
    front ← lift (bytes_of (pos id ∷ channel ∷ []))
    on_io (io.command CommandId.dac_write_normalized (front ++ to_bytes2 scaled) true)
    pure tt

-- The attached output, its parameters in their ranges, as `attach_i2c` leaves them.
pub record IsAttached (id : ℕ) (d : DacOutput) : Type 0 where
  pub attached : d.id ≡ some id
  pub id_fits : id < 256
  pub channels_fit : d.channels ≤ 255
  pub bits_fit : d.resolution_bits ≤ 16

max_value-lt : (bits : ℕ) → bits ≤ 16 → max_value bits < 65536
unfolding max_value
max_value-lt bits h =
    let bound : 2 ^ bits ≤ 2 ^ 16 = pow-le-pow_right (omega arith) h in
    let power : 2 ^ 16 ≡ 65536 = refl in ground arith

max_value-pow : (bits : ℕ) → bits ≤ 16 → max_value bits + 1 ≡ 2 ^ bits
unfolding max_value
max_value-pow bits h = elim (Bool-cases (ltb bits 16)) [
  | inl small ↦ rw small (omega (arith, one-le-pow bits 2 (omega arith)))
  | inr full ↦
      let sixteen : bits ≡ 16 = ground arith in
      rw (full, sixteen) (let power : 2 ^ 16 ≡ 65536 = refl in omega arith)
]

-- Negative, or not below the bound.
abbrev pub IsOutOf : ℕ → ℤ → Type 0
IsOutOf bound (pos n) = bound ≤ n
IsOutOf bound (negsuc n) = Unit

in_range : (bound : ℕ) (z : ℤ) → ((n : ℕ) × (z ≡ pos n) × (n < bound)) ⊎ IsOutOf bound z
in_range bound (negsuc n) = inr tt
in_range bound (pos n) = elim (Bool-cases (ltb n bound)) [
  | inl below ↦ inl (n, refl, ground arith)
  | inr above ↦ inr (ground arith)
]

module _ {S : Type 0} (io : Io S) (id : ℕ) (h : Held DacOutput S)
    (valid : IsAttached id h.self) where
  sends :
      (value channel : ℕ)
      → channel < h.self.channels
      → value ≤ max_value h.self.resolution_bits
      → write_raw io (pos value) (pos channel) h
        ≡ (on_io (io.command CommandId.dac_write_raw (id ∷ channel ∷ to_bytes2 value) true)
              >> pure tt)
            h
  unfolding write_raw bytes_of check_channel
  sends value channel c v = ground (arith, valid.attached, valid.id_fits, valid.channels_fit)

  payload_fits :
      (value channel : ℕ)
      → channel < h.self.channels
      → value ≤ max_value h.self.resolution_bits
      → All IsByte (id ∷ channel ∷ to_bytes2 value)
  payload_fits value channel c v = (
    valid.id_fits,
    (
      omega (arith, valid.channels_fit),
      (omega arith, (omega (arith, max_value-lt h.self.resolution_bits valid.bits_fit), tt)),
    ),
  )

  pub write_raw-refuses :
      (value channel : ℤ)
      → (outside 0 (max_value h.self.resolution_bits) value ≡ true)
        ⊎ (check_channel channel h.self.channels ≡ err Error.value_error)
      → write_raw io value channel h ≡ (err Error.value_error, h)
  unfolding write_raw bytes_of check_channel
  write_raw-refuses value channel (inr no_channel) = ground (arith, valid.attached)
  write_raw-refuses value (negsuc c) (inl too_large) = ground (arith, valid.attached)
  write_raw-refuses value (pos c) (inl too_large) =
      ground (arith, valid.attached, valid.id_fits, valid.channels_fit)

  refuses_value :
      (value channel : ℤ)
      → IsOutOf (2 ^ h.self.resolution_bits) value
      → write_raw io value channel h ≡ (err Error.value_error, h)
  refuses_value (negsuc v) channel _ = write_raw-refuses (negsuc v) channel (inl refl)
  refuses_value (pos v) channel out =
      write_raw-refuses (pos v) channel
        (inl (ground (arith, max_value-pow h.self.resolution_bits valid.bits_fit)))

  refuses_channel :
      (value channel : ℤ)
      → IsOutOf h.self.channels channel
      → write_raw io value channel h ≡ (err Error.value_error, h)
  refuses_channel value (negsuc c) _ =
      write_raw-refuses value (negsuc c) (inr (unfold check_channel in refl))
  refuses_channel value (pos c) out =
      write_raw-refuses value (pos c) (inr (unfold check_channel in ground arith))

  -- `write_raw` of an attached DAC, for every value and channel. Either the channel exists and the value
  -- fits the resolution: then the payload that is sent is the number of the DAC, the channel, and the
  -- value as two bytes, the lower one first. Or one of them is out of its range: then it raises
  -- `ValueError`, and nothing is sent and nothing changes.
  pub write_raw-sends :
      (value channel : ℤ)
      → ((v c : ℕ) × (value ≡ pos v)
          × (channel ≡ pos c)
          × (v < 2 ^ h.self.resolution_bits)
          × (c < h.self.channels)
          × (write_raw io value channel h
              ≡ (on_io (io.command CommandId.dac_write_raw (id ∷ c ∷ to_bytes2 v) true) >> pure tt)
                  h)
          × All IsByte (id ∷ c ∷ to_bytes2 v)
          × (from_bytes (to_bytes2 v) ≡ v))
        ⊎ ((IsOutOf (2 ^ h.self.resolution_bits) value ⊎ IsOutOf h.self.channels channel)
            × (write_raw io value channel h ≡ (err Error.value_error, h)))
  write_raw-sends value channel = elim (in_range (2 ^ h.self.resolution_bits) value) [
    | inr out ↦ inr (inl out, refuses_value value channel out)
    | inl (v, is_v, fits) ↦ elim (in_range h.self.channels channel) [
      | inr out ↦ inr (inr out, refuses_channel value channel out)
      | inl (c, is_c, there) ↦
          let small : v ≤ max_value h.self.resolution_bits =
            omega (arith, max_value-pow h.self.resolution_bits valid.bits_fit) in
          let below = max_value-lt h.self.resolution_bits valid.bits_fit in
          inl (
            v,
            c,
            is_v,
            is_c,
            fits,
            there,
            rw (is_v, is_c) (sends v c there small),
            payload_fits v c there small,
            omega arith,
          )
    ]
  ]
