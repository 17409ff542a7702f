-- ===== src/Resources/Counter.antt =====
-- resources/counter.py.
use Prim.Native.String.{String}
use teensy_io.Base.{
  ℕ, suc, ◌+◌, ◌-◌, ◌*◌, ◌++◌, ltb, leb, if◌then◌else◌, Option, List, [], ◌∷◌, true, ◌≡◌, refl,
  arith,
}
use teensy_io.Base.Int.{ℤ, pos, negsuc, ◌-ℤ◌}
use teensy_io.Protocol.Commands.{CommandId}
use teensy_io.Protocol.Errors.{Result, ok}
use teensy_io.Protocol.Exec.{Exec, pure, gets, lift, modify, ◌>>=◌, ◌>>◌}
use teensy_io.Base.{some}
use teensy_io.Client.Inbox.{unpack_i32, unpack_u32}
use teensy_io.Resources.{Io, Held, Ratio, on_io, lookup, bytes_of, required}
use teensy_io.Resources.Deltas.{sum_from, repeat, differences_lem}

-- The samples are those of `frequency`: a time in microseconds and a count, the oldest first.
pub record PulseCounter : Type 0 where
  pub name : String
  pub id : Option ℕ
  pub last_count : ℤ
  pub samples : List (ℕ × ℤ)

abbrev pub edge_codes : List (String × ℕ)
edge_codes = ("rising", 0) ∷ ("falling", 1) ∷ ("both", 2) ∷ []

-- `pin: str | int`
pub data PinRef : Type 0 where
  named : String → PinRef
  numbered : ℤ → PinRef

-- `while len(self._samples) > 2 and self._samples[0][0] < cutoff: self._samples.popleft()`, with the
-- cutoff `window` before `now`
unfoldable pub drop_samples : ℕ → ℕ → List (ℕ × ℤ) → List (ℕ × ℤ)
drop_samples window now (first ∷ second ∷ third ∷ rest) =
    let later = drop_samples window now (second ∷ third ∷ rest) in
    if ltb (first.0 + window) now then later else first ∷ second ∷ third ∷ rest
drop_samples window now samples = samples

-- The end of `frequency`: counts in a second, from counts and microseconds.
unfoldable pub rate : ℕ → ℤ → List (ℕ × ℤ) → Ratio
unfolding ◌-ℤ◌
rate now count ((start_time, start_count) ∷ second ∷ rest) =
    if leb now start_time
    then record { numerator = pos 0; denominator = 1 }
    else record { numerator = times_million (count -ℤ start_count); denominator = now - start_time }
  where
    times_million : ℤ → ℤ
    times_million (pos n) = pos (1000000 * n)
    times_million (negsuc n) = negsuc (1000000 * suc n - 1)
rate now count samples = record { numerator = pos 0; denominator = 1 }

module _ {S : Type 0} (io : Io S) where
  -- `_resolve_pin`
  unfoldable pub resolve_pin : PinRef → Exec (Held PulseCounter S) ℤ
  resolve_pin (PinRef.numbered pin) = pure pin
  resolve_pin (PinRef.named pin) = do number ← on_io (io.pin_number pin); lift (required number)

  -- `edge` is the key for the display of codes, or what the search for it raises.
  unfoldable pub attach : PinRef → Result String → Exec (Held PulseCounter S) (Unit {0})
  unfolding resolve_pin
  attach pin edge = do
    physical_pin ← resolve_pin pin
    name ← gets (λ h. h.self.name)
    id ← on_io (io.counter_id name)
    modify (λ h. record h { self = record h.self { id = some id } })
    key ← lift edge
    edge_code ← lift (lookup key edge_codes)
    payload ← lift (bytes_of (pos id ∷ physical_pin ∷ pos edge_code ∷ []))
    on_io (io.command CommandId.config_counter payload true)
    pure tt

  unfoldable pub read : Exec (Held PulseCounter S) ℤ
  read = do
    checked ← gets (λ h. required h.self.id)
    id ← lift checked
    payload ← lift (bytes_of (pos id ∷ []))
    response ← on_io (io.command CommandId.counter_read payload true)
    lift (unpack_i32 response)

  unfoldable pub delta : Exec (Held PulseCounter S) ℤ
  unfolding read
  delta = do
    count ← read
    change ← gets (λ h. count -ℤ h.self.last_count)
    modify (λ h. record h { self = record h.self { last_count = count } })
    pure change

  unfoldable pub reset : Exec (Held PulseCounter S) (Unit {0})
  reset = do
    checked ← gets (λ h. required h.self.id)
    id ← lift checked
    payload ← lift (bytes_of (pos id ∷ []))
    on_io (io.command CommandId.counter_reset payload true)
    modify (λ h. record h { self = record h.self { last_count = pos 0; samples = [] } })

  unfoldable pub frequency : ℤ → Exec (Held PulseCounter S) Ratio
  unfolding read unpack_u32 drop_samples rate
  frequency (pos (suc window_ms)) = do
    checked ← gets (λ h. required h.self.id)
    lift checked
    now ← gets (λ h. io.now h.io)
    count ← read
    modify
        (λ h. record h { self = record h.self { samples = h.self.samples ++ (now, count) ∷ [] } })
    modify (λ h. record h {
      self = record h.self { samples = drop_samples (1000 * suc window_ms) now h.self.samples };
    })
    gets (λ h. rate now count h.self.samples)
  frequency _ = do
    checked ← gets (λ h. required h.self.id)
    id ← lift checked
    payload ← lift (bytes_of (pos id ∷ []))
    response ← on_io (io.command CommandId.counter_frequency payload true)
    milli_hz ← lift (unpack_u32 response)
    pure (record { numerator = pos milli_hz; denominator = 1000 })

  -- Reading leaves the counter as it was.
  read-self : (h : Held PulseCounter S) → (read h).1.self ≡ h.self
  unfolding read
  read-self h = ground arith

  -- While nothing else is done to the counter, the results of `delta` add up to the change of the
  -- count, from the one that was read last before the first call to the one that the last call read.
  pub counter_deltas-sum :
      (n : ℕ) (h : Held PulseCounter S) (ds : List ℤ)
      → (repeat n delta h).0 ≡ ok ds
      → (repeat n delta h).1.self.last_count ≡ sum_from h.self.last_count ds
  unfolding delta
  counter_deltas-sum =
      differences_lem read (λ c. c.last_count) (λ c z. record c { last_count = z }) (λ c z. refl)
        read-self
