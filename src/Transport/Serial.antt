-- ===== src/Transport/Serial.antt =====
-- transport/serial_transport.py, over the port of pyserial.
use teensy_io.Base.{
  ℕ, ◌≤◌, min, Bool, true, false, ◌⊎◌, ◌&&◌, List, [], length, if◌then◌else◌, ◌==◌,
}
use teensy_io.Base.{◌<◌, ◌≢◌, ◌≡◌, arith, ap, Bool-cases, inl, inr}
use mathlib.Core.Path.{subst}
use teensy_io.Protocol.Errors.{Error, Result, ok, err, stuck}
use teensy_io.Protocol.Exec.{bind_elim, Exec, pure, on, modify, ◌>>=◌, ◌>>◌}
use teensy_io.Transport.{Transport}
use teensy_io.Transport.Lawful.{IsBounded, IsLive, IsTicking, IsPaced}

-- `serial.Serial`, over a state `P` of the port: `connect` is the constructor, and `now` the clock.
pub record Port (P : Type 0) : Type 0 where
  pub connect : Exec P (Unit {0})
  pub close : Exec P (Unit {0})
  pub write : List ℕ → Exec P (Unit {0})
  pub read : ℕ → Exec P (List ℕ)
  pub in_waiting : Exec P ℕ
  pub is_open : P → Bool
  pub now : P → ℕ

-- `opened` tells that `self._serial` is not `None`.
pub record SerialTransport (P : Type 0) : Type 0 where
  pub opened : Bool
  pub port : P

-- What pyserial documents of `read`: it returns at most as many bytes as were asked for.
pub record IsPort {P : Type 0} (device : Port P) : Type 0 where
  pub read_bounded :
      (n : ℕ) (p : P) (bytes : List ℕ) → (device.read n p).0 ≡ ok bytes → length bytes ≤ n

-- More than pyserial promises of a port: each call comes back, also a `write` without a
-- timeout, and the clock shows that a `read` took time.
pub record IsTimed {P : Type 0} (device : Port P) : Type 0 where
  pub read_takes_time :
      (n : ℕ) (p : P) (bytes : List ℕ)
      → (device.read n p).0 ≡ ok bytes
      → device.now p < device.now (device.read n p).1
  pub waiting_monotone :
      (n : ℕ) (p : P)
      → (device.in_waiting p).0 ≡ ok n
      → device.now p ≤ device.now (device.in_waiting p).1
  pub write_ends : (bytes : List ℕ) (p : P) → (device.write bytes p).0 ≢ stuck
  pub read_ends : (n : ℕ) (p : P) → (device.read n p).0 ≢ stuck
  pub waiting_ends : (p : P) → (device.in_waiting p).0 ≢ stuck

module _ {P : Type 0} (device : Port P) where
  abbrev on_port : {A : Type 0} → Exec P A → Exec (SerialTransport P) A
  on_port = on (λ s. s.port) (λ s p. record s { port = p })

  -- `if self._serial is None: raise RuntimeError("transport is not open")`
  unfoldable pub when_open : {A : Type 0} → Exec (SerialTransport P) A → Exec (SerialTransport P) A
  when_open m s = if s.opened then m s else (err Error.runtime_error, s)

  unfoldable pub read_waiting : ℕ → Exec (SerialTransport P) (List ℕ)
  read_waiting max_bytes = on_port device.in_waiting >>= λ waiting.
      if waiting == 0 then pure [] else on_port (device.read (min max_bytes waiting))

  unfoldable pub serial_transport : Transport (SerialTransport P)
  unfolding when_open read_waiting
  serial_transport = record {
    open_link = on_port device.connect >> modify (λ s. record s { opened = true });
    close_link = λ s. (if s.opened then on_port device.close else pure tt) s;
    write = λ bytes. when_open (on_port (device.write bytes));
    read = λ size. when_open (on_port (device.read size));
    read_available = λ max_bytes. when_open (read_waiting max_bytes);
    is_open = λ s. s.opened && device.is_open s.port;
    now = λ s. device.now s.port;
  }

module _ {P : Type 0} (device : Port P) (lawful : IsPort device) (timed : IsTimed device) where
  -- The transport's `read_available`, on an open port.
  read_waiting_lem :
      (n : ℕ) (s : SerialTransport P)
      → ((read_waiting device n s).0 ≢ stuck)
        × ((bytes : List ℕ)
            → (read_waiting device n s).0 ≡ ok bytes
            → (length bytes ≤ n)
              × (device.now s.port ≤ device.now (read_waiting device n s).1.port)
              × (0 < length bytes
                  → device.now s.port < device.now (read_waiting device n s).1.port))
  unfolding read_waiting
  read_waiting_lem n s =
      bind_elim
        (λ (x : Result (List ℕ) × SerialTransport P).
          (x.0 ≢ stuck)
          × ((bytes : List ℕ)
              → x.0 ≡ ok bytes
              → (length bytes ≤ n)
                × (device.now s.port ≤ device.now x.1.port)
                × (0 < length bytes → device.now s.port < device.now x.1.port)))
        (on_port device device.in_waiting)
        (λ waiting. if waiting == 0 then pure [] else on_port device (device.read (min n waiting)))
        s
        (λ waiting s' e.
          let asked : device.now s.port ≤ device.now s'.port =
            subst (λ p. device.now s.port ≤ device.now p) (ap (λ x. x.1.port) e)
              (timed.waiting_monotone waiting s.port (ap (λ x. x.0) e)) in
          elim (Bool-cases (waiting == 0)) [
            | inl nothing ↦ rw nothing ((λ q. cc), (λ bytes q. ground arith))
            | inr some_data ↦ rw some_data (
              timed.read_ends (min n waiting) s'.port,
              λ bytes q.
                  let few = lawful.read_bounded (min n waiting) s'.port bytes q in
                  let later = timed.read_takes_time (min n waiting) s'.port bytes q in
                  (omega arith, omega arith, λ _. omega arith),
            )
          ])
        (λ x s' e. ((λ q. cc), (λ bytes q. absurd (cc))))
        (λ s' e. absurd (timed.waiting_ends s.port (ap (λ x. x.0) e)))

  -- Over such a port, open or not, all that the theorems on the client ask of a link.
  pub serial_transport_lawful :
      IsBounded (serial_transport device)
      × IsTicking (serial_transport device)
      × IsLive (serial_transport device)
      × IsPaced (serial_transport device)
  unfolding serial_transport when_open
  serial_transport_lawful = (
    record {
      read_bounded = λ n s bytes e. ground (arith, lawful.read_bounded n s.port bytes);
      available_bounded = λ n s bytes e. ground (arith, (read_waiting_lem n s).1 bytes);
    },
    record {
      read_takes_time = λ n s bytes e. ground (arith, timed.read_takes_time n s.port bytes);
      available_monotone = λ n s bytes e. ground (arith, (read_waiting_lem n s).1 bytes);
    },
    record {
      write_ends = λ bytes s e. ground (arith, timed.write_ends bytes s.port);
      read_ends = λ n s e. ground (arith, timed.read_ends n s.port);
      available_ends = λ n s e. ground (arith, (read_waiting_lem n s).0);
    },
    record { available_takes_time = λ n s bytes e. ground (arith, (read_waiting_lem n s).1 bytes) },
  )

-- At most so many bytes, if a call returns.
abbrev pub AtMost : ℕ → Result (List ℕ) → Type 0
AtMost n (ok bytes) = length bytes ≤ n
AtMost n _ = Unit

-- What `read_available` may give, by what `in_waiting` said; what that raises is raised.
abbrev pub Available : ℕ → Result ℕ → Result (List ℕ) → Type 0
Available n (ok waiting) r = AtMost (min n waiting) r
Available n (err e) r = r ≡ err e
Available n stuck r = r ≡ stuck

module _ {P : Type 0} (device : Port P) (lawful : IsPort device) where
  -- What the operations of the transport do, before `open` and after it.
  abbrev pub Reads : ℕ → List ℕ → SerialTransport P → Type 0
  Reads n bytes s =
      ((s.opened ≡ false)
        × ((serial_transport device).read n s ≡ (err Error.runtime_error, s))
        × ((serial_transport device).read_available n s ≡ (err Error.runtime_error, s))
        × ((serial_transport device).write bytes s ≡ (err Error.runtime_error, s))
        × ((serial_transport device).close_link s ≡ (ok tt, s)))
      ⊎ ((s.opened ≡ true)
          × AtMost n ((serial_transport device).read n s).0
          × Available n (device.in_waiting s.port).0
              ((serial_transport device).read_available n s).0)
