-- ===== src/Resources/Session.antt =====
-- `TeensyIO` as the resources see it: `_command` of the client, and its dictionaries of numbers.
use Prim.Native.String.{String}
use teensy_io.Base.{
  Bool, ◌++◌, ◌==◌, ◌&&◌, ℕ, ◌+◌, ◌<◌, ◌≤◌, List, ◌∷◌, length, some, none, if◌then◌else◌, [], true,
}
use teensy_io.Base.{◌≡◌, ap, ◌∙◌, arith}
use teensy_io.Base.Int.{ℤ, pos, negsuc}
use teensy_io.Protocol.Commands.{CommandId, ResourceKind, kind_code}
use teensy_io.Protocol.Errors.{Error, Result, ok, err}
use teensy_io.Protocol.Exec.{Exec, bind_raise, pure, on, modify}
use teensy_io.Transport.{Transport}
use teensy_io.Client.Session.{Session, command}
use teensy_io.Client.Session.Commands.{command_too_long}
use teensy_io.Resources.{Io, Held, on_io, text_eq}
use teensy_io.Resources.Ids.{id_for}
use teensy_io.Resources.Pin.{Pin}
use teensy_io.Resources.Pwm.{PwmOutput}
use teensy_io.Resources.Analog.{AnalogInput}
use teensy_io.Resources.Counter.{PulseCounter}
use teensy_io.Resources.Encoder.{QuadratureEncoder}
use teensy_io.Resources.Dac.{DacOutput}
use teensy_io.Resources.I2cBus.{I2cBus, write, write-command}

-- What the resources use of the client beside its dictionaries, over the rest `S` of its state.
pub record Channel (S : Type 0) : Type 0 where
  pub send : CommandId → List ℕ → Bool → Exec S (List ℕ)
  pub add_callback : ℤ → ℕ → Exec S (Unit {0})
  pub now : S → ℕ

-- `TeensyIO`: its dictionaries beside the rest.
pub record Board (S : Type 0) : Type 0 where
  pub session : S
  pub pins : List (String × Pin)
  pub pwms : List (String × PwmOutput)
  pub analogs : List (String × AnalogInput)
  pub counters : List (String × PulseCounter)
  pub encoders : List (String × QuadratureEncoder)
  pub i2c_buses : List (String × I2cBus)
  pub dacs : List (String × DacOutput)
  pub counter_ids : List (String × ℕ)
  pub encoder_ids : List (String × ℕ)
  pub dac_ids : List (String × ℕ)

abbrev pub on_session : {S A : Type 0} → Exec S A → Exec (Board S) A
on_session = on (λ b. b.session) (λ b s. record b { session = s })

-- `items.setdefault(name, new)`, and the dictionary after it
unfoldable pub setdefault : {P : Type 0} → String → P → List (String × P) → P × List (String × P)
setdefault name new [] = (new, (name, new) ∷ [])
setdefault name new ((n, item) ∷ rest) =
    let (found, rest') = setdefault name new rest in
    if text_eq name n then (item, (n, item) ∷ rest) else (found, (n, item) ∷ rest')

-- A new `Pin`
abbrev pub new_pin : Pin
new_pin = record { physical_pin = none }

unfoldable pub board_io : {S : Type 0} → Channel S → Io (Board S)
unfolding id_for setdefault
board_io {S} io = record {
  command = λ code payload expect. on_session (io.send code payload expect);
  counter_id = λ name b.
      let (id, ids) = id_for name b.counter_ids in (ok id, record b { counter_ids = ids });
  encoder_id = λ name b.
      let (id, ids) = id_for name b.encoder_ids in (ok id, record b { encoder_ids = ids });
  dac_id = λ name b. let (id, ids) = id_for name b.dac_ids in (ok id, record b { dac_ids = ids });
  pin_number = λ name b.
      let (pin, pins) = setdefault name new_pin b.pins in
      (ok pin.physical_pin, record b { pins = pins });
  add_edge_callback = λ pin callback. on_session (io.add_callback pin callback);
  now = λ b. io.now b.session;
}

-- `self.io._edge_callbacks.setdefault(key, []).append(callback)`
unfoldable pub append_callback :
    ℕ → ℕ → List ((ResourceKind × ℕ) × List ℕ) → List ((ResourceKind × ℕ) × List ℕ)
append_callback pin callback [] = ((ResourceKind.digital, pin), callback ∷ []) ∷ []
append_callback pin callback (((k, i), callbacks) ∷ rest) =
    let rest' = append_callback pin callback rest in
    if kind_code ResourceKind.digital == kind_code k && pin == i
    then ((k, i), callbacks ++ callback ∷ []) ∷ rest
    else ((k, i), callbacks) ∷ rest'

-- The callbacks under a negative number are left out: no event has such a number, so that nothing
-- looks for them.
unfoldable pub session_channel : {T : Type 0} → Transport T → Channel (Session T)
unfolding append_callback
session_channel {T} io = record { send = command io; add_callback = add; now = λ s. io.now s.link }
  where
    add : ℤ → ℕ → Exec (Session T) (Unit {0})
    add (pos pin) callback = modify (λ s. record s {
      inbox = record s.inbox {
        edge_callbacks = append_callback pin callback s.inbox.edge_callbacks;
      };
    })
    add (negsuc pin) callback = pure tt

-- `I2cBus.write` takes up to 255 bytes, but the packet has room for 124 of them: with more, the call
-- raises `ProtocolError` and sends nothing, and a sequence number is gone.
pub write-too_long :
    {T : Type 0} (io : Transport T) (bus address : ℕ) (frequency : ℤ) (data' : List ℕ)
    (b : Board (Session T))
    → bus < 256
    → address ≤ 127
    → 125 ≤ length data'
    → length data' < 256
    → write
        (board_io (session_channel io))
        (pos address)
        data'
        (record { self = record { bus = some (pos bus); frequency = frequency }; io = b })
      ≡ (
        err Error.protocol,
        record {
          self = record { bus = some (pos bus); frequency = frequency };
          io = record b { session = record b.session { seq = b.session.seq + 1 } };
        },
      )
unfolding board_io session_channel
write-too_long {T} io bus address frequency data' b hb ha long short =
    write-command (board_io (session_channel io)) bus address frequency data' b hb ha short
    ∙ bind_raise (on_io ((board_io (session_channel io)).command CommandId.i2c_write sent true))
        (λ _. pure tt) (held b) Error.protocol (ap (λ x. x.0) refused)
    ∙ ap {B = Result (Unit {0}) × Held I2cBus (Board (Session T))}
        (λ (x : Result (List ℕ) × Session T).
          (err Error.protocol, held (record b { session = x.1 })))
        refused
  where
    sent : List ℕ
    sent = bus ∷ address ∷ length data' ∷ data'

    held : Board (Session T) → Held I2cBus (Board (Session T))
    held c = record { self = record { bus = some (pos bus); frequency = frequency }; io = c }

    refused :
        command io CommandId.i2c_write sent true b.session
        ≡ (err Error.protocol, record b.session { seq = b.session.seq + 1 })
    refused = command_too_long io CommandId.i2c_write sent b.session true (omega arith)
