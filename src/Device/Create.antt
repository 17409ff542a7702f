-- ===== src/Device/Create.antt =====
-- client.py: the constructor of `TeensyIO`, `from_config` and `load_config`.
use Prim.Native.String.{String}
use teensy_io.Base.{ℕ, Bool, true, false, Option, none, some, [], if◌then◌else◌}
use teensy_io.Base.Floats.{Float}
use teensy_io.Base.Int.{ℤ, pos}
use teensy_io.Protocol.Errors.{Error, Result, ok, err, ◌>>=◌}
use teensy_io.Client.Session.{Session}
use teensy_io.Resources.Session.{Board}
use teensy_io.Config.{Value, Entries, get_value, int_of, float_of, is_true}
use teensy_io.Config.Loader.{Files, load_config}

-- The keyword arguments of the constructor but `timeout`. Both queues have a size of 0 or more.
pub record Options (T : Type 0) : Type 0 where
  pub transport : Option T
  pub auto_flush : Bool
  pub flush_rate_hz : Option ℕ
  pub queue_max_bytes : Option ℕ
  pub flush_chunk_size : ℕ
  pub read_chunk_size : ℕ
  pub read_drain_max_bytes : ℕ
  pub telemetry_max_frames : ℕ
  pub event_max_frames : ℕ

abbrev pub default_options : {T : Type 0} → Options T
default_options = record {
  transport = none;
  auto_flush = true;
  flush_rate_hz = none;
  queue_max_bytes = none;
  flush_chunk_size = 65536;
  read_chunk_size = 4096;
  read_drain_max_bytes = 262144;
  telemetry_max_frames = 4096;
  event_max_frames = 4096;
}

-- `port or ""`
unfoldable pub port_or_empty : Value → Value
unfolding is_true
port_or_empty port = if is_true port then port else Value.text ""

-- The transport: the one that is given, or a `SerialTransport`, which `serial` makes of the port and
-- the baud rate.
unfoldable pub choose_transport : {T : Type 0} → (Value → ℤ → T) → Value → ℤ → Option T → Result T
unfolding port_or_empty
choose_transport serial port baudrate (some t) = ok t
choose_transport serial Value.null baudrate none = err Error.value_error
choose_transport serial port baudrate none = ok (serial (port_or_empty port) baudrate)

-- The fields after the constructor, `timeout` in microseconds.
unfoldable pub new_session : {T : Type 0} → T → ℕ → Options T → Session T
new_session link timeout options = record {
  link = link;
  timeout = timeout;
  read_chunk_size = options.read_chunk_size;
  read_drain_max_bytes = options.read_drain_max_bytes;
  seq = 1;
  outbox = record {
    auto_flush = options.auto_flush;
    flush_rate_hz = options.flush_rate_hz;
    queue_max_bytes = options.queue_max_bytes;
    flush_chunk_size = options.flush_chunk_size;
    batch_depth = 0;
    queued = [];
    queued_bytes = 0;
  };
  inbox = record {
    decoder = [];
    telemetry_queue = record { items = []; maxsize = options.telemetry_max_frames };
    event_queue = record { items = []; maxsize = options.event_max_frames };
    telemetry_dropped = 0;
    events_dropped = 0;
    telemetry_callbacks = [];
    edge_callbacks = [];
    deliveries = [];
  };
}

unfoldable pub new_board : {S : Type 0} → S → Board S
new_board s = record {
  session = s;
  pins = [];
  pwms = [];
  analogs = [];
  counters = [];
  encoders = [];
  i2c_buses = [];
  dacs = [];
  counter_ids = [];
  encoder_ids = [];
  dac_ids = [];
}

-- `TeensyIO` with its field `_config`
pub record TeensyIo (T : Type 0) : Type 0 where
  pub board : Board (Session T)
  pub config : Entries

module _ {T : Type 0} (serial : Value → ℤ → T) (microseconds : Float → ℕ) where
  -- `TeensyIO(…)`; `microseconds` puts a timeout in seconds on the clock of the link.
  unfoldable pub create : Value → ℤ → Float → Options T → Result (TeensyIo T)
  unfolding choose_transport new_session new_board
  create port baudrate timeout options = do
    link ← choose_transport serial port baudrate options.transport
    ok (record {
      board = new_board (new_session link (microseconds timeout) options);
      config = Entries.end;
    })

  unfoldable pub from_config :
      Files
      → (String → Option ℤ)
      → (String → Option Float)
      → String
      → Options T
      → Result (TeensyIo T)
  unfolding create load_config get_value int_of float_of
  from_config files parse_int parse_float path options = do
    config ← load_config files path
    baudrate ← int_of parse_int (get_value "baudrate" (Value.whole (pos 1000000)) config)
    timeout ←
        float_of parse_float (get_value "timeout" (Value.real (Float.finite false 1 0)) config)
    io ← create (get_value "port" Value.null config) baudrate timeout options
    ok (record io { config = config })

-- `load_config` of the client
unfoldable pub load : {T : Type 0} → Files → String → TeensyIo T → Result (TeensyIo T)
unfolding load_config
load files path io = load_config files path >>= λ config. ok (record io { config = config })
