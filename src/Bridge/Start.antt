-- ===== src/Bridge/Start.antt =====
-- `main` of bridge_node.py, over the parameters of the node that ROS gives, once there is a node.
pub mod Closing
use Prim.Native.String.{String}
use teensy_io.Base.{ℕ, Bool, true, false, not, Option, [], ltb, if◌then◌else◌}
use teensy_io.Base.Floats.{Float}
use teensy_io.Base.Int.{ℤ}
use teensy_io.Protocol.Errors.{Result, ok, err, stuck}
use teensy_io.Protocol.Exec.{Exec, pure, lift, modify, on, ◌>>=◌, ◌>>◌}
use teensy_io.Transport.{Transport}
use teensy_io.Client.Session.{Session}
use teensy_io.Client.Lifecycle.{Running, Joins, connect, close, start_heartbeat}
use teensy_io.Resources.{text_eq}
use teensy_io.Resources.Session.{Board, session_channel}
use teensy_io.Config.{Value, Entries}
use teensy_io.Config.Loader.{Files}
use teensy_io.Device.Configure.{configure_all}
use teensy_io.Device.Control.{get_info}
use teensy_io.Device.Create.{Options, TeensyIo, default_options, create, from_config}
use teensy_io.Bridge.{Bridge, configure_names}
use teensy_io.Bridge.Poll.{publish_status}

pub record Parameters : Type 0 where
  pub port : String
  pub baudrate : ℤ
  pub config : String
  pub heartbeat_hz : Float

-- `client_options`
abbrev pub client_options : {T : Type 0} → Options T
client_options = record default_options { telemetry_max_frames = 32768; event_max_frames = 32768 }

-- `if config`
unfoldable pub has_config : Parameters → Bool
has_config parameters = not (text_eq parameters.config "")

-- `heartbeat_hz > 0`
unfoldable pub above_zero : Float → Bool
above_zero Float.nan = false
above_zero (Float.infinite negative) = not negative
above_zero (Float.finite true m k) = false
above_zero (Float.finite false m k) = ltb 0 m

unfoldable pub make_client :
    {T : Type 0}
    → (Value → ℤ → T)
    → (Float → ℕ)
    → Files
    → (String → Option ℤ)
    → (String → Option Float)
    → Parameters
    → Result (TeensyIo T)
unfolding has_config from_config create
make_client serial microseconds files parse_int parse_float parameters =
    if has_config parameters
    then from_config serial microseconds files parse_int parse_float parameters.config
        client_options
    else create serial microseconds (Value.text parameters.port) parameters.baudrate
        (Float.finite false 1 0) client_options

-- A new `TeensyIORosBridge`
unfoldable pub new_bridge : {S : Type 0} → Board S → Bridge S
new_bridge board = record {
  board = board;
  version = [];
  name_by_ref = [];
  telemetry_pub = [];
  events_pub = [];
  status_pub = [];
  max_publish_per_poll = 1000;
}

-- What the process holds: the bridge, which `main` makes late but which nothing changes before, the
-- configuration of its client, and the threads of the client.
pub record App (T : Type 0) : Type 0 where
  pub bridge : Bridge (Session T)
  pub config : Entries
  pub flush_stop : Bool
  pub flush_thread : Bool
  pub heartbeat_stop : Bool
  pub heartbeat_thread : Bool

unfoldable pub new_app : {T : Type 0} → TeensyIo T → App T
unfolding new_bridge
new_app io = record {
  bridge = new_bridge io.board;
  config = io.config;
  flush_stop = false;
  flush_thread = false;
  heartbeat_stop = false;
  heartbeat_thread = false;
}

module _ {T : Type 0} where
  -- The client with its threads
  abbrev pub running : App T → Running T
  running app = record {
    session = app.bridge.board.session;
    flush_stop = app.flush_stop;
    flush_thread = app.flush_thread;
    heartbeat_stop = app.heartbeat_stop;
    heartbeat_thread = app.heartbeat_thread;
  }

  abbrev pub with_running : App T → Running T → App T
  with_running app r = record app {
    bridge = record app.bridge { board = record app.bridge.board { session = r.session } };
    flush_stop = r.flush_stop;
    flush_thread = r.flush_thread;
    heartbeat_stop = r.heartbeat_stop;
    heartbeat_thread = r.heartbeat_thread;
  }

  abbrev pub in_running : {A : Type 0} → Exec (Running T) A → Exec (App T) A
  in_running = on running with_running

  abbrev pub on_board : {A : Type 0} → Exec (Board (Session T)) A → Exec (App T) A
  on_board =
      on (λ app. app.bridge.board)
        (λ app b. record app { bridge = record app.bridge { board = b } })

  abbrev pub on_bridge : (Bridge (Session T) → Bridge (Session T)) → Exec (App T) (Unit {0})
  on_bridge f = modify (λ app. record app { bridge = f app.bridge })

-- The end of a `try` by what its `finally` did: what that raises takes the place of what came before.
unfoldable pub ended : {S A : Type 0} → Result A → Result (Unit {0}) × S → Result A × S
ended r (ok _, s) = (r, s)
ended r (err e, s) = (err e, s)
ended r (stuck, s) = (stuck, s)

-- `try: body finally: last`
unfoldable pub try_finally : {S A : Type 0} → Exec S A → Exec S (Unit {0}) → Exec S A
unfolding ended
try_finally body last s = let (r, s') = body s in ended r (last s')

-- `rclpy.spin(node)`, which runs the services and the timers, and ends with or without an exception;
-- `node.destroy_node()` and `rclpy.shutdown()`, which do not touch the client.
pub record Ros (T : Type 0) : Type 0 where
  pub spin : Exec (App T) (Unit {0})
  pub destroy_node : Result (Unit {0})
  pub shutdown : Result (Unit {0})

module _ {T : Type 0} (io : Transport T) (joins : Joins T) (parse_int : String → Option ℤ)
    (parse_float : String → Option Float) (parameters : Parameters) where
  -- `if config: io.configure_all()`
  unfoldable pub configure_client : Exec (App T) (Unit {0})
  unfolding has_config configure_all
  configure_client app =
      (if has_config parameters
          then on_board (configure_all (session_channel io) parse_int parse_float app.config)
          else pure tt)
        app

  -- `if heartbeat_hz > 0: io.start_heartbeat(heartbeat_hz)`
  unfoldable pub beat : Exec (App T) (Unit {0})
  unfolding above_zero start_heartbeat
  beat = if above_zero parameters.heartbeat_hz then in_running (start_heartbeat joins) else pure tt

  -- From `io.connect()` to `bridge.publish_status()`
  unfoldable pub start : Exec (App T) (Unit {0})
  unfolding connect configure_client beat get_info configure_names publish_status
  start = do
    in_running (connect io)
    configure_client
    beat
    info ←
        on_board
          (on (λ b. b.session) (λ b s. record b { session = s }) (get_info (session_channel io)))
    on_bridge (λ b. record b { version = info.version })
    on_bridge configure_names
    on_bridge (publish_status io)

  unfoldable pub main : Ros T → Exec (App T) (Unit {0})
  unfolding start try_finally close
  main ros =
      start
      >> try_finally ros.spin
          (in_running (close io joins) >> lift ros.destroy_node >> lift ros.shutdown)
