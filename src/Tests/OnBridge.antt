-- ===== src/Tests/OnBridge.antt =====
-- The bridge over the loopback link.
use Prim.Native.String.{String}
use teensy_io.Base.{arith, ℕ, false, List, [], ◌∷◌, All, Option, none, some, ◌≡◌, refl}
use teensy_io.Base.Floats.{Float}
use teensy_io.Base.Int.{ℤ, pos}
use teensy_io.Protocol.Commands.{
  ResourceKind, PacketType, type_code, packet_type, resource_kind, command_code,
}
use teensy_io.Protocol.Errors.{Error, ok}
use teensy_io.Protocol.Exec.{Exec, raise, ◌>>◌}
use teensy_io.Protocol.Packet.{encode_packet}
use teensy_io.Protocol.Crc.{crc16_ccitt}
use teensy_io.Protocol.Decoder.{feed}
use teensy_io.Protocol.Decoder.RoundTrip.{wire}
use teensy_io.Client.Outbox.{queue_packet}
use teensy_io.Client.Outbox.Flush.{IsCounted, send}
use teensy_io.Client.Inbox.{handle_async_packet}
use teensy_io.Client.Lifecycle.{Running, Joins, in_session}
use teensy_io.Config.{Entries}
use teensy_io.Client.Session.{
  Session, poll_async_packets, on_outbox, on_link, command, read_response,
}
use teensy_io.Resources.Session.{Board, session_channel}
use teensy_io.Bridge.{Bridge}
use teensy_io.Bridge.Poll.{poll, after_poll, poll-publishes}
use teensy_io.Bridge.Start.{Parameters, App, Ros, new_bridge, start, main, ended, in_running}
use teensy_io.Bridge.Start.Closing.{main-closes, started, spun, joined, node_closed}
use teensy_io.Client.Lifecycle.Closing.{on_sender}
use teensy_io.Client.Outbox.Chunks.{IsChunk}
use mathlib.Core.List.{flatten}
use teensy_io.Tests.Loopback.{Wire, loopback, board, board_of, session_on}

-- Two frames of the counter 0 wait in the queue, and one may be published at once.
abbrev two_frames : Board (Session Wire)
two_frames = record board {
  pins = ("led", record { physical_pin = some (pos 13) }) ∷ [];
  counters =
      ("ticks", record { name = "ticks"; id = some 0; last_count = pos 0; samples = [] }) ∷ [];
  session = record board.session {
    inbox = record board.session.inbox {
      telemetry_queue = record {
        items =
            record { kind = ResourceKind.counter; resource_id = 0; value = pos 5 }
            ∷ record { kind = ResourceKind.counter; resource_id = 0; value = pos 6 }
            ∷ [];
        maxsize = 2;
      };
    };
  };
}

abbrev bridge : Bridge (Session Wire)
bridge = record {
  board = two_frames;
  version = [];
  name_by_ref = ((ResourceKind.counter, pos 0), "ticks") ∷ [];
  telemetry_pub = [];
  events_pub = [];
  status_pub = [];
  max_publish_per_poll = 1;
}

poll-publishes_example :
    poll loopback bridge
    ≡ after_poll bridge (poll_async_packets loopback 0 none bridge.board.session)
poll-publishes_example = poll-publishes loopback bridge

-- The answer to `get_info`, which is the first command of a start without a configuration.
abbrev info : List ℕ
info = wire (record { type = PacketType.data_; seq = 1; payload = 24 ∷ 4 ∷ 49 ∷ 46 ∷ 48 ∷ 0 ∷ [] })

abbrev parameters : Parameters
parameters = record {
  port = "/dev/ttyACM0";
  baudrate = pos 1000000;
  config = "";
  heartbeat_hz = Float.finite false 20 0;
}

no_ints : String → Option ℤ
no_ints s = none

no_floats : String → Option Float
no_floats s = none

abbrev app : App Wire
app = record {
  bridge = new_bridge (board_of (session_on info));
  config = Entries.end;
  flush_stop = false;
  flush_thread = false;
  heartbeat_stop = false;
  heartbeat_thread = false;
}

-- A service that ends with three bytes in the queue, and an exception.
abbrev interrupted : Exec (App Wire) (Unit {0})
interrupted =
    in_running (in_session (on_outbox (queue_packet (1 ∷ 2 ∷ 3 ∷ [])))) >> raise Error.runtime_error

abbrev ros : Ros Wire
ros = record { spin = interrupted; destroy_node = ok tt; shutdown = ok tt }

-- While they are joined the threads do nothing.
abbrev quiet : Joins Wire
quiet = record { flush = λ s. s; heartbeat = λ s. s }

start_returns : (start loopback quiet no_ints no_floats parameters app).0 ≡ ok tt
unfolding start session_channel command read_response feed crc16_ccitt type_code packet_type
    handle_async_packet resource_kind command_code new_bridge encode_packet
start_returns = refl

abbrev left : Running Wire
left = joined loopback quiet no_ints no_floats parameters ros app

left-IsCounted : IsCounted left.session.outbox
unfolding start queue_packet session_channel command read_response feed crc16_ccitt type_code
    packet_type handle_async_packet resource_kind command_code new_bridge encode_packet
left-IsCounted = record { counted = refl; nonempty = (omega arith, tt); within = refl }

main-closes_example :
    (groups : List (List (List ℕ))) × (flatten groups ≡ left.session.outbox.queued)
    × All (IsChunk left.session.outbox.flush_chunk_size) groups
    × (main loopback quiet no_ints no_floats parameters ros app
        ≡ ended (interrupted (started loopback quiet no_ints no_floats parameters ros app)).0 (
            node_closed ros (spun loopback quiet no_ints no_floats parameters ros app) (
              (in_session (on_sender (send loopback groups))
                  >> in_session (on_link loopback.close_link))
                left)))
main-closes_example =
    main-closes loopback quiet no_ints no_floats parameters ros app start_returns left-IsCounted
