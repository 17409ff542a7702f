-- ===== src/Tests/Loopback.antt =====
-- A link for the tests: what is written is kept, and reads serve prepared bytes.
use teensy_io.Base.{length-take, ℕ, ◌+◌, List, [], ◌∷◌, ◌++◌, take, drop, true, arith, none, some}
use teensy_io.Protocol.Errors.{Error, ok, err}
use teensy_io.Transport.{Transport}
use teensy_io.Transport.Lawful.{IsBounded, IsLive, IsTicking, IsPaced}
use teensy_io.Client.Outbox.{Outbox}
use teensy_io.Client.Inbox.{Inbox}
use teensy_io.Client.Session.{Session}
use teensy_io.Resources.Session.{Board}

pub record Wire : Type 0 where
  pub sent : List (List ℕ)
  pub incoming : List ℕ
  pub clock : ℕ

-- Each read takes a microsecond.
abbrev pub loopback : Transport Wire
loopback = record {
  open_link = λ w. (ok tt, w);
  close_link = λ w. (ok tt, w);
  write = λ bytes w. (ok tt, record w { sent = w.sent ++ bytes ∷ [] });
  read = λ n w.
      (ok (take n w.incoming), record w { incoming = drop n w.incoming; clock = w.clock + 1 });
  read_available = λ n w.
      (ok (take n w.incoming), record w { incoming = drop n w.incoming; clock = w.clock + 1 });
  is_open = λ w. true;
  now = λ w. w.clock;
}

-- The same link, broken: every write raises.
abbrev pub broken : Transport Wire
broken = record loopback { write = λ bytes w. (err (Error.transport_error 5), w) }

pub loopback-IsLive : IsLive loopback
loopback-IsLive = record {
  write_ends = λ bytes w e. cc;
  read_ends = λ n w e. cc;
  available_ends = λ n w e. cc;
}

pub loopback-IsBounded : IsBounded loopback
loopback-IsBounded = record {
  read_bounded = λ n w bytes e. ground (arith, length-take n w.incoming);
  available_bounded = λ n w bytes e. ground (arith, length-take n w.incoming);
}

pub loopback-IsTicking : IsTicking loopback
loopback-IsTicking = record {
  read_takes_time = λ n w bytes e. omega arith;
  available_monotone = λ n w bytes e. omega arith;
}

pub loopback-IsPaced : IsPaced loopback
loopback-IsPaced = record { available_takes_time = λ n w bytes e _. omega arith }

abbrev pub idle : List ℕ → Wire
idle bytes = record { sent = []; incoming = bytes; clock = 0 }

abbrev pub empty_outbox : Outbox
empty_outbox = record {
  auto_flush = true;
  flush_rate_hz = none;
  queue_max_bytes = some 64;
  flush_chunk_size = 24;
  batch_depth = 0;
  queued = [];
  queued_bytes = 0;
}

abbrev pub empty_inbox : Inbox
empty_inbox = record {
  decoder = [];
  telemetry_queue = record { items = []; maxsize = 2 };
  event_queue = record { items = []; maxsize = 2 };
  telemetry_dropped = 0;
  events_dropped = 0;
  telemetry_callbacks = 1 ∷ [];
  edge_callbacks = [];
  deliveries = [];
}

abbrev pub session_on : List ℕ → Session Wire
session_on bytes = record {
  link = idle bytes;
  timeout = 50;
  read_chunk_size = 16;
  read_drain_max_bytes = 64;
  seq = 1;
  outbox = empty_outbox;
  inbox = empty_inbox;
}

-- A client without any named resource.
abbrev pub board_of : {S : Type 0} → S → Board S
board_of s = record {
  session = s;
  pins = [];
  pwms = [];
  analogs = [];
  counters = [];
  encoders = [];
  i2c_buses = [];
  dacs = [];
  counter_ids = [];
  encoder_ids = [];
  dac_ids = [];
}

abbrev pub board : Board (Session Wire)
board = board_of (session_on [])
