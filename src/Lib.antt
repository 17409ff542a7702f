-- ===== src/Lib.antt =====
-- Verification of the Python client library of teensy-io, teensy-io-python/teensy_io, and of
-- its bridge to ROS.
--
-- The library drives a microcontroller over a serial link. A client encodes commands as packets with
-- a checksum, writes them or queues them, waits for the response with the same sequence number, and
-- hands the telemetry and the events that arrive meanwhile to bounded queues and callbacks. The
-- resources (pins, encoders, converters) are thin objects that build the payloads of commands.
--
-- The parts, and where they are modelled. Paths are below teensy-io-python/teensy_io, but for the bridge.
--
-- Protocol/Commands, Errors, Frames: protocol/commands.py, errors.py, frames.py. The enumerations with
--   their numbers, the exceptions as values, and the result of a call: `ok`, `err`, or `stuck` for a
--   loop whose fuel ran out, which no theorem counts as an end.
-- Protocol/Crc, Packet, Decoder: protocol/packet.py. `crc16_ccitt`, `encode_packet`, and
--   `PacketDecoder.feed` with the buffer as its state. One round of the loop of `feed` is `round`,
--   which finds the start byte and makes the tests in the order of the code; `feed_loop` repeats it on
--   fuel. Each round that goes on deletes a byte, so that the length of the buffer is fuel enough.
-- Protocol/Exec: calls that change a state and return or raise. What was changed before a raise stays
--   changed.
-- Transport: transport/base.py, a record of operations over the state of a link, and the clock at that
--   state in microseconds. Transport/Lawful says what the client relies on: calls come back, reads
--   keep their limits, and a read that blocks or returns a byte takes time. Transport/Serial:
--   serial_transport.py, over a parameter that stands for the port of pyserial.
-- Client/Outbox: the queue of client.py for commands that wait: `_queue_packet`, `begin_batch`, `flush`.
--   Each round of `flush` takes a packet at least off the queue, whose length is the fuel.
-- Client/Inbox: `_handle_async_packet`, `_put_bounded`, `_unpack_i32`, `_unpack_u32`. A call of a
--   callback is recorded; what the callback does is not modelled.
-- Client/Session: `_command`, `_read_response`, `_read_some`, `_poll_async_packets`, `_raise_for_error`,
--   `batch`, over any transport. The loop of `_read_response` has the timeout in microseconds as its
--   fuel, since each round makes a blocking read; that of `_poll_async_packets` has the bytes it may
--   still drain and the time that is left.
-- Client/Lifecycle: `connect`, `close`, the starting and stopping of threads (what a thread does while it is
--   joined, for a second at most, is a parameter), `on_telemetry`,
--   `read_telemetry` and `read_event`. With a timeout, its microseconds are their fuel, since each round
--   makes a read; without one they may wait for ever, and the fuel is an argument.
-- Client/Threads: any number of flush threads and of threads that call the client, as a step relation. A
--   step is what one thread does under one lock, so that the steps of the threads may come in any order.
-- Resources: resources/encoder.py, counter.py, analog.py, dac.py, i2c.py, pin.py, pwm.py, over a record of
--   what they use of the client. Resources/Session fills that record with the dictionaries of the client
--   beside a channel for its commands, and the channel with `_command`.
-- Device: the front end of client.py over such a channel: `pin(name)` and its kin, `ping`, `get_info`,
--   `subscribe`, `_resource_ref`, `configure_all`. Device/Create: the constructor and `from_config`.
-- Config: config/schema.py over a type of YAML values, with Python's `int`, `float` and `in` on them. What
--   `int` and `float` make of a text is a parameter. Config/Loader: config/loader.py over a parameter for
--   the file and for PyYAML, which may not be installed.
-- Bridge: teensy-io-ros/teensy_io_ros_bridge/bridge_node.py: the services, the names of references, the
--   poll that publishes what was received, and the status. Bridge/Start: `main`, with the parameters of
--   the node, and with the calls of rclpy as parameters.
-- Base: the names and lemmas on numbers, bits, lists and integers that all parts share. Base/Floats has
--   Python's floats as m / 2^k with a sign, and the product of such a number with a small whole number as
--   doubles round it.
-- Tests: a loopback link and runs on concrete inputs.
--
-- Bytes are numbers below 256 in lists over the native numbers, `int` values are integers where the
-- code takes any `int`, and shifts and masks are written as in the code. Outside Client/Threads one thread
-- is modelled: the two locks are reentrant and have no effect on it. The resources of a name are kept in
-- the client's dictionaries, and a method of a resource runs on its entry.
--
-- Not modelled: what a callback does, also where it calls the client while its thread reads, the quotient
-- of a division as a float (`read_normalized` and `frequency` give the exact ratio), what the bridge asks
-- of ROS (publishers, services, timers, stamps), and the firmware, which is C++.
pub mod Base
pub mod Protocol
pub mod Transport
pub mod Client
pub mod Resources
pub mod Config
pub mod Device
pub mod Bridge
pub mod Tests
