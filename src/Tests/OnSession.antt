-- ===== src/Tests/OnSession.antt =====
-- Commands over the loopback link.
use teensy_io.Base.{
  if◌then◌else◌, ltb, ℕ, ◌+◌, List, [], ◌∷◌, ◌++◌, arith, ◌≡◌, ◌≢◌, ◌⊎◌, refl, true, none, some,
}
use teensy_io.Protocol.Commands.{
  PacketType, CommandId, error_code, type_code, packet_type, resource_kind,
}
use teensy_io.Protocol.Decoder.{feed}
use teensy_io.Client.Inbox.{handle_async_packet}
use teensy_io.Protocol.Errors.{Error, ok, err, stuck, map_result, is_teensy_io_error}
use teensy_io.Protocol.Exec.{pure, lift, ◌>>◌}
use teensy_io.Protocol.Crc.{crc16_ccitt}
use teensy_io.Protocol.Packet.{Packet}
use teensy_io.Protocol.Decoder.RoundTrip.{wire}
use mathlib.Core.List.{replicate}
use teensy_io.Client.Outbox.{queue_packet}
use teensy_io.Client.Session.{
  Session, read_response, scan_packets, handle_each, response_result, command, batch, flush_session,
  poll_async_packets,
}
use teensy_io.Client.Session.Response.{read_response-ne-stuck}
use teensy_io.Client.Session.Scan.{read_response-seq, scan_packets-drops}
use teensy_io.Client.Session.Budget.{poll_async_packets-bound}
use teensy_io.Base.{◌≤◌, max}
use teensy_io.Client.Session.Polling.{poll_async_packets-ne-stuck}
use teensy_io.Client.Session.Commands.{
  command_packet, command-batched, response_result-errors, UnknownCode,
}
use teensy_io.Client.Session.Batches.{
  Call, calls, outcome, outcome_in, after, batch-calls, batch-nested,
}
use teensy_io.Client.Lifecycle.{read_telemetry, read_event}
use teensy_io.Client.Lifecycle.Waiting.{read_telemetry-ne-stuck}
use teensy_io.Tests.Loopback.{
  Wire, loopback, loopback-IsBounded, loopback-IsLive, loopback-IsTicking, loopback-IsPaced,
  session_on,
}

abbrev pong : Packet
pong = record { type = PacketType.data_; seq = 1; payload = 112 ∷ 111 ∷ 110 ∷ 103 ∷ [] }

abbrev late : Packet
late = record { type = PacketType.telemetry; seq = 0; payload = 1 ∷ 2 ∷ 3 ∷ 0 ∷ 0 ∷ 0 ∷ [] }

read_response-ne-stuck_example : (read_response loopback 1 (session_on (wire pong))).0 ≢ stuck
read_response-ne-stuck_example =
    read_response-ne-stuck loopback loopback-IsLive loopback-IsTicking 1 (session_on (wire pong))

read_telemetry-ne-stuck_example :
    ((read_telemetry loopback 0 (some 100) (session_on (wire pong))).0 ≢ stuck)
    × ((read_event loopback 0 (some 100) (session_on (wire pong))).0 ≢ stuck)
read_telemetry-ne-stuck_example =
    read_telemetry-ne-stuck loopback loopback-IsLive loopback-IsTicking loopback-IsPaced 0 100
      (session_on (wire pong))

-- Behind a frame that is not awaited, the response is found.
pong_read : (read_response loopback 1 (session_on (wire late ++ wire pong))).0 ≡ ok pong
unfolding read_response feed crc16_ccitt type_code packet_type handle_async_packet resource_kind
pong_read = refl

read_response-seq_example : pong.seq ≡ 1
read_response-seq_example =
    read_response-seq loopback 1 (session_on (wire late ++ wire pong)) pong pong_read

-- The frame behind the response is not handled.
scan_packets-drops_example :
    scan_packets 1 ([] ++ pong ∷ late ∷ []) (session_on [])
    ≡ (handle_each [] >> pure (some pong)) (session_on [])
scan_packets-drops_example = scan_packets-drops 1 [] (late ∷ []) pong (session_on []) tt refl

poll_async_packets-ne-stuck_example :
    (poll_async_packets loopback 10 none (session_on (wire late))).0 ≢ stuck
poll_async_packets-ne-stuck_example =
    poll_async_packets-ne-stuck loopback loopback-IsLive loopback-IsTicking 10 none
      (session_on (wire late))

-- With a budget of 4 bytes, 4 of the frame are drained.
four_drained : (poll_async_packets loopback 10 (some 4) (session_on (wire late))).0 ≡ ok 4
unfolding poll_async_packets feed
four_drained = refl

poll_async_packets-bound_example : 4 ≤ max 1 4
poll_async_packets-bound_example =
    poll_async_packets-bound loopback loopback-IsBounded 10 4 4 (session_on (wire late))
      four_drained

-- A session within a batch.
abbrev in_batch : Session Wire
in_batch = record (session_on []) { outbox = record (session_on []).outbox { batch_depth = 1 } }

command-batched_example :
    (let queued =
        queue_packet
          (wire (command_packet CommandId.digital_write (13 ∷ 1 ∷ []) 1))
          in_batch.outbox in
      command loopback CommandId.digital_write (13 ∷ 1 ∷ []) true in_batch ≡ (
        if ltb 2 128
        then (map_result (λ _. []) queued.0, record in_batch { seq = 1 + 1; outbox = queued.1 })
        else (err Error.protocol, record in_batch { seq = 1 + 1 })))
command-batched_example =
    command-batched loopback CommandId.digital_write (13 ∷ 1 ∷ []) in_batch true (omega arith)

abbrev long_payload : List ℕ
long_payload = replicate 128 0

-- A NACK with the code 77, which is no `ErrorCode`.
abbrev odd_nack : Packet
odd_nack = record { type = PacketType.nack; seq = 1; payload = 77 ∷ [] }

odd_nack_raises : response_result odd_nack ≡ err Error.value_error
unfolding response_result error_code
odd_nack_raises = refl

response_result-errors_example :
    (is_teensy_io_error Error.value_error ≡ true)
    ⊎ ((Error.value_error ≡ Error.value_error)
        × (odd_nack.type ≡ PacketType.nack)
        × UnknownCode odd_nack.payload)
response_result-errors_example = response_result-errors odd_nack Error.value_error odd_nack_raises

-- Two commands of a batch.
abbrev two_calls : List Call
two_calls =
    record { code = CommandId.digital_write; payload = 13 ∷ 1 ∷ []; expect_response = true }
    ∷ record { code = CommandId.pwm_write; payload = 5 ∷ 255 ∷ []; expect_response = true }
    ∷ []

-- Both are queued. A third one that is too long, or for which a queue of 30 bytes has no room, is not.
both_queued : (outcome (some 64) 0 1 two_calls).result ≡ ok tt
unfolding outcome command_packet
both_queued = refl

too_long_third :
    (outcome (some 64) 0 1 (
      two_calls
      ++ record { code = CommandId.ping; payload = long_payload; expect_response = true }
        ∷ [])).result
    ≡ err Error.protocol
unfolding outcome command_packet
too_long_third = refl

no_room_third :
    (outcome (some 30) 0 1 (
      two_calls
      ++ record { code = CommandId.ping; payload = []; expect_response = true } ∷ [])).result
    ≡ err Error.queue_full
unfolding outcome command_packet
no_room_third = refl

batch-calls_example :
    batch loopback (calls loopback two_calls) (session_on [])
    ≡ (flush_session loopback >> lift (outcome_in loopback (session_on []) two_calls).result)
        (after loopback (session_on []) (outcome_in loopback (session_on []) two_calls))
batch-calls_example = batch-calls loopback two_calls (session_on []) refl

batch-nested_example :
    batch loopback (calls loopback two_calls) in_batch ≡ calls loopback two_calls in_batch
batch-nested_example = batch-nested loopback two_calls in_batch (omega arith)
