-- ===== src/Client/Session/Lookups.antt =====
-- `_command` looks nothing up: it raises no `KeyError` and no `AttributeError`, unless the transport does.
use teensy_io.Base.{
  ℕ, zero, suc, ◌==◌, ltb, Bool, true, false, Bool-cases, inl, inr, Option, none, some,
  Option-cases, List, [], ◌∷◌, ◌++◌, length, ◌≡◌, ◌≢◌, refl, arith,
}
use teensy_io.Protocol.Commands.{PacketType, CommandId, ErrorCode, ResourceKind, error_code}
use teensy_io.Protocol.Errors.{Error, Result, err}
use teensy_io.Protocol.Exec.Never.{Never, pure-Never, lift-Never, on-Never, Never-bind, ite-Never}
use teensy_io.Protocol.Exec.{Exec, ◌>>=◌, ◌>>◌}
use teensy_io.Protocol.Packet.{Packet, encode_packet}
use teensy_io.Protocol.Frames.{TelemetryFrame, EdgeEvent}
use teensy_io.Protocol.Decoder.{round, feed_loop, feed}
use teensy_io.Transport.{Transport}
use teensy_io.Client.Outbox.{queue_packet, write_chunk, flush_loop, flush}
use teensy_io.Client.Inbox.{
  handle_async_packet, take_telemetry, take_event, telemetry_frame, edge_event, unpack_i32,
  unpack_u32, put_bounded, BoundedQueue,
}
use teensy_io.Client.Session.{
  Session, error_for, nack_error, response_result, feed_decoder, scan_packets, read_rest, read_some,
  after_scan, after_read, read_loop, read_response, flush_session, next_packet, send_command,
  queue_command, command, on_inbox,
}

-- `KeyError` and `AttributeError`
abbrev pub is_lookup_error : Error → Bool
is_lookup_error Error.key_error = true
is_lookup_error Error.attribute_error = true
is_lookup_error _ = false

module _ (x : Error) (lookup : is_lookup_error x ≡ true) where
  other_error :
      {A : Type 0} (e : Error) → is_lookup_error e ≡ false → ◌≢◌ {A = Result A} (err e) (err x)
  other_error e h same = cc

  encode_packet-Never : (p : Packet) → encode_packet p ≢ err x
  unfolding encode_packet
  encode_packet-Never p = grind (arith, other_error {A = List ℕ} Error.protocol refl)

  error_for-Never : (code : ErrorCode) → is_lookup_error (error_for code) ≡ false
  unfolding error_for
  error_for-Never ErrorCode.invalid_pin = refl
  error_for-Never _ = refl

  nack_error-Never : (payload : List ℕ) → is_lookup_error (nack_error payload) ≡ false
  unfolding nack_error
  nack_error-Never [] = error_for-Never ErrorCode.invalid_payload
  nack_error-Never (code ∷ rest) = elim (Option-cases (error_code code)) [
    | inl unknown ↦ rw (unknown, nack_error) refl
    | inr (e, known) ↦ rw (known, nack_error) (error_for-Never e)
  ]

  response_result-Never : (p : Packet) → response_result p ≢ err x
  unfolding response_result
  response_result-Never p = by_type p.type refl
    where
      by_type : (t : PacketType) → p.type ≡ t → response_result p ≢ err x
      by_type PacketType.ack e = rw (e, response_result) (λ q. cc)
      by_type PacketType.data_ e = rw (e, response_result) (λ q. cc)
      by_type PacketType.nack e =
          rw (e, response_result) (other_error (nack_error p.payload) (nack_error-Never p.payload))
      by_type _ e = rw (e, response_result) (other_error Error.protocol refl)

  put_bounded-Never : {A : Type 0} (q : BoundedQueue A) (item : A) → (put_bounded q item).0 ≢ err x
  unfolding put_bounded
  put_bounded-Never q item = grind (arith, other_error {A = Unit {0}} Error.queue_is_full refl)

  telemetry_frame-Never : (payload : List ℕ) (k : ResourceKind) → telemetry_frame payload k ≢ err x
  unfolding telemetry_frame unpack_i32 unpack_u32
  telemetry_frame-Never payload k =
      grind (arith, other_error {A = TelemetryFrame} Error.struct_error refl)

  edge_event-Never : (payload : List ℕ) (k : ResourceKind) → edge_event payload k ≢ err x
  unfolding edge_event unpack_i32 unpack_u32
  edge_event-Never payload k = grind (arith, other_error {A = EdgeEvent} Error.struct_error refl)

  feed_loop-Never :
      (fuel : ℕ) (buffer : List ℕ) (packets : List Packet)
      → (feed_loop fuel buffer packets).0 ≢ err x
  unfolding feed_loop
  feed_loop-Never zero buffer packets e = cc
  feed_loop-Never (suc fuel) buffer packets e =
      grind (arith, feed_loop-Never fuel, other_error {A = List Packet} Error.value_error refl)

  module _ {T : Type 0} (io : Transport T) (writes : (bytes : List ℕ) → Never x (io.write bytes))
      (reads : (n : ℕ) → Never x (io.read n))
      (available : (n : ℕ) → Never x (io.read_available n)) where
    write_chunk-Never : Never x (write_chunk io)
    unfolding write_chunk
    write_chunk-Never s = writes _ s.link

    flush_loop-Never : (fuel : ℕ) → Never x (flush_loop io fuel)
    unfolding flush_loop
    flush_loop-Never zero s e = grind arith
    flush_loop-Never (suc fuel) s e =
        let round =
          Never-bind x (write_chunk io) (λ _. flush_loop io fuel) write_chunk-Never
            (λ _. flush_loop-Never fuel) s in
        by_queue s.outbox.queued refl round e
      where
        by_queue :
            (queued : List (List ℕ))
            → s.outbox.queued ≡ queued
            → ((write_chunk io >> flush_loop io fuel) s).0 ≢ err x
            → (flush_loop io (suc fuel) s).0 ≢ err x
        by_queue [] empty round = rw (empty, flush_loop) (λ q. cc)
        by_queue (item ∷ queued) some_item round = rw (some_item, flush_loop) round

    flush_session-Never : Never x (flush_session io)
    unfolding flush_session flush
    flush_session-Never s =
        flush_loop-Never (length s.outbox.queued) (record { outbox = s.outbox; link = s.link })

    read_some-Never : (blocking : Bool) (limit : Option ℕ) → Never x (read_some io blocking limit)
    unfolding read_some read_rest
    read_some-Never true none s e = grind (arith, reads, available)
    read_some-Never true (some limit) s e = grind (arith, reads, available)
    read_some-Never false none s e = grind (arith, reads, available)
    read_some-Never false (some limit) s e = grind (arith, reads, available)

    handle_async_packet-Never : (p : Packet) → Never x (handle_async_packet p)
    unfolding handle_async_packet take_telemetry take_event
    handle_async_packet-Never p s e = grind (
      arith,
      telemetry_frame-Never,
      edge_event-Never,
      put_bounded-Never {A = TelemetryFrame},
      put_bounded-Never {A = EdgeEvent},
    )

    feed_decoder-Never : (bytes : List ℕ) → Never x (feed_decoder {T = T} bytes)
    unfolding feed_decoder feed
    feed_decoder-Never bytes s =
        feed_loop-Never (suc (length (s.inbox.decoder ++ bytes))) (s.inbox.decoder ++ bytes) []

    scan_packets-Never :
        (seq : ℕ) (packets : List Packet) → Never x (scan_packets {T = T} seq packets)
    unfolding scan_packets
    scan_packets-Never seq [] s = λ e. cc
    scan_packets-Never seq (p ∷ ps) s =
        let others =
          Never-bind x (on_inbox (handle_async_packet p)) (λ _. scan_packets seq ps)
            (λ s. handle_async_packet-Never p s.inbox) (λ _. scan_packets-Never seq ps) s in
        elim (Bool-cases (p.seq == seq)) [
          | inl found ↦ rw found (λ e. cc)
          | inr other ↦ rw other others
        ]

    after_scan-Never :
        (again : Exec (Session T) Packet)
        → Never x again
        → (found : Option Packet) → Never x (after_scan io again found)
    unfolding after_scan
    after_scan-Never again h none s = h s
    after_scan-Never again h (some p) s = λ e. cc

    after_read-Never :
        (again : Exec (Session T) Packet) (seq : ℕ) (bytes : List ℕ)
        → Never x again
        → Never x (after_read io again seq bytes)
    unfolding after_read
    after_read-Never again seq bytes h s = elim (Bool-cases (length bytes == 0)) [
      | inl nothing ↦ rw nothing (h s)
      | inr some_bytes ↦ rw some_bytes (
          Never-bind x (feed_decoder bytes)
            (λ packets. scan_packets seq packets >>= after_scan io again) (feed_decoder-Never bytes)
            (λ packets.
              Never-bind x (scan_packets seq packets) (after_scan io again)
                (scan_packets-Never seq packets) (after_scan-Never again h))
            s)
    ]

    read_loop-Never : (fuel deadline seq : ℕ) → Never x (read_loop io fuel deadline seq)
    unfolding read_loop
    read_loop-Never zero deadline seq s = λ e. cc
    read_loop-Never (suc fuel) deadline seq s =
        let again : Exec (Session T) Packet = read_loop io fuel deadline seq in
        let goes_on =
          Never-bind x (read_some io true none) (after_read io again seq)
            (read_some-Never true none)
            (λ bytes. after_read-Never again seq bytes (read_loop-Never fuel deadline seq)) s in
        elim (Bool-cases (ltb (io.now s.link) deadline)) [
          | inl early ↦ rw early goes_on
          | inr late ↦ rw late (other_error Error.timeout refl)
        ]

    queue_packet-Never : (bytes : List ℕ) → Never x (queue_packet bytes)
    unfolding queue_packet
    queue_packet-Never bytes o e = grind (arith, other_error {A = Unit {0}} Error.queue_full refl)

    send_command-Never :
        (expect : Bool) (seq : ℕ) (encoded : List ℕ) → Never x (send_command io expect seq encoded)
    unfolding send_command read_response
    send_command-Never true seq encoded =
        search
          (Never-bind x, on-Never x, lift-Never x, writes, response_result-Never, read_loop-Never)
          depth 12
    send_command-Never false seq encoded =
        search (Never-bind x, on-Never x, pure-Never x, writes) depth 12

    queue_command-Never : (encoded : List ℕ) → Never x (queue_command io encoded)
    unfolding queue_command
    queue_command-Never encoded =
        search
          (
            Never-bind x,
            on-Never x,
            queue_packet-Never,
            ite-Never x,
            flush_session-Never,
            pure-Never x,
          )
          depth 12

  next_packet-Never :
      {T : Type 0} (io : Transport T) (code : CommandId) (payload : List ℕ)
      → Never x (next_packet io code payload)
  unfolding next_packet
  next_packet-Never io code payload s e = cc

  -- A command raises neither of the two, in whatever state the client is.
  pub command-Never :
      {T : Type 0} (io : Transport T)
      → ((bytes : List ℕ) → Never x (io.write bytes))
      → ((n : ℕ) → Never x (io.read n))
      → ((n : ℕ) → Never x (io.read_available n))
      → (code : CommandId) (payload : List ℕ) (expect : Bool)
      → Never x (command io code payload expect)
  unfolding command
  command-Never io writes reads available code payload expect =
      search
        (
          next_packet-Never io code payload,
          Never-bind x,
          lift-Never x,
          encode_packet-Never,
          ite-Never x,
          queue_command-Never io writes reads available,
          send_command-Never io writes reads available,
        )
        depth 12
