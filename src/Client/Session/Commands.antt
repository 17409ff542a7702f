-- ===== src/Client/Session/Commands.antt =====
-- `_command`: what is written, what is queued, and what the answer becomes.
use teensy_io.Base.{
  ℕ, ◌+◌, ◌%◌, ◌≤◌, ◌<◌, List, [], ◌∷◌, ◌++◌, length, if◌then◌else◌, Bool, true, false,
}
use teensy_io.Base.{◌≡◌, refl, ◌∙◌, arith, none, Option-cases, Bool-cases, ltb, ◌⊎◌, inl, inr}
use teensy_io.Base.Bits.{bit_and_0xffff}
use teensy_io.Protocol.Commands.{PacketType, CommandId, ErrorCode, command_code, error_code}
use teensy_io.Protocol.Errors.{Error, err, map_result, is_teensy_io_error}
use teensy_io.Protocol.Packet.{Packet, encode_packet}
use teensy_io.Protocol.Decoder.RoundTrip.{wire, encode_packet-wire}
use teensy_io.Transport.{Transport}
use teensy_io.Client.Outbox.{Outbox, queue_packet}
use teensy_io.Client.Session.{
  Session, should_queue, should_flush, send_command, queue_command, command, response_result,
  nack_error, error_for,
}

-- The packet of a command: its number is the count modulo 2¹⁶.
unfoldable pub command_packet : CommandId → List ℕ → ℕ → Packet
command_packet code payload count = record {
  type = PacketType.command;
  seq = count % 65536;
  payload = command_code code ∷ payload;
}

module _ {T : Type 0} (io : Transport T) where
  -- Within a batch nothing is flushed.
  should_flush-batched : (o : Outbox) → 0 < o.batch_depth → should_flush io o ≡ false
  unfolding should_flush
  should_flush-batched o h = ground arith

  queue_command-batched :
      (encoded : List ℕ) (s : Session T)
      → 0 < s.outbox.batch_depth
      → queue_command io encoded s ≡ (
        map_result (λ _. []) (queue_packet encoded s.outbox).0,
        record s { outbox = (queue_packet encoded s.outbox).1 },
      )
  unfolding queue_command queue_packet
  queue_command-batched encoded s h =
      let o : Outbox = record s.outbox {
        queued = s.outbox.queued ++ encoded ∷ [];
        queued_bytes = s.outbox.queued_bytes + length encoded;
      } in
      ground (arith, should_flush-batched o h)

module _ {T : Type 0} (io : Transport T) (code : CommandId) (payload : List ℕ) (s : Session T) where
  -- A command whose payload fits is queued or sent, and the counter moves on.
  pub command_lem :
      (expect : Bool)
      → length payload < 128
      → command io code payload expect s
        ≡ (if should_queue io expect s.outbox
              then queue_command io (wire (command_packet code payload s.seq))
              else send_command io expect
                  (s.seq % 65536)
                  (wire (command_packet code payload s.seq)))
            (record s { seq = s.seq + 1 })
  unfolding command command_packet
  command_lem expect h =
      rw
        (bit_and_0xffff s.seq, encode_packet-wire (command_packet code payload s.seq) (omega arith))
        refl

  -- A command with 128 bytes of payload or more raises `ProtocolError`. Nothing is queued or written,
  -- but its sequence number is used up.
  pub command_too_long :
      (expect : Bool)
      → 128 ≤ length payload
      → command io code payload expect s ≡ (err Error.protocol, record s { seq = s.seq + 1 })
  unfolding command encode_packet
  command_too_long expect h = ground arith

  pub command_queued :
      (expect : Bool)
      → length payload < 128
      → 0 < s.outbox.batch_depth
      → (let queued = queue_packet (wire (command_packet code payload s.seq)) s.outbox in
          command io code payload expect s
          ≡ (map_result (λ _. []) queued.0, record s { seq = s.seq + 1; outbox = queued.1 }))
  command_queued expect fits h =
      let waits : should_queue io expect s.outbox ≡ true = unfold should_queue in ground arith in
      command_lem expect fits
      ∙ rw waits (
          queue_command-batched io (wire (command_packet code payload s.seq))
            (record s { seq = s.seq + 1 }) h)

  -- Within a batch a command writes nothing and waits for nothing, also where a response is expected.
  -- With a payload below 128 bytes its packet, with the next sequence number, is put on the queue or
  -- refused with `QueueFullError`, and it returns no bytes; with a longer one it raises `ProtocolError`
  -- and queues nothing. The number is used up in any case. The link, the decoder and the queues of
  -- incoming frames are as they were.
  pub command-batched :
      (expect : Bool)
      → 0 < s.outbox.batch_depth
      → (let queued = queue_packet (wire (command_packet code payload s.seq)) s.outbox in
          command io code payload expect s ≡ (
            if ltb (length payload) 128
            then (map_result (λ _. []) queued.0, record s { seq = s.seq + 1; outbox = queued.1 })
            else (err Error.protocol, record s { seq = s.seq + 1 })))
  command-batched expect h = elim (Bool-cases (ltb (length payload) 128)) [
    | inl fits ↦ rw fits (command_queued expect (ground arith) h)
    | inr too_long ↦ rw too_long (command_too_long expect (ground arith))
  ]

error_for-known : (e : ErrorCode) → is_teensy_io_error (error_for e) ≡ true
unfolding error_for is_teensy_io_error
error_for-known ErrorCode.success = refl
error_for-known ErrorCode.unknown_command = refl
error_for-known ErrorCode.invalid_payload = refl
error_for-known ErrorCode.invalid_pin = refl
error_for-known ErrorCode.invalid_mode = refl
error_for-known ErrorCode.emergency_stop_active = refl
error_for-known ErrorCode.resource_unavailable = refl

-- A payload that names no `ErrorCode`.
abbrev pub UnknownCode : List ℕ → Type 0
UnknownCode payload =
    (code : ℕ) × (rest : List ℕ) × (payload ≡ code ∷ rest) × (error_code code ≡ none)

nack_error_lem :
    (payload : List ℕ)
    → (is_teensy_io_error (nack_error payload) ≡ true)
      ⊎ ((nack_error payload ≡ Error.value_error) × UnknownCode payload)
unfolding nack_error
nack_error_lem [] = inl (error_for-known ErrorCode.invalid_payload)
nack_error_lem (code ∷ rest) = elim (Option-cases (error_code code)) [
  | inl unknown ↦ rw (unknown, nack_error) (inr (refl, (code, rest, refl, unknown)))
  | inr (e, known) ↦ rw (known, nack_error) (inl (error_for-known e))
]

-- What `_command` raises for a response is a `TeensyIOError`, unless the response is a NACK whose
-- first byte is no `ErrorCode`: then it is the `ValueError` of the conversion.
pub response_result-errors :
    (p : Packet) (x : Error)
    → response_result p ≡ err x
    → (is_teensy_io_error x ≡ true)
      ⊎ ((x ≡ Error.value_error) × (p.type ≡ PacketType.nack) × UnknownCode p.payload)
unfolding response_result is_teensy_io_error
response_result-errors p x e = ground (arith, nack_error_lem p.payload)
