-- ===== src/Client/Session.antt =====
-- Commands and responses: `_read_some`, `_read_response`, `_poll_async_packets`, `_command`,
-- `_raise_for_error`, `batch`.
pub mod Time
pub mod Response
pub mod Scan
pub mod Commands
pub mod Batches
pub mod Polling
pub mod Budget
pub mod Lookups
use teensy_io.Base.{
  ℕ, zero, suc, ◌+◌, ◌-◌, min, max, Bool, true, false, not, ◌&&◌, ◌||◌, Option, none, some,
}
use teensy_io.Base.{List, [], ◌∷◌, ◌++◌, length, ltb, leb, ◌==◌, if◌then◌else◌, bit_and}
use teensy_io.Protocol.Commands.{PacketType, CommandId, ErrorCode, command_code, error_code}
use teensy_io.Protocol.Errors.{Error, Result, ok, err, stuck}
use teensy_io.Protocol.Exec.{Exec, pure, raise, lift, gets, modify, on, ◌>>=◌, ◌>>◌}
use teensy_io.Protocol.Packet.{Packet, encode_packet}
use teensy_io.Protocol.Decoder.{feed}
use teensy_io.Transport.{Transport}
use teensy_io.Client.Outbox.{Outbox, Sender, queue_packet, begin_batch, flush}
use teensy_io.Client.Inbox.{Inbox, handle_async_packet}

-- `TeensyIO` without its named resources. Times are whole microseconds, as in `Transport`; `seq` is
-- the next number of `itertools.count`.
pub record Session (T : Type 0) : Type 0 where
  pub link : T
  pub timeout : ℕ
  pub read_chunk_size : ℕ
  pub read_drain_max_bytes : ℕ
  pub seq : ℕ
  pub outbox : Outbox
  pub inbox : Inbox

-- `_raise_for_error`
unfoldable pub error_for : ErrorCode → Error
error_for ErrorCode.invalid_pin = Error.invalid_pin
error_for ErrorCode.invalid_mode = Error.invalid_mode
error_for ErrorCode.emergency_stop_active = Error.emergency_stop_active
error_for code = Error.command_rejected code

-- `ErrorCode(response.payload[0]) if response.payload else ErrorCode.INVALID_PAYLOAD`, and the raise
-- for it; an unknown code is a `ValueError`.
unfoldable pub nack_error : List ℕ → Error
unfolding error_for
nack_error [] = error_for ErrorCode.invalid_payload
nack_error (code ∷ rest) = elim (error_code code) [
  | none ↦ Error.value_error
  | some e ↦ error_for e
]

-- What `_command` makes of a response.
unfoldable pub response_result : Packet → Result (List ℕ)
unfolding nack_error
response_result response = elim response.type [
  | PacketType.ack ↦ ok []
  | PacketType.data_ ↦ ok response.payload
  | PacketType.nack ↦ err (nack_error response.payload)
  | _ ↦ err Error.protocol
]

module _ {T : Type 0} where
  abbrev pub on_link : {A : Type 0} → Exec T A → Exec (Session T) A
  on_link = on (λ s. s.link) (λ s t. record s { link = t })

  abbrev pub on_outbox : {A : Type 0} → Exec Outbox A → Exec (Session T) A
  on_outbox = on (λ s. s.outbox) (λ s o. record s { outbox = o })

  abbrev pub on_inbox : {A : Type 0} → Exec Inbox A → Exec (Session T) A
  on_inbox = on (λ s. s.inbox) (λ s i. record s { inbox = i })

  -- `self._decoder.feed(data)`
  unfoldable pub feed_decoder : List ℕ → Exec (Session T) (List Packet)
  feed_decoder data' s =
      let (r, buffer) = feed s.inbox.decoder data' in
      (r, record s { inbox = record s.inbox { decoder = buffer } })

  -- `for packet in …: self._handle_async_packet(packet)`
  unfoldable pub handle_each : List Packet → Exec (Session T) (Unit {0})
  handle_each [] = pure tt
  handle_each (p ∷ ps) = on_inbox (handle_async_packet p) >> handle_each ps

  -- The loop of `_read_response` over the packets of one read: a packet with the awaited number is
  -- returned at once, and those behind it are not looked at again.
  unfoldable pub scan_packets : ℕ → List Packet → Exec (Session T) (Option Packet)
  scan_packets seq [] = pure none
  scan_packets seq (p ∷ ps) =
      let others = on_inbox (handle_async_packet p) >> scan_packets seq ps in
      if p.seq == seq then pure (some p) else others

module _ {T : Type 0} (io : Transport T) where
  -- The end of `_read_some`: what else is there, if the first read was not enough.
  unfoldable pub read_rest : ℕ → List ℕ → Exec (Session T) (List ℕ)
  read_rest limit first =
      if length first == 0 || leb limit (length first)
      then pure first
      else (on_link (io.read_available (limit - length first)) >>= λ rest. pure (first ++ rest))

  unfoldable pub read_some : Bool → Option ℕ → Exec (Session T) (List ℕ)
  unfolding read_rest
  read_some blocking max_bytes s =
      let limit : ℕ = elim max_bytes [ none ↦ s.read_chunk_size | some n ↦ n ] in
      (on_link (if blocking then io.read 1 else io.read_available limit) >>= read_rest limit) s

  -- The end of a round of `_read_response`, with the rounds still to come.
  unfoldable pub after_scan : Exec (Session T) Packet → Option Packet → Exec (Session T) Packet
  after_scan again none = again
  after_scan again (some p) = pure p

  unfoldable pub after_read : Exec (Session T) Packet → ℕ → List ℕ → Exec (Session T) Packet
  unfolding feed_decoder scan_packets after_scan
  after_read again seq data' =
      if length data' == 0
      then again
      else (feed_decoder data' >>= λ packets. scan_packets seq packets >>= after_scan again)

  -- The `while` of `_read_response`, on fuel.
  unfoldable pub read_loop : ℕ → ℕ → ℕ → Exec (Session T) Packet
  unfolding read_some after_read
  read_loop zero deadline seq s = (stuck, s)
  read_loop (suc fuel) deadline seq s =
      let again : Exec (Session T) Packet = read_loop fuel deadline seq in
      if ltb (io.now s.link) deadline
      then (read_some true none >>= after_read again seq) s
      else (err Error.timeout, s)

  -- `time.monotonic()` is read once before the loop. Each round takes time in a blocking read, so that
  -- the timeout in microseconds is fuel enough (`Session/Response.antt`).
  unfoldable pub read_response : ℕ → Exec (Session T) Packet
  unfolding read_loop
  read_response seq s = read_loop (suc s.timeout) (io.now s.link + s.timeout) seq s

  -- Data that is not awaited: `for packet in self._decoder.feed(data): …`
  unfoldable pub absorb : List ℕ → Exec (Session T) (Unit {0})
  unfolding feed_decoder handle_each
  absorb data' = do packets ← feed_decoder data'; handle_each packets

  -- `drained += len(data)`, the packets in the data, and the test of the budget.
  unfoldable pub drain : (ℕ → Exec (Session T) ℕ) → ℕ → ℕ → List ℕ → Exec (Session T) ℕ
  unfolding absorb
  drain next budget drained data' =
      let total = drained + length data' in
      absorb data' >>= λ _. if leb budget total then pure total else next total

  -- The second half of a round: nothing was there, so wait for a byte.
  unfoldable pub wait : (ℕ → Exec (Session T) ℕ) → ℕ → ℕ → ℕ → Exec (Session T) ℕ
  unfolding read_some drain
  wait next budget drained size = read_some true (some size) >>= λ data'.
      if length data' == 0 then next drained else drain next budget drained data'

  unfoldable pub after_available :
      (ℕ → Exec (Session T) ℕ) → ℕ → ℕ → ℕ → ℕ → ℕ → List ℕ → Exec (Session T) ℕ
  unfolding wait drain
  after_available next timeout deadline budget drained size data' s =
      if length data' == 0
      then (if timeout == 0 || leb deadline (io.now s.link)
          then (ok drained, s)
          else wait next budget drained size s)
      else drain next budget drained data' s

  -- The `while` of `_poll_async_packets`, on fuel.
  unfoldable pub poll_loop : ℕ → ℕ → ℕ → ℕ → ℕ → Exec (Session T) ℕ
  unfolding after_available
  poll_loop zero timeout deadline budget drained s = (stuck, s)
  poll_loop (suc fuel) timeout deadline budget drained s =
      let size = min s.read_chunk_size (max 1 (budget - drained)) in
      let next : ℕ → Exec (Session T) ℕ = poll_loop fuel timeout deadline budget in
      (on_link (io.read_available size)
          >>= after_available next timeout deadline budget drained size)
        s

  -- The fuel counts the bytes that may still be drained and the time that is left.
  unfoldable pub poll_async_packets : ℕ → Option ℕ → Exec (Session T) ℕ
  unfolding poll_loop
  poll_async_packets timeout max_bytes s =
      let budget : ℕ = elim max_bytes [ none ↦ s.read_drain_max_bytes | some n ↦ n ] in
      poll_loop (suc (budget + timeout)) timeout (io.now s.link + timeout) budget 0 s

  unfoldable pub flush_session : Exec (Session T) (Unit {0})
  unfolding flush
  flush_session =
      on (λ s. record { outbox = s.outbox; link = s.link })
        (λ s (x : Sender T). record s { outbox = x.outbox; link = x.link }) (flush io)

  -- The packet of a command, with the next sequence number; the counter moves on in any case.
  unfoldable pub next_packet : CommandId → List ℕ → Exec (Session T) Packet
  next_packet code payload s = (
    ok (record {
      type = PacketType.command;
      seq = bit_and s.seq 0xFFFF;
      payload = command_code code ∷ payload;
    }),
    record s { seq = s.seq + 1 },
  )

  -- `self._batch_depth > 0 or (self.flush_rate_hz is not None and not expect_response)`
  unfoldable pub should_queue : Bool → Outbox → Bool
  should_queue expect_response o =
      ltb 0 o.batch_depth
      || ((elim o.flush_rate_hz [ none ↦ false | some _ ↦ true ]) && not expect_response)

  -- `self.auto_flush and not self.flush_rate_hz and self._batch_depth == 0`
  unfoldable pub should_flush : Outbox → Bool
  should_flush o =
      o.auto_flush
      && not (elim o.flush_rate_hz [ none ↦ false | some rate ↦ ltb 0 rate ])
      && o.batch_depth == 0

  unfoldable pub send_command : Bool → ℕ → List ℕ → Exec (Session T) (List ℕ)
  unfolding read_response response_result
  send_command expect_response seq encoded = do
    on_link (io.write encoded)
    (if expect_response
        then (do response ← read_response seq; lift (response_result response))
        else pure [])

  unfoldable pub queue_command : List ℕ → Exec (Session T) (List ℕ)
  unfolding flush_session should_flush queue_packet
  queue_command encoded = do
    on_outbox (queue_packet encoded)
    λ s. (if should_flush s.outbox then flush_session else pure tt) s
    pure []

  unfoldable pub command : CommandId → List ℕ → Bool → Exec (Session T) (List ℕ)
  unfolding next_packet should_queue send_command queue_command
  command code payload expect_response = do
    packet ← next_packet code payload
    encoded ← lift (encode_packet packet)
    λ s.
        (if should_queue expect_response s.outbox
            then queue_command encoded
            else send_command expect_response packet.seq encoded)
          s

  -- `with io.batch(): …`. What the body raises is raised again after the flush, unless the flush
  -- itself raises.
  unfoldable pub batch : {A : Type 0} → Exec (Session T) A → Exec (Session T) A
  unfolding begin_batch flush_session
  batch {A} body s =
      let (_, s1) = on_outbox begin_batch s in
      let (r, s2) = body s1 in
      let s3 : Session T = record s2 {
        outbox = record s2.outbox { batch_depth = s2.outbox.batch_depth - 1 };
      } in
      let flushed : Exec (Session T) A = flush_session >> lift r in
      if s3.outbox.batch_depth == 0 then flushed s3 else (r, s3)
