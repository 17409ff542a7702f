-- ===== src/Client/Outbox.antt =====
-- The queue of packets that wait to be written: `_queue_packet`, `begin_batch`, the chunks of `flush`.
pub mod Chunks
pub mod Flush
pub mod Queue
use teensy_io.Base.{ℕ, zero, suc, ◌+◌, ◌-◌, Bool, true, false, not, ◌&&◌, ◌||◌, Option, none, some}
use teensy_io.Base.{List, [], ◌∷◌, ◌++◌, length, ltb, leb, ◌==◌, if◌then◌else◌}
use teensy_io.Protocol.Errors.{Error, Result, ok, err, stuck}
use teensy_io.Protocol.Exec.{Exec, pure, raise, gets, modify, raise_if, ◌>>=◌, ◌>>◌}
use teensy_io.Transport.{Transport}

-- The fields of `TeensyIO` for output. `flush_rate_hz` is a whole number here; `None` is `none`.
pub record Outbox : Type 0 where
  pub auto_flush : Bool
  pub flush_rate_hz : Option ℕ
  pub queue_max_bytes : Option ℕ
  pub flush_chunk_size : ℕ
  pub batch_depth : ℕ
  pub queued : List (List ℕ)
  pub queued_bytes : ℕ

unfoldable pub queued_packet_count : Outbox → ℕ
queued_packet_count o = length o.queued

unfoldable pub queued_byte_count : Outbox → ℕ
queued_byte_count o = o.queued_bytes

-- `self.queue_max_bytes is not None and next_size > self.queue_max_bytes`
abbrev pub exceeds : Option ℕ → ℕ → Bool
exceeds none size = false
exceeds (some limit) size = ltb limit size

unfoldable pub queue_packet : List ℕ → Exec Outbox (Unit {0})
queue_packet encoded o =
    let next_size = o.queued_bytes + length encoded in
    if exceeds o.queue_max_bytes next_size
    then (err Error.queue_full, o)
    else (ok tt, record o { queued = o.queued ++ (encoded ∷ []); queued_bytes = next_size })

unfoldable pub begin_batch : Exec Outbox (Unit {0})
begin_batch o = (ok tt, record o { batch_depth = o.batch_depth + 1 })

-- The inner `while` of `flush`: packets move to the chunk as long as they fit beside it.
unfoldable pub fill : ℕ → List ℕ → List (List ℕ) → ℕ → List ℕ × List (List ℕ) × ℕ
fill size chunk [] bytes = (chunk, [], bytes)
fill size chunk (item ∷ queued) bytes =
    let next = fill size (chunk ++ item) queued (bytes - length item) in
    if leb (length chunk + length item) size then next else (chunk, item ∷ queued, bytes)

-- `if not chunk and self._queued`: a packet that is larger than a chunk goes alone.
unfoldable pub at_least_one : List ℕ × List (List ℕ) × ℕ → List ℕ × List (List ℕ) × ℕ
at_least_one ([], item ∷ queued, bytes) = (item, queued, bytes - length item)
at_least_one (chunk, queued, bytes) = (chunk, queued, bytes)

-- The part of a round of `flush` that holds the lock: the chunk, and the queue without it.
unfoldable pub next_chunk : Outbox → List ℕ × Outbox
unfolding fill at_least_one
next_chunk o =
    let (chunk, queued, bytes) =
      at_least_one (fill o.flush_chunk_size [] o.queued o.queued_bytes) in
    (chunk, record o { queued = queued; queued_bytes = bytes })

-- What runs through `flush`: the queue and the link.
pub record Sender (T : Type 0) : Type 0 where
  pub outbox : Outbox
  pub link : T

module _ {T : Type 0} (io : Transport T) where
  -- `self.transport.write(bytes(chunk))`, after the chunk has left the queue
  unfoldable pub write_chunk : Exec (Sender T) (Unit {0})
  unfolding next_chunk
  write_chunk s =
      let (chunk, outbox) = next_chunk s.outbox in
      let (r, link) = io.write chunk s.link in (r, record { outbox = outbox; link = link })

  -- The loop of `flush` on fuel. Each round takes a packet at least off the queue, so that the
  -- number of packets is fuel enough.
  unfoldable pub flush_loop : ℕ → Exec (Sender T) (Unit {0})
  unfolding write_chunk
  flush_loop zero s = elim s.outbox.queued [ [] ↦ (ok tt, s) | item ∷ rest ↦ (stuck, s) ]
  flush_loop (suc fuel) s = elim s.outbox.queued [
    | [] ↦ (ok tt, s)
    | item ∷ rest ↦ (write_chunk >> flush_loop fuel) s
  ]

  unfoldable pub flush : Exec (Sender T) (Unit {0})
  unfolding flush_loop
  flush s = flush_loop (length s.outbox.queued) s
