-- ===== src/Client/Threads.antt =====
-- client.py: the threads that share a client. A step is what one thread does under one lock, or between
-- two, so that the steps of the threads may come in any order. There may be any number of threads that
-- call the client (the application's, and the heartbeat thread, which calls `_command`), and any number
-- of flush threads: nothing in the code looks for an older one that is still alive when it starts one.
-- What a callback calls while a thread reads is not modelled.
pub mod Ordered
pub mod Order
pub mod Drained
pub mod Progress
use teensy_io.Base.{Bool, true, false, List, [], ◌∷◌, ◌++◌, ℕ, ◌==◌, ◌≡◌, ◌≢◌, if◌then◌else◌}
use teensy_io.Protocol.Errors.{ok}
use teensy_io.Client.Outbox.Chunks.{NonEmpty}
use teensy_io.Client.Outbox.{Outbox, queue_packet, next_chunk}

-- A thread that calls the client's methods, or the `run` of `_start_auto_flush`.
pub data Role : Type 0 where
  caller flusher : Role

-- Where a thread is. `idle` is outside the client, or in the `wait` of a flush thread, and `awake` is a
-- flush thread behind that `wait`. A thread in `flush` is `wanting` before it has `_transport_lock`,
-- `holding` before a round of the loop, and `carrying` a chunk which `transport.write` gets next. A
-- thread in `_command` is `calling` before it has the lock and `sending` with it; one in
-- `_poll_async_packets` is `polling` before; and `reading` is a thread that holds the lock to read.
-- `over` is a thread that has ended or was never started.
pub data Phase : Type 0 where
  over idle awake wanting holding polling reading : Phase
  carrying : List ℕ → Phase
  calling sending : List ℕ → Bool → Phase

-- A thread that holds `_transport_lock`
abbrev pub holds : Phase → Bool
holds Phase.holding = true
holds Phase.reading = true
holds (Phase.carrying chunk) = true
holds (Phase.sending encoded expect) = true
holds _ = false

-- A call of `transport.write`, of `flush` or of `_command`, and whether it returned. The bytes of a call
-- that raised are lost, or what of them the link did not get.
pub data Write : Type 0 where
  chunk command : Bool → List ℕ → Write

-- What the threads share, and where each one is. `writes` and `submitted` are the history: the calls of
-- `transport.write`, and the bytes that were put on the queue.
pub record System : Type 0 where
  pub outbox : Outbox
  pub stop : Bool
  pub phases : ℕ → Phase
  pub writes : List Write
  pub submitted : List ℕ

abbrev pub enter : ℕ → Phase → System → System
enter t p s = record s { phases = λ u. if u == t then p else s.phases u }

abbrev pub log : Write → System → System
log w s = record s { writes = s.writes ++ w ∷ [] }

-- No thread holds `_transport_lock`.
abbrev pub IsFree : System → Type 0
IsFree s = (u : ℕ) → holds (s.phases u) ≡ false

-- What a `write` of `flush` that raises leaves of a thread: a caller sees the exception, a flush thread
-- ends.
abbrev pub failed : Role → Phase
failed Role.caller = Phase.idle
failed Role.flusher = Phase.over

-- `flush`
pub data FlushStep (role : ℕ → Role) (t : ℕ) : System → System → Type 0 where
  call :
      (s : System)
      → role t ≡ Role.caller
      → s.phases t ≡ Phase.idle
      → FlushStep role t s (enter t Phase.wanting s)
  -- `with self._transport_lock:`
  lock :
      (s : System)
      → s.phases t ≡ Phase.wanting
      → IsFree s
      → FlushStep role t s (enter t Phase.holding s)
  -- A round of the loop up to the end of `with self._lock`
  take_chunk :
      (s : System)
      → s.phases t ≡ Phase.holding
      → s.outbox.queued ≢ []
      → FlushStep role t s (
          enter t
            (Phase.carrying (next_chunk s.outbox).0)
            (record s { outbox = (next_chunk s.outbox).1 }))
  -- `self.transport.write(bytes(chunk))`
  write :
      (s : System) (bytes : List ℕ)
      → s.phases t ≡ Phase.carrying bytes
      → FlushStep role t s (enter t Phase.holding (log (Write.chunk true bytes) s))
  write_fails :
      (s : System) (bytes : List ℕ)
      → s.phases t ≡ Phase.carrying bytes
      → FlushStep role t s (enter t (failed (role t)) (log (Write.chunk false bytes) s))
  -- `if not self._queued: return`
  leave :
      (s : System)
      → s.phases t ≡ Phase.holding
      → s.outbox.queued ≡ []
      → FlushStep role t s (enter t Phase.idle s)

-- `_command`. Whether it queues or sends depends on the batch and on `flush_rate_hz`: both may happen here.
pub data CommandStep (role : ℕ → Role) (t : ℕ) : System → System → Type 0 where
  -- `self._queue_packet(encoded)`, which did not raise. No packet is empty.
  submit :
      (s : System) (encoded : List ℕ)
      → role t ≡ Role.caller
      → s.phases t ≡ Phase.idle
      → NonEmpty encoded
      → (queue_packet encoded s.outbox).0 ≡ ok tt
      → CommandStep role t s (record s {
        outbox = (queue_packet encoded s.outbox).1;
        submitted = s.submitted ++ encoded;
      })
  call :
      (s : System) (encoded : List ℕ) (expect_response : Bool)
      → role t ≡ Role.caller
      → s.phases t ≡ Phase.idle
      → CommandStep role t s (enter t (Phase.calling encoded expect_response) s)
  -- `with self._transport_lock:`
  lock :
      (s : System) (encoded : List ℕ) (expect_response : Bool)
      → s.phases t ≡ Phase.calling encoded expect_response
      → IsFree s
      → CommandStep role t s (enter t (Phase.sending encoded expect_response) s)
  -- `self.transport.write(encoded)`, after which the response is read under the same lock
  write :
      (s : System) (encoded : List ℕ) (expect_response : Bool)
      → s.phases t ≡ Phase.sending encoded expect_response
      → CommandStep role t s (
          enter t
            (if expect_response then Phase.reading else Phase.idle)
            (log (Write.command true encoded) s))
  write_fails :
      (s : System) (encoded : List ℕ) (expect_response : Bool)
      → s.phases t ≡ Phase.sending encoded expect_response
      → CommandStep role t s (enter t Phase.idle (log (Write.command false encoded) s))

-- The reads of `_poll_async_packets`, each under the lock, and the end of reading, also of a response.
pub data ReadStep (role : ℕ → Role) (t : ℕ) : System → System → Type 0 where
  poll :
      (s : System)
      → role t ≡ Role.caller
      → s.phases t ≡ Phase.idle
      → ReadStep role t s (enter t Phase.polling s)
  lock :
      (s : System)
      → s.phases t ≡ Phase.polling
      → IsFree s
      → ReadStep role t s (enter t Phase.reading s)
  leave : (s : System) → s.phases t ≡ Phase.reading → ReadStep role t s (enter t Phase.idle s)

-- `_start_auto_flush` and `_stop_auto_flush`. The `join` of the latter changes nothing and may time out.
pub data ThreadStep (role : ℕ → Role) (t : ℕ) : System → System → Type 0 where
  -- `self._flush_stop.clear()` and `start()` of a new thread
  start :
      (s : System) (u : ℕ)
      → role t ≡ Role.caller
      → s.phases t ≡ Phase.idle
      → role u ≡ Role.flusher
      → s.phases u ≡ Phase.over
      → ThreadStep role t s (enter u Phase.idle (record s { stop = false }))
  -- `self._flush_stop.set()`
  set_stop :
      (s : System)
      → role t ≡ Role.caller
      → s.phases t ≡ Phase.idle
      → ThreadStep role t s (record s { stop = true })
  -- `while not self._flush_stop.wait(interval):`
  wake :
      (s : System)
      → role t ≡ Role.flusher
      → s.phases t ≡ Phase.idle
      → s.stop ≡ false
      → ThreadStep role t s (enter t Phase.awake s)
  finish :
      (s : System)
      → role t ≡ Role.flusher
      → s.phases t ≡ Phase.idle
      → s.stop ≡ true
      → ThreadStep role t s (enter t Phase.over s)
  -- `if self._queued: self.flush()`
  flush :
      (s : System)
      → s.phases t ≡ Phase.awake
      → s.outbox.queued ≢ []
      → ThreadStep role t s (enter t Phase.wanting s)
  rest :
      (s : System)
      → s.phases t ≡ Phase.awake
      → s.outbox.queued ≡ []
      → ThreadStep role t s (enter t Phase.idle s)

-- A step of the thread `t`
pub data Step (role : ℕ → Role) (t : ℕ) : System → System → Type 0 where
  flushing : {s s' : System} → FlushStep role t s s' → Step role t s s'
  commanding : {s s' : System} → CommandStep role t s s' → Step role t s s'
  reading : {s s' : System} → ReadStep role t s s' → Step role t s s'
  running : {s s' : System} → ThreadStep role t s s' → Step role t s s'

-- Steps of threads among `who`, in any order
pub data Steps (role : ℕ → Role) (who : ℕ → Type 0) : System → System → Type 0 where
  done : (s : System) → Steps role who s s
  step :
      {t : ℕ} {s s' s'' : System}
      → who t
      → Step role t s s'
      → Steps role who s' s''
      → Steps role who s s''
