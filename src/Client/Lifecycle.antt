-- ===== src/Client/Lifecycle.antt =====
-- client.py: `connect`, `close`, the threads that they start and stop, and the waiting for telemetry
-- and events.
pub mod Closing
pub mod Waiting
use teensy_io.Base.{
  ℕ, zero, suc, ◌+◌, ◌==◌, Bool, true, false, not, Option, none, some, List, [], ◌∷◌, ◌++◌, length,
  ltb, leb, if◌then◌else◌,
}
use teensy_io.Base.{◌≡◌, ◌≢◌, refl, sym, ap, ◌∙◌, arith, Bool-cases, inl, inr}
use teensy_io.Protocol.Errors.{Error, Result, ok, err, stuck}
use teensy_io.Protocol.Exec.{Exec, pure, gets, modify, on, bind_raise, bind_step, ◌>>=◌, ◌>>◌}
use teensy_io.Protocol.Frames.{TelemetryFrame, EdgeEvent}
use teensy_io.Transport.{Transport}
use teensy_io.Client.Outbox.{Outbox, Sender, flush, queued_packet_count}
use teensy_io.Client.Inbox.{get_nowait}
use teensy_io.Client.Session.{Session, flush_session, poll_async_packets, on_link}

-- The client with its threads: the events that tell the flush thread and the heartbeat thread to stop,
-- and whether the fields for the two threads hold one. What the threads do is modelled in
-- Client/Threads.
pub record Running (T : Type 0) : Type 0 where
  pub session : Session T
  pub flush_stop : Bool
  pub flush_thread : Bool
  pub heartbeat_stop : Bool
  pub heartbeat_thread : Bool

-- What a thread does to the session while `join(timeout=1.0)` waits for it; nothing if it is not alive.
-- It may be alive after that, and is no longer waited for.
pub record Joins (T : Type 0) : Type 0 where
  pub flush : Session T → Session T
  pub heartbeat : Session T → Session T

abbrev pub in_session : {T A : Type 0} → Exec (Session T) A → Exec (Running T) A
in_session = on (λ r. r.session) (λ r s. record r { session = s })

-- `if self.flush_rate_hz:`
unfoldable pub flushes : Outbox → Bool
flushes o = elim o.flush_rate_hz [ none ↦ false | some rate ↦ ltb 0 rate ]

module _ {T : Type 0} (joins : Joins T) where
  unfoldable pub stop_heartbeat : Exec (Running T) (Unit {0})
  stop_heartbeat = modify (λ r. record r {
    session = if r.heartbeat_thread then joins.heartbeat r.session else r.session;
    heartbeat_stop = true;
    heartbeat_thread = false;
  })

  unfoldable pub start_heartbeat : Exec (Running T) (Unit {0})
  unfolding stop_heartbeat
  start_heartbeat =
      stop_heartbeat >> modify (λ r. record r { heartbeat_stop = false; heartbeat_thread = true })

  unfoldable pub stop_auto_flush : Exec (Running T) (Unit {0})
  stop_auto_flush = modify (λ r. record r {
    session = if r.flush_thread then joins.flush r.session else r.session;
    flush_stop = true;
    flush_thread = false;
  })

module _ {T : Type 0} where
  unfoldable pub start_auto_flush : Exec (Running T) (Unit {0})
  start_auto_flush = modify (λ r. record r { flush_stop = false; flush_thread = true })

  -- `on_telemetry`
  unfoldable pub on_telemetry : ℕ → Exec (Session T) (Unit {0})
  on_telemetry callback = modify (λ s. record s {
    inbox = record s.inbox { telemetry_callbacks = s.inbox.telemetry_callbacks ++ callback ∷ [] };
  })

  -- `self._telemetry_queue.get_nowait()`, and the same of the events
  unfoldable pub next_telemetry : Session T → Option (TelemetryFrame × Session T)
  unfolding get_nowait
  next_telemetry s = elim (get_nowait s.inbox.telemetry_queue) [
    | none ↦ none
    | some (frame, queue) ↦
        some (frame, record s { inbox = record s.inbox { telemetry_queue = queue } })
  ]

  unfoldable pub next_event : Session T → Option (EdgeEvent × Session T)
  unfolding get_nowait
  next_event s = elim (get_nowait s.inbox.event_queue) [
    | none ↦ none
    | some (event, queue) ↦
        some (event, record s { inbox = record s.inbox { event_queue = queue } })
  ]

module _ {T : Type 0} (io : Transport T) where
  unfoldable pub connect : Exec (Running T) (Unit {0})
  unfolding flushes start_auto_flush
  connect = do
    in_session (on_link io.open_link)
    λ r. (if flushes r.session.outbox then start_auto_flush else pure tt) r

  -- `if self.queued_packet_count: self.flush()`
  unfoldable pub flush_waiting : Exec (Running T) (Unit {0})
  unfolding queued_packet_count flush_session
  flush_waiting r =
      (if queued_packet_count r.session.outbox == 0 then pure tt else in_session (flush_session io))
        r

  unfoldable pub close : Joins T → Exec (Running T) (Unit {0})
  unfolding stop_heartbeat stop_auto_flush flush_waiting
  close joins = do
    stop_heartbeat joins
    stop_auto_flush joins
    flush_waiting
    in_session (on_link io.close_link)

  -- The test at the end of a round of `read_telemetry`
  unfoldable pub check_deadline : {A : Type 0} → Exec (Session T) A → Option ℕ → Exec (Session T) A
  check_deadline again none s = again s
  check_deadline again (some deadline) s =
      let next = again s in if leb deadline (io.now s.link) then (err Error.timeout, s) else next

  -- The loop of `read_telemetry` and of `read_event`, on fuel.
  unfoldable pub wait_for :
      {A : Type 0} → (Session T → Option (A × Session T)) → ℕ → Option ℕ → Exec (Session T) A
  unfolding poll_async_packets check_deadline
  wait_for next zero deadline s = (stuck, s)
  wait_for {A} next (suc fuel) deadline s =
      let again : Exec (Session T) A = wait_for next fuel deadline in
      elim (next s) [
        | some (item, s') ↦ (ok item, s')
        | none ↦ (poll_async_packets io 10000 none >>= λ _. check_deadline again deadline) s
      ]

  unfoldable pub deadline_for : Option ℕ → Session T → Option ℕ
  deadline_for none s = none
  deadline_for (some timeout) s = some (io.now s.link + timeout)

  -- Each round takes time, so that a timeout in microseconds is fuel enough (`Lifecycle/Waiting.antt`).
  unfoldable pub fuel_for : ℕ → Option ℕ → ℕ
  fuel_for fuel none = fuel
  fuel_for fuel (some timeout) = suc timeout

  unfoldable pub read_telemetry : ℕ → Option ℕ → Exec (Session T) TelemetryFrame
  unfolding wait_for deadline_for fuel_for next_telemetry
  read_telemetry fuel timeout s =
      wait_for next_telemetry (fuel_for fuel timeout) (deadline_for timeout s) s

  unfoldable pub read_event : ℕ → Option ℕ → Exec (Session T) EdgeEvent
  unfolding wait_for deadline_for fuel_for next_event
  read_event fuel timeout s = wait_for next_event (fuel_for fuel timeout) (deadline_for timeout s) s
