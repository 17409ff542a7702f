-- ===== src/Client/Lifecycle/Waiting.antt =====
-- The waiting of `read_telemetry` and `read_event` with a timeout.
use teensy_io.Base.{ℕ, zero, suc, ◌+◌, ◌-◌, ◌<◌, Option, none, some, leb, Bool-cases, inl, inr}
use teensy_io.Base.{◌≢◌, arith}
use teensy_io.Protocol.Errors.{Result, ok, stuck}
use teensy_io.Protocol.Exec.{Exec, ◌>>=◌}
use teensy_io.Transport.{Transport}
use teensy_io.Transport.Lawful.{IsLive, IsTicking, IsPaced}
use teensy_io.Client.Session.{Session, poll_async_packets}
use teensy_io.Client.Session.Time.{bind_comes_back}
use teensy_io.Client.Session.Polling.{poll_async_packets-Since}
use teensy_io.Client.Lifecycle.{
  wait_for, check_deadline, next_telemetry, next_event, read_telemetry, read_event,
}

module _ {T : Type 0} (io : Transport T) (live : IsLive io) (ticking : IsTicking io)
    (paced : IsPaced io) where
  -- A round takes time, and leaves what is left of it to the rounds to come.
  round-ne-stuck :
      {A : Type 0} (again : Exec (Session T) A) (fuel deadline : ℕ) (s : Session T)
      → ((s' : Session T) → deadline - io.now s'.link < fuel → (again s').0 ≢ stuck)
      → deadline - io.now s.link < suc fuel
      → ((poll_async_packets io 10000 none >>= λ _. check_deadline io again (some deadline)) s).0
        ≢ stuck
  unfolding check_deadline
  round-ne-stuck again fuel deadline s ends h =
      bind_comes_back io live ticking (suc (io.now s.link)) (poll_async_packets io 10000 none)
        (λ _. check_deadline io again (some deadline)) s
        (poll_async_packets-Since io live ticking paced 10000 s (omega arith))
        (λ _ s' later. elim (Bool-cases (leb deadline (io.now s'.link))) [
          | inl over ↦ rw over (λ e. cc)
          | inr early ↦ rw early (ends s' (ground arith))
        ])

  wait_for-ne-stuck :
      {A : Type 0} (next : Session T → Option (A × Session T)) (fuel deadline : ℕ) (s : Session T)
      → deadline - io.now s.link < fuel
      → (wait_for io next fuel (some deadline) s).0 ≢ stuck
  unfolding wait_for
  wait_for-ne-stuck next zero deadline s h = absurd (omega arith)
  wait_for-ne-stuck {A} next (suc fuel) deadline s h =
      by_next
        ((poll_async_packets io 10000 none >>= λ _.
            check_deadline io (wait_for io next fuel (some deadline)) (some deadline))
          s)
        (next s)
        (round-ne-stuck (wait_for io next fuel (some deadline)) fuel deadline s
          (λ s' later. wait_for-ne-stuck next fuel deadline s' later) h)
    where
      by_next :
          (waited : Result A × Session T) (found : Option (A × Session T))
          → waited.0 ≢ stuck
          → ◌≢◌ {A = Result A}
              (let x : Result A × Session T = elim found [
                | some (item, s') ↦ (ok item, s')
                | none ↦ waited
              ] in
                x).0
              stuck
      by_next waited (some (item, s')) k = λ e. cc
      by_next waited none k = k

  -- With a timeout, `read_telemetry` and `read_event` return or raise, on every link whose calls come back
  -- and where a read that blocks or that returns a byte takes time, whatever comes from it.
  pub read_telemetry-ne-stuck :
      (fuel timeout : ℕ) (s : Session T)
      → ((read_telemetry io fuel (some timeout) s).0 ≢ stuck)
        × ((read_event io fuel (some timeout) s).0 ≢ stuck)
  unfolding read_telemetry read_event
  read_telemetry-ne-stuck fuel timeout s = (
    wait_for-ne-stuck next_telemetry (suc timeout) (io.now s.link + timeout) s (omega arith),
    wait_for-ne-stuck next_event (suc timeout) (io.now s.link + timeout) s (omega arith),
  )
