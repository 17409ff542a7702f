-- ===== src/Client/Session/Polling.antt =====
-- `_poll_async_packets` comes back: it drains up to its budget, or until its time is over.
use teensy_io.Base.{
  ℕ, zero, suc, ◌+◌, ◌-◌, ◌≤◌, ◌<◌, min, max, List, length, leb, ◌==◌, if◌then◌else◌, ◌||◌,
  Bool-cases, true, false,
}
use teensy_io.Base.{◌≡◌, ◌≢◌, ap, arith, Option, none, some, inl, inr}
use teensy_io.Protocol.Errors.{stuck}
use teensy_io.Protocol.Exec.{Exec, pure, bind_elim}
use teensy_io.Transport.{Transport}
use teensy_io.Transport.Lawful.{IsLive, IsTicking, IsPaced}
use teensy_io.Client.Session.{
  Session, read_some, absorb, drain, wait, after_available, poll_loop, poll_async_packets, on_link,
}
use teensy_io.Client.Session.Time.{
  Since, bind_Since, pure-Since, later-Since, read_some-Since, absorb-Since,
}

module _ {T : Type 0} (io : Transport T) (live : IsLive io) (ticking : IsTicking io) where
  -- What the rounds to come need: bytes still to be drained and time that is left, together less than
  -- the fuel.
  abbrev Ready : (ℕ → Exec (Session T) ℕ) → ℕ → ℕ → ℕ → Type 0
  Ready next deadline budget fuel =
      (drained n : ℕ) (s : Session T)
      → n ≤ io.now s.link
      → budget - drained + (deadline - io.now s.link) < fuel
      → Since io live ticking n (next drained s)

  drain-Since :
      (next : ℕ → Exec (Session T) ℕ) (deadline budget fuel drained : ℕ) (data' : List ℕ)
      (s : Session T)
      → Ready next deadline budget fuel
      → (length data' == 0) ≡ false
      → budget - drained + (deadline - io.now s.link) ≤ fuel
      → Since io live ticking (io.now s.link) (drain io next budget drained data' s)
  unfolding drain
  drain-Since next deadline budget fuel drained data' s ready some_data h =
      bind_Since io live ticking (io.now s.link) (absorb io data')
        (λ _.
          if leb budget (drained + length data')
          then pure (drained + length data')
          else next (drained + length data'))
        s (absorb-Since io live ticking data' (io.now s.link) s (omega arith))
        (λ _ s' k. elim (Bool-cases (leb budget (drained + length data'))) [
          | inl full ↦ rw full (pure-Since io live ticking (drained + length data') s' k)
          | inr room ↦ rw room (ready (drained + length data') (io.now s.link) s' k (ground arith))
        ])

  wait-Since :
      (next : ℕ → Exec (Session T) ℕ) (deadline budget fuel drained size : ℕ) (s : Session T)
      → Ready next deadline budget fuel
      → io.now s.link < deadline
      → budget - drained + (deadline - io.now s.link) ≤ fuel
      → Since io live ticking (suc (io.now s.link)) (wait io next budget drained size s)
  unfolding wait
  wait-Since next deadline budget fuel drained size s ready early h =
      bind_Since io live ticking (suc (io.now s.link)) (read_some io true (some size))
        (λ data'. if length data' == 0 then next drained else drain io next budget drained data') s
        (read_some-Since io live ticking (some size) s)
        (λ data' s' k. elim (Bool-cases (length data' == 0)) [
          | inl nothing ↦ rw nothing (ready drained (suc (io.now s.link)) s' k (omega arith))
          | inr some_data ↦ rw some_data (
              later-Since io live ticking (drain io next budget drained data' s') k (
                drain-Since next deadline budget fuel drained data' s' ready some_data
                  (omega arith)))
        ])

  after_available-Since :
      (next : ℕ → Exec (Session T) ℕ) (timeout deadline budget fuel drained size : ℕ)
      (data' : List ℕ) (s : Session T)
      → Ready next deadline budget fuel
      → budget - drained + (deadline - io.now s.link) ≤ fuel
      → Since io live ticking
          (io.now s.link)
          (after_available io next timeout deadline budget drained size data' s)
  unfolding after_available
  after_available-Since next timeout deadline budget fuel drained size data' s ready h =
      elim (Bool-cases (length data' == 0)) [
        | inr some_data ↦
            rw some_data (drain-Since next deadline budget fuel drained data' s ready some_data h)
        | inl nothing ↦ elim (Bool-cases (timeout == 0 || leb deadline (io.now s.link))) [
          | inl over ↦ rw (nothing, over) (pure-Since io live ticking drained s (omega arith))
          | inr goes_on ↦
              rw (nothing, goes_on)
                (later-Since io live ticking (wait io next budget drained size s) (omega arith)
                  (wait-Since next deadline budget fuel drained size s ready (ground arith) h))
        ]
      ]

  poll_loop-Since :
      (fuel timeout deadline budget : ℕ)
      → Ready (poll_loop io fuel timeout deadline budget) deadline budget fuel
  unfolding poll_loop
  poll_loop-Since zero timeout deadline budget drained n s early h = absurd (omega arith)
  poll_loop-Since (suc fuel) timeout deadline budget drained n s early h =
      let size : ℕ = min s.read_chunk_size (max 1 (budget - drained)) in
      let next : ℕ → Exec (Session T) ℕ = poll_loop io fuel timeout deadline budget in
      later-Since io live ticking (poll_loop io (suc fuel) timeout deadline budget drained s) early
        (bind_Since io live ticking (io.now s.link) (on_link (io.read_available size))
          (after_available io next timeout deadline budget drained size) s
          (live.available_ends size s.link, ticking.available_monotone size s.link)
          (λ data' s' k.
            later-Since io live ticking
              (after_available io next timeout deadline budget drained size data' s') k
              (after_available-Since next timeout deadline budget fuel drained size data' s'
                (poll_loop-Since fuel timeout deadline budget) (omega arith))))

  -- On a link whose calls come back and whose blocking reads take time, `_poll_async_packets` comes
  -- back for every timeout and every budget: each round drains a byte at least or takes time.
  pub poll_async_packets-ne-stuck :
      (timeout : ℕ) (max_bytes : Option ℕ) (s : Session T)
      → (poll_async_packets io timeout max_bytes s).0 ≢ stuck
  unfolding poll_async_packets
  poll_async_packets-ne-stuck timeout none s =
      (poll_loop-Since (suc (s.read_drain_max_bytes + timeout)) timeout (io.now s.link + timeout)
        s.read_drain_max_bytes 0 (io.now s.link) s (omega arith) (omega arith)).0
  poll_async_packets-ne-stuck timeout (some n) s =
      (poll_loop-Since (suc (n + timeout)) timeout (io.now s.link + timeout) n 0 (io.now s.link) s
        (omega arith) (omega arith)).0

  -- What follows the first read, which took time if it returned a byte.
  first_available-Since :
      (next : ℕ → Exec (Session T) ℕ) (timeout start budget fuel size : ℕ) (data' : List ℕ)
      (s : Session T)
      → Ready next (start + timeout) budget fuel
      → 0 < timeout
      → start ≤ io.now s.link
      → (0 < length data' → start < io.now s.link)
      → budget + (start + timeout - io.now s.link) ≤ fuel
      → Since io live ticking
          (suc start)
          (after_available io next timeout (start + timeout) budget 0 size data' s)
  unfolding after_available
  first_available-Since next timeout start budget fuel size data' s ready waits later took_time h =
      elim (Bool-cases (length data' == 0)) [
        | inr some_data ↦ rw some_data (
            let took = took_time (ground arith) in
            later-Since io live ticking (drain io next budget 0 data' s) (omega arith) (
              drain-Since next (start + timeout) budget fuel 0 data' s ready some_data
                (omega arith)))
        | inl nothing ↦ elim (Bool-cases (timeout == 0 || leb (start + timeout) (io.now s.link))) [
          | inl over ↦ rw (nothing, over) (pure-Since io live ticking 0 s (ground arith))
          | inr goes_on ↦
              rw (nothing, goes_on)
                (later-Since io live ticking (wait io next budget 0 size s) (omega arith) (
                  wait-Since next (start + timeout) budget fuel 0 size s ready (ground arith)
                    (omega arith)))
        ]
      ]

  -- Where no byte comes at once, a poll with a timeout takes time.
  pub poll_async_packets-Since :
      IsPaced io
      → (timeout : ℕ) (s : Session T) → 0 < timeout
      → Since io live ticking (suc (io.now s.link)) (poll_async_packets io timeout none s)
  unfolding poll_async_packets poll_loop
  poll_async_packets-Since paced timeout s waits =
      let size : ℕ = min s.read_chunk_size (max 1 (s.read_drain_max_bytes - 0)) in
      let budget : ℕ = s.read_drain_max_bytes in
      let start : ℕ = io.now s.link in
      let next : ℕ → Exec (Session T) ℕ =
        poll_loop io (budget + timeout) timeout (start + timeout) budget in
      bind_elim (Since io live ticking (suc start)) (on_link (io.read_available size))
        (after_available io next timeout (start + timeout) budget 0 size) s
        (λ data' s' e.
          let read = ap (λ x. x.0) e in
          let at = ap (λ x. io.now x.1.link) e in
          let monotone = ticking.available_monotone size s.link data' read in
          first_available-Since next timeout start budget (budget + timeout) size data' s'
            (poll_loop-Since (budget + timeout) timeout (start + timeout) budget) waits
            (omega arith)
            (λ some_byte.
              let took = paced.available_takes_time size s.link data' read some_byte in omega arith)
            (omega arith))
        (λ x s' e. ((λ q. cc), (λ b q. absurd (cc))))
        (λ s' e. absurd (live.available_ends size s.link (ap (λ x. x.0) e)))
