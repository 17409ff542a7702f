-- ===== src/Client/Session/Budget.antt =====
-- How many bytes `_poll_async_packets` drains.
use teensy_io.Base.{
  ℕ, zero, suc, ◌+◌, ◌-◌, ◌≤◌, ◌<◌, min, max, List, ◌++◌, length, length-append, leb, ◌==◌,
  if◌then◌else◌, ◌||◌, Bool-cases, true, false,
}
use teensy_io.Base.{◌≡◌, refl, ap, sym, ◌∙◌, arith, some, ◌⊎◌, inl, inr}
use teensy_io.Protocol.Errors.{Result, ok}
use teensy_io.Protocol.Exec.{Exec, pure, bind_ok, ◌>>=◌}
use teensy_io.Transport.{Transport}
use teensy_io.Transport.Lawful.{IsBounded}
use teensy_io.Client.Session.{
  Session, read_rest, read_some, absorb, drain, wait, after_available, poll_loop,
  poll_async_packets, on_link,
}

module _ {T : Type 0} (io : Transport T) (bounded : IsBounded io) where
  read_rest-length :
      (limit : ℕ) (first bytes : List ℕ) (s : Session T)
      → length first ≤ max 1 limit
      → (read_rest io limit first s).0 ≡ ok bytes
      → length bytes ≤ max 1 limit
  unfolding read_rest
  read_rest-length limit first bytes s h e =
      elim (Bool-cases (length first == 0 || leb limit (length first))) [
        | inl enough ↦ ground arith
        | inr more ↦
            let step : read_rest io limit first s
                ≡ (on_link (io.read_available (limit - length first)) >>= λ rest.
                      pure (first ++ rest))
                    s =
              rw more refl in
            let (rest, read, joined) =
              bind_ok (on_link (io.read_available (limit - length first)))
                (λ rest. pure (first ++ rest)) s (ap (λ x. x.0) (sym step) ∙ e) in
            let few = bounded.available_bounded (limit - length first) s.link rest read in
            ground (arith, length-append first rest)
      ]

  read_some-length :
      (size : ℕ) (bytes : List ℕ) (s : Session T)
      → (read_some io true (some size) s).0 ≡ ok bytes
      → length bytes ≤ max 1 size
  unfolding read_some
  read_some-length size bytes s e =
      let (first, read, rest) = bind_ok (on_link (io.read 1)) (read_rest io size) s e in
      let few = bounded.read_bounded 1 s.link first read in
      read_rest-length size first bytes (on_link (io.read 1) s).1 (omega arith) rest

  -- What the rounds to come keep: nothing is drained yet, or less than the budget.
  abbrev Keeps : (ℕ → Exec (Session T) ℕ) → ℕ → Type 0
  Keeps next budget =
      (drained n : ℕ) (s : Session T)
      → (drained ≡ 0) ⊎ (drained < budget)
      → (next drained s).0 ≡ ok n
      → n ≤ max 1 budget

  drain-bound :
      (next : ℕ → Exec (Session T) ℕ) (budget drained n : ℕ) (data' : List ℕ) (s : Session T)
      → Keeps next budget
      → drained + length data' ≤ max 1 budget
      → (drain io next budget drained data' s).0 ≡ ok n
      → n ≤ max 1 budget
  unfolding drain
  drain-bound next budget drained n data' s keeps h e =
      let total : ℕ = drained + length data' in
      let (_, _, rest) =
        bind_ok (absorb io data') (λ _. if leb budget total then pure total else next total) s e in
      elim (Bool-cases (leb budget total)) [
        | inl full ↦ ground arith
        | inr room ↦
            let step : (if leb budget total then pure total else next total) ≡ next total =
              rw room refl in
            keeps total n (absorb io data' s).1 (inr (ground arith))
              (ap (λ (m : Exec (Session T) ℕ). (m (absorb io data' s).1).0) (sym step) ∙ rest)
      ]

  wait-bound :
      (next : ℕ → Exec (Session T) ℕ) (budget drained size n : ℕ) (s : Session T)
      → Keeps next budget
      → (drained ≡ 0) ⊎ (drained < budget)
      → size ≤ max 1 (budget - drained)
      → (wait io next budget drained size s).0 ≡ ok n
      → n ≤ max 1 budget
  unfolding wait
  wait-bound next budget drained size n s keeps less h e =
      let next_round : List ℕ → Exec (Session T) ℕ =
        λ data'. if length data' == 0 then next drained else drain io next budget drained data' in
      let (data', read, rest) = bind_ok (read_some io true (some size)) next_round s e in
      let few = read_some-length size data' s read in
      let s' : Session T = (read_some io true (some size) s).1 in
      elim (Bool-cases (length data' == 0)) [
        | inl nothing ↦
            let step : next_round data' ≡ next drained = rw nothing refl in
            keeps drained n s' less (ap (λ (m : Exec (Session T) ℕ). (m s').0) (sym step) ∙ rest)
        | inr some_data ↦
            let step : next_round data' ≡ drain io next budget drained data' = rw some_data refl in
            drain-bound next budget drained n data' s' keeps (ground arith)
              (ap (λ (m : Exec (Session T) ℕ). (m s').0) (sym step) ∙ rest)
      ]

  after_available-bound :
      (next : ℕ → Exec (Session T) ℕ) (timeout deadline budget drained size n : ℕ) (data' : List ℕ)
      (s : Session T)
      → Keeps next budget
      → (drained ≡ 0) ⊎ (drained < budget)
      → size ≤ max 1 (budget - drained)
      → length data' ≤ size
      → (after_available io next timeout deadline budget drained size data' s).0 ≡ ok n
      → n ≤ max 1 budget
  after_available-bound next timeout deadline budget drained size n data' s keeps less h few e =
      elim (Bool-cases (length data' == 0)) [
        | inr some_data ↦
            drain-bound next budget drained n data' s keeps (ground arith)
              (ap (λ x. x.0) (sym (busy some_data)) ∙ e)
        | inl nothing ↦ elim (Bool-cases (timeout == 0 || leb deadline (io.now s.link))) [
          | inl over ↦
              let last : ◌≡◌ {A = Result ℕ} (ok drained) (ok n) =
                ap (λ x. x.0) (sym (ends nothing over)) ∙ e in
              ground arith
          | inr goes_on ↦
              wait-bound next budget drained size n s keeps less h
                (ap (λ x. x.0) (sym (waits nothing goes_on)) ∙ e)
        ]
      ]
    where
      round_of : Result ℕ × Session T
      round_of = after_available io next timeout deadline budget drained size data' s

      busy : (length data' == 0) ≡ false → round_of ≡ drain io next budget drained data' s
      busy some_data = unfold after_available in rw some_data refl

      ends :
          (length data' == 0) ≡ true
          → (timeout == 0 || leb deadline (io.now s.link)) ≡ true
          → round_of ≡ (ok drained, s)
      ends nothing over = unfold after_available in rw (nothing, over) refl

      waits :
          (length data' == 0) ≡ true
          → (timeout == 0 || leb deadline (io.now s.link)) ≡ false
          → round_of ≡ wait io next budget drained size s
      waits nothing goes_on = unfold after_available in rw (nothing, goes_on) refl

  poll_loop-bound :
      (fuel timeout deadline budget : ℕ) → Keeps (poll_loop io fuel timeout deadline budget) budget
  unfolding poll_loop
  poll_loop-bound zero timeout deadline budget drained n s less e = absurd (cc)
  poll_loop-bound (suc fuel) timeout deadline budget drained n s less e =
      let size : ℕ = min s.read_chunk_size (max 1 (budget - drained)) in
      let next : ℕ → Exec (Session T) ℕ = poll_loop io fuel timeout deadline budget in
      let (data', read, rest) =
        bind_ok (on_link (io.read_available size))
          (after_available io next timeout deadline budget drained size) s e in
      after_available-bound next timeout deadline budget drained size n data'
        (on_link (io.read_available size) s).1 (poll_loop-bound fuel timeout deadline budget) less
        (omega arith) (bounded.available_bounded size s.link data' read) rest

  -- On a link whose reads keep their limits, what `_poll_async_packets` returns is no more than the
  -- budget that it was given, or one byte if the budget is 0, whatever the chunk size.
  pub poll_async_packets-bound :
      (timeout budget n : ℕ) (s : Session T)
      → (poll_async_packets io timeout (some budget) s).0 ≡ ok n
      → n ≤ max 1 budget
  unfolding poll_async_packets
  poll_async_packets-bound timeout budget n s e =
      poll_loop-bound (suc (budget + timeout)) timeout (io.now s.link + timeout) budget 0 n s
        (inl refl) e
