-- ===== src/Client/Session/Time.antt =====
-- How the parts of the two reading loops pass time, on a link that comes back and ticks.
use teensy_io.Base.{
  ℕ, suc, ◌-◌, ◌≤◌, List, [], ◌∷◌, ◌++◌, length, leb, ◌==◌, ◌||◌, Bool-cases, true,
}
use teensy_io.Base.{◌≡◌, ◌≢◌, refl, arith, Option, none, some, inl, inr}
use mathlib.Core.Path.{subst}
use teensy_io.Protocol.Errors.{Result, stuck, ok}
use teensy_io.Protocol.Exec.{Exec, pure, bind_elim, ◌>>=◌}
use teensy_io.Protocol.Packet.{Packet}
use teensy_io.Protocol.Decoder.Loop.{feed-ne-stuck}
use teensy_io.Transport.{Transport}
use teensy_io.Transport.Lawful.{IsLive, IsTicking}
use teensy_io.Client.Inbox.{handle_async_packet}
use teensy_io.Client.Inbox.Ends.{handle_async_packet-ne-stuck}
use teensy_io.Client.Session.{
  Session, read_rest, read_some, feed_decoder, handle_each, absorb, on_inbox, on_link,
}

module _ {T : Type 0} (io : Transport T) (live : IsLive io) (ticking : IsTicking io) where
  -- A call that came back; if it returned, then at the time `n` or later.
  abbrev pub Since : {A : Type 0} → ℕ → Result A × Session T → Type 0
  Since {A} n (r, s') = (r ≢ stuck) × ((a : A) → r ≡ ok a → n ≤ io.now s'.link)

  pub bind_Since :
      {A B : Type 0} (n : ℕ) (m : Exec (Session T) A) (f : A → Exec (Session T) B) (s : Session T)
      → Since n (m s)
      → ((a : A) (s' : Session T) → n ≤ io.now s'.link → Since n (f a s'))
      → Since n ((m >>= f) s)
  bind_Since n m f s h k =
      bind_elim (Since n) m f s (λ a s' e. k a s' ((subst (Since n) e h).1 a refl))
        (λ x s' e. ((λ q. cc), (λ b q. absurd (cc))))
        (λ s' e. absurd ((subst (Since n) e h).0 refl))

  pub bind_comes_back :
      {A B : Type 0} (n : ℕ) (m : Exec (Session T) A) (f : A → Exec (Session T) B) (s : Session T)
      → Since n (m s)
      → ((a : A) (s' : Session T) → n ≤ io.now s'.link → (f a s').0 ≢ stuck)
      → ((m >>= f) s).0 ≢ stuck
  bind_comes_back n m f s h k =
      bind_elim (λ x. x.0 ≢ stuck) m f s (λ a s' e. k a s' ((subst (Since n) e h).1 a refl))
        (λ x s' e q. cc) (λ s' e q. (subst (Since n) e h).0 refl)

  pub pure-Since :
      {A : Type 0} {n : ℕ} (a : A) (s : Session T) → n ≤ io.now s.link → Since n (pure a s)
  pure-Since a s h = ((λ e. cc), (λ _ _. h))

  pub later-Since :
      {A : Type 0} {m n : ℕ} (x : Result A × Session T) → m ≤ n → Since n x → Since m x
  later-Since x early h = (h.0, (λ a e. let later = h.1 a e in omega arith))

  read_rest-Since :
      (limit : ℕ) (first : List ℕ) (n : ℕ) (s : Session T)
      → n ≤ io.now s.link
      → Since n (read_rest io limit first s)
  unfolding read_rest
  read_rest-Since limit first n s h =
      elim (Bool-cases (length first == 0 || leb limit (length first))) [
        | inl enough ↦ rw enough ((λ e. cc), (λ _ _. h))
        | inr more ↦ rw more (
            bind_Since n (on_link (io.read_available (limit - length first)))
              (λ rest. pure (first ++ rest)) s
              (
                live.available_ends (limit - length first) s.link,
                λ bytes e.
                    omega (arith, ticking.available_monotone (limit - length first) s.link bytes e),
              )
              (λ rest s' k. ((λ e. cc), (λ _ _. k))))
      ]

  blocking-Since :
      (size : ℕ) (s : Session T)
      → Since (suc (io.now s.link)) ((on_link (io.read 1) >>= read_rest io size) s)
  blocking-Since size s =
      bind_Since (suc (io.now s.link)) (on_link (io.read 1)) (read_rest io size) s
        (live.read_ends 1 s.link, ticking.read_takes_time 1 s.link)
        (λ first s' k. read_rest-Since size first (suc (io.now s.link)) s' k)

  -- A blocking read takes time.
  pub read_some-Since :
      (max_bytes : Option ℕ) (s : Session T)
      → Since (suc (io.now s.link)) (read_some io true max_bytes s)
  unfolding read_some
  read_some-Since none s = blocking-Since s.read_chunk_size s
  read_some-Since (some size) s = blocking-Since size s

  pub handle_each-Since :
      (packets : List Packet) (n : ℕ) (s : Session T)
      → n ≤ io.now s.link
      → Since n (handle_each packets s)
  unfolding handle_each
  handle_each-Since [] n s h = ((λ e. cc), (λ _ _. h))
  handle_each-Since (p ∷ ps) n s h =
      bind_Since n (on_inbox (handle_async_packet p)) (λ _. handle_each ps) s
        (handle_async_packet-ne-stuck p s.inbox, (λ _ _. h)) (λ _ s' k. handle_each-Since ps n s' k)

  -- Handling packets takes no time in the link.
  pub feed_decoder-Since :
      (data' : List ℕ) (n : ℕ) (s : Session T) → n ≤ io.now s.link → Since n (feed_decoder data' s)
  unfolding feed_decoder
  feed_decoder-Since data' n s h = (feed-ne-stuck s.inbox.decoder data', (λ _ _. h))

  pub absorb-Since :
      (data' : List ℕ) (n : ℕ) (s : Session T) → n ≤ io.now s.link → Since n (absorb io data' s)
  unfolding absorb
  absorb-Since data' n s h =
      bind_Since n (feed_decoder data') handle_each s (feed_decoder-Since data' n s h)
        (λ packets s' k. handle_each-Since packets n s' k)
