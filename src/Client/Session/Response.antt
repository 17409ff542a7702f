-- ===== src/Client/Session/Response.antt =====
-- `_read_response` comes back in time, and with a packet of the awaited number.
use teensy_io.Base.{
  ℕ, zero, suc, ◌+◌, ◌-◌, ◌<◌, List, [], ◌∷◌, length, ltb, ◌==◌, Bool-cases, true, ◌≤◌,
}
use teensy_io.Base.{◌≢◌, arith, Option, none, some, inl, inr}
use teensy_io.Protocol.Errors.{stuck}
use teensy_io.Protocol.Exec.{Exec, ◌>>=◌}
use teensy_io.Protocol.Packet.{Packet}
use teensy_io.Transport.{Transport}
use teensy_io.Transport.Lawful.{IsLive, IsTicking}
use teensy_io.Client.Inbox.{handle_async_packet}
use teensy_io.Client.Inbox.Ends.{handle_async_packet-ne-stuck}
use teensy_io.Client.Session.{
  Session, read_some, after_read, after_scan, feed_decoder, scan_packets, read_loop, read_response,
  on_inbox,
}
use teensy_io.Client.Session.Time.{
  Since, bind_Since, bind_comes_back, feed_decoder-Since, read_some-Since,
}

module _ {T : Type 0} (io : Transport T) (live : IsLive io) (ticking : IsTicking io) where
  scan_packets-Since :
      (seq : ℕ) (packets : List Packet) (n : ℕ) (s : Session T)
      → n ≤ io.now s.link
      → Since io live ticking n (scan_packets seq packets s)
  unfolding scan_packets
  scan_packets-Since seq [] n s h = ((λ e. cc), (λ _ _. h))
  scan_packets-Since seq (p ∷ ps) n s h = elim (Bool-cases (p.seq == seq)) [
    | inl same ↦ rw same ((λ e. cc), (λ _ _. h))
    | inr other ↦ rw other (
        bind_Since io live ticking n (on_inbox (handle_async_packet p)) (λ _. scan_packets seq ps) s
          (handle_async_packet-ne-stuck p s.inbox, (λ _ _. h))
          (λ _ s' k. scan_packets-Since seq ps n s' k))
  ]

  after_read-ne-stuck :
      (again : Exec (Session T) Packet) (seq : ℕ) (data' : List ℕ) (t : T) (s : Session T)
      → ((s' : Session T) → io.now t < io.now s'.link → (again s').0 ≢ stuck)
      → io.now t < io.now s.link
      → (after_read io again seq data' s).0 ≢ stuck
  unfolding after_read
  after_read-ne-stuck again seq data' t s ih h = elim (Bool-cases (length data' == 0)) [
    | inl nothing ↦ rw nothing (ih s h)
    | inr some_data ↦ rw some_data (
        bind_comes_back io live ticking (suc (io.now t)) (feed_decoder data')
          (λ packets. scan_packets seq packets >>= after_scan io again) s
          (feed_decoder-Since io live ticking data' (suc (io.now t)) s h)
          (λ packets s' k.
            bind_comes_back io live ticking (suc (io.now t)) (scan_packets seq packets)
              (after_scan io again) s' (scan_packets-Since seq packets (suc (io.now t)) s' k)
              (λ r s'' k'. scanned r s'' k')))
  ]
    where
      scanned :
          (r : Option Packet) (s'' : Session T)
          → io.now t < io.now s''.link
          → (after_scan io again r s'').0 ≢ stuck
      scanned none s'' k = unfold after_scan in ih s'' k
      scanned (some p) s'' k = unfold after_scan in λ e. cc

  -- A round that goes on has taken time, so that the time left is fuel enough.
  read_loop-ne-stuck :
      (fuel deadline seq : ℕ) (s : Session T)
      → deadline - io.now s.link < fuel
      → (read_loop io fuel deadline seq s).0 ≢ stuck
  unfolding read_loop
  read_loop-ne-stuck zero deadline seq s h = absurd (omega arith)
  read_loop-ne-stuck (suc fuel) deadline seq s h =
      elim (Bool-cases (ltb (io.now s.link) deadline)) [
        | inl early ↦ rw early (
            bind_comes_back io live ticking (suc (io.now s.link)) (read_some io true none)
              (after_read io (read_loop io fuel deadline seq) seq) s
              (read_some-Since io live ticking none s)
              (λ data' s' k.
                after_read-ne-stuck (read_loop io fuel deadline seq) seq data' s.link s'
                  (λ s'' k'. read_loop-ne-stuck fuel deadline seq s'' (ground arith)) k))
        | inr late ↦ rw late (λ e. cc)
      ]

  -- `_read_response` ends on every link whose calls come back and whose blocking reads take time: it
  -- returns a packet, or it raises.
  pub read_response-ne-stuck : (seq : ℕ) (s : Session T) → (read_response io seq s).0 ≢ stuck
  unfolding read_response
  read_response-ne-stuck seq s =
      read_loop-ne-stuck (suc s.timeout) (io.now s.link + s.timeout) seq s (omega arith)
