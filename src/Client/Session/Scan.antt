-- ===== src/Client/Session/Scan.antt =====
-- What `_read_response` makes of the packets of one read.
use teensy_io.Base.{
  ℕ, zero, suc, ◌+◌, List, [], ◌∷◌, ◌++◌, length, ltb, ◌==◌, Bool-cases, true, false, All,
}
use teensy_io.Base.{◌≡◌, ◌≢◌, refl, sym, ap, ◌∙◌, arith, Option, none, some, inl, inr}
use teensy_io.Protocol.Errors.{Error, Result, ok, err, map_result}
use teensy_io.Protocol.Exec.{Exec, pure, bind_ok, bind_assoc, bind_cong, ◌>>=◌, ◌>>◌}
use teensy_io.Protocol.Packet.{Packet}
use teensy_io.Transport.{Transport}
use teensy_io.Client.Inbox.{handle_async_packet}
use teensy_io.Client.Session.{
  Session, handle_each, scan_packets, on_inbox, read_some, after_scan, after_read, feed_decoder,
  read_loop, read_response,
}

-- The packets in front of the awaited response go to the handler, in their order; the response is
-- returned; and the packets behind it in the same read, whatever they are, have no effect at all: the
-- decoder has given them out, so that they are lost.
pub scan_packets-drops :
    {T : Type 0} (seq : ℕ) (front behind : List Packet) (p : Packet) (s : Session T)
    → All (λ (q : Packet). q.seq ≢ seq) front
    → p.seq ≡ seq
    → scan_packets seq (front ++ p ∷ behind) s ≡ (handle_each front >> pure (some p)) s
unfolding scan_packets handle_each
scan_packets-drops seq [] behind p s h e = ground arith
scan_packets-drops {T} seq (q ∷ front) behind p s (h, hs) e =
    let other : (q.seq == seq) ≡ false = ground arith in
    rw other (
      bind_cong (on_inbox (handle_async_packet q)) (on_inbox (handle_async_packet q))
        (λ _. scan_packets seq (front ++ p ∷ behind)) (λ _. handle_each front >> pure (some p)) s
        refl (λ _ _. scan_packets-drops seq front behind p _ hs e)
      ∙ sym (
          bind_assoc (on_inbox (handle_async_packet q)) (λ _. handle_each front)
            (λ _. pure (some p)) s))

scan_packets-seq :
    {T : Type 0} (seq : ℕ) (packets : List Packet) (s : Session T) (p : Packet)
    → (scan_packets seq packets s).0 ≡ ok (some p)
    → p.seq ≡ seq
unfolding scan_packets
scan_packets-seq seq [] s p e = absurd (cc)
scan_packets-seq {T} seq (q ∷ qs) s p e = elim (Bool-cases (q.seq == seq)) [
  | inl same ↦ ground arith
  | inr other ↦
      let next : Exec (Session T) (Option Packet) =
        on_inbox (handle_async_packet q) >> scan_packets seq qs in
      let step : scan_packets seq (q ∷ qs) s ≡ next s = rw other refl in
      let (_, _, rest) =
        bind_ok (on_inbox (handle_async_packet q)) (λ _. scan_packets seq qs) s
          (ap (λ x. x.0) (sym step) ∙ e) in
      scan_packets-seq seq qs _ p rest
]

module _ {T : Type 0} (io : Transport T) where
  -- What holds of every packet that the rounds still to come return holds of this round's.
  after_read-seq :
      (again : Exec (Session T) Packet) (seq : ℕ) (data' : List ℕ) (s : Session T) (p : Packet)
      → ((s' : Session T) → (again s').0 ≡ ok p → p.seq ≡ seq)
      → (after_read io again seq data' s).0 ≡ ok p
      → p.seq ≡ seq
  after_read-seq again seq data' s p ih e = elim (Bool-cases (length data' == 0)) [
    | inl nothing ↦ ih s (ap (λ x. x.0) (sym (idle nothing)) ∙ e)
    | inr some_data ↦
        let (packets, _, scanned) =
          bind_ok (feed_decoder data') (λ packets. scan_packets seq packets >>= after_scan io again)
            s (ap (λ x. x.0) (sym (busy some_data)) ∙ e) in
        let (found, first, last) =
          bind_ok (scan_packets seq packets) (after_scan io again) (feed_decoder data' s).1
            scanned in
        by_packet found _ _ first last
  ]
    where
      idle : (length data' == 0) ≡ true → after_read io again seq data' s ≡ again s
      idle nothing = unfold after_read in rw nothing refl

      busy :
          (length data' == 0) ≡ false
          → after_read io again seq data' s
            ≡ (feed_decoder data' >>= λ packets. scan_packets seq packets >>= after_scan io again) s
      busy some_data = unfold after_read in rw some_data refl

      by_packet :
          (found : Option Packet) (packets : List Packet) (s' : Session T)
          → (scan_packets seq packets s').0 ≡ ok found
          → (after_scan io again found (scan_packets seq packets s').1).0 ≡ ok p
          → p.seq ≡ seq
      by_packet none packets s' first last =
          ih (scan_packets seq packets s').1 (unfold after_scan in last)
      by_packet (some q) packets s' first last =
          let same : ◌≡◌ {A = Result Packet} (ok q) (ok p) = unfold after_scan in last in
          scan_packets-seq seq packets s' p (first ∙ ap (map_result some) same)

  read_loop-seq :
      (fuel deadline seq : ℕ) (s : Session T) (p : Packet)
      → (read_loop io fuel deadline seq s).0 ≡ ok p
      → p.seq ≡ seq
  unfolding read_loop
  read_loop-seq zero deadline seq s p e = absurd (cc)
  read_loop-seq (suc fuel) deadline seq s p e = elim (Bool-cases (ltb (io.now s.link) deadline)) [
    | inl early ↦
        let again : Exec (Session T) Packet = read_loop io fuel deadline seq in
        let step : read_loop io (suc fuel) deadline seq s
            ≡ (read_some io true none >>= after_read io again seq) s =
          rw early refl in
        let (data', _, rest) =
          bind_ok (read_some io true none) (after_read io again seq) s
            (ap (λ x. x.0) (sym step) ∙ e) in
        after_read-seq again seq data' _ p (λ s' h. read_loop-seq fuel deadline seq s' p h) rest
    | inr late ↦
        let step : read_loop io (suc fuel) deadline seq s ≡ (err Error.timeout, s) = rw late refl in
        absurd (cc)
  ]

  -- A packet that `_read_response` returns has the awaited number, whatever else came in meanwhile.
  pub read_response-seq :
      (seq : ℕ) (s : Session T) (p : Packet) → (read_response io seq s).0 ≡ ok p → p.seq ≡ seq
  unfolding read_response
  read_response-seq seq s p e = read_loop-seq (suc s.timeout) (io.now s.link + s.timeout) seq s p e
