-- ===== src/Client/Lifecycle/Closing.antt =====
-- What `close` does with commands that still wait in the queue.
use teensy_io.Base.{ℕ, ◌==◌, true, false, List, [], ◌∷◌, length, if◌then◌else◌, All}
use teensy_io.Base.{◌≡◌, refl, ap, ◌∙◌, arith}
use mathlib.Core.List.{flatten}
use teensy_io.Protocol.Errors.{Result, ok}
use teensy_io.Protocol.Exec.{Exec, on, bind_cong, ◌>>◌}
use teensy_io.Transport.{Transport}
use teensy_io.Client.Outbox.{Sender, flush, queued_packet_count}
use teensy_io.Client.Outbox.Chunks.{IsChunk}
use teensy_io.Client.Outbox.Flush.{IsCounted, send, flush-send}
use teensy_io.Client.Session.{Session, flush_session, on_link}
use teensy_io.Client.Lifecycle.{Running, Joins, in_session, close, flush_waiting}

module _ {T : Type 0} where
  abbrev pub on_sender : {A : Type 0} → Exec (Sender T) A → Exec (Session T) A
  on_sender =
      on (λ s. record { outbox = s.outbox; link = s.link })
        (λ s (x : Sender T). record s { outbox = x.outbox; link = x.link })

  -- After the joining of the heartbeat thread, and then of the flush thread.
  abbrev pub stopped : Joins T → Running T → Running T
  stopped joins r =
      let first = if r.heartbeat_thread then joins.heartbeat r.session else r.session in
      record {
        session = if r.flush_thread then joins.flush first else first;
        flush_stop = true;
        flush_thread = false;
        heartbeat_stop = true;
        heartbeat_thread = false;
      }

module _ {T : Type 0} (io : Transport T) (r : Running T) (h : IsCounted r.session.outbox) where
  abbrev sender : Sender T
  sender = record { outbox = r.session.outbox; link = r.session.link }

  waiting_none : r.session.outbox.queued ≡ [] → flush_waiting io r ≡ (ok tt, r)
  unfolding flush_waiting
  waiting_none e =
      let none_left : (queued_packet_count r.session.outbox == 0) ≡ true =
        unfold queued_packet_count in ground (arith, ap length e) in
      rw none_left refl

  waiting_some :
      (item : List ℕ) (more : List (List ℕ))
      → r.session.outbox.queued ≡ item ∷ more
      → flush_waiting io r ≡ in_session (on_sender (flush io)) r
  unfolding flush_waiting flush_session
  waiting_some item more e =
      let some_left : (queued_packet_count r.session.outbox == 0) ≡ false =
        unfold queued_packet_count in ground (arith, ap length e) in
      rw some_left refl

  waiting-send :
      (groups : List (List (List ℕ))) × (flatten groups ≡ r.session.outbox.queued)
      × All (IsChunk r.session.outbox.flush_chunk_size) groups
      × (flush_waiting io r ≡ in_session (on_sender (send io groups)) r)
  waiting-send = by_queue r.session.outbox.queued refl
    where
      by_queue :
          (queued : List (List ℕ))
          → r.session.outbox.queued ≡ queued
          → (groups : List (List (List ℕ))) × (flatten groups ≡ queued)
            × All (IsChunk r.session.outbox.flush_chunk_size) groups
            × (flush_waiting io r ≡ in_session (on_sender (send io groups)) r)
      by_queue [] e = ([], unfold flatten in refl, tt, waiting_none e ∙ (unfold send in refl))
      by_queue (item ∷ more) e =
          let (groups, same, chunks, sent) = flush-send io sender h in
          (
            groups,
            same ∙ e,
            chunks,
            waiting_some item more e
                ∙ ap {B = Result (Unit {0}) × Running T}
                    (λ (x : Result (Unit {0}) × Sender T). (
                      x.0,
                      record r {
                        session = record r.session { outbox = x.1.outbox; link = x.1.link };
                      },
                    ))
                    sent,
          )

module _ {T : Type 0} (io : Transport T) (joins : Joins T) (r : Running T)
    (h : IsCounted (stopped joins r).session.outbox) where
  -- `close` tells both threads to stop and waits for them for a while. Then it writes the packets that
  -- are queued at that time, each once, whole and in order, in runs that fit `flush_chunk_size` or are
  -- a single larger packet; and after the last write it closes the link. The first write that raises
  -- ends it: its exception is raised, and the link is not closed.
  pub close-flushes :
      (groups : List (List (List ℕ))) × (flatten groups ≡ (stopped joins r).session.outbox.queued)
      × All (IsChunk (stopped joins r).session.outbox.flush_chunk_size) groups
      × (close io joins r
          ≡ (in_session (on_sender (send io groups)) >> in_session (on_link io.close_link))
              (stopped joins r))
  unfolding close
  close-flushes =
      let (groups, same, chunks, sent) = waiting-send io (stopped joins r) h in
      (
        groups,
        same,
        chunks,
        bind_cong (flush_waiting io) (in_session (on_sender (send io groups)))
            (λ _. in_session (on_link io.close_link)) (λ _. in_session (on_link io.close_link))
            (stopped joins r) sent (λ _ _. refl),
      )
