-- ===== src/Client/Threads/Order.antt =====
-- The queued bytes are written in the order in which they were queued, however the threads interleave.
use teensy_io.Base.{
  if◌then◌else◌, true, false, List, [], ◌∷◌, ◌++◌, append_assoc, append-nil, ℕ, Bool,
}
use teensy_io.Base.{◌≡◌, ◌≢◌, refl, sym, ap, ◌∙◌, inl, inr}
use mathlib.Core.List.{flatten}
use teensy_io.Protocol.Errors.{ok}
use teensy_io.Client.Outbox.{queue_packet, next_chunk}
use teensy_io.Client.Outbox.Chunks.{NonEmpty}
use teensy_io.Client.Outbox.Queue.{queue_packet-IsCounted}
use teensy_io.Client.Threads.{
  Role, Phase, Write, System, FlushStep, CommandStep, ReadStep, ThreadStep, Step, Steps, enter, log,
  holds, failed,
}
use teensy_io.Client.Threads.Ordered.{
  IsOrdered, IsAlone, carried, chunk_bytes, chunk_bytes-chunk, chunk_bytes-command, flatten-append,
  next_chunk-front, holds-IsAlone, acts, aside,
}

failed-carried : (r : Role) → carried (failed r) ≡ []
failed-carried Role.caller = refl
failed-carried Role.flusher = refl

after_write-carried : (expect : Bool) → carried (if expect then Phase.reading else Phase.idle) ≡ []
after_write-carried true = refl
after_write-carried false = refl

module _ (s : System) (h : IsOrdered s) (t : ℕ) where
  -- A thread takes the lock, or leaves it, without a chunk before and after.
  changes :
      (p q : Phase)
      → s.phases t ≡ p
      → IsAlone t s
      → carried p ≡ []
      → carried q ≡ []
      → IsOrdered (enter t q s)
  changes p q e alone none_before none_after = acts s h t q s.outbox s.writes alone h.counted (
      ap (λ c. chunk_bytes s.writes ++ (c ++ flatten s.outbox.queued))
        (none_after ∙ sym none_before ∙ sym (ap carried e)))

  takes :
      s.phases t ≡ Phase.holding
      → s.outbox.queued ≢ []
      → IsOrdered (
          enter t
            (Phase.carrying (next_chunk s.outbox).0)
            (record s { outbox = (next_chunk s.outbox).1 }))
  takes e waiting =
      let (counted, front) = next_chunk-front s.outbox h.counted waiting in
      acts s h t (Phase.carrying (next_chunk s.outbox).0) (next_chunk s.outbox).1 s.writes
        (holds-IsAlone s h t (ap holds e)) counted
        (ap (λ x. chunk_bytes s.writes ++ x) front
          ∙ ap (λ p. chunk_bytes s.writes ++ (carried p ++ flatten s.outbox.queued)) (sym e))

  -- The chunk in the hands of a thread is the next in the history, whether the write returns or raises.
  writes_chunk :
      (returned : Bool) (bytes : List ℕ) (q : Phase)
      → s.phases t ≡ Phase.carrying bytes
      → carried q ≡ []
      → IsOrdered (enter t q (log (Write.chunk returned bytes) s))
  writes_chunk returned bytes q e none =
      acts s h t q s.outbox (s.writes ++ Write.chunk returned bytes ∷ [])
        (holds-IsAlone s h t (ap holds e)) h.counted
        (ap
            (λ c.
              chunk_bytes (s.writes ++ Write.chunk returned bytes ∷ [])
              ++ (c ++ flatten s.outbox.queued))
            none
          ∙ ap (λ x. x ++ flatten s.outbox.queued) (chunk_bytes-chunk s.writes returned bytes)
          ∙ append_assoc (chunk_bytes s.writes) bytes (flatten s.outbox.queued)
          ∙ ap (λ p. chunk_bytes s.writes ++ (carried p ++ flatten s.outbox.queued)) (sym e))

  writes_command :
      (returned : Bool) (encoded : List ℕ) (expect : Bool) (q : Phase)
      → s.phases t ≡ Phase.sending encoded expect
      → carried q ≡ []
      → IsOrdered (enter t q (log (Write.command returned encoded) s))
  writes_command returned encoded expect q e none =
      acts s h t q s.outbox (s.writes ++ Write.command returned encoded ∷ [])
        (holds-IsAlone s h t (ap holds e)) h.counted
        (ap
            (λ c.
              chunk_bytes (s.writes ++ Write.command returned encoded ∷ [])
              ++ (c ++ flatten s.outbox.queued))
            none
          ∙ ap (λ x. x ++ flatten s.outbox.queued) (chunk_bytes-command s.writes returned encoded)
          ∙ ap (λ p. chunk_bytes s.writes ++ (carried p ++ flatten s.outbox.queued)) (sym e))

  submits :
      (encoded : List ℕ)
      → NonEmpty encoded
      → (queue_packet encoded s.outbox).0 ≡ ok tt
      → IsOrdered (record s {
        outbox = (queue_packet encoded s.outbox).1;
        submitted = s.submitted ++ encoded;
      })
  submits encoded nonempty accepted =
      let (counted, which) = queue_packet-IsCounted encoded s.outbox h.counted nonempty in
      record {
        counted = counted;
        exclusive = h.exclusive;
        ordered = λ u alone. elim which [
          | inl (_, _, queued) ↦
              ap (λ x. chunk_bytes s.writes ++ (carried (s.phases u) ++ x))
                (ap flatten queued ∙ last_flat s.outbox.queued)
              ∙ behind (chunk_bytes s.writes) (carried (s.phases u)) (flatten s.outbox.queued)
              ∙ ap (λ x. x ++ encoded) (h.ordered u alone)
          | inr (refused, _) ↦ absurd (cc)
        ];
      }
    where
      single : flatten (encoded ∷ []) ≡ encoded
      single = unfold flatten in append-nil encoded

      last_flat :
          (queued : List (List ℕ)) → flatten (queued ++ encoded ∷ []) ≡ flatten queued ++ encoded
      last_flat queued = flatten-append queued (encoded ∷ []) ∙ ap (λ x. flatten queued ++ x) single

      behind : (a b d : List ℕ) → a ++ (b ++ (d ++ encoded)) ≡ (a ++ (b ++ d)) ++ encoded
      behind a b d = simp append_assoc refl

-- Every step of every thread keeps the invariant.
module _ (role : ℕ → Role) (t : ℕ) where
  flush_step : {s s' : System} → FlushStep role t s s' → IsOrdered s → IsOrdered s'
  flush_step (FlushStep.call s r e) h = aside s h t Phase.wanting s.stop (ap holds e) refl
  flush_step (FlushStep.lock s e free) h =
      changes s h t Phase.wanting Phase.holding e (λ u _. free u) refl refl
  flush_step (FlushStep.take_chunk s e waiting) h = takes s h t e waiting
  flush_step (FlushStep.write s bytes e) h = writes_chunk s h t true bytes Phase.holding e refl
  flush_step (FlushStep.write_fails s bytes e) h =
      writes_chunk s h t false bytes (failed (role t)) e (failed-carried (role t))
  flush_step (FlushStep.leave s e empty) h =
      changes s h t Phase.holding Phase.idle e (holds-IsAlone s h t (ap holds e)) refl refl

  command_step : {s s' : System} → CommandStep role t s s' → IsOrdered s → IsOrdered s'
  command_step (CommandStep.submit s encoded r e nonempty accepted) h =
      submits s h t encoded nonempty accepted
  command_step (CommandStep.call s encoded expect r e) h =
      aside s h t (Phase.calling encoded expect) s.stop (ap holds e) refl
  command_step (CommandStep.lock s encoded expect e free) h =
      changes s h t (Phase.calling encoded expect) (Phase.sending encoded expect) e (λ u _. free u)
        refl refl
  command_step (CommandStep.write s encoded expect e) h =
      writes_command s h t true encoded expect (if expect then Phase.reading else Phase.idle) e
        (after_write-carried expect)
  command_step (CommandStep.write_fails s encoded expect e) h =
      writes_command s h t false encoded expect Phase.idle e refl

  read_step : {s s' : System} → ReadStep role t s s' → IsOrdered s → IsOrdered s'
  read_step (ReadStep.poll s r e) h = aside s h t Phase.polling s.stop (ap holds e) refl
  read_step (ReadStep.lock s e free) h =
      changes s h t Phase.polling Phase.reading e (λ u _. free u) refl refl
  read_step (ReadStep.leave s e) h =
      changes s h t Phase.reading Phase.idle e (holds-IsAlone s h t (ap holds e)) refl refl

  thread_step : {s s' : System} → ThreadStep role t s s' → IsOrdered s → IsOrdered s'
  thread_step (ThreadStep.start s u r e r' over) h =
      aside s h u Phase.idle false (ap holds over) refl
  thread_step (ThreadStep.set_stop s r e) h = record {
    counted = h.counted;
    exclusive = h.exclusive;
    ordered = h.ordered;
  }
  thread_step (ThreadStep.wake s r e running) h = aside s h t Phase.awake s.stop (ap holds e) refl
  thread_step (ThreadStep.finish s r e stopped) h = aside s h t Phase.over s.stop (ap holds e) refl
  thread_step (ThreadStep.flush s e waiting) h = aside s h t Phase.wanting s.stop (ap holds e) refl
  thread_step (ThreadStep.rest s e empty) h = aside s h t Phase.idle s.stop (ap holds e) refl

  pub Step-IsOrdered : {s s' : System} → Step role t s s' → IsOrdered s → IsOrdered s'
  Step-IsOrdered (Step.flushing x) h = flush_step x h
  Step-IsOrdered (Step.commanding x) h = command_step x h
  Step-IsOrdered (Step.reading x) h = read_step x h
  Step-IsOrdered (Step.running x) h = thread_step x h

-- However any number of threads that flush, call commands, poll, start and stop flush threads interleave,
-- and whichever writes raise: the chunks that `flush` gave to `transport.write` (also where the write
-- raised, so that the chunk is lost), then the chunk that the holder of `_transport_lock` has in its
-- hands, then what is still queued, are in this order the bytes that were queued from the start, in the
-- order of the queueing. Commands that are sent at once stand between these writes. One thread at most
-- holds the lock, and the byte count of the queue is right and within the limit.
pub Steps-IsOrdered :
    {role : ℕ → Role} {who : ℕ → Type 0} {s s' : System}
    → Steps role who s s'
    → IsOrdered s
    → IsOrdered s'
Steps-IsOrdered (Steps.done s) h = h
Steps-IsOrdered {role} (Steps.step {t} w first rest) h =
    Steps-IsOrdered rest (Step-IsOrdered role t first h)
