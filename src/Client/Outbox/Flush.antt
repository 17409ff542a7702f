-- ===== src/Client/Outbox/Flush.antt =====
-- What `flush` writes, for any transport.
use teensy_io.Base.{
  ℕ, zero, suc, ◌+◌, ◌≤◌, ◌<◌, List, [], ◌∷◌, ◌++◌, length, false, Option, none, some,
}
use teensy_io.Base.{◌≡◌, refl, sym, ap, ◌∙◌, arith, All, All-append_parts}
use mathlib.Core.List.{flatten}
use mathlib.Core.Path.{subst}
use teensy_io.Protocol.Errors.{Result, ok}
use teensy_io.Protocol.Exec.{Exec, ◌>>◌, bind_cong}
use teensy_io.Transport.{Transport}
use teensy_io.Client.Outbox.{
  Outbox, Sender, exceeds, fill, at_least_one, next_chunk, write_chunk, flush_loop, flush,
}
use teensy_io.Client.Outbox.Chunks.{total, total-append, IsChunk, NonEmpty, take-IsChunk}

-- The invariant of the queue: the byte count is right, and it keeps the limit.
pub record IsCounted (o : Outbox) : Type 0 where
  pub counted : o.queued_bytes ≡ total o.queued
  pub nonempty : All NonEmpty o.queued
  pub within : exceeds o.queue_max_bytes o.queued_bytes ≡ false

abbrev pub with_queue : Outbox → List (List ℕ) → Outbox
with_queue o queued = record o { queued = queued; queued_bytes = total queued }

pub exceeds_mono :
    (limit : Option ℕ) (small large : ℕ)
    → small ≤ large
    → exceeds limit large ≡ false
    → exceeds limit small ≡ false
exceeds_mono none small large h e = refl
exceeds_mono (some limit) small large h e = ground arith

pub next_chunk_lem :
    (o : Outbox) (item : List ℕ) (queued : List (List ℕ))
    → o.queued ≡ item ∷ queued
    → IsCounted o
    → (group rest : List (List ℕ)) × (o.queued ≡ group ++ rest)
      × IsChunk o.flush_chunk_size group
      × (length rest < length (item ∷ queued))
      × IsCounted (with_queue o rest)
      × (next_chunk o ≡ (flatten group, with_queue o rest))
unfolding next_chunk
next_chunk_lem o item queued e h =
    let all = subst (All NonEmpty) e h.nonempty in
    let (group, rest, split, chunk, shorter, made) =
      take-IsChunk o.flush_chunk_size item queued o.queued_bytes all.0 in
    let parts : total o.queued ≡ total group + total rest =
      ap total (e ∙ split) ∙ total-append group rest in
    (
      group,
      rest,
      e ∙ split,
      chunk,
      shorter,
      record {
        counted = refl;
        nonempty = (All-append_parts NonEmpty group rest (subst (All NonEmpty) split all)).1;
        within =
            exceeds_mono o.queue_max_bytes (total rest) o.queued_bytes (omega (arith, h.counted))
              h.within;
      },
      ap {B = List ℕ × Outbox}
            (λ (x : List ℕ × List (List ℕ) × ℕ).
              (x.0, record o { queued = x.1; queued_bytes = x.2 }))
            (ap (λ q. at_least_one (fill o.flush_chunk_size [] q o.queued_bytes)) e ∙ made)
          ∙ ap {B = List ℕ × Outbox}
              (λ n. (flatten group, record o { queued = rest; queued_bytes = n }))
              (omega (arith, h.counted)),
    )

module _ {T : Type 0} (io : Transport T) where
  -- Writing one group of packets, with `rest` left in the queue.
  unfoldable pub send_group : List (List ℕ) → List (List ℕ) → Exec (Sender T) (Unit {0})
  send_group group rest s =
      let (r, link) = io.write (flatten group) s.link in
      (r, record { outbox = with_queue s.outbox rest; link = link })

  -- Writing groups of packets one after the other: each group is one call of `write`, it has left
  -- the queue when the call is made, and the first call that raises ends it all.
  unfoldable pub send : List (List (List ℕ)) → Exec (Sender T) (Unit {0})
  unfolding send_group
  send [] s = (ok tt, s)
  send (group ∷ groups) s = (send_group group (flatten groups) >> send groups) s

module _ {T : Type 0} (io : Transport T) where
  write_chunk-send_group :
      (s : Sender T) (group rest : List (List ℕ))
      → next_chunk s.outbox ≡ (flatten group, with_queue s.outbox rest)
      → write_chunk io s ≡ send_group io group rest s
  unfolding write_chunk send_group
  write_chunk-send_group s group rest e =
      ap {B = Result (Unit {0}) × Sender T}
        (λ (x : List ℕ × Outbox).
          ((io.write x.0 s.link).0, record { outbox = x.1; link = (io.write x.0 s.link).1 }))
        e

  -- A round of the loop on a queue with a packet in it.
  flush_loop_round :
      (fuel : ℕ) (s : Sender T) (item : List ℕ) (queued : List (List ℕ))
      → s.outbox.queued ≡ item ∷ queued
      → flush_loop io (suc fuel) s ≡ (write_chunk io >> flush_loop io fuel) s
  unfolding flush_loop
  flush_loop_round fuel s item queued e = simp (e, flush_loop)

  flush_loop_end :
      (fuel : ℕ) (s : Sender T) → s.outbox.queued ≡ [] → flush_loop io fuel s ≡ (ok tt, s)
  unfolding flush_loop
  flush_loop_end zero s e = simp (e, flush_loop)
  flush_loop_end (suc fuel) s e = simp (e, flush_loop)

  flush_loop-send :
      (fuel : ℕ) (queued : List (List ℕ)) (s : Sender T)
      → s.outbox.queued ≡ queued
      → IsCounted s.outbox
      → length queued ≤ fuel
      → (groups : List (List (List ℕ))) × (flatten groups ≡ queued)
        × All (IsChunk s.outbox.flush_chunk_size) groups
        × (flush_loop io fuel s ≡ send io groups s)
  unfolding send send_group flatten
  flush_loop-send fuel [] s e h k = ([], refl, tt, flush_loop_end fuel s e)
  flush_loop-send zero (item ∷ queued) s e h k = absurd (omega arith)
  flush_loop-send (suc fuel) (item ∷ queued) s e h k =
      let (group, rest, split, chunk, shorter, valid, taken) =
        next_chunk_lem s.outbox item queued e h in
      let s' : Sender T = record {
        outbox = with_queue s.outbox rest;
        link = (io.write (flatten group) s.link).1;
      } in
      let (groups, same, chunks, sent) = flush_loop-send fuel rest s' refl valid (omega arith) in
      (
        group ∷ groups,
        ap (λ xs. group ++ xs) same ∙ sym split ∙ e,
        (chunk, chunks),
        flush_loop_round fuel s item queued e
            ∙ bind_cong (write_chunk io) (send_group io group rest) (λ _. flush_loop io fuel)
                (λ _. send io groups) s (write_chunk-send_group s group rest taken) (λ _ _. sent)
            ∙ ap (λ xs. (send_group io group xs >> send io groups) s) (sym same),
      )

  -- For any transport, on a queue whose byte count is right: `flush` behaves as a sequence of writes
  -- of the queued packets in their order, each packet once and whole. What one call of `write` gets
  -- is a run of packets that fit `flush_chunk_size` together, or a single packet that is larger.
  pub flush-send :
      (s : Sender T)
      → IsCounted s.outbox
      → (groups : List (List (List ℕ))) × (flatten groups ≡ s.outbox.queued)
        × All (IsChunk s.outbox.flush_chunk_size) groups
        × (flush io s ≡ send io groups s)
  unfolding flush
  flush-send s h = flush_loop-send (length s.outbox.queued) s.outbox.queued s refl h (omega arith)
