-- ===== src/Client/Outbox/Queue.antt =====
-- The queue's invariant under every operation, and what a flush leaves.
use teensy_io.Base.{ℕ, ◌+◌, ◌≤◌, ◌<◌, Option, none, some, List, [], ◌∷◌, ◌++◌, length}
use teensy_io.Base.{
  ◌⊎◌, ◌≡◌, refl, sym, ap, ◌∙◌, arith, true, All, All-append, false, Bool-cases, inl, inr,
}
use mathlib.Core.List.{flatten}
use teensy_io.Protocol.Errors.{Error, ok, err}
use teensy_io.Protocol.Exec.{bind_step, bind_raise}
use teensy_io.Transport.{Transport}
use teensy_io.Client.Outbox.{Outbox, Sender, exceeds, queue_packet, flush}
use teensy_io.Client.Outbox.Chunks.{total, total-append, IsChunk, NonEmpty}
use teensy_io.Client.Outbox.Flush.{IsCounted, with_queue, send_group, send, flush-send}

-- A number of bytes against `queue_max_bytes`: where there is no limit, all are within it.
abbrev pub Within : Option ℕ → ℕ → Type 0
Within none n = Unit
Within (some limit) n = n ≤ limit

abbrev pub Over : Option ℕ → ℕ → Type 0
Over none n = ⊥
Over (some limit) n = limit < n

exceeds-Over : (limit : Option ℕ) (n : ℕ) → exceeds limit n ≡ true → Over limit n
exceeds-Over none n e = cc
exceeds-Over (some limit) n e = ground arith

exceeds-Within : (limit : Option ℕ) (n : ℕ) → exceeds limit n ≡ false → Within limit n
exceeds-Within none n e = tt
exceeds-Within (some limit) n e = ground arith

-- Queueing a packet keeps the invariant. It puts the packet behind the others, and then all of them
-- are within the limit on the bytes; or it raises `QueueFullError` and changes nothing, and then there
-- is a limit and they would be over it.
pub queue_packet-IsCounted :
    (encoded : List ℕ) (o : Outbox)
    → IsCounted o
    → NonEmpty encoded
    → IsCounted (queue_packet encoded o).1
      × (((queue_packet encoded o).0 ≡ ok tt)
            × Within o.queue_max_bytes (total o.queued + length encoded)
            × ((queue_packet encoded o).1.queued ≡ o.queued ++ encoded ∷ [])
          ⊎ ((queue_packet encoded o ≡ (err Error.queue_full, o))
              × Over o.queue_max_bytes (total o.queued + length encoded)))
unfolding queue_packet
queue_packet-IsCounted encoded o h g =
    elim (Bool-cases (exceeds o.queue_max_bytes (o.queued_bytes + length encoded))) [
      | inl full ↦ rw full (
        h,
        inr (
          refl,
          exceeds-Over o.queue_max_bytes (total o.queued + length encoded) (rw (← h.counted) full),
        ),
      )
      | inr room ↦ rw room (
        record {
          counted = omega (arith, h.counted, total-append o.queued (encoded ∷ []));
          nonempty = All-append NonEmpty o.queued (encoded ∷ []) h.nonempty (g, tt);
          within = room;
        },
        inl (
          refl,
          exceeds-Within o.queue_max_bytes (total o.queued + length encoded)
              (rw (← h.counted) room),
          refl,
        ),
      )
    ]

module _ {T : Type 0} (io : Transport T) where
  send_clears :
      (groups : List (List (List ℕ))) (s : Sender T)
      → ((bytes : List ℕ) (t : T) → (io.write bytes t).0 ≡ ok tt)
      → s.outbox ≡ with_queue s.outbox (flatten groups)
      → ((send io groups s).0 ≡ ok tt) × ((send io groups s).1.outbox ≡ with_queue s.outbox [])
  unfolding send send_group flatten
  send_clears [] s works e = (refl, e)
  send_clears (group ∷ groups) s works e =
      let s' = (send_group io group (flatten groups) s).1 in
      let next =
        bind_step (send_group io group (flatten groups)) (λ _. send io groups) s tt
          (works (flatten group) s.link) in
      rw next (send_clears groups s' works refl)

  -- Where every write succeeds, `flush` returns, and leaves an empty queue and a byte count of zero.
  pub flush_clears :
      (s : Sender T)
      → IsCounted s.outbox
      → ((bytes : List ℕ) (t : T) → (io.write bytes t).0 ≡ ok tt)
      → ((flush io s).0 ≡ ok tt)
        × ((flush io s).1.outbox ≡ record s.outbox { queued = []; queued_bytes = 0 })
  flush_clears s h works =
      let (groups, same, _, sent) = flush-send io s h in
      rw sent (
        send_clears groups s works (
          ap {B = Outbox} (λ n. record s.outbox { queued_bytes = n }) h.counted
          ∙ ap (with_queue s.outbox) (sym same)))

  -- Where the link is down, `flush` raises what the first write raises, and the packets of that write
  -- are lost: they have left the queue.
  pub flush_loses :
      (s : Sender T) (x : Error) (item : List ℕ) (more : List (List ℕ))
      → IsCounted s.outbox
      → s.outbox.queued ≡ item ∷ more
      → ((bytes : List ℕ) → (io.write bytes s.link).0 ≡ err x)
      → (group rest : List (List ℕ)) × (s.outbox.queued ≡ group ++ rest)
        × IsChunk s.outbox.flush_chunk_size group
        × ((flush io s).0 ≡ err x)
        × ((flush io s).1.outbox ≡ with_queue s.outbox rest)
  unfolding send_group
  flush_loses s x item more h e down =
      let (groups, same, chunks, sent) = flush-send io s h in first groups same chunks sent
    where
      first :
          (groups : List (List (List ℕ)))
          → flatten groups ≡ s.outbox.queued
          → All (IsChunk s.outbox.flush_chunk_size) groups
          → flush io s ≡ send io groups s
          → (group rest : List (List ℕ)) × (s.outbox.queued ≡ group ++ rest)
            × IsChunk s.outbox.flush_chunk_size group
            × ((flush io s).0 ≡ err x)
            × ((flush io s).1.outbox ≡ with_queue s.outbox rest)
      first [] same chunks sent = absurd (unfold flatten in cc (same ∙ e))
      first (group ∷ groups) same chunks sent =
          let lost : send io (group ∷ groups) s
              ≡ (err x, (send_group io group (flatten groups) s).1) =
            unfold send in
            bind_raise (send_group io group (flatten groups)) (λ _. send io groups) s x
              (down (flatten group)) in
          (
            group,
            flatten groups,
            unfold flatten in sym same,
            chunks.0,
            ap (λ y. y.0) (sent ∙ lost),
            ap (λ y. y.1.outbox) (sent ∙ lost),
          )
