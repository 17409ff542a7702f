-- ===== src/Client/Threads/Ordered.antt =====
-- The invariant of the threads: what was queued, what was written, and who holds the lock.
use teensy_io.Base.{
  true, false, List, [], ◌∷◌, ◌++◌, append_assoc, append-nil, ℕ, Bool, Bool-cases, ◌==◌,
}
use teensy_io.Base.{◌≡◌, ◌≢◌, refl, sym, ap, ◌∙◌, arith, inl, inr}
use mathlib.Core.List.{flatten}
use teensy_io.Client.Outbox.{Outbox, next_chunk}
use teensy_io.Client.Outbox.Flush.{IsCounted, next_chunk_lem}
use teensy_io.Client.Threads.{Phase, Write, System, enter, holds}

abbrev pub carried : Phase → List ℕ
carried (Phase.carrying chunk) = chunk
carried _ = []

-- The bytes of the chunks that `flush` gave to `transport.write`, in the order of the calls.
unfoldable pub chunk_bytes : List Write → List ℕ
chunk_bytes [] = []
chunk_bytes (Write.chunk returned bytes ∷ ws) = bytes ++ chunk_bytes ws
chunk_bytes (Write.command returned bytes ∷ ws) = chunk_bytes ws

-- No other thread holds the lock.
abbrev pub IsAlone : ℕ → System → Type 0
IsAlone t s = (u : ℕ) → (u == t) ≡ false → holds (s.phases u) ≡ false

-- The queue's invariant; one thread at most holds the lock; and what was queued is what `flush` gave to
-- `transport.write`, then what the thread that may hold the lock has in its hands, then what is still
-- queued.
pub record IsOrdered (s : System) : Type 0 where
  pub counted : IsCounted s.outbox
  pub exclusive : (t u : ℕ) → holds (s.phases t) ≡ true → holds (s.phases u) ≡ true → t ≡ u
  pub ordered :
      (t : ℕ)
      → IsAlone t s
      → chunk_bytes s.writes ++ (carried (s.phases t) ++ flatten s.outbox.queued) ≡ s.submitted

pub chunk_bytes-chunk :
    (ws : List Write) (returned : Bool) (bytes : List ℕ)
    → chunk_bytes (ws ++ Write.chunk returned bytes ∷ []) ≡ chunk_bytes ws ++ bytes
unfolding chunk_bytes
chunk_bytes-chunk [] returned bytes = append-nil bytes
chunk_bytes-chunk (Write.chunk r b ∷ ws) returned bytes =
    ap (λ x. b ++ x) (chunk_bytes-chunk ws returned bytes)
    ∙ sym (append_assoc b (chunk_bytes ws) bytes)
chunk_bytes-chunk (Write.command r b ∷ ws) returned bytes = chunk_bytes-chunk ws returned bytes

pub chunk_bytes-command :
    (ws : List Write) (returned : Bool) (bytes : List ℕ)
    → chunk_bytes (ws ++ Write.command returned bytes ∷ []) ≡ chunk_bytes ws
unfolding chunk_bytes
chunk_bytes-command [] returned bytes = refl
chunk_bytes-command (Write.chunk r b ∷ ws) returned bytes =
    ap (λ x. b ++ x) (chunk_bytes-command ws returned bytes)
chunk_bytes-command (Write.command r b ∷ ws) returned bytes = chunk_bytes-command ws returned bytes

pub flatten-append : (xs ys : List (List ℕ)) → flatten (xs ++ ys) ≡ flatten xs ++ flatten ys
unfolding flatten
flatten-append [] ys = refl
flatten-append (x ∷ xs) ys =
    ap (λ zs. x ++ zs) (flatten-append xs ys) ∙ sym (append_assoc x (flatten xs) (flatten ys))

-- The chunk of a round is the front of the queue.
pub next_chunk-front :
    (o : Outbox)
    → IsCounted o
    → o.queued ≢ []
    → IsCounted (next_chunk o).1
      × ((next_chunk o).0 ++ flatten (next_chunk o).1.queued ≡ flatten o.queued)
next_chunk-front o h some_packet = by_queue o.queued refl
  where
    by_queue :
        (queued : List (List ℕ))
        → o.queued ≡ queued
        → IsCounted (next_chunk o).1
          × ((next_chunk o).0 ++ flatten (next_chunk o).1.queued ≡ flatten o.queued)
    by_queue [] e = absurd (some_packet e)
    by_queue (item ∷ queued) e =
        let (group, rest, split, _, _, valid, taken) = next_chunk_lem o item queued e h in
        rw taken (valid, sym (flatten-append group rest) ∙ ap flatten (sym split))

pub free-carried : (p : Phase) → holds p ≡ false → carried p ≡ []
free-carried (Phase.carrying chunk) e = absurd (cc)
free-carried Phase.over e = refl
free-carried Phase.idle e = refl
free-carried Phase.awake e = refl
free-carried Phase.wanting e = refl
free-carried Phase.holding e = refl
free-carried Phase.polling e = refl
free-carried Phase.reading e = refl
free-carried (Phase.calling encoded expect) e = refl
free-carried (Phase.sending encoded expect) e = refl

-- Where a thread is after another or itself went on.
pub enter-here : (t : ℕ) (p : Phase) (s : System) → (enter t p s).phases t ≡ p
enter-here t p s = let same : (t == t) ≡ true = ground arith in rw same refl

enter-same : (t u : ℕ) (p : Phase) (s : System) → (u == t) ≡ true → (enter t p s).phases u ≡ p
enter-same t u p s e = rw e refl

enter-other :
    (t u : ℕ) (p : Phase) (s : System) → (u == t) ≡ false → (enter t p s).phases u ≡ s.phases u
enter-other t u p s e = rw e refl

pub enter-IsAlone : (t : ℕ) (p : Phase) (s : System) → IsAlone t s → IsAlone t (enter t p s)
enter-IsAlone t p s alone u e = ap holds (enter-other t u p s e) ∙ alone u e

module _ (s : System) (h : IsOrdered s) where
  -- A thread that holds the lock is the only one.
  pub holds-IsAlone : (t : ℕ) → holds (s.phases t) ≡ true → IsAlone t s
  holds-IsAlone t e u other = elim (Bool-cases (holds (s.phases u))) [
    | inl both ↦ let same : u ≡ t = h.exclusive u t both e in absurd (ground arith)
    | inr free ↦ free
  ]

  -- A thread goes on while no other one holds the lock, with the queue and the writes as they are then.
  pub acts :
      (t : ℕ) (q : Phase) (outbox : Outbox) (writes : List Write)
      → IsAlone t s
      → IsCounted outbox
      → chunk_bytes writes ++ (carried q ++ flatten outbox.queued)
        ≡ chunk_bytes s.writes ++ (carried (s.phases t) ++ flatten s.outbox.queued)
      → IsOrdered (enter t q (record s { outbox = outbox; writes = writes }))
  acts t q outbox writes alone counted same = record {
    counted = counted;
    exclusive = λ a b ha hb. is_t a ha ∙ sym (is_t b hb);
    ordered = λ u alone'. elim (Bool-cases (u == t)) [
      | inl here ↦
          ap (λ p. chunk_bytes writes ++ (carried p ++ flatten outbox.queued))
            (enter-same t u q after here)
          ∙ same
          ∙ h.ordered t alone
      | inr other ↦
          ap (λ c. chunk_bytes writes ++ (c ++ flatten outbox.queued))
            (free-carried (s'.phases u) (ap holds (enter-other t u q after other) ∙ alone u other)
              ∙ sym (
                  free-carried q (ap holds (sym (enter-here t q after)) ∙ alone' t (ground arith))))
          ∙ same
          ∙ h.ordered t alone
    ];
  }
    where
      after : System
      after = record s { outbox = outbox; writes = writes }

      s' : System
      s' = enter t q after

      is_t : (a : ℕ) → holds (s'.phases a) ≡ true → a ≡ t
      is_t a ha = elim (Bool-cases (a == t)) [
        | inl here ↦ ground arith
        | inr other ↦
            let free = ap holds (enter-other t a q after other) ∙ alone a other in absurd (cc)
      ]

  -- A thread without the lock goes on without it.
  pub aside :
      (t : ℕ) (q : Phase) (stop : Bool)
      → holds (s.phases t) ≡ false
      → holds q ≡ false
      → IsOrdered (enter t q (record s { stop = stop }))
  aside t q stop before_ after_ = record {
    counted = h.counted;
    exclusive = λ a b ha hb. h.exclusive a b (held a ha) (held b hb);
    ordered = λ u alone'.
        ap (λ c. chunk_bytes s.writes ++ (c ++ flatten s.outbox.queued)) (same_hands u)
        ∙ h.ordered u (λ v other. was_free v (alone' v other));
  }
    where
      after : System
      after = record s { stop = stop }

      s' : System
      s' = enter t q after

      here_before : (v : ℕ) → (v == t) ≡ true → s.phases v ≡ s.phases t
      here_before v e = let same : v ≡ t = ground arith in ap s.phases same

      held : (v : ℕ) → holds (s'.phases v) ≡ true → holds (s.phases v) ≡ true
      held v e = elim (Bool-cases (v == t)) [
        | inl here ↦ let free = ap holds (enter-same t v q after here) ∙ after_ in absurd (cc)
        | inr other ↦ ap holds (sym (enter-other t v q after other)) ∙ e
      ]

      was_free : (v : ℕ) → holds (s'.phases v) ≡ false → holds (s.phases v) ≡ false
      was_free v e = elim (Bool-cases (v == t)) [
        | inl here ↦ ap holds (here_before v here) ∙ before_
        | inr other ↦ ap holds (sym (enter-other t v q after other)) ∙ e
      ]

      same_hands : (v : ℕ) → carried (s'.phases v) ≡ carried (s.phases v)
      same_hands v = elim (Bool-cases (v == t)) [
        | inl here ↦
            ap carried (enter-same t v q after here)
            ∙ free-carried q after_
            ∙ sym (free-carried (s.phases t) before_)
            ∙ ap carried (sym (here_before v here))
        | inr other ↦ ap carried (enter-other t v q after other)
      ]
