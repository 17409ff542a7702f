-- ===== src/Client/Threads/Drained.antt =====
-- A flush thread that has emptied the queue by its own steps, and how such a run grows at its front.
use teensy_io.Base.{ℕ, true, List, [], ◌∷◌, ◌++◌, append-nil, append_assoc, length, map}
use teensy_io.Base.{◌≡◌, ◌≢◌, ◌<◌, refl, sym, ap, ◌∙◌, arith, inl, inr, ◌⊎◌}
use teensy_io.Client.Outbox.{Outbox, next_chunk}
use teensy_io.Client.Outbox.Flush.{IsCounted, next_chunk_lem}
use teensy_io.Client.Threads.{Role, Phase, Write, System, FlushStep, Step, Steps, enter}
use teensy_io.Client.Threads.Ordered.{IsOrdered, IsAlone, enter-here, enter-IsAlone}
use teensy_io.Client.Threads.Order.{Steps-IsOrdered}

-- The thread whose number is `f`, and no other.
abbrev pub Only : ℕ → ℕ → Type 0
Only f t = t ≡ f

pub shorter :
    (o : Outbox) → IsCounted o → o.queued ≢ [] → length (next_chunk o).1.queued < length o.queued
shorter o h waiting = by_queue o.queued refl
  where
    by_queue :
        (queued : List (List ℕ))
        → o.queued ≡ queued
        → length (next_chunk o).1.queued < length o.queued
    by_queue [] e = absurd (waiting e)
    by_queue (item ∷ queued) e =
        let (group, rest, split, _, less, valid, taken) = next_chunk_lem o item queued e h in
        rw taken (omega (arith, ap length e))

pub empty_or_not : {A : Type 0} (xs : List A) → (xs ≡ []) ⊎ (xs ≢ [])
empty_or_not [] = inl refl
empty_or_not (x ∷ xs) = inr (λ e. cc)

-- Steps of the thread `f` alone, after which nothing is queued and the thread waits for its next interval.
-- Nothing was put on the queue, and each of the chunks `more` was written by a call that returned.
pub record IsDrained (role : ℕ → Role) (f : ℕ) (s s' : System) : Type 0 where
  pub run : Steps role (Only f) s s'
  pub nothing_queued : s'.outbox.queued ≡ []
  pub rests : s'.phases f ≡ Phase.idle
  pub alone : IsAlone f s'
  pub same_bytes : s'.submitted ≡ s.submitted
  pub more : List (List ℕ)
  pub written : s'.writes ≡ s.writes ++ map (Write.chunk true) more

module _ (role : ℕ → Role) (f : ℕ) where
  -- A step of the thread that queues and writes nothing, in front.
  pub before :
      {s s1 s' : System}
      → Step role f s s1
      → s1.submitted ≡ s.submitted
      → s1.writes ≡ s.writes
      → IsDrained role f s1 s'
      → IsDrained role f s s'
  before first same unwritten d = record {
    run = Steps.step refl first d.run;
    nothing_queued = d.nothing_queued;
    rests = d.rests;
    alone = d.alone;
    same_bytes = d.same_bytes ∙ same;
    more = d.more;
    written = d.written ∙ ap (λ ws. ws ++ map (Write.chunk true) d.more) unwritten;
  }

  -- The write of a chunk in front.
  pub before_write :
      {s s1 s' : System} (bytes : List ℕ)
      → Step role f s s1
      → s1.submitted ≡ s.submitted
      → s1.writes ≡ s.writes ++ Write.chunk true bytes ∷ []
      → IsDrained role f s1 s'
      → IsDrained role f s s'
  before_write {s} bytes first same written d = record {
    run = Steps.step refl first d.run;
    nothing_queued = d.nothing_queued;
    rests = d.rests;
    alone = d.alone;
    same_bytes = d.same_bytes ∙ same;
    more = bytes ∷ d.more;
    written =
        d.written
        ∙ ap (λ ws. ws ++ map (Write.chunk true) d.more) written
        ∙ append_assoc s.writes (Write.chunk true bytes ∷ []) (map (Write.chunk true) d.more);
  }

  pub one_step : {s s' : System} → Step role f s s' → IsOrdered s → IsOrdered s'
  one_step {s} {s'} first h =
      let path : Steps role (Only f) s s' = Steps.step refl first (Steps.done s') in
      Steps-IsOrdered path h

  pub drain_end :
      (s : System)
      → IsAlone f s
      → s.outbox.queued ≡ []
      → s.phases f ≡ Phase.idle
      → IsDrained role f s s
  drain_end s alone empty e = record {
    run = Steps.done s;
    nothing_queued = empty;
    rests = e;
    alone = alone;
    same_bytes = refl;
    more = [];
    written = sym (append-nil s.writes);
  }

  pub leaves :
      (s : System)
      → IsAlone f s
      → s.phases f ≡ Phase.holding
      → s.outbox.queued ≡ []
      → (s' : System) × IsDrained role f s s'
  leaves s alone e empty =
      let s' : System = enter f Phase.idle s in
      (
        s',
        before (Step.flushing (FlushStep.leave s e empty)) refl refl
            (drain_end s' (enter-IsAlone f Phase.idle s alone) empty (enter-here f Phase.idle s)),
      )
