-- ===== src/Client/Threads/Progress.antt =====
-- The flush thread empties the queue by its own steps.
use teensy_io.Base.{ℕ, zero, suc, true, false, List, [], ◌++◌, append-nil, length, map}
use teensy_io.Base.{◌≡◌, ◌≤◌, refl, sym, ap, ◌∙◌, arith, inl, inr, Bool, Bool-cases, ◌==◌}
use mathlib.Core.List.{flatten}
use teensy_io.Client.Outbox.{next_chunk}
use teensy_io.Client.Threads.{
  Role, Phase, Write, System, FlushStep, ThreadStep, Step, Steps, enter, log, holds, IsFree,
}
use teensy_io.Client.Threads.Ordered.{
  IsOrdered, IsAlone, carried, chunk_bytes, enter-here, enter-IsAlone,
}
use teensy_io.Client.Threads.Order.{Steps-IsOrdered}
use teensy_io.Client.Threads.Drained.{
  Only, IsDrained, shorter, empty_or_not, before, before_write, one_step, drain_end, leaves,
}

-- A flush thread that was started and has not ended.
abbrev pub is_running : Phase → Bool
is_running Phase.idle = true
is_running Phase.awake = true
is_running Phase.wanting = true
is_running Phase.holding = true
is_running (Phase.carrying bytes) = true
is_running _ = false

module _ (role : ℕ → Role) (f : ℕ) where
  -- A round of the loop: a chunk is taken and written, and the queue is shorter.
  drain_holding :
      (n : ℕ) (s : System)
      → IsOrdered s
      → IsAlone f s
      → length s.outbox.queued ≤ n
      → s.phases f ≡ Phase.holding
      → (s' : System) × IsDrained role f s s'
  drain_holding zero s h alone bound e = elim (empty_or_not s.outbox.queued) [
    | inl empty ↦ leaves role f s alone e empty
    | inr waiting ↦ absurd (omega (arith, shorter s.outbox h.counted waiting))
  ]
  drain_holding (suc n) s h alone bound e = elim (empty_or_not s.outbox.queued) [
    | inl empty ↦ leaves role f s alone e empty
    | inr waiting ↦
        let bytes : List ℕ = (next_chunk s.outbox).0 in
        let taken : System = record s { outbox = (next_chunk s.outbox).1 } in
        let next : System = enter f (Phase.carrying bytes) taken in
        let first : Step role f s next = Step.flushing (FlushStep.take_chunk s e waiting) in
        let logged : System = log (Write.chunk true bytes) next in
        let wrote : System = enter f Phase.holding logged in
        let second : Step role f next wrote =
          Step.flushing (FlushStep.write next bytes (enter-here f (Phase.carrying bytes) taken)) in
        let (s', drained) =
          drain_holding n wrote (one_step role f second (one_step role f first h))
            (enter-IsAlone f Phase.holding logged
              (enter-IsAlone f (Phase.carrying bytes) taken alone))
            (omega (arith, shorter s.outbox h.counted waiting))
            (enter-here f Phase.holding logged) in
        (s', before role f first refl refl (before_write role f bytes second refl refl drained))
  ]

  drain_carrying :
      (s : System) (bytes : List ℕ)
      → IsOrdered s
      → IsAlone f s
      → s.phases f ≡ Phase.carrying bytes
      → (s' : System) × IsDrained role f s s'
  drain_carrying s bytes h alone e =
      let logged : System = log (Write.chunk true bytes) s in
      let next : System = enter f Phase.holding logged in
      let first : Step role f s next = Step.flushing (FlushStep.write s bytes e) in
      let (s', drained) =
        drain_holding (length s.outbox.queued) next (one_step role f first h)
          (enter-IsAlone f Phase.holding logged alone) (omega arith)
          (enter-here f Phase.holding logged) in
      (s', before_write role f bytes first refl refl drained)

  drain_wanting :
      (s : System)
      → IsOrdered s
      → IsAlone f s
      → s.phases f ≡ Phase.wanting
      → (s' : System) × IsDrained role f s s'
  drain_wanting s h alone e =
      let next : System = enter f Phase.holding s in
      let first : Step role f s next = Step.flushing (FlushStep.lock s e free) in
      let (s', drained) =
        drain_holding (length s.outbox.queued) next (one_step role f first h)
          (enter-IsAlone f Phase.holding s alone) (omega arith) (enter-here f Phase.holding s) in
      (s', before role f first refl refl drained)
    where
      free : IsFree s
      free u = elim (Bool-cases (u == f)) [
        | inl here ↦ let same : u ≡ f = ground arith in ap holds (ap s.phases same ∙ e)
        | inr other ↦ alone u other
      ]

  drain_awake :
      (s : System)
      → IsOrdered s
      → IsAlone f s
      → s.phases f ≡ Phase.awake
      → (s' : System) × IsDrained role f s s'
  drain_awake s h alone e = elim (empty_or_not s.outbox.queued) [
    | inl empty ↦
        let next : System = enter f Phase.idle s in
        (
          next,
          before role f (Step.running (ThreadStep.rest s e empty)) refl refl (
              drain_end role f next (enter-IsAlone f Phase.idle s alone) empty
                (enter-here f Phase.idle s)),
        )
    | inr waiting ↦
        let next : System = enter f Phase.wanting s in
        let first : Step role f s next = Step.running (ThreadStep.flush s e waiting) in
        let (s', drained) =
          drain_wanting next (one_step role f first h) (enter-IsAlone f Phase.wanting s alone)
            (enter-here f Phase.wanting s) in
        (s', before role f first refl refl drained)
  ]

  drain_idle :
      (s : System)
      → IsOrdered s
      → IsAlone f s
      → role f ≡ Role.flusher
      → s.stop ≡ false
      → s.phases f ≡ Phase.idle
      → (s' : System) × IsDrained role f s s'
  drain_idle s h alone is_flusher running e =
      let next : System = enter f Phase.awake s in
      let first : Step role f s next = Step.running (ThreadStep.wake s is_flusher e running) in
      let (s', drained) =
        drain_awake next (one_step role f first h) (enter-IsAlone f Phase.awake s alone)
          (enter-here f Phase.awake s) in
      (s', before role f first refl refl drained)

  drains :
      (s : System) (p : Phase)
      → IsOrdered s
      → IsAlone f s
      → role f ≡ Role.flusher
      → s.stop ≡ false
      → s.phases f ≡ p
      → is_running p ≡ true
      → (s' : System) × IsDrained role f s s'
  drains s Phase.idle h alone r running e alive = drain_idle s h alone r running e
  drains s Phase.awake h alone r running e alive = drain_awake s h alone e
  drains s Phase.wanting h alone r running e alive = drain_wanting s h alone e
  drains s Phase.holding h alone r running e alive =
      drain_holding (length s.outbox.queued) s h alone (omega arith) e
  drains s (Phase.carrying bytes) h alone r running e alive = drain_carrying s bytes h alone e
  drains s _ h alone r running e alive = absurd (cc)

-- From every state that keeps the invariant, in which the flush thread `f` runs, is not told to stop,
-- and no other thread holds `_transport_lock`: the steps of this thread alone, with writes that return,
-- lead to a state in which nothing is queued and it waits for its next interval. Then the chunks that
-- `flush` gave to `transport.write` are all the bytes that were ever queued, in the order of the
-- queueing.
pub flush_thread-drains :
    (role : ℕ → Role) (f : ℕ) (s : System)
    → IsOrdered s
    → role f ≡ Role.flusher
    → is_running (s.phases f) ≡ true
    → s.stop ≡ false
    → IsAlone f s
    → (s' : System) × Steps role (Only f) s s'
      × (s'.outbox.queued ≡ [])
      × (s'.phases f ≡ Phase.idle)
      × ((more : List (List ℕ)) × (s'.writes ≡ s.writes ++ map (Write.chunk true) more))
      × (chunk_bytes s'.writes ≡ s.submitted)
unfolding flatten
flush_thread-drains role f s h r alive running alone =
    let (s', d) = drains role f s (s.phases f) h alone r running refl alive in
    let all = (Steps-IsOrdered d.run h).ordered f d.alone in
    (
      s',
      d.run,
      d.nothing_queued,
      d.rests,
      (d.more, d.written),
      sym (append-nil (chunk_bytes s'.writes))
          ∙ ap (λ q. chunk_bytes s'.writes ++ flatten q) (sym d.nothing_queued)
          ∙ ap (λ p. chunk_bytes s'.writes ++ (carried p ++ flatten s'.outbox.queued)) (sym d.rests)
          ∙ all
          ∙ d.same_bytes,
    )
