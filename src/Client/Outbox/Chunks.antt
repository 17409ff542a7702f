-- ===== src/Client/Outbox/Chunks.antt =====
-- The chunks that `flush` takes off the queue.
use teensy_io.Base.{
  ℕ, ◌+◌, ◌-◌, ◌≤◌, ◌<◌, List, [], ◌∷◌, ◌++◌, length, length-append, append_assoc, append-nil,
}
use teensy_io.Base.{◌≡◌, refl, sym, ap, ◌∙◌, inl, inr, arith, leb, Bool-cases}
use mathlib.Core.Path.{ap₂}
use mathlib.Core.List.{flatten}
use teensy_io.Client.Outbox.{fill, at_least_one}

-- The bytes in a queue of packets.
abbrev pub total : List (List ℕ) → ℕ
total [] = 0
total (p ∷ ps) = length p + total ps

pub total-append : (ps qs : List (List ℕ)) → total (ps ++ qs) ≡ total ps + total qs
total-append [] qs = omega arith
total-append (p ∷ ps) qs = omega (arith, total-append ps qs)

-- The packets of one chunk: together they fit it, or there is but one.
pub data IsChunk (size : ℕ) : List (List ℕ) → Type 0 where
  fits :
      (p : List ℕ) (ps : List (List ℕ)) → length (flatten (p ∷ ps)) ≤ size → IsChunk size (p ∷ ps)
  alone : (p : List ℕ) → size < length p → IsChunk size (p ∷ [])

filled :
    {a a' : List ℕ} {b b' : ℕ} (q : List (List ℕ))
    → a ≡ a'
    → b ≡ b'
    → ◌≡◌ {A = List ℕ × List (List ℕ) × ℕ} (a, q, b) (a', q, b')
filled q x y = ap₂ (λ a b. (a, q, b)) x y

-- The packets that `fill` moves are the front of the queue, and as long as they fit.
fill_lem :
    (size : ℕ) (chunk : List ℕ) (queued : List (List ℕ)) (bytes : ℕ)
    → length chunk ≤ size
    → (group rest : List (List ℕ)) × (queued ≡ group ++ rest)
      × (fill size chunk queued bytes ≡ (chunk ++ flatten group, rest, bytes - total group))
      × (length (chunk ++ flatten group) ≤ size)
unfolding fill flatten
fill_lem size chunk [] bytes h =
    ([], [], refl, filled [] (sym (append-nil chunk)) (omega arith), rw append-nil h)
fill_lem size chunk (item ∷ queued) bytes h =
    elim (Bool-cases (leb (length chunk + length item) size)) [
      | inl room ↦
          let (group, rest, split, made, short) =
            fill_lem size (chunk ++ item) queued (bytes - length item)
              (ground (arith, length-append chunk item)) in
          (
            item ∷ group,
            rest,
            ap (λ xs. item ∷ xs) split,
            rw room (made ∙ filled rest (append_assoc chunk item (flatten group)) (omega arith)),
            rw (← append_assoc chunk item (flatten group)) short,
          )
      | inr full ↦ (
        [],
        item ∷ queued,
        refl,
        rw full (filled (item ∷ queued) (sym (append-nil chunk)) (omega arith)),
        rw append-nil h,
      )
    ]

-- A packet is never empty: `encode_packet` writes nine bytes at least.
abbrev pub NonEmpty : List ℕ → Type 0
NonEmpty p = 0 < length p

-- What a round takes off a queue with a packet in it: the packets of one chunk.
pub take-IsChunk :
    (size : ℕ) (item : List ℕ) (queued : List (List ℕ)) (bytes : ℕ)
    → NonEmpty item
    → (group rest : List (List ℕ)) × (item ∷ queued ≡ group ++ rest)
      × IsChunk size group
      × (length rest < length (item ∷ queued))
      × (at_least_one (fill size [] (item ∷ queued) bytes)
          ≡ (flatten group, rest, bytes - total group))
unfolding fill at_least_one flatten
take-IsChunk size [] queued bytes h = absurd (omega arith)
take-IsChunk size (b ∷ item) queued bytes h = elim (Bool-cases (leb (0 + length (b ∷ item)) size)) [
  | inl room ↦
      let (group, rest, split, made, short) =
        fill_lem size (b ∷ item) queued (bytes - length (b ∷ item)) (ground arith) in
      (
        (b ∷ item) ∷ group,
        rest,
        ap (λ xs. (b ∷ item) ∷ xs) split,
        IsChunk.fits (b ∷ item) group short,
        omega (arith, ap length split, length-append group rest),
        rw (room, made) (filled rest refl (omega arith)),
      )
  | inr full ↦ (
    (b ∷ item) ∷ [],
    queued,
    refl,
    IsChunk.alone (b ∷ item) (ground arith),
    omega arith,
    rw full (filled queued (sym (append-nil (b ∷ item))) (omega arith)),
  )
]
