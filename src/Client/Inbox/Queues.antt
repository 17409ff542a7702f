-- ===== src/Client/Inbox/Queues.antt =====
-- The bounded queues: the newest items stay, and every item that goes is counted.
use teensy_io.Base.{ℕ, zero, suc, ◌+◌, ◌-◌, ◌≤◌, List, [], ◌∷◌, ◌++◌, length, drop}
use teensy_io.Base.{
  ◌≡◌, ◌≢◌, refl, sym, ap, ◌∙◌, arith, length-append, append_assoc, append-nil, length-drop, ◌⊎◌,
  ◌==◌, if◌then◌else◌,
}
use mathlib.Core.Path.{ap₂}
use teensy_io.Protocol.Errors.{Result, ok, err, stuck}
use teensy_io.Client.Inbox.{BoundedQueue, put_nowait, get_nowait, drop_oldest, put_bounded}

-- A queue that keeps its limit; a limit of 0 is none.
abbrev pub IsWithin : {A : Type 0} → BoundedQueue A → Type 0
IsWithin q = (q.maxsize ≡ 0) ⊎ (length q.items ≤ q.maxsize)

abbrev pub Puts : Type 0 → Type 0
Puts A = Result (Unit {0}) × BoundedQueue A × ℕ

-- By how much `n` items pass a limit.
abbrev pub excess : ℕ → ℕ → ℕ
excess m n = if m == 0 then 0 else n - m

module _ {A : Type 0} where
  -- A queue after `items` were put into it with no limit, without its oldest ones.
  abbrev pub newest : BoundedQueue A → List A → BoundedQueue A
  newest q items = record q {
    items = drop (excess q.maxsize (length q.items + length items)) (q.items ++ items);
  }

  -- One item: it goes to the end, and the oldest one goes if the queue was full.
  pub put_bounded-newest :
      (q : BoundedQueue A) (item : A)
      → IsWithin q
      → put_bounded q item ≡ (ok tt, newest q (item ∷ []), excess q.maxsize (length q.items + 1))
  unfolding put_bounded put_nowait drop_oldest get_nowait
  put_bounded-newest q item h = full_or_not q.items q.maxsize h refl refl
    where
      full_or_not :
          (items : List A) (m : ℕ)
          → (m ≡ 0) ⊎ (length items ≤ m)
          → q.items ≡ items
          → q.maxsize ≡ m
          → put_bounded q item
            ≡ (ok tt, newest q (item ∷ []), excess q.maxsize (length q.items + 1))
      full_or_not [] zero h e f = ground arith
      full_or_not [] (suc m) h e f = ground arith
      full_or_not (x ∷ xs) m h e f = ground arith

  abbrev pub and_put : Puts A → (BoundedQueue A → Puts A) → Puts A
  and_put (ok _, q, dropped) next = let (r, q', more) = next q in (r, q', dropped + more)
  and_put (err e, q, dropped) next = (err e, q, dropped)
  and_put (stuck, q, dropped) next = (stuck, q, dropped)

  -- Items one after the other, up to a call that raises, and how many were dropped.
  unfoldable pub put_each : List A → BoundedQueue A → Result (Unit {0}) × BoundedQueue A × ℕ
  put_each [] q = (ok tt, q, 0)
  put_each (item ∷ items) q = and_put (put_bounded q item) (put_each items)

  drop-append_drop :
      (d a : ℕ) (xs ys : List A)
      → d ≤ length xs
      → drop a (drop d xs ++ ys) ≡ drop (d + a) (xs ++ ys)
  drop-append_drop zero a xs ys h = ap (λ n. drop n (xs ++ ys)) (omega arith)
  drop-append_drop (suc d) a [] ys h = absurd (omega arith)
  drop-append_drop (suc d) a (x ∷ xs) ys h =
      drop-append_drop d a xs ys (omega arith) ∙ ap (λ n. drop n (x ∷ (xs ++ ys))) (size d a)
    where
      size : (d a : ℕ) → suc (d + a) ≡ suc d + a
      size d a = omega arith

  pub newest-IsWithin : (q : BoundedQueue A) (items : List A) → IsWithin (newest q items)
  newest-IsWithin q items = ground (
    arith,
    length-append q.items items,
    length-drop (excess q.maxsize (length q.items + length items)) (q.items ++ items),
  )

  newest-newest :
      (q : BoundedQueue A) (xs ys : List A) → newest (newest q xs) ys ≡ newest q (xs ++ ys)
  newest-newest q xs ys =
      ap {B = BoundedQueue A} (λ zs. record q { items = zs })
        (drop-append_drop d a (q.items ++ xs) ys (omega_d)
          ∙ ap₂ drop sum (append_assoc q.items xs ys))
    where
      d : ℕ
      d = excess q.maxsize (length q.items + length xs)

      a : ℕ
      a = excess q.maxsize (length (newest q xs).items + length ys)

      omega_d : d ≤ length (q.items ++ xs)
      omega_d = ground (arith, length-append q.items xs)

      sum : d + a ≡ excess q.maxsize (length q.items + length (xs ++ ys))
      sum =
          ground
            (arith, length-append q.items xs, length-append xs ys, length-drop d (q.items ++ xs))

  -- A queue that is filled by `_put_bounded` holds the newest items, as many as its limit allows, in
  -- the order in which they came, and the number of drops is the number of items that are gone. None
  -- of the calls raises. A limit of 0 drops nothing.
  pub put_each-newest :
      (items : List A) (q : BoundedQueue A)
      → IsWithin q
      → put_each items q ≡ (ok tt, newest q items, excess q.maxsize (length q.items + length items))
  unfolding put_each
  put_each-newest [] q h =
      let none_over : 0 ≡ excess q.maxsize (length q.items + 0) = ground arith in
      ap₂ {C = Puts A} (λ n xs. (ok tt, record q { items = xs }, n)) none_over
        (sym (append-nil q.items) ∙ ap (λ n. drop n (q.items ++ [])) none_over)
  put_each-newest (item ∷ items) q h =
      let q' : BoundedQueue A = newest q (item ∷ []) in
      let first = put_bounded-newest q item h in
      let rest = put_each-newest items q' (newest-IsWithin q (item ∷ [])) in
      let d : ℕ = excess q.maxsize (length q.items + 1) in
      ap (λ x. and_put x (put_each items)) first
      ∙ ap {B = Puts A} (λ (y : Puts A). (y.0, y.1, d + y.2)) rest
      ∙ ap₂ {C = Puts A} (λ n x. (ok tt, x, n)) (count q (length items))
          (newest-newest q (item ∷ []) items)
    where
      count :
          (q : BoundedQueue A) (n : ℕ)
          → excess q.maxsize (length q.items + 1)
              + excess q.maxsize (length (newest q (item ∷ [])).items + n)
            ≡ excess q.maxsize (length q.items + suc n)
      count q n = ground (
        arith,
        length-append q.items (item ∷ []),
        length-drop (excess q.maxsize (length q.items + 1)) (q.items ++ item ∷ []),
      )

  pub put_bounded-ne-stuck : (q : BoundedQueue A) (item : A) → (put_bounded q item).0 ≢ stuck
  unfolding put_bounded
  put_bounded-ne-stuck q item = ground arith
