-- ===== src/Resources/Ids.antt =====
-- `_counter_id`, `_encoder_id`, `_dac_id`: one number for each name.
use Prim.Native.String.{String}
use teensy_io.Base.{
  ℕ, suc, ◌+◌, ◌<◌, List, [], ◌∷◌, ◌++◌, length, Option-cases, Option, none, some, if◌then◌else◌,
  Bool-cases,
}
use teensy_io.Base.{◌≡◌, ◌↔◌, ◌≤◌, sym, ap, ◌∙◌, refl, arith, inl, inr}
use mathlib.Core.Path.{subst}
use mathlib.Core.Option.{some-injective}
use text.Mathlib.TextEquality.{eq_iff}
use teensy_io.Resources.{text_eq}

-- The dictionary, in the order in which the names came.
unfoldable pub find_id : String → List (String × ℕ) → Option ℕ
find_id name [] = none
find_id name ((n, id) ∷ rest) = if text_eq name n then some id else find_id name rest

unfoldable pub id_for : String → List (String × ℕ) → ℕ × List (String × ℕ)
unfolding find_id
id_for name ids = elim (find_id name ids) [
  | some id ↦ (id, ids)
  | none ↦ (length ids, ids ++ (name, length ids) ∷ [])
]

-- The numbers count the names, from `n`.
abbrev pub Numbered : ℕ → List (String × ℕ) → Type 0
Numbered n [] = Unit {0}
Numbered n ((name, id) ∷ ids) = (id ≡ n) × Numbered (suc n) ids

Numbered-append :
    (n : ℕ) (ids : List (String × ℕ)) (name : String)
    → Numbered n ids
    → Numbered n (ids ++ (name, n + length ids) ∷ [])
Numbered-append n [] name h = (omega arith, tt)
Numbered-append n ((a, id) ∷ ids) name (e, h) = (
  e,
  subst (λ k. Numbered (suc n) (ids ++ (name, k) ∷ [])) (shift n (length ids))
      (Numbered-append (suc n) ids name h),
)
  where
    shift : (n k : ℕ) → suc n + k ≡ n + suc k
    shift n k = omega arith

find_id-bounds :
    (name : String) (n id : ℕ) (ids : List (String × ℕ))
    → Numbered n ids
    → find_id name ids ≡ some id
    → (n ≤ id) × (id < n + length ids)
unfolding find_id
find_id-bounds name n id [] h e = absurd (cc)
find_id-bounds name n id ((a, i) ∷ ids) (f, h) e = elim (Bool-cases (text_eq name a)) [
  | inl same ↦ ground arith
  | inr other ↦
      let (lo, hi) = find_id-bounds name (suc n) id ids h (ground arith) in
      (omega arith, omega arith)
]

-- One number belongs to one name.
find_id-injective :
    (a b : String) (n id : ℕ) (ids : List (String × ℕ))
    → Numbered n ids
    → find_id a ids ≡ some id
    → find_id b ids ≡ some id
    → a ≡ b
unfolding find_id
find_id-injective a b n id [] h e f = absurd (cc)
find_id-injective a b n id ((c, i) ∷ ids) (g, h) e f = elim (Bool-cases (text_eq a c)) [
  | inl first_a ↦ elim (Bool-cases (text_eq b c)) [
    | inl first_b ↦ (eq_iff a c).0 first_a ∙ sym ((eq_iff b c).0 first_b)
    | inr later_b ↦
        let (lo, _) = find_id-bounds b (suc n) id ids h (ground arith) in absurd (ground arith)
  ]
  | inr later_a ↦ elim (Bool-cases (text_eq b c)) [
    | inl first_b ↦
        let (lo, _) = find_id-bounds a (suc n) id ids h (ground arith) in absurd (ground arith)
    | inr later_b ↦ find_id-injective a b (suc n) id ids h (ground arith) (ground arith)
  ]
]

find_id-append :
    (a b : String) (id new : ℕ) (ids : List (String × ℕ))
    → find_id a ids ≡ some id
    → find_id a (ids ++ (b, new) ∷ []) ≡ some id
unfolding find_id
find_id-append a b id new [] e = absurd (cc)
find_id-append a b id new ((c, i) ∷ ids) e = elim (Bool-cases (text_eq a c)) [
  | inl same ↦ ground arith
  | inr other ↦ rw other (find_id-append a b id new ids (ground arith))
]

find_id-new :
    (a : String) (new : ℕ) (ids : List (String × ℕ))
    → find_id a ids ≡ none
    → find_id a (ids ++ (a, new) ∷ []) ≡ some new
unfolding find_id
find_id-new a new [] e = rw ((eq_iff a a).1 refl) refl
find_id-new a new ((c, i) ∷ ids) e = elim (Bool-cases (text_eq a c)) [
  | inl same ↦ absurd (ground arith)
  | inr other ↦ rw other (find_id-new a new ids (ground arith))
]

-- A call of `_…_id`: what it returns stands in the dictionary after it, and nothing is forgotten.
module _ (name : String) (ids : List (String × ℕ)) where
  id_for-found : find_id name (id_for name ids).1 ≡ some (id_for name ids).0
  unfolding id_for
  id_for-found = elim (Option-cases (find_id name ids)) [
    | inl unknown ↦ rw (unknown, id_for) (find_id-new name (length ids) ids unknown)
    | inr (id, known) ↦ rw (known, id_for) known
  ]

  id_for-keeps :
      (a : String) (id : ℕ) → find_id a ids ≡ some id → find_id a (id_for name ids).1 ≡ some id
  unfolding id_for
  id_for-keeps a id e = elim (Option-cases (find_id name ids)) [
    | inl unknown ↦ rw (unknown, id_for) (find_id-append a name id (length ids) ids e)
    | inr (i, known) ↦ rw (known, id_for) e
  ]

  pub id_for-Numbered : Numbered 0 ids → Numbered 0 (id_for name ids).1
  unfolding id_for
  id_for-Numbered h = elim (Option-cases (find_id name ids)) [
    | inl unknown ↦
        rw (unknown, id_for)
          (subst (λ k. Numbered 0 (ids ++ (name, k) ∷ [])) (omega arith)
            (Numbered-append 0 ids name h))
    | inr (i, known) ↦ rw (known, id_for) h
  ]

-- Two names get the same number exactly if they are the same name, whatever names were numbered
-- before them; and the numbers go on counting the names from 0.
pub id_for-injective :
    (a b : String) (ids : List (String × ℕ))
    → Numbered 0 ids
    → (let first = id_for a ids in
        let second = id_for b first.1 in ((first.0 ≡ second.0) ↔ (a ≡ b)) × Numbered 0 second.1)
id_for-injective a b ids h =
    let first = id_for a ids in
    let second = id_for b first.1 in
    let kept = id_for-keeps b first.1 a first.0 (id_for-found a ids) in
    let numbered = id_for-Numbered b first.1 (id_for-Numbered a ids h) in
    (
      (
        (λ same.
            find_id-injective a b 0 first.0 second.1 numbered kept
              (id_for-found b first.1 ∙ ap some (sym same))),
        (λ same.
            some-injective first.0 second.0
              (sym kept ∙ ap (λ n. find_id n second.1) same ∙ id_for-found b first.1)),
      ),
      numbered,
    )
