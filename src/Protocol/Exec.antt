-- ===== src/Protocol/Exec.antt =====
-- A call of a method: it changes the state of its object, and returns or raises. What was changed
-- before a raise stays changed.
pub mod Never
use teensy_io.Base.{Bool, if◌then◌else◌, ◌≡◌, refl, ap, ◌∙◌, arith}
use teensy_io.Protocol.Errors.{Error, Result, ok, err, stuck}

abbrev pub Exec : Type 0 → Type 0 → Type 0
Exec S A = S → Result A × S

module _ {S A : Type 0} where
  abbrev pub pure : A → Exec S A
  pure a s = (ok a, s)

  abbrev pub raise : Error → Exec S A
  raise e s = (err e, s)

  abbrev pub gets : (S → A) → Exec S A
  gets f s = (ok (f s), s)

  abbrev pub lift : Result A → Exec S A
  lift r s = (r, s)

abbrev pub modify : {S : Type 0} → (S → S) → Exec S (Unit {0})
modify f s = (ok tt, f s)

infixl 5 ◌>>=◌ ◌>>◌
abbrev pub ◌>>=◌ : {S A B : Type 0} → Exec S A → (A → Exec S B) → Exec S B
◌>>=◌ m f s =
    let (r, s') = m s in elim r [ ok a ↦ f a s' | err e ↦ (err e, s') | stuck ↦ (stuck, s') ]

abbrev pub ◌>>◌ : {S A B : Type 0} → Exec S A → Exec S B → Exec S B
m >> k = m >>= λ _. k

abbrev pub raise_if : {S : Type 0} → Bool → Error → Exec S (Unit {0})
raise_if test e s = (if test then err e else ok tt, s)

-- A method of a part of the object.
abbrev pub on : {S P A : Type 0} → (S → P) → (S → P → S) → Exec P A → Exec S A
on part put m s = let (r, p) = m (part s) in (r, put s p)

-- Two calls behave alike if their first parts do, and their second parts after that.
pub bind_cong :
    {S A B : Type 0} (m n : Exec S A) (f g : A → Exec S B) (s : S)
    → m s ≡ n s
    → ((a : A) → (n s).0 ≡ ok a → f a (n s).1 ≡ g a (n s).1)
    → (m >>= f) s ≡ (n >>= g) s
bind_cong {S} {A} {B} m n f g s e h = ap (after f) e ∙ second (n s).0 (n s).1 h
  where
    after : (A → Exec S B) → Result A × S → Result B × S
    after k (r, s') = elim r [ ok a ↦ k a s' | err x ↦ (err x, s') | stuck ↦ (stuck, s') ]

    second :
        (r : Result A) (s' : S)
        → ((a : A) → r ≡ ok a → f a s' ≡ g a s')
        → after f (r, s') ≡ after g (r, s')
    second (ok a) s' k = k a refl
    second (err x) s' k = refl
    second stuck s' k = refl

-- A call that returns has returned from each of its parts.
pub bind_ok :
    {S A B : Type 0} (m : Exec S A) (f : A → Exec S B) (s : S) {b : B}
    → ((m >>= f) s).0 ≡ ok b
    → (a : A) × ((m s).0 ≡ ok a) × ((f a (m s).1).0 ≡ ok b)
bind_ok {S} {A} {B} m f s {b} e = first (m s).0 (m s).1 e
  where
    first :
        (r : Result A) (s' : S)
        → (let x : Result B × S = elim r [
          | ok a ↦ f a s'
          | err x ↦ (err x, s')
          | stuck ↦ (stuck, s')
        ] in
            x).0
          ≡ ok b
        → (a : A) × (r ≡ ok a) × ((f a s').0 ≡ ok b)
    first (ok a) s' h = (a, refl, h)
    first (err x) s' h = absurd (cc)
    first stuck s' h = absurd (cc)

-- A sequence whose first part is known to return, or to raise.
module _ {S A B : Type 0} (m : Exec S A) (f : A → Exec S B) (s : S) where
  pub bind_step : (a : A) → (m s).0 ≡ ok a → (m >>= f) s ≡ f a (m s).1
  bind_step a e = ground arith

  pub bind_raise : (x : Error) → (m s).0 ≡ err x → (m >>= f) s ≡ (err x, (m s).1)
  bind_raise x e = ground arith

-- What holds of a sequence, from what its first part did.
pub bind_elim {κ} :
    {S A B : Type 0} (P : Result B × S → Type κ) (m : Exec S A) (f : A → Exec S B) (s : S)
    → ((a : A) (s' : S) → m s ≡ (ok a, s') → P (f a s'))
    → ((e : Error) (s' : S) → m s ≡ (err e, s') → P (err e, s'))
    → ((s' : S) → m s ≡ (stuck, s') → P (stuck, s'))
    → P ((m >>= f) s)
bind_elim {S} {A} {B} P m f s returns raises loops = by_result (m s).0 (m s).1 refl
  where
    by_result :
        (r : Result A) (s' : S)
        → m s ≡ (r, s')
        → P (
            let x : Result B × S = elim r [
              | ok a ↦ f a s'
              | err e ↦ (err e, s')
              | stuck ↦ (stuck, s')
            ] in
            x)
    by_result (ok a) s' e = returns a s' e
    by_result (err x) s' e = raises x s' e
    by_result stuck s' e = loops s' e

-- Three calls in a row.
pub bind_assoc :
    {S A B C : Type 0} (m : Exec S A) (f : A → Exec S B) (g : B → Exec S C) (s : S)
    → ((m >>= f) >>= g) s ≡ (m >>= λ a. f a >>= g) s
bind_assoc {S} {A} {B} {C} m f g s = assoc (m s).0 (m s).1
  where
    assoc :
        (r : Result A) (s' : S)
        → (((λ (_ : S). (r, s')) >>= f) >>= g) s ≡ ((λ (_ : S). (r, s')) >>= λ a. f a >>= g) s
    assoc (ok a) s' = refl
    assoc (err x) s' = refl
    assoc stuck s' = refl
