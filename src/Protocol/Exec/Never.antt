-- ===== src/Protocol/Exec/Never.antt =====
-- Calls that do not raise a given exception.
use teensy_io.Base.{Bool, Bool-cases, inl, inr, ◌≡◌, ◌≢◌, ap, ◌∙◌, if◌then◌else◌}
use teensy_io.Protocol.Errors.{Error, Result, ok, err}
use teensy_io.Protocol.Exec.{Exec, pure, lift, gets, modify, on, bind_elim, ◌>>=◌}

module _ (x : Error) where
  abbrev pub Never : {S A : Type 0} → Exec S A → Type 0
  Never {S} m = (s : S) → (m s).0 ≢ err x

  pub pure-Never : {S A : Type 0} (a : A) → Never {S = S} (pure a)
  pure-Never a s e = cc

  pub modify-Never : {S : Type 0} (f : S → S) → Never (modify f)
  modify-Never f s e = cc

  pub gets-Never : {S A : Type 0} (f : S → A) → Never (gets f)
  gets-Never f s e = cc

  pub lift-Never : {S A : Type 0} (r : Result A) → r ≢ err x → Never {S = S} (lift r)
  lift-Never r h s = h

  pub on-Never :
      {S P A : Type 0} (part : S → P) (put : S → P → S) (m : Exec P A)
      → Never m
      → Never (on part put m)
  on-Never part put m h s = h (part s)

  -- What comes second may rely on what the first part returned.
  pub Never-then :
      {S A B : Type 0} (m : Exec S A) (f : A → Exec S B)
      → Never m
      → ((a : A) (s : S) → (m s).0 ≡ ok a → (f a (m s).1).0 ≢ err x)
      → Never (m >>= f)
  Never-then {S = S} {A = A} {B = B} m f h k s =
      bind_elim (λ y. y.0 ≢ err x) m f s (λ a s' e q. k a s (ap (λ y. y.0) e) (sub a s' e q))
        (λ y s' e q. h s (ap (λ z. z.0) e ∙ same_error q)) (λ s' e q. cc)
    where
      same_error :
          {y : Error} → ◌≡◌ {A = Result B} (err y) (err x) → ◌≡◌ {A = Result A} (err y) (err x)
      same_error q = cc

      sub : (a : A) (s' : S) → m s ≡ (ok a, s') → (f a s').0 ≡ err x → (f a (m s).1).0 ≡ err x
      sub a s' e q = ap (λ y. (f a y.1).0) e ∙ q

  pub Never-bind :
      {S A B : Type 0} (m : Exec S A) (f : A → Exec S B)
      → Never m
      → ((a : A) → Never (f a))
      → Never (m >>= f)
  Never-bind m f h k s = Never-then m f h (λ a s' _. k a (m s').1) s

  pub Never-known :
      {S A B : Type 0} (r : Result A) (f : A → Exec S B) (a : A)
      → r ≡ ok a
      → Never (f a)
      → Never (lift r >>= f)
  Never-known r f a e h s = rw e (h s)

  pub ite-Never :
      {S A : Type 0} (test : S → Bool) (m n : Exec S A)
      → Never m
      → Never n
      → Never (λ s. (if test s then m else n) s)
  ite-Never test m n h k s = elim (Bool-cases (test s)) [
    | inl yes_ ↦ rw yes_ (h s)
    | inr no_ ↦ rw no_ (k s)
  ]
