-- ===== src/Resources/Deltas.antt =====
-- What `delta` of the encoder and of the counter have in common.
use teensy_io.Base.{ℕ, zero, suc, List, [], ◌∷◌, ◌≡◌, sym, ap, ◌∙◌, arith}
use teensy_io.Base.Int.{ℤ, pos, negsuc, ◌+ℤ◌, ◌-ℤ◌}
use teensy_io.Protocol.Errors.{Result, ok}
use teensy_io.Protocol.Exec.{Exec, pure, gets, modify, bind_elim, ◌>>=◌, ◌>>◌}
use teensy_io.Resources.{Held}

-- A sum of integers, from the left.
abbrev pub sum_from : ℤ → List ℤ → ℤ
sum_from z [] = z
sum_from z (d ∷ ds) = sum_from (z +ℤ d) ds

-- Successive calls of one method, and all that they return.
unfoldable pub repeat : {S A : Type 0} → ℕ → Exec S A → Exec S (List A)
repeat zero m = pure []
repeat (suc n) m = do d ← m; ds ← repeat n m; pure (d ∷ ds)

add_sub : (a b : ℤ) → a +ℤ (b -ℤ a) ≡ b
unfolding ◌+ℤ◌ ◌-ℤ◌
add_sub (pos a) (pos b) = ground arith
add_sub (pos a) (negsuc b) = ground arith
add_sub (negsuc a) (pos b) = ground arith
add_sub (negsuc a) (negsuc b) = ground arith

ok-injective : {A : Type 0} {a b : A} → ok a ≡ ok b → a ≡ b
ok-injective e = cc

-- A resource `P` with a number that `read` finds, and the last one that was found.
module _ {P S : Type 0} (read : Exec (Held P S) ℤ) (last : P → ℤ) (put : P → ℤ → P)
    (last-put : (p : P) (z : ℤ) → last (put p z) ≡ z)
    (read-self : (h : Held P S) → (read h).1.self ≡ h.self) where
  abbrev pub difference : Exec (Held P S) ℤ
  difference = read >>= λ found. gets (λ h. found -ℤ last h.self) >>= λ change.
      modify (λ h. record h { self = put h.self found }) >> pure change

  difference_lem :
      (h : Held P S) (d : ℤ)
      → (difference h).0 ≡ ok d
      → last (difference h).1.self ≡ last h.self +ℤ d
  difference_lem h d e =
      bind_elim (λ (x : Result ℤ × Held P S). x.0 ≡ ok d → last x.1.self ≡ last h.self +ℤ d) read
        (λ found. gets (λ h. found -ℤ last h.self) >>= λ change.
          modify (λ h. record h { self = put h.self found }) >> pure change)
        h
        (λ found h' r q.
          let same : h'.self ≡ h.self = ap (λ x. x.1.self) (sym r) ∙ read-self h in
          let change : found -ℤ last h.self ≡ d =
            ap (λ k. found -ℤ last k) (sym same) ∙ ok-injective q in
          last-put h'.self found
          ∙ sym (ap (λ z. last h.self +ℤ z) (sym change) ∙ add_sub (last h.self) found))
        (λ x h' r q. absurd (cc)) (λ h' r q. absurd (cc)) e

  pub differences_lem :
      (n : ℕ) (h : Held P S) (ds : List ℤ)
      → (repeat n difference h).0 ≡ ok ds
      → last (repeat n difference h).1.self ≡ sum_from (last h.self) ds
  unfolding repeat
  differences_lem zero h ds e = ap (sum_from (last h.self)) (ok-injective e)
  differences_lem (suc n) h ds e =
      bind_elim Sums difference (λ d. repeat n difference >>= λ ds. pure (d ∷ ds)) h
        (λ d h' r.
          bind_elim Sums (repeat n difference) (λ ds. pure (d ∷ ds)) h'
            (λ ds' h'' r' q.
              sym (ap (λ x. last x.1.self) r')
              ∙ differences_lem n h' ds' (ap (λ x. x.0) r')
              ∙ ap (λ z. sum_from z ds')
                  (sym (ap (λ x. last x.1.self) r) ∙ difference_lem h d (ap (λ x. x.0) r))
              ∙ ap (sum_from (last h.self)) (ok-injective q))
            (λ x h'' r' q. absurd (cc)) (λ h'' r' q. absurd (cc)))
        (λ x h' r q. absurd (cc)) (λ h' r q. absurd (cc)) e
    where
      Sums : Result (List ℤ) × Held P S → Type 0
      Sums x = x.0 ≡ ok ds → last x.1.self ≡ sum_from (last h.self) ds
