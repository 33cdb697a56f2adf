-- ===== src/Store/Session/Ensures.antt =====
-- What holds of the value of a method whenever it returns one, whatever the state it runs in.
use sep.Base.{◌≡◌, subst, Bool, true, false, if◌then◌else◌}
use sep.Core.Errors.{ok}
use sep.Store.Session.{Exec, pure, ◌>>=◌}
use sep.Store.Session.Keeps.{>>=-eq-ok}

pub record Ensures {St A : Type 0} (P : A → Type 0) (method : Exec St A) : Type 0 where
  pub returned : (s s' : St) (a : A) → method s ≡ (ok a, s') → P a

module _ {St A : Type 0} (P : A → Type 0) where
  pub Ensures-pure : (a : A) → P a → Ensures P (pure {S = St} a)
  Ensures-pure a p = record { returned = λ s s' b h. subst P (cc) p }

  pub Ensures-if :
      (b : Bool) (m n : Exec St A) → Ensures P m → Ensures P n → Ensures P (if b then m else n)
  Ensures-if true m n p q = p
  Ensures-if false m n p q = q

module _ {St A B : Type 0} (P : A → Type 0) (Q : B → Type 0) where
  -- The second part may rely on what the first one ensures.
  pub Ensures-then :
      (m : Exec St A) (f : A → Exec St B)
      → Ensures P m
      → ((a : A) → P a → Ensures Q (f a))
      → Ensures Q (m >>= f)
  Ensures-then m f first each = record {
    returned = λ s s' b h.
        let e = >>=-eq-ok m f s h in
        (each e.0 (first.returned s e.1 e.0 e.2)).returned e.1 s' b e.3;
  }

module _ {St A B : Type 0} (Q : B → Type 0) where
  pub Ensures-next :
      (m : Exec St A) (f : A → Exec St B) → ((a : A) → Ensures Q (f a)) → Ensures Q (m >>= f)
  Ensures-next m f each =
      Ensures-then (λ _. Unit {0}) Q m f (record { returned = λ _ _ _ _. tt }) (λ a _. each a)
