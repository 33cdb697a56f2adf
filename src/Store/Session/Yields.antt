-- ===== src/Store/Session/Yields.antt =====
-- An invariant of the state that a method keeps, raise or not, together with what holds of the
-- value that it returns in such a state.
use sep.Base.{◌≡◌, refl, subst, Bool, true, false, if◌then◌else◌}
use sep.Core.Errors.{Result, ok, err}
use sep.Store.Session.{Exec, pure, lift, proceed, ◌>>=◌}
use sep.Store.Session.Keeps.{>>=-eq-ok}

pub record Yields {St A : Type 0} (I : St → Type 0) (P : A → Type 0) (method : Exec St A)
    : Type 0 where
  pub kept : (s : St) → I s → I (method s).1
  pub value : (s s' : St) (a : A) → I s → method s ≡ (ok a, s') → P a

module _ {St A : Type 0} (I : St → Type 0) (P : A → Type 0) where
  pub Yields-pure : (a : A) → P a → Yields I P (pure {S = St} a)
  Yields-pure a p = record { kept = λ s i. i; value = λ s s' b i h. subst P (cc) p }

  pub Yields-lift : (r : Result A) → ((a : A) → r ≡ ok a → P a) → Yields I P (lift {S = St} r)
  Yields-lift r p = record { kept = λ s i. i; value = λ s s' b i h. p b (cc) }

  pub Yields-if :
      (b : Bool) (m n : Exec St A)
      → (b ≡ true → Yields I P m)
      → (b ≡ false → Yields I P n)
      → Yields I P (if b then m else n)
  Yields-if true m n p q = p refl
  Yields-if false m n p q = q refl

module _ {St A B : Type 0} (I : St → Type 0) (P : A → Type 0) (Q : B → Type 0) where
  kept-proceed :
      (f : A → Exec St B) (r : Result A) (s : St)
      → I s
      → ((a : A) → r ≡ ok a → Yields I Q (f a))
      → I (proceed r f s).1
  unfolding proceed
  kept-proceed f (err e) s i each = i
  kept-proceed f (ok a) s i each = (each a refl).kept s i

  pub Yields-then :
      (m : Exec St A) (f : A → Exec St B)
      → Yields I P m
      → ((a : A) → P a → Yields I Q (f a))
      → Yields I Q (m >>= f)
  unfolding ◌>>=◌
  Yields-then m f first each = record {
    kept = λ s i.
        kept-proceed f (m s).0 (m s).1 (first.kept s i)
          (λ a e. each a (first.value s (m s).1 a i (at s a e)));
    value = λ s s' b i h. through s s' b i (>>=-eq-ok m f s h);
  }
    where
      at : (s : St) (a : A) → (m s).0 ≡ ok a → m s ≡ (ok a, (m s).1)
      at s a e = cc

      through :
          (s s' : St) (b : B)
          → I s
          → (a : A) × (t : St) × (m s ≡ (ok a, t)) × (f a t ≡ (ok b, s'))
          → Q b
      through s s' b i (a, t, e, h) =
          (each a (first.value s t a i e)).value t s' b (subst (λ p. I p.1) e (first.kept s i)) h
