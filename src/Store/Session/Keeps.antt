-- ===== src/Store/Session/Keeps.antt =====
-- Invariants and inversion of methods that may raise.
use sep.Base.{◌≡◌, refl, sym, Bool, true, false, if◌then◌else◌, arith}
use sep.Core.Errors.{Error, Result, ok, err}
use sep.Store.Session.{Exec, pure, raise, lift, reads, proceed, ◌>>=◌}

-- Whatever `method` does to the store, `I` holds after it if it held before, raise or not.
pub record Keeps {St R : Type 0} (I : St → Type 0) (method : Exec St R) : Type 0 where
  pub after : (store : St) → I store → I (method store).1

module _ {St R Q : Type 0} (I : St → Type 0) (next : R → Exec St Q)
    (each : (value : R) → Keeps I (next value)) where
  Keeps-proceed : (first : Result R) (store : St) → I store → I (proceed first next store).1
  unfolding proceed
  Keeps-proceed (err _) store held = held
  Keeps-proceed (ok value) store held = (each value).after store held

module _ {St R : Type 0} {I : St → Type 0} where
  pub Keeps-bind :
      {Q : Type 0} (first : Exec St R) (next : R → Exec St Q)
      → Keeps I first
      → ((value : R) → Keeps I (next value))
      → Keeps I (first >>= next)
  unfolding ◌>>=◌
  Keeps-bind first next start each = record {
    after = λ store held.
        Keeps-proceed I next each (first store).0 (first store).1 (start.after store held);
  }

  pub Keeps-if :
      (test : Bool) (m n : Exec St R) → Keeps I m → Keeps I n → Keeps I (if test then m else n)
  Keeps-if false m n keeps_m keeps_n = keeps_n
  Keeps-if true m n keeps_m keeps_n = keeps_m

  pub Keeps-reads : (look : St → Result R) → Keeps I (reads look)
  Keeps-reads look = record { after = λ store held. held }

  pub Keeps-lift : (result : Result R) → Keeps I (lift {S = St} result)
  Keeps-lift result = Keeps-reads (λ _. result)

  pub Keeps-pure : (value : R) → Keeps I (pure {S = St} value)
  Keeps-pure value = Keeps-reads (λ _. ok value)

  pub Keeps-raise : (error : Error) → Keeps I (raise {S = St} {A = R} error)
  Keeps-raise error = Keeps-reads (λ _. err error)

module _ {S A B : Type 0} where
  -- A bind that returned did both of its parts.
  pub >>=-eq-ok :
      (m : Exec S A) (f : A → Exec S B) (s : S) {b : B} {s'' : S}
      → (m >>= f) s ≡ (ok b, s'')
      → (a : A) × (s' : S) × (m s ≡ (ok a, s')) × (f a s' ≡ (ok b, s''))
  unfolding ◌>>=◌
  >>=-eq-ok m f s {b} {s''} h = split (m s).0 (m s).1 refl h
    where
      split :
          (r : Result A) (s' : S)
          → (r, s') ≡ m s
          → proceed r f s' ≡ (ok b, s'')
          → (a : A) × (s' : S) × (m s ≡ (ok a, s')) × (f a s' ≡ (ok b, s''))
      split (ok a) s' e h = (a, s', sym e, h)
      split (err x) s' e h = ground arith

  -- A read that failed ends the method; one that returned hands its value on.
  pub reads-eq-ok :
      (g : S → Result A) (f : A → Exec S B) (s : S) {b : B} {s'' : S}
      → (reads g >>= f) s ≡ (ok b, s'')
      → (a : A) × (g s ≡ ok a) × (f a s ≡ (ok b, s''))
  unfolding ◌>>=◌
  reads-eq-ok g f s {b} {s''} h = split (g s) refl h
    where
      split :
          (r : Result A)
          → r ≡ g s
          → proceed r f s ≡ (ok b, s'')
          → (a : A) × (g s ≡ ok a) × (f a s ≡ (ok b, s''))
      split (ok a) e h = (a, sym e, h)
      split (err x) e h = ground arith

  pub lift-eq-ok :
      (r : Result A) (f : A → Exec S B) (s : S) {b : B} {s'' : S}
      → (lift r >>= f) s ≡ (ok b, s'')
      → (a : A) × (r ≡ ok a) × (f a s ≡ (ok b, s''))
  lift-eq-ok r f s h = reads-eq-ok (λ _. r) f s h

  pub lift-err :
      (r : Result A) (f : A → Exec S B) (s : S) (e : Error)
      → r ≡ err e
      → (lift r >>= f) s ≡ (err e, s)
  unfolding ◌>>=◌
  lift-err r f s e h = rw (h, proceed)

  pub bind-at :
      (m : Exec S A) (f : A → Exec S B) (s s' : S) (a : A) → m s ≡ (ok a, s') → (m >>= f) s ≡ f a s'
  unfolding ◌>>=◌
  bind-at m f s s' a h = rw (h, proceed)

pub ruleset keeps_rules = (Keeps-bind, Keeps-if, Keeps-reads, Keeps-lift, Keeps-raise, Keeps-pure)
