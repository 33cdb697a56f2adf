-- ===== src/Store/Session.antt =====
-- Methods that read and write the store and may raise. Each write commits by itself, so what was
-- written before a raise stays written: the store comes back beside the error too.
pub mod Keeps
pub mod Ensures
pub mod Yields
use sep.Base.{◌≡◌, refl}
use sep.Core.Errors.{Error, Result, ok, err}

abbrev pub Exec : Type 0 → Type 0 → Type 0
Exec S A = S → Result A × S

module _ {S A : Type 0} where
  abbrev pub pure : A → Exec S A
  pure a s = (ok a, s)

  abbrev pub raise : Error → Exec S A
  raise e s = (err e, s)

  abbrev pub lift : Result A → Exec S A
  lift r s = (r, s)

  -- A read, which may fail.
  abbrev pub reads : (S → Result A) → Exec S A
  reads f s = (f s, s)

module _ {S A B : Type 0} where
  unfoldable pub proceed : Result A → (A → Exec S B) → Exec S B
  proceed (err error) next store = (err error, store)
  proceed (ok value) next store = next value store

  infixl 10 ◌>>=◌ ◌>>◌
  unfoldable pub ◌>>=◌ : Exec S A → (A → Exec S B) → Exec S B
  unfolding proceed
  ◌>>=◌ first next store = let (result, store') = first store in proceed result next store'

  abbrev pub ◌>>◌ : Exec S A → Exec S B → Exec S B
  first >> second = first >>= λ _. second
