-- ===== src/Store/Artifacts/Lookup.antt =====
-- store/db.py: what a lookup by (kind, key, version) finds as the artifact table grows.
use sep.Base.{
  String, ◌≡◌, Bool, true, false, none, some, List, [], ◌∷◌, ◌++◌, any, Bool-cases, inl, inr, find,
  arith, eq_iff, eq_refl,
}
use sep.Store.Artifacts.{Row, Table, at_version, select}

module _ {ℓ} {A : Type ℓ} (p : A → Bool) where
  pub any-find : (x : A) (xs : List A) → find p xs ≡ some x → any p xs ≡ true
  any-find x [] h = ground arith
  any-find x (y ∷ xs) h = ground (arith, any-find x xs)

  pub find-any : (xs : List A) → any p xs ≡ true → (x : A) × (find p xs ≡ some x)
  find-any [] h = ground arith
  find-any (y ∷ xs) h = elim (Bool-cases (p y)) [
    | inl fits ↦ (y, rw fits)
    | inr fails ↦ rw fails (find-any xs (ground arith))
  ]

  pub any-find-none : (xs : List A) → find p xs ≡ none → any p xs ≡ false
  any-find-none [] h = ground arith
  any-find-none (y ∷ xs) h = ground (arith, any-find-none xs)

-- UNIQUE (kind, key, version)
abbrev pub IsUnique : {P : Type 0} → Table P → Type 0
IsUnique [] = Unit
IsUnique (r ∷ t) = (any (at_version r.kind r.key r.version) t ≡ false) × IsUnique t

module _ {P : Type 0} where
  pub at_version_self : (r : Row P) → at_version r.kind r.key r.version r ≡ true
  at_version_self r = ground (arith, eq_refl r.kind, eq_refl r.key, eq_refl r.version)

  pub select_head : (r : Row P) (t : Table P) → select r.kind r.key r.version (r ∷ t) ≡ some r
  unfolding select
  select_head r t = rw (at_version_self r)

  -- A row that fits the key (kind, key, version) is found by its own.
  own_key :
      (kind key version : String) (x : Row P) (t : Table P)
      → at_version kind key version x ≡ true
      → any (at_version kind key version) t ≡ any (at_version x.kind x.key x.version) t
  own_key kind key version x t h =
      ground (arith, eq_iff x.kind kind, eq_iff x.key key, eq_iff x.version version)

  -- More rows, with none of them a second one for its key, hide no row.
  pub select-append :
      (kind key version : String) {r : Row P} (new t : Table P)
      → IsUnique (new ++ t)
      → select kind key version t ≡ some r
      → select kind key version (new ++ t) ≡ some r
  unfolding select
  select-append kind key version {r} [] t u h = h
  select-append kind key version {r} (x ∷ new) t u h =
      let rest = select-append kind key version new t u.1 h in
      ground (
        arith,
        own_key kind key version x (new ++ t),
        any-find (at_version kind key version) r (new ++ t) rest,
      )
