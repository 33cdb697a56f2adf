-- ===== src/Store/Artifacts/AppendOnly.antt =====
-- store/db.py: the rows that `put_artifact` finds and leaves.
use sep.Base.{
  String, ◌≡◌, refl, Bool-cases, Option-cases, inl, inr, some, [], ◌∷◌, ◌++◌, any, arith, ◌==◌,
}
use sep.Core.Errors.{Result}
use sep.Store.Artifacts.{
  Row, Table, at_version, select, insert, row_of, found_row, put_attempt, retry, put_artifact,
}
use sep.Store.Artifacts.Lookup.{IsUnique, find-any, select-append}

module _ {P : Type 0} (content_hash : P → String) where
  -- The table of an outcome extends `t` and keeps its keys distinct.
  abbrev Extends : Table P → Result String × Table P → Type 0
  Extends t out = (new : Table P) × (out.1 ≡ new ++ t) × IsUnique out.1

  module _ (kind key version now : String) (payload : P) where
    found_row-table :
        (r : Row P) (t : Table P) → (found_row content_hash (content_hash payload) r t).1 ≡ t
    unfolding found_row
    found_row-table r t = ground arith

    again-table :
        (raced t : Table P) (r : Row P)
        → select kind key version t ≡ some r
        → (put_attempt content_hash raced kind key version now payload t).1 ≡ t
    unfolding put_attempt
    again-table raced t r h = rw (h, put_attempt) (found_row-table r t)

    insert-Extends :
        (raced raced' t : Table P)
        → IsUnique (raced ++ t)
        → Extends t (
            retry content_hash
              (insert (row_of content_hash kind key version now payload) (raced ++ t))
              (put_attempt content_hash raced' kind key version now payload))
    unfolding insert retry
    insert-Extends raced raced' t u =
        elim (Bool-cases (any (at_version kind key version) (raced ++ t))) [
          | inl taken ↦
              let (r, e) = find-any (at_version kind key version) (raced ++ t) taken in
              let same = again-table raced' (raced ++ t) r (unfold select in e) in
              rw taken (raced, same, rw same u)
          | inr free ↦
              rw free (row_of content_hash kind key version now payload ∷ raced, refl, (free, u))
        ]

    retry-table :
        (r : Row P) (t : Table P) (again : Table P → Result String × Table P)
        → (retry content_hash (found_row content_hash (content_hash payload) r t) again).1 ≡ t
    unfolding retry found_row
    retry-table r t again = elim (Bool-cases (r.payload_hash == content_hash payload)) [
      | inl same ↦ rw same
      | inr other ↦ rw other
    ]

    pub put_artifact-Extends :
        (raced raced' t : Table P)
        → IsUnique t
        → IsUnique (raced ++ t)
        → Extends t (put_artifact content_hash raced raced' kind key version now payload t)
    unfolding put_artifact
    put_artifact-Extends raced raced' t v u = elim (Option-cases (select kind key version t)) [
      | inl e ↦ rw (e, put_attempt) (insert-Extends raced raced' t u)
      | inr (r, e) ↦ rw (e, put_attempt) ([], retry-table r t _, rw (retry-table r t _) v)
    ]

    -- While the writers beside it keep the keys distinct, a call of `put_artifact` changes no stored
    -- version: what a lookup by (kind, key, version) found before the call it finds after it,
    -- whether the call returns or raises.
    pub put_artifact-keeps_version :
        (raced raced' t : Table P)
        → IsUnique t
        → IsUnique (raced ++ t)
        → (kind' key' version' : String) {r : Row P} → select kind' key' version' t ≡ some r
        → select kind' key' version'
            (put_artifact content_hash raced raced' kind key version now payload t).1
          ≡ some r
    put_artifact-keeps_version raced raced' t v u kind' key' version' h =
        let (new, e, w) = put_artifact-Extends raced raced' t v u in
        rw e (select-append kind' key' version' new t (rw e at w) h)
