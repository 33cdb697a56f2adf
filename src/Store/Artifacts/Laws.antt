-- ===== src/Store/Artifacts/Laws.antt =====
-- store/db.py: `put_artifact` beside other writers.
use sep.Base.{
  String, ◌≡◌, Bool-cases, Option-cases, inl, inr, some, ◌++◌, any, ◌==◌, eq_refl, if◌then◌else◌,
}
use sep.Core.Errors.{Result, ok, err, immutable_record_error}
use sep.Store.Artifacts.{
  Row, Table, at_version, select, insert, row_of, found_row, put_attempt, retry, put_artifact,
}
use sep.Store.Artifacts.Lookup.{find-any, select_head}

module _ {P : Type 0} (content_hash : P → String) where
  abbrev pub verdict : Row P → P → Result String
  verdict r payload =
      if r.payload_hash == content_hash payload
      then ok (content_hash payload)
      else err immutable_record_error

  abbrev pub Settled : String → String → String → P → Result String × Table P → Type 0
  Settled kind key version payload out =
      (r : Row P) × (select kind key version out.1 ≡ some r) × (out.0 ≡ verdict r payload)

  module _ (kind key version now : String) (payload : P) where
    found-Settled :
        (r : Row P) (t : Table P)
        → select kind key version t ≡ some r
        → Settled kind key version payload (found_row content_hash (content_hash payload) r t)
    unfolding found_row
    found-Settled r t h = elim (Bool-cases (r.payload_hash == content_hash payload)) [
      | inl same ↦ rw same (r, h, rw same)
      | inr other ↦ rw other (r, h, rw other)
    ]

    -- A second attempt over a table that holds the key.
    attempt-Settled :
        (raced t : Table P) (r : Row P)
        → select kind key version t ≡ some r
        → Settled kind key version payload
            (put_attempt content_hash raced kind key version now payload t)
    unfolding put_attempt
    attempt-Settled raced t r h = rw (h, put_attempt) (found-Settled r t h)

    insert-Settled :
        (raced' t : Table P)
        → Settled kind key version payload (
            retry content_hash
              (insert (row_of content_hash kind key version now payload) t)
              (put_attempt content_hash raced' kind key version now payload))
    unfolding insert retry
    insert-Settled raced' t = elim (Bool-cases (any (at_version kind key version) t)) [
      | inl taken ↦
          let (r, e) = find-any (at_version kind key version) t taken in
          rw taken (attempt-Settled raced' t r (unfold select in e))
      | inr free ↦ rw free (
        row_of content_hash kind key version now payload,
        select_head (row_of content_hash kind key version now payload) t,
        rw (eq_refl (content_hash payload)),
      )
    ]

    retry-found_row :
        (r : Row P) (t : Table P) (again : Table P → Result String × Table P)
        → retry content_hash (found_row content_hash (content_hash payload) r t) again
          ≡ found_row content_hash (content_hash payload) r t
    unfolding retry found_row
    retry-found_row r t again = elim (Bool-cases (r.payload_hash == content_hash payload)) [
      | inl same ↦ rw same
      | inr other ↦ rw other
    ]

    -- Whatever other processes commit between the SELECT and the INSERT of either run, the key is
    -- occupied afterwards, and the call returns the digest of its payload if the row there has that
    -- digest, and raises ImmutableRecordError otherwise. DuplicateKeyError never escapes.
    pub put_artifact-Settled :
        (raced raced' t : Table P)
        → Settled kind key version payload
            (put_artifact content_hash raced raced' kind key version now payload t)
    unfolding put_artifact
    put_artifact-Settled raced raced' t = elim (Option-cases (select kind key version t)) [
      | inl e ↦ rw (e, put_attempt) (insert-Settled raced' (raced ++ t))
      | inr (r, e) ↦ rw (e, put_attempt) (rw (retry-found_row r t _) (found-Settled r t e))
    ]
