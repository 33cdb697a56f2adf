-- ===== src/Store/Artifacts/Single.antt =====
-- store/db.py: `put_artifact` with no other writer between its statements.
use sep.Base.{
  String, ◌≡◌, refl, Bool-cases, Option-cases, ◌⊎◌, inl, inr, none, some, [], ◌∷◌, ◌++◌, arith,
  ◌==◌, if◌then◌else◌,
}
use sep.Core.Errors.{ok, err, immutable_record_error}
use sep.Store.Artifacts.{
  Row, Table, at_key, at_version, select, insert, row_of, found_row, put_attempt, retry,
  put_artifact, get_artifact, artifact_history,
}
use sep.Store.Artifacts.Lookup.{any-find-none}

module _ {P : Type 0} (content_hash : P → String) (kind key version now : String)
    (payload : P) where
  -- A free key: the row is added.
  pub put-fresh :
      (t : Table P)
      → select kind key version t ≡ none
      → put_artifact content_hash [] [] kind key version now payload t
        ≡ (ok (content_hash payload), row_of content_hash kind key version now payload ∷ t)
  unfolding put_artifact select
  put-fresh t e =
      rw (e, put_attempt)
        (rw (any-find-none (at_version kind key version) t e, insert) (unfold retry insert in refl))

  -- An occupied key: nothing changes, and another payload's digest is refused.
  pub put-taken :
      (t : Table P) (r : Row P)
      → select kind key version t ≡ some r
      → put_artifact content_hash [] [] kind key version now payload t ≡ (
          if r.payload_hash == content_hash payload
          then (ok (content_hash payload), t)
          else (err immutable_record_error, t))
  unfolding put_artifact found_row
  put-taken t r e = elim (Bool-cases (r.payload_hash == content_hash payload)) [
    | inl same ↦ rw (e, put_attempt) (rw same)
    | inr other ↦ rw (e, put_attempt) (rw other)
  ]

  abbrev pub PutOutcome : Table P → Type 0
  PutOutcome t =
      let out = put_artifact content_hash [] [] kind key version now payload t in
      ((out.1 ≡ t))
      ⊎ ((select kind key version t ≡ none)
          × (out
              ≡ (ok (content_hash payload), row_of content_hash kind key version now payload ∷ t)))

  pub put-cases : (t : Table P) → PutOutcome t
  put-cases t = elim (Option-cases (select kind key version t)) [
    | inl e ↦ inr (e, put-fresh t e)
    | inr (r, e) ↦ elim (Bool-cases (r.payload_hash == content_hash payload)) [
      | inl same ↦ inl (rw (put-taken t r e, same))
      | inr other ↦ inl (rw (put-taken t r e, other))
    ]
  ]

module _ {P : Type 0} (kind key : String) where
  -- The history after one more row.
  pub history-cons :
      (r : Row P) (t : Table P)
      → artifact_history kind key (r ∷ t) ≡ (
          if at_key kind key r
          then artifact_history kind key t ++ (r.payload ∷ [])
          else artifact_history kind key t)
  unfolding artifact_history
  history-cons r t = elim (Bool-cases (at_key kind key r)) [
    | inl here ↦ rw here
    | inr there ↦ rw there
  ]

  -- The newest version after one more row.
  pub latest-cons :
      (r : Row P) (t : Table P)
      → get_artifact kind key none (r ∷ t)
        ≡ (if at_key kind key r then some r.payload else get_artifact kind key none t)
  unfolding get_artifact
  latest-cons r t = elim (Bool-cases (at_key kind key r)) [
    | inl here ↦ rw here
    | inr there ↦ rw there
  ]

  -- A key with no version at all has no row for any one version.
  pub latest_none :
      (version : String) (t : Table P)
      → get_artifact kind key none t ≡ none
      → select kind key version t ≡ none
  unfolding get_artifact select
  latest_none version [] h = refl
  latest_none version (r ∷ t) h = ground (arith, latest_none version t)
