-- ===== src/Store/Artifacts/Latest.antt =====
-- store/db.py: `put_latest` and `list_artifacts`. `at` is the first reading of the clock and `token`
-- the random part of the version. Keys are ordered by their code points, as SQLite orders them.
pub mod Pointers
use sep.Base.{String, Bool, not, ◌==◌, List, [], ◌∷◌, map, filter, if◌then◌else◌}
use Prim.Native.String
use sep.Base.Sort.{sort_with, text_le}
use sep.Core.Errors.{Result}
use sep.Store.Artifacts.{Row, Table, put_artifact}

-- f"{ts_key(utcnow())}|{uuid.uuid4().hex[:12]}|{version}"
unfoldable pub unique_version : String → String → String → String
unique_version at token version =
    String.◌++◌ at (String.◌++◌ "|" (String.◌++◌ token (String.◌++◌ "|" version)))

module _ {P : Type 0} where
  unfoldable pub put_latest :
      (P → String)
      → List (Row P)
      → List (Row P)
      → (at token now kind version : String) → P
      → Table P
      → Result String × Table P
  unfolding unique_version put_artifact
  put_latest content_hash raced raced' at token now kind version payload t =
      put_artifact content_hash raced raced' kind "latest" (unique_version at token version) now
        payload t

  -- The rows whose seq is MAX(seq) for their key: WHERE kind=? GROUP BY key.
  unfoldable pub newest_rows : String → Table P → Table P
  newest_rows kind [] = []
  newest_rows kind (r ∷ t) =
      let rest = newest_rows kind t in
      if r.kind == kind then r ∷ filter (λ (s : Row P). not (s.key == r.key)) rest else rest

  abbrev pub key_order : Row P → Row P → Bool
  key_order r s = text_le r.key s.key

  abbrev pub listed_as : Row P → String × (String × P)
  listed_as r = (r.key, (r.version, r.payload))

  unfoldable pub list_artifacts : String → Table P → List (String × (String × P))
  unfolding newest_rows sort_with
  list_artifacts kind t = map listed_as (sort_with key_order (newest_rows kind t))
