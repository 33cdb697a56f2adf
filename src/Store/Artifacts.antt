-- ===== src/Store/Artifacts.antt =====
-- store/db.py: the versioned artifacts of `Store`. The table holds its rows by descending `seq`, so
-- `ORDER BY seq DESC LIMIT 1` is the first row that fits. A payload is kept as the value that its
-- JSON text denotes; its digest is the parameter `content_hash`.
pub mod Lookup
pub mod Laws
pub mod AppendOnly
pub mod Single
pub mod Numbered
pub mod Latest
use sep.Base.{
  String, Bool, ◌&&◌, Option, none, some, List, ◌∷◌, ◌++◌, map, any, filter, find, reverse,
  if◌then◌else◌, ◌==◌,
}
use sep.Core.Errors.{Result, ok, err, duplicate_key_error, immutable_record_error}

pub record Row (P : Type 0) : Type 0 where
  pub kind : String
  pub key : String
  pub version : String
  pub created_at : String
  pub payload : P
  pub payload_hash : String

abbrev pub Table : Type 0 → Type 0
Table P = List (Row P)

module _ {P : Type 0} where
  -- WHERE kind=? AND key=?
  abbrev pub at_key : String → String → Row P → Bool
  at_key kind key r = r.kind == kind && r.key == key

  -- WHERE kind=? AND key=? AND version=?
  abbrev pub at_version : String → String → String → Row P → Bool
  at_version kind key version r = at_key kind key r && r.version == version

  unfoldable pub select : String → String → String → Table P → Option (Row P)
  select kind key version = find (at_version kind key version)

  -- INSERT, under the constraint UNIQUE (kind, key, version)
  unfoldable pub insert : Row P → Table P → Result String × Table P
  insert r t =
      if any (at_version r.kind r.key r.version) t
      then (err duplicate_key_error, t)
      else (ok r.payload_hash, r ∷ t)

  payload_of : Option (Row P) → Option P
  payload_of none = none
  payload_of (some r) = some r.payload

  unfoldable pub get_artifact : String → String → Option String → Table P → Option P
  unfolding payload_of select
  get_artifact kind key none t = payload_of (find (at_key kind key) t)
  get_artifact kind key (some version) t = payload_of (select kind key version t)

  -- ORDER BY seq: the oldest row first
  unfoldable pub artifact_history : String → String → Table P → List P
  artifact_history kind key t = reverse (map (λ r. r.payload) (filter (at_key kind key) t))

module _ {P : Type 0} (content_hash : P → String) where
  abbrev pub row_of : String → String → String → String → P → Row P
  row_of kind key version now payload = record {
    kind = kind;
    key = key;
    version = version;
    created_at = now;
    payload = payload;
    payload_hash = content_hash payload;
  }

  found_row : String → Row P → Table P → Result String × Table P
  found_row digest r t =
      if r.payload_hash == digest then (ok digest, t) else (err immutable_record_error, t)

  -- One run of `_put_artifact`. `raced` holds the rows that other processes commit between its
  -- SELECT and its INSERT; a failed INSERT is rolled back, and theirs stay.
  unfoldable pub put_attempt :
      List (Row P) → String → String → String → String → P → Table P → Result String × Table P
  unfolding select insert found_row
  put_attempt raced kind key version now payload t = elim (select kind key version t) [
    | some r ↦ found_row (content_hash payload) r t
    | none ↦ insert (row_of kind key version now payload) (raced ++ t)
  ]

  -- `except DuplicateKeyError`
  retry : Result String × Table P → (Table P → Result String × Table P) → Result String × Table P
  retry (err duplicate_key_error, t) again = again t
  retry (r, t) again = (r, t)

  unfoldable pub put_artifact :
      List (Row P)
      → List (Row P)
      → String
      → String
      → String
      → String
      → P
      → Table P
      → Result String × Table P
  unfolding put_attempt retry
  put_artifact raced raced' kind key version now payload t =
      retry (put_attempt raced kind key version now payload t)
        (put_attempt raced' kind key version now payload)
