-- ===== src/Agents/Runtime/Observation.antt =====
-- agents/runtime.py: `fit_observation`. A payload is a JSON object whose fields are lists or other
-- values; `canonical_json` and `loads` write and read its text.
use Prim.Native.String.{count}
use sep.Core.Errors.{Result, ok, err, ◌>>=◌, key_error, type_error}
use sep.Base.{
  ℕ, zero, suc, ◌+◌, String, Bool, false, not, List, [], ◌∷◌, if◌then◌else◌, leb, ltb, length,
  filter, map, ◌==◌,
}

pub data Field (J : Type 0) : Type 0 where
  items : List J → Field J
  other : J → Field J
  truncated : Field J

abbrev pub Payload : Type 0 → Type 0
Payload J = List (String × Field J)

-- How a field and a whole payload are written, and how a payload is read.
pub record Codec (J : Type 0) : Type 0 where
  pub canonical_json : Payload J → String
  pub field_json : Field J → String
  pub loads : String → Payload J

-- `text[:n]`
unfoldable pub cut : ℕ → String → String
cut zero s = ""
cut (suc n) String.[] = ""
cut (suc n) (String.◌∷◌ c s) = String.◌∷◌ c (cut n s)

-- lists.remove(key)
remove : String → List String → List String
remove key [] = []
remove key (k ∷ keys) = if k == key then keys else k ∷ remove key keys

-- The variables of the loop.
pub record Trimming (J : Type 0) : Type 0 where
  pub text : String
  pub payload : Payload J
  pub lists : List String

module _ {J : Type 0} where
  field_of : String → Payload J → Result (Field J)
  field_of key [] = err key_error
  field_of key ((k, v) ∷ rest) = if k == key then ok v else field_of key rest

  -- payload[key] = value
  set : String → Field J → Payload J → Payload J
  set key value [] = (key, value) ∷ []
  set key value ((k, v) ∷ rest) =
      if k == key then (k, value) ∷ rest else (k, v) ∷ set key value rest

  is_list : String × Field J → Bool
  is_list (k, items _) = not (k == "action_schema")
  is_list (k, other _) = false
  is_list (k, truncated) = false

  unfoldable pub list_keys : Payload J → List String
  unfolding is_list
  list_keys payload = map (λ (e : String × Field J). e.0) (filter is_list payload)

  size : Field J → ℕ
  size (items l) = length l
  size (other _) = 0
  size truncated = 0

  width : Codec J → Payload J → String → ℕ
  width codec payload key = written (field_of key payload)
    where
      written : Result (Field J) → ℕ
      written (ok v) = count (codec.field_json v)
      written (err e) = 0

  -- max(keys, key=...): the first of the widest
  longest : Codec J → Payload J → String → List String → String
  longest codec payload best [] = best
  longest codec payload best (k ∷ keys) =
      longest codec payload
        (if ltb (width codec payload best) (width codec payload k) then k else best) keys

  -- The payload with the oldest item of a list left out, marked as truncated.
  unfoldable pub shortened : String → List J → Payload J → Payload J
  unfolding set
  shortened key rest payload = set "truncated" truncated (set key (items rest) payload)

  -- One pass over the field with the longest text; `again` is the loop's next pass. A mark in
  -- place of a list cannot be sliced.
  unfoldable pub trim_field :
      Codec J
      → (Trimming J → Result (Trimming J))
      → Trimming J
      → String
      → Result (Field J)
      → Result (Trimming J)
  unfolding remove shortened
  trim_field codec again t key (err e) = err e
  trim_field codec again t key (ok (items [])) = again (record t { lists = remove key t.lists })
  trim_field codec again t key (ok (items (x ∷ rest))) =
      let payload = shortened key rest t.payload in
      again (record t { text = codec.canonical_json payload; payload = payload })
  trim_field codec again t key (ok (other _)) = err type_error
  trim_field codec again t key (ok truncated) = err type_error

  unfoldable pub trim_longest :
      Codec J → (Trimming J → Result (Trimming J)) → Trimming J → List String → Result (Trimming J)
  unfolding trim_field longest width field_of
  trim_longest codec again t [] = ok t
  trim_longest codec again t (k ∷ keys) =
      let key = longest codec t.payload k keys in
      trim_field codec again t key (field_of key t.payload)

  -- while len(text) > limit and lists
  unfoldable pub trim : Codec J → ℕ → ℕ → Trimming J → Result (Trimming J)
  unfolding trim_longest
  trim codec limit zero t = ok t
  trim codec limit (suc fuel) t =
      if ltb limit (count t.text)
      then trim_longest codec (trim codec limit fuel) t t.lists
      else ok t

  -- The items of all lists: with the names of the lists, what the passes can take away.
  unfoldable pub total : Payload J → ℕ
  unfolding size
  total [] = 0
  total ((k, v) ∷ rest) = size v + total rest

  abbrev pub first_trimming : Codec J → Payload J → Trimming J
  first_trimming codec payload =
      let text = codec.canonical_json payload in
      let reread = codec.loads text in
      record { text = text; payload = reread; lists = list_keys reread }

  unfoldable pub fit_observation : Codec J → Payload J → ℕ → Result String
  unfolding trim total list_keys cut
  fit_observation codec payload limit =
      if leb (count (codec.canonical_json payload)) limit
      then ok (codec.canonical_json payload)
      else let t = first_trimming codec payload in
        trim codec limit (total t.payload + length t.lists) t >>= λ t.
        ok (if leb (count t.text) limit then t.text else cut limit t.text)
