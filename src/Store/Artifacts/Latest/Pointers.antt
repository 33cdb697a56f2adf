-- ===== src/Store/Artifacts/Latest/Pointers.antt =====
-- store/db.py: what `put_latest` makes the newest artifact, and what `list_artifacts` lists.
use mathlib.Core.List.{Memᴰ}
use sep.Base.{
  and_left, and_right, ◌↔◌, String, Bool, true, false, not, ◌&&◌, ◌==◌, ◌≡◌, refl, sym, ap, subst,
  ◌∙◌, inl, inr, none, some, [], ◌∷◌, ◌++◌, any, find, filter, if◌then◌else◌, Bool-cases, arith,
  eq_iff, eq_refl,
}
use sep.Base.Filters.{Memᴰ-filter, filter-Memᴰ}
use sep.Base.Sort.{sort_with, Memᴰ-sort_with, sort_with-Memᴰ}
use sep.Core.Errors.{ok}
use sep.Store.Artifacts.{
  Row, Table, at_key, at_version, select, insert, get_artifact, put_attempt, retry, put_artifact,
}
use sep.Store.Artifacts.Latest.{unique_version, put_latest, newest_rows, key_order}

module _ {P : Type 0} (content_hash : P → String) where
  put_artifact-points :
      (raced raced' t : Table P) (kind key version now : String) (payload : P)
      → select kind key version t ≡ none
      → any (at_version kind key version) (raced ++ t) ≡ false
      → ((put_artifact content_hash raced raced' kind key version now payload t).0
          ≡ ok (content_hash payload))
        × (get_artifact kind key none
              (put_artifact content_hash raced raced' kind key version now payload t).1
            ≡ some payload)
  unfolding put_artifact insert retry get_artifact
  put_artifact-points raced raced' t kind key version now payload free alone =
      rw (free, put_attempt) (rw alone (refl, rw (eq_refl kind, eq_refl key) refl))

  -- A pointer whose version no other row has, whatever is committed in between: the call returns the
  -- digest, and the payload is the newest one at `latest`, whatever was the newest one before, the
  -- same payload included.
  pub put_latest-points :
      (raced raced' t : Table P) (at token now kind version : String) (payload : P)
      → select kind "latest" (unique_version at token version) t ≡ none
      → any (at_version kind "latest" (unique_version at token version)) (raced ++ t) ≡ false
      → ((put_latest content_hash raced raced' at token now kind version payload t).0
          ≡ ok (content_hash payload))
        × (get_artifact kind "latest" none
              (put_latest content_hash raced raced' at token now kind version payload t).1
            ≡ some payload)
  unfolding put_latest
  put_latest-points raced raced' t at token now kind version payload free alone =
      put_artifact-points raced raced' t kind "latest" (unique_version at token version) now payload
        free alone

apart : (a b : String) → not (a == b) ≡ true → (b == a) ≡ false
apart a b h = ground (arith, eq_iff a b, eq_iff b a)

unlike :
    (a b c : String) {x : Bool} → a ≡ c → x ≡ true → (x && b == c) ≡ false → not (a == b) ≡ true
unlike a b c same e f = ground (arith, eq_iff a b, eq_iff b c)

some-injective : {A : Type 0} {a b : A} → some a ≡ some b → a ≡ b
some-injective {a = a} h = ap (λ o. elim o [ none ↦ a | some x ↦ x ]) h

module _ {P : Type 0} (kind : String) where
  -- The newest row of its kind and key.
  newest_rows-found :
      (t : Table P) (r : Row P) → Memᴰ r (newest_rows kind t) → find (at_key kind r.key) t ≡ some r
  unfolding newest_rows
  newest_rows-found [] r m = elim m [ ]
  newest_rows-found (s ∷ t) r m = elim (Bool-cases (s.kind == kind)) [
    | inl of_kind ↦
        (elim (subst
          (λ b. Memᴰ r (
            if b
            then s ∷ filter (λ (u : Row P). not (u.key == s.key)) (newest_rows kind t)
            else newest_rows kind t))
          of_kind m) [
            | Memᴰ.head same ↦
                rw (of_kind, (eq_iff s.key r.key).1 (ap (λ (u : Row P). u.key) (sym same)))
                  (ap (λ (u : Row P). some u) (sym same))
            | Memᴰ.tail n ↦
                (let (there, other) =
                    Memᴰ-filter (λ (u : Row P). not (u.key == s.key)) r (newest_rows kind t) n in
                  rw (of_kind, apart r.key s.key other) (newest_rows-found t r there))
          ])
    | inr other_kind ↦ rw other_kind (
        newest_rows-found t r (
          subst
            (λ b. Memᴰ r (
              if b
              then s ∷ filter (λ (u : Row P). not (u.key == s.key)) (newest_rows kind t)
              else newest_rows kind t))
            other_kind m))
  ]

  -- A newest row is among them.
  found-newest_rows :
      (key : String) (t : Table P) (r : Row P)
      → find (at_key kind key) t ≡ some r
      → Memᴰ r (newest_rows kind t) × (r.key ≡ key)
  unfolding newest_rows
  found-newest_rows key [] r h = cc
  found-newest_rows key (s ∷ t) r h = elim (Bool-cases (at_key kind key s)) [
    | inl fits ↦
        let same : s ≡ r =
          some-injective
            (sym (ap (λ b. if b then some s else find (at_key kind key) t) fits) ∙ h) in
        (
          rw (and_left (s.kind == kind) (s.key == key) fits) (Memᴰ.head (sym same)),
          sym (ap (λ (u : Row P). u.key) same)
              ∙ (eq_iff s.key key).0 (and_right (s.kind == kind) (s.key == key) fits),
        )
    | inr off ↦
        let (m, at) =
          found-newest_rows key t r
            (sym (ap (λ b. if b then some s else find (at_key kind key) t) off) ∙ h) in
        (
          elim (Bool-cases (s.kind == kind)) [
            | inl of_kind ↦ rw of_kind (
                Memᴰ.tail (
                  filter-Memᴰ (λ (u : Row P). not (u.key == s.key)) r (newest_rows kind t) m
                    (unlike r.key s.key key at of_kind off)))
            | inr other_kind ↦ rw other_kind m
          ],
          at,
        )
  ]

  -- What is listed of a kind is, for each key that has an artifact, its newest one: of the row that
  -- an artifact is read from without a version, the key, the version and the payload.
  pub list_artifacts-newest :
      (t : Table P) (r : Row P)
      → Memᴰ r (sort_with key_order (newest_rows kind t)) ↔ (find (at_key kind r.key) t ≡ some r)
  list_artifacts-newest t r = (
    λ m. newest_rows-found t r (Memᴰ-sort_with key_order r (newest_rows kind t) m),
    λ h. sort_with-Memᴰ key_order r (newest_rows kind t) (found-newest_rows r.key t r h).0,
  )
