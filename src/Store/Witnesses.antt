-- ===== src/Store/Witnesses.antt =====
-- The theorems about the store at concrete inputs.
use sep.Base.{
  String, ◌≡◌, refl, true, none, some, [], ◌∷◌, ◌++◌, map, length, ◌+◌, inl, eq_refl,
  ◌==◌ as str_eq,
}
use sep.Store.Artifacts.{Row, Table, row_of, select, put_artifact, get_artifact}
use sep.Store.Artifacts.Latest.{put_latest, list_artifacts}
use sep.Store.Artifacts.Laws.{Settled, put_artifact-Settled}
use sep.Store.Artifacts.AppendOnly.{put_artifact-keeps_version}
use sep.Store.Audit.{
  Entry, ListedEntry, Log, genesis, new_entry, audit, verify_audit_chain, audit_head, audit_hash_at,
  audit_entries,
}
use sep.Store.Audit.Chain.{covered, last_hash, audit-verifies, same_head-same_log}
use sep.Store.Audit.Encoding.{written, written-CollisionFree}
use sep.Store.Anchor.{Anchor, Signer, Verifier, signed, is_ok, verify_with_anchors}
use sep.Store.Anchor.Tamper.{anchored-prefix}
use sep.Store.Anchor.Growth.{honest-is_ok}

abbrev plain : String → String
plain s = s

abbrev row : String → String → Row String
row version payload = row_of plain "note" "a" version "t0" payload

abbrev table : Table String
table = row "2" "second" ∷ row "1" "first" ∷ []

-- Another process stores the same version first, with another payload.
abbrev race : Table String
race = row "3" "theirs" ∷ []

put_artifact-Settled_example :
    Settled plain "note" "a" "3" "ours"
      (put_artifact plain race [] "note" "a" "3" "t1" "ours" table)
put_artifact-Settled_example = put_artifact-Settled plain "note" "a" "3" "t1" "ours" race [] table

put_artifact-keeps_version_example :
    select "note" "a" "2" (put_artifact plain race [] "note" "a" "3" "t1" "ours" table).1
    ≡ some (row "2" "second")
unfolding select
put_artifact-keeps_version_example =
    put_artifact-keeps_version plain "note" "a" "3" "t1" "ours" race [] table (refl, (refl, tt))
      (refl, (refl, (refl, tt))) "note" "a" "2" refl

-- The newest version of each key of a kind.
abbrev notes : Table String
notes = row_of plain "note" "b" "1" "t0" "other" ∷ table

notes_listed : list_artifacts "note" notes ≡ ("a", ("2", "second")) ∷ (("b", ("1", "other")) ∷ [])
unfolding list_artifacts
notes_listed = refl

-- A payload that was the newest one before becomes it again.
abbrev repointed : Table String
repointed =
    (put_latest plain [] [] "t3" "c" "t3" "report" "1" "first"
      (put_latest plain [] [] "t2" "b" "t2" "report" "2" "second"
        (put_latest plain [] [] "t1" "a" "t1" "report" "1" "first" []).1).1).1

first_again : get_artifact "report" "latest" none repointed ≡ some "first"
unfolding put_latest get_artifact
first_again = refl

abbrev log1 : Log
log1 = (audit written "t1" "ann" "SEED" "BUNDLE-0001" [] []).1

abbrev log2 : Log
log2 = (audit written "t2" "bob" "ROLLBACK" "BUNDLE-0001" (("reason", "test") ∷ []) log1).1

audit-verifies_example :
    verify_audit_chain written (audit written "t2" "bob" "ROLLBACK" "BUNDLE-0001" [] log1).1
    ≡ (true, length log1 + 1)
unfolding verify_audit_chain audit written
audit-verifies_example = audit-verifies written "t2" "bob" "ROLLBACK" "BUNDLE-0001" [] log1 refl

-- The same entries under other numbers, which no hash covers.
abbrev renumbered : Log
renumbered = map (λ (e : Entry). record e { seq = e.seq + 10 }) log2

same_head-same_log_example : map covered log2 ≡ map covered renumbered
unfolding verify_audit_chain audit written
same_head-same_log_example =
    same_head-same_log written written-CollisionFree log2 renumbered refl refl refl

newest_entry : map (λ (e : ListedEntry). e.action) (audit_entries 1 log2) ≡ "ROLLBACK" ∷ []
unfolding audit_entries audit
newest_entry = refl

abbrev signer : Signer
signer = record { algorithm = "toy"; key_id = "k"; sign = λ b. b.hash }

abbrev verifier : Verifier
verifier = record { algorithm = "toy"; key_id = "k"; verify = λ b s. str_eq b.hash s }

abbrev anchor1 : Anchor
anchor1 = signed signer 1 (last_hash genesis log1) "t1"

anchored-prefix_example :
    (pre post : Log) × (log2 ≡ pre ++ post) × (map covered pre ≡ map covered log1)
unfolding verify_with_anchors is_ok audit audit_head audit_hash_at verify_audit_chain written
anchored-prefix_example =
    anchored-prefix written written-CollisionFree log1 log2 verifier (anchor1 ∷ []) anchor1 refl
      refl (inl refl) refl

honest-is_ok_example : is_ok (verify_with_anchors written log2 verifier (anchor1 ∷ [])) ≡ true
unfolding audit audit_head verify_audit_chain written
honest-is_ok_example =
    honest-is_ok signer verifier
      (record { algorithm = refl; key_id = refl; accepts = λ b. eq_refl b.hash }) log2
      (refl, (refl, tt)) written (anchor1 ∷ []) refl
      (
        (
          log1,
          new_entry written "t2" "bob" "ROLLBACK" "BUNDLE-0001" (("reason", "test") ∷ []) log1 ∷ [],
          refl,
          refl,
          refl,
        ),
        tt,
      )
