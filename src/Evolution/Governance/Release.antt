-- ===== src/Evolution/Governance/Release.antt =====
-- evolution/governance.py: what an approval releases, and when it cannot.
use sep.Base.{
  ◌+◌, String, ◌≡◌, refl, ap, ◌∙◌, Bool, true, false, none, some, [], ◌∷◌, ◌==◌, eq_refl, not,
  filter, Bool-cases, inl, inr,
}
use sep.Core.Errors.{Result, ok, err, immutable_record_error}
use sep.Core.Security.{Principal}
use sep.Store.Artifacts.{Row, row_of, select, get_artifact}
use sep.Store.Artifacts.Numbered.{other-IsNumbered}
use sep.Store.Artifacts.Single.{put-fresh, put-taken, latest-cons, latest_none}
use sep.Store.Audit.{Body}
use sep.Store.Session.{◌>>=◌, reads, lift}
use sep.Store.Session.Keeps.{bind-at}
use sep.Domain.Policy.{
  CandidateState, released, Candidate, PolicyBundle, RuleSpec, RuleSet, BulkPolicy,
}
use sep.Evolution.Governance.State.{
  Payload, bundle_payload, Db, event_kind, bundle_kind, activation_kind, candidate, state,
  active_bundle, allowed,
}
use sep.Evolution.Governance.Methods.{
  put, event, activate, amended, bundle_id, next_rules, released_bundle, release, approve,
}
use sep.Evolution.Governance.Access.{Approved, only_awaiting, approve-runs}
use sep.Evolution.Governance.Invariant.{IsGoverned, other-Governed, apart}
use sep.Evolution.Governance.Events.{event_lem, evented, state_other}
use sep.Evolution.Governance.Activation.{
  activate_lem, activated, activated-Governed, active-activated, state-activated,
}

module _ (content_hash : Payload → String) (digest : Body → String) (bundle_ref : String → String)
    (now target note : String) (p : Principal) where
  -- What `release` reads before it writes.
  pub record Ready (db : Db) : Type 0 where
    pub c : Candidate
    pub parent : PolicyBundle
    pub policy : RuleSet × BulkPolicy
    pub at_candidate : candidate target db ≡ ok c
    pub at_parent : active_bundle db ≡ ok parent
    pub at_policy : amended c parent ≡ ok policy

  abbrev pub new_bundle : {db : Db} → Ready db → PolicyBundle
  new_bundle r = released_bundle r.parent r.policy target p.user_id now note

  -- If the next bundle id is taken by a bundle with another digest, as it is once an earlier release
  -- was rolled back, then `release` raises ImmutableRecordError and writes nothing: no bundle, no
  -- event, no activation.
  pub release-blocked :
      (db : Db) (r : Ready db) (taken : Row Payload)
      → select bundle_kind (bundle_id (r.parent.version + 1)) "1" db.artifacts ≡ some taken
      → (taken.payload_hash == content_hash (bundle_payload (new_bundle r))) ≡ false
      → release content_hash digest bundle_ref now target p note db
        ≡ (err immutable_record_error, db)
  unfolding release put ◌>>=◌
  release-blocked db r taken at differs =
      rw (r.at_candidate, r.at_parent, r.at_policy)
        (rw
          (put-taken content_hash bundle_kind (bundle_id (r.parent.version + 1)) "1" now
            (bundle_payload (new_bundle r)) db.artifacts taken at)
          (rw differs))

  put_new :
      (b : PolicyBundle) (db : Db)
      → get_artifact bundle_kind b.bundle_id none db.artifacts ≡ none
      → put content_hash bundle_kind b.bundle_id "1" now (bundle_payload b) db ≡ (
        ok (content_hash (bundle_payload b)),
        record db {
          artifacts =
              row_of content_hash bundle_kind b.bundle_id "1" now (bundle_payload b) ∷ db.artifacts;
        },
      )
  unfolding put
  put_new b db free = rw (
      put-fresh content_hash bundle_kind b.bundle_id "1" now (bundle_payload b) db.artifacts
        (latest_none bundle_kind b.bundle_id "1" db.artifacts free))

  -- The bundle is found behind the event of the release.
  bundle_stored :
      (b : PolicyBundle) (db : Db)
      → get_artifact bundle_kind b.bundle_id none
          (evented content_hash digest now target released p.user_id
            (some (bundle_ref b.bundle_id))
            note
            (record db {
              artifacts =
                  row_of content_hash bundle_kind b.bundle_id "1" now (bundle_payload b)
                  ∷ db.artifacts;
            })).artifacts
        ≡ some (bundle_payload b)
  unfolding evented
  bundle_stored b db =
      latest-cons bundle_kind b.bundle_id _ _
      ∙ (latest-cons bundle_kind b.bundle_id
            (row_of content_hash bundle_kind b.bundle_id "1" now (bundle_payload b)) db.artifacts
          ∙ rw (eq_refl b.bundle_id))

  release_lem :
      (db : Db) (r : Ready db) (current : CandidateState)
      → IsGoverned db
      → state target db ≡ ok current
      → allowed current released ≡ true
      → get_artifact bundle_kind (bundle_id (r.parent.version + 1)) none db.artifacts ≡ none
      → (db' : Db) × (release content_hash digest bundle_ref now target p note db
          ≡ (ok (new_bundle r), db'))
        × (active_bundle db' ≡ ok (new_bundle r))
        × (state target db' ≡ ok released)
        × IsGoverned db'
  unfolding release
  release_lem db r current g at fits free =
      let b = new_bundle r in
      let row = row_of content_hash bundle_kind b.bundle_id "1" now (bundle_payload b) in
      let db1 : Db = record db { artifacts = row ∷ db.artifacts } in
      let g1 : IsGoverned db1 =
        other-Governed row db.artifacts (apart bundle_kind event_kind refl)
          (other-IsNumbered activation_kind row db.artifacts
            (apart bundle_kind activation_kind refl) g.activations_numbered)
          g in
      let at1 : state target db1 ≡ ok current = state_other target row db refl ∙ at in
      let (sent, now_released, g2) =
        event_lem content_hash digest now target released p.user_id (some (bundle_ref b.bundle_id))
          note db1 current g1 at1 fits in
      let db2 =
        evented content_hash digest now target released p.user_id (some (bundle_ref b.bundle_id))
          note db1 in
      let db3 = activated content_hash digest now b.bundle_id p.user_id db2 in
      (
        db3,
        bind-at (reads (candidate target)) _ db db r.c (ap (λ x. (x, db)) r.at_candidate)
            ∙ (bind-at (reads active_bundle) _ db db r.parent (ap (λ x. (x, db)) r.at_parent)
                ∙ (bind-at (lift (amended r.c r.parent)) _ db db r.policy
                      (ap (λ x. (x, db)) r.at_policy)
                    ∙ (bind-at (put content_hash bundle_kind b.bundle_id "1" now (bundle_payload b))
                          _ db db1 _ (put_new b db free)
                        ∙ (bind-at (event content_hash digest now target released p.user_id _ note)
                              _ db1 db2 _ sent
                            ∙ bind-at (activate content_hash digest now b.bundle_id p.user_id) _ db2
                                db3 tt
                                (activate_lem content_hash digest now b.bundle_id p.user_id db2
                                  g2.activations_numbered))))),
        active-activated content_hash digest now b.bundle_id p.user_id b db2 (bundle_stored b db),
        state-activated content_hash digest now b.bundle_id p.user_id target db2 ∙ now_released,
        activated-Governed content_hash digest now b.bundle_id p.user_id db2 g2,
      )

  -- An approval whose checks hold, of a candidate that can be read and has a payload, over an active
  -- bundle whose successor's id is free, returns the successor: the active bundle with the
  -- candidate's rule or scope put in, one version on. Afterwards that bundle is the active one, the
  -- candidate is RELEASED, and the histories are still lawful.
  pub approve-releases :
      (four_eyes : Result Bool) (db : Db) (r : Ready db)
      → IsGoverned db
      → Approved content_hash digest four_eyes target p db
      → get_artifact bundle_kind (bundle_id (r.parent.version + 1)) none db.artifacts ≡ none
      → (db' : Db) × (approve content_hash digest bundle_ref four_eyes now target p note db
          ≡ (ok (new_bundle r), db'))
        × (active_bundle db' ≡ ok (new_bundle r))
        × (state target db' ≡ ok released)
        × IsGoverned db'
  approve-releases four_eyes db r g a free =
      let fits : allowed a.current released ≡ true =
        unfold allowed in rw (only_awaiting a.current a.awaiting) in
      let (db', done, active, at, kept) = release_lem db r a.current g a.at_state fits free in
      (
        db',
        approve-runs content_hash digest bundle_ref four_eyes now target note p db a ∙ done,
        active,
        at,
        kept,
      )

  -- An approval whose checks hold raises ImmutableRecordError and changes nothing, if the id of the
  -- successor of the active bundle is taken by a bundle with another digest. This is so after a
  -- rollback: the active bundle is an old one, whose successor was released before.
  pub approve-blocked :
      (four_eyes : Result Bool) (db : Db) (r : Ready db) (taken : Row Payload)
      → Approved content_hash digest four_eyes target p db
      → select bundle_kind (bundle_id (r.parent.version + 1)) "1" db.artifacts ≡ some taken
      → (taken.payload_hash == content_hash (bundle_payload (new_bundle r))) ≡ false
      → approve content_hash digest bundle_ref four_eyes now target p note db
        ≡ (err immutable_record_error, db)
  approve-blocked four_eyes db r taken a at differs =
      approve-runs content_hash digest bundle_ref four_eyes now target note p db a
      ∙ release-blocked db r taken at differs

-- The rules of a released bundle: the candidate's rule once, and every rule with another id as it
-- was, in the same order.
pub next_rules-once :
    (rule : RuleSpec) (rules : RuleSet)
    → (filter (λ (x : RuleSpec). x.rule_id == rule.rule_id) (next_rules rule rules) ≡ rule ∷ [])
      × (filter (λ (x : RuleSpec). not (x.rule_id == rule.rule_id)) (next_rules rule rules)
          ≡ filter (λ (x : RuleSpec). not (x.rule_id == rule.rule_id)) rules)
unfolding next_rules
next_rules-once rule [] = rw (eq_refl rule.rule_id) (refl, refl)
next_rules-once rule (x ∷ rules) = elim (Bool-cases (x.rule_id == rule.rule_id)) [
  | inl same ↦ rw same (next_rules-once rule rules)
  | inr other ↦
      let (once, rest) = next_rules-once rule rules in
      rw other (rw other (once, ap (λ (l : RuleSet). x ∷ l) rest))
]
