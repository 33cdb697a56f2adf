-- ===== src/Evolution/Governance/Activation.antt =====
-- evolution/governance.py: `_activate`, and the activation in force.
use sep.Base.{String, ◌≡◌, refl, none, some, [], ◌∷◌}
use sep.Core.Errors.{ok}
use sep.Store.Artifacts.{Row, row_of, get_artifact}
use sep.Store.Artifacts.Numbered.{IsNumbered, next-free}
use sep.Store.Artifacts.Single.{put-fresh, latest-cons, history-cons}
use sep.Store.Audit.{Body, audit}
use sep.Store.Session.{◌>>=◌}
use sep.Store.Session.Keeps.{Keeps}
use sep.Domain.Policy.{PolicyBundle}
use sep.Evolution.Governance.State.{
  Payload, activation_payload, bundle_payload, bundle_kind, Db, activation_kind, event_kind, bundle,
  active_bundle, state,
}
use sep.Evolution.Governance.Methods.{put, next_version, activate}
use sep.Evolution.Governance.Invariant.{IsGoverned, other-Governed, apart}

module _ (content_hash : Payload → String) (digest : Body → String)
    (now bundle_id actor : String) where
  abbrev pub activation_row : Db → Row Payload
  activation_row db =
      row_of content_hash activation_kind "production"
        (next_version activation_kind "production" db) now (activation_payload bundle_id actor now)

  abbrev pub activated : Db → Db
  activated db = record {
    artifacts = activation_row db ∷ db.artifacts;
    audit_log =
        (audit digest now actor "ACTIVATE_BUNDLE" bundle_id
          (("sequence", next_version activation_kind "production" db) ∷ []) db.audit_log).1;
  }

  -- Its number is free, so the record is added.
  pub activate_lem :
      (db : Db)
      → IsNumbered activation_kind db.artifacts
      → activate content_hash digest now bundle_id actor db ≡ (ok tt, activated db)
  unfolding activate ◌>>=◌ put next_version
  activate_lem db n = rw (
      put-fresh content_hash activation_kind "production"
        (next_version activation_kind "production" db) now (activation_payload bundle_id actor now)
        db.artifacts (next-free activation_kind "production" db.artifacts n))

  pub activated-Governed : (db : Db) → IsGoverned db → IsGoverned (activated db)
  unfolding next_version
  activated-Governed db g =
      other-Governed (activation_row db) db.artifacts (apart activation_kind event_kind refl)
        ((λ _. refl), g.activations_numbered) g

  pub activate-Governed : Keeps IsGoverned (activate content_hash digest now bundle_id actor)
  activate-Governed = record {
    after = λ db g. rw (activate_lem db g.activations_numbered) (activated-Governed db g);
  }

  -- The record names the bundle in force.
  pub active-activated :
      (b : PolicyBundle) (db : Db)
      → get_artifact bundle_kind bundle_id none db.artifacts ≡ some (bundle_payload b)
      → active_bundle (activated db) ≡ ok b
  unfolding active_bundle
  active-activated b db stored =
      rw (latest-cons activation_kind "production" (activation_row db) db.artifacts) (
        unfold bundle in
        rw (latest-cons bundle_kind bundle_id (activation_row db) db.artifacts, stored))

  pub state-activated : (id : String) (db : Db) → state id (activated db) ≡ state id db
  unfolding state
  state-activated id db = rw (history-cons event_kind id (activation_row db) db.artifacts)
