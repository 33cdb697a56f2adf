-- ===== src/Evolution/Governance/Preserved.antt =====
-- evolution/governance.py: the public methods and the histories.
use sep.Base.{
  String, ◌≡◌, ◌≢◌, refl, sym, subst, ◌∙◌, eq_refl, Bool, true, false, Option, none, some, [], ◌∷◌,
  arith,
}
use sep.Core.Errors.{Error, Result, ok, err}
use sep.Core.Security.{Principal}
use sep.Domain.Policy.{RuleSet, BulkPolicy, PolicyBundle, CandidateState, draft, Candidate}
use sep.Store.Artifacts.{Row, get_artifact, row_of}
use sep.Store.Artifacts.Single.{put-fresh, history-cons, latest-cons, latest_none}
use sep.Store.Audit.{Body}
use sep.Store.Session.{Exec, proceed, pure, ◌>>=◌}
use sep.Store.Session.Keeps.{Keeps, keeps_rules, Keeps-bind, Keeps-reads, bind-at}
use sep.Evolution.Governance.State.{
  Payload, candidate_payload, Db, event_kind, candidate_kind, activation_kind, bundle_kind,
}
use sep.Evolution.Governance.Methods.{
  put, seed_unless, seed, rollback, create_unless, create, record_step, submit, reject, release,
  approve, require,
}
use sep.Evolution.Governance.Invariant.{
  IsGoverned, HasHistory, other-Governed, put-Governed, log-Governed, apart,
}
use sep.Evolution.Governance.Appending.{append_event-Governed, event-Governed}
use sep.Evolution.Governance.Activation.{activate-Governed}
use sep.Store.Artifacts.Numbered.{other-IsNumbered}

require-Governed : (b : Bool) (e : Error) → Keeps IsGoverned (require b e)
unfolding require
require-Governed true e = record { after = λ db g. g }
require-Governed false e = record { after = λ db g. g }

proceed-pure-Governed :
    {A B : Type 0} (r : Result A) (b : B) (s : Db)
    → IsGoverned s
    → IsGoverned (proceed r (λ _. pure b) s).1
unfolding proceed
proceed-pure-Governed (ok a) b s g = g
proceed-pure-Governed (err e) b s g = g

bind_pure-Governed :
    {A B : Type 0} (m : Exec Db A) (b : B) (db : Db)
    → IsGoverned (m db).1
    → IsGoverned ((m >>= λ _. pure b) db).1
unfolding ◌>>=◌
bind_pure-Governed m b db g = proceed-pure-Governed (m db).0 b (m db).1 g

module _ (content_hash : Payload → String) (digest : Body → String) where
  pub seed-Governed :
      (now : String) (rules : RuleSet) (bulk : BulkPolicy)
      → Keeps IsGoverned (seed content_hash digest now rules bulk)
  unfolding seed
  seed-Governed now rules bulk = Keeps-bind _ _ (Keeps-reads _) unless
    where
      unless :
          (o : Option PolicyBundle)
          → Keeps IsGoverned (seed_unless content_hash digest now rules bulk o)
      unless none = search (
        keeps_rules,
        put-Governed,
        activate-Governed,
        apart bundle_kind event_kind refl,
        apart bundle_kind activation_kind refl,
      )
      unless (some b) = search keeps_rules

  pub rollback-Governed :
      (now bundle_id : String) (p : Principal) (reason : String)
      → Keeps IsGoverned (rollback content_hash digest now bundle_id p reason)
  unfolding rollback
  rollback-Governed now bundle_id p reason =
      search (keeps_rules, log-Governed, activate-Governed) depth 9

  pub submit-Governed :
      (now id : String) (p : Principal) (note : String)
      → Keeps IsGoverned (submit content_hash digest now id p note)
  unfolding submit
  submit-Governed now id p note = search (keeps_rules, event-Governed) depth 8

  pub reject-Governed :
      (now id : String) (p : Principal) (note : String)
      → Keeps IsGoverned (reject content_hash digest now id p note)
  unfolding reject
  reject-Governed now id p note = search (keeps_rules, event-Governed) depth 8

  pub record_step-Governed :
      (now id : String) (new : CandidateState) (actor kind key : String) (artifact : Payload)
      (note : String)
      → kind ≢ event_kind
      → kind ≢ activation_kind
      → Keeps IsGoverned (record_step content_hash digest now id new actor kind key artifact note)
  unfolding record_step
  record_step-Governed now id new actor kind key artifact note other other' =
      search (keeps_rules, put-Governed, event-Governed)

  release-Governed :
      (bundle_ref : String → String) (now id : String) (p : Principal) (note : String)
      → Keeps IsGoverned (release content_hash digest bundle_ref now id p note)
  unfolding release
  release-Governed bundle_ref now id p note =
      search
        (
          keeps_rules,
          put-Governed,
          event-Governed,
          activate-Governed,
          apart bundle_kind event_kind refl,
          apart bundle_kind activation_kind refl,
        )
        depth 12

  pub approve-Governed :
      (bundle_ref : String → String) (four_eyes : Result Bool) (now id : String) (p : Principal)
      (note : String)
      → Keeps IsGoverned (approve content_hash digest bundle_ref four_eyes now id p note)
  unfolding approve
  approve-Governed bundle_ref four_eyes now id p note =
      search (keeps_rules, require-Governed, release-Governed) depth 14

  abbrev candidate_row : String → Candidate → Row Payload
  candidate_row now c =
      row_of content_hash candidate_kind c.candidate_id "1" now (candidate_payload c)

  put_candidate :
      (now : String) (c : Candidate) (db : Db)
      → get_artifact candidate_kind c.candidate_id none db.artifacts ≡ none
      → put content_hash candidate_kind c.candidate_id "1" now (candidate_payload c) db ≡ (
        ok (content_hash (candidate_payload c)),
        record db { artifacts = candidate_row now c ∷ db.artifacts },
      )
  unfolding put
  put_candidate now c db absent = rw (
      put-fresh content_hash candidate_kind c.candidate_id "1" now (candidate_payload c)
        db.artifacts (latest_none candidate_kind c.candidate_id "1" db.artifacts absent))

  candidate_stored :
      (now : String) (c : Candidate) (db : Db)
      → get_artifact candidate_kind c.candidate_id none (candidate_row now c ∷ db.artifacts) ≢ none
  candidate_stored now c db h = ground (
    arith,
    sym (latest-cons candidate_kind c.candidate_id (candidate_row now c) db.artifacts) ∙ h,
    eq_refl c.candidate_id,
  )

  -- A first event: the candidate was not stored, so it had no history.
  first-Governed :
      (now : String) (c : Candidate) (db : Db)
      → get_artifact candidate_kind c.candidate_id none db.artifacts ≡ none
      → IsGoverned db
      → IsGoverned (create_unless content_hash digest now c none db).1
  unfolding create_unless
  first-Governed now c db absent g =
      let row = candidate_row now c in
      let db' : Db = record db { artifacts = row ∷ db.artifacts } in
      let g' =
        other-Governed row db.artifacts (apart candidate_kind event_kind refl)
          (other-IsNumbered activation_kind row db.artifacts
            (apart candidate_kind activation_kind refl) g.activations_numbered)
          g in
      let bare : HasHistory db'.artifacts c.candidate_id [] =
        history-cons event_kind c.candidate_id row db.artifacts ∙ g.created c.candidate_id absent in
      subst (λ (out : Result Candidate × Db). IsGoverned out.1)
        (sym (
          bind-at (put content_hash candidate_kind c.candidate_id "1" now (candidate_payload c)) _
            db db' _ (put_candidate now c db absent)))
        (bind_pure-Governed _ c db' (
          append_event-Governed content_hash digest now c.candidate_id draft c.proposed_by none
            "proposed" db' [] bare tt refl (candidate_stored now c db) g'))

  unless-Governed :
      (now : String) (c : Candidate) (db : Db) (o : Option Payload)
      → get_artifact candidate_kind c.candidate_id none db.artifacts ≡ o
      → IsGoverned db
      → IsGoverned (create_unless content_hash digest now c o db).1
  unless-Governed now c db none absent g = first-Governed now c db absent g
  unless-Governed now c db (some p) stored g = unfold create_unless in g

  pub create-Governed :
      (now : String) (c : Candidate) → Keeps IsGoverned (create content_hash digest now c)
  unfolding create ◌>>=◌
  create-Governed now c = record {
    after = λ db g.
        unless-Governed now c db (get_artifact candidate_kind c.candidate_id none db.artifacts) refl
          g;
  }
