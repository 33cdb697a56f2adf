-- ===== src/Evolution/Governance/Samples.antt =====
-- evolution/governance.py: small runs, and what the program does on them.
use sep.Base.{String, ◌≡◌, refl, true, false, none, some, [], ◌∷◌, map}
use Prim.Native.String
use sep.Base.Text.{str, str_04d}
use sep.Core.Errors.{ok}
use sep.Core.Errors as Core
use sep.Core.Security.{Role, Principal, has, require_role}
use sep.Domain.Policy.{
  PolicyBundle, RuleSpec, Candidate, detection_rule, replayed, counterexamples_passed,
  shadow_passed, awaiting_approval, released,
}
use sep.Store.Artifacts.{artifact_history, get_artifact, put_artifact}
use sep.Store.Artifacts.Latest.{list_artifacts}
use sep.Store.Audit.{Body, audit}
use sep.Store.Session.{◌>>=◌}
use sep.Evolution.Governance.State.{
  Payload, bundle_payload, candidate_payload, event_payload, activation_payload, report_payload, Db,
  empty, state, events, candidate, active_bundle, bundles, candidates, activations, allowed,
  state_value, human,
}
use sep.Evolution.Governance.Methods.{
  seed, create, record_step, submit, approve, rollback, bundle_id, amended, next_rules,
}

-- Digests for the samples: enough of each value to tell the stored ones apart.
abbrev pub toy_hash : Payload → String
toy_hash (bundle_payload b) = String.◌++◌ b.bundle_id b.created_at
toy_hash (candidate_payload c) = c.candidate_id
toy_hash (event_payload e) = String.◌++◌ e.candidate_id e.at
toy_hash (activation_payload b actor at) = String.◌++◌ b at
toy_hash (report_payload s) = s

abbrev pub toy_digest : Body → String
toy_digest b = String.◌++◌ b.at (String.◌++◌ b.subject b.prev)

abbrev pub toy_ref : String → String
toy_ref s = s

abbrev pub ann : Principal
ann = record {
  user_id = "ann";
  roles = Role.investigator ∷ [];
  desks = "*" ∷ [];
  person_data = false;
}

abbrev pub bob : Principal
bob = record { user_id = "bob"; roles = Role.approver ∷ []; desks = "*" ∷ []; person_data = false }

abbrev pub rule_x : RuleSpec
rule_x = record {
  rule_id = "RX";
  subrule_id = "RX.1";
  description = "";
  severity = "LOW";
  conditions = [];
  parameters = [];
}

abbrev pub proposal : String → Candidate
proposal candidate_id = record {
  candidate_id = candidate_id;
  kind = detection_rule;
  rule = some rule_x;
  bulk_scope = none;
  pattern_id = "p";
  rationale = "r";
  proposed_by = "agent:discovery";
  created_at = "t0";
  base_bundle_id = "BUNDLE-0001";
}

-- A candidate taken up to its submission by `ann`.
abbrev pub prepare : String → Db → Db
prepare c db =
    let db = (create toy_hash toy_digest "t1" (proposal c) db).1 in
    let db =
      (record_step toy_hash toy_digest "t2" c replayed "ann" "replay" c (report_payload "ok") ""
        db).1 in
    let db =
      (record_step toy_hash toy_digest "t3" c counterexamples_passed "ann" "counterexamples" c
        (report_payload "ok") "" db).1 in
    let db =
      (record_step toy_hash toy_digest "t4" c shadow_passed "ann" "shadow" c (report_payload "ok")
        "" db).1 in
    (submit toy_hash toy_digest "t5" c ann "please" db).1

abbrev pub seeded_db : Db
seeded_db = (seed toy_hash toy_digest "t0" [] [] empty).1

abbrev pub submitted : Db
submitted = prepare "C-1" seeded_db

abbrev pub approved : Db
approved = (approve toy_hash toy_digest toy_ref (ok true) "t6" "C-1" bob "fine" submitted).1

unfoldable pub program : Unit {0}
unfolding seed create record_step submit approve rollback state events active_bundle get_artifact
    artifact_history put_artifact audit ◌>>=◌ allowed state_value human require_role has str str_04d
    bundle_id candidate amended next_rules
program = tt

submitted_state : state "C-1" submitted ≡ ok awaiting_approval
unfolding program
submitted_state = refl

approved_state : state "C-1" approved ≡ ok released
unfolding program
approved_state = refl

approved-bundles :
    Core.◌>>=◌ (bundles approved) (λ bs. ok (map (λ (b : PolicyBundle). b.bundle_id) bs))
    ≡ ok ("BUNDLE-0001" ∷ ("BUNDLE-0002" ∷ []))
unfolding program bundles list_artifacts
approved-bundles = refl

approved-candidates : candidates approved ≡ ok (proposal "C-1" ∷ [])
unfolding program candidates list_artifacts
approved-candidates = refl

approved-activations :
    activations approved
    ≡ activation_payload "BUNDLE-0001" "seed" "t0"
      ∷ (activation_payload "BUNDLE-0002" "bob" "t6" ∷ [])
unfolding program activations
approved-activations = refl
