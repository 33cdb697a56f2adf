-- ===== src/Evolution/Governance/Methods.antt =====
-- evolution/governance.py: the methods of `Governance` that write. The clock's readings within one
-- call are one argument, `now`; `four_eyes` is the reading of the configuration. `content_hash` is
-- the digest of a stored payload and `digest` that of an audit entry.
use sep.Base.{
  ℕ, ◌+◌, String, Bool, true, false, not, ◌&&◌, Option, none, some, List, [], ◌∷◌, ◌++◌, filter,
  length, ◌==◌,
}
use sep.Base.Text.{str, str_04d}
use Prim.Native.String
use sep.Core.Errors.{Error, Result, ok, err, governance_error, permission_denied}
use sep.Core.Security.{Role, Principal, require_role}
use sep.Domain.Policy.{
  RuleSpec, RuleSet, BulkScope, BulkPolicy, same_scope, PolicyBundle, CandidateKind, detection_rule,
  bulk_policy_scope, CandidateState, draft, awaiting_approval, released, rejected, Candidate,
  CandidateEvent,
}
use sep.Store.Artifacts.{get_artifact, artifact_history, put_artifact}
use sep.Store.Audit.{Body, audit}
use sep.Store.Session.{Exec, pure, raise, lift, reads, ◌>>=◌, ◌>>◌}
use sep.Evolution.Governance.State.{
  allowed, state_value, is_awaiting, human, Payload, bundle_payload, candidate_payload,
  event_payload, activation_payload, as_candidate, Db, bundle_kind, activation_kind, candidate_kind,
  event_kind, bundle, active_bundle_or_none, active_bundle, candidate, events, state, submitter,
}

-- f"BUNDLE-{version:04d}"
unfoldable pub bundle_id : ℕ → String
bundle_id version = String.◌++◌ "BUNDLE-" (str_04d version)

unfoldable pub next_rules : RuleSpec → RuleSet → RuleSet
next_rules rule rules =
    filter (λ (r : RuleSpec). not (r.rule_id == rule.rule_id)) rules ++ (rule ∷ [])

unfoldable pub next_scopes : BulkScope → BulkPolicy → BulkPolicy
next_scopes scope scopes =
    filter (λ (s : BulkScope). not (same_scope s scope)) scopes ++ (scope ∷ [])

-- The rules and scopes of the new bundle; a candidate without its payload is refused.
abbrev amendment :
    CandidateKind
    → Option RuleSpec
    → Option BulkScope
    → PolicyBundle
    → Result (RuleSet × BulkPolicy)
amendment detection_rule (some rule) scope parent =
    ok (next_rules rule parent.rules, parent.bulk_policy)
amendment detection_rule none scope parent = err governance_error
amendment bulk_policy_scope rule (some scope) parent =
    ok (parent.rules, next_scopes scope parent.bulk_policy)
amendment bulk_policy_scope rule none parent = err governance_error

unfoldable pub amended : Candidate → PolicyBundle → Result (RuleSet × BulkPolicy)
amended c parent = amendment c.kind c.rule c.bulk_scope parent

-- The bundle that `approve` builds over its parent.
abbrev pub released_bundle :
    PolicyBundle → RuleSet × BulkPolicy → String → String → String → String → PolicyBundle
released_bundle parent policy candidate_id approver now note = record {
  bundle_id = bundle_id (parent.version + 1);
  version = parent.version + 1;
  parent_id = some parent.bundle_id;
  rules = policy.0;
  bulk_policy = policy.1;
  created_at = now;
  created_by = approver;
  source_candidate = some candidate_id;
  notes = note;
}

unfoldable pub hash_text : Option String → String
hash_text none = ""
hash_text (some h) = h

unfoldable pub require : Bool → Error → Exec Db (Unit {0})
require true e = pure tt
require false e = raise e

-- `Store.put_artifact`, with no other writer between its statements.
unfoldable pub put :
    (Payload → String) → String → String → String → String → Payload → Exec Db String
put content_hash kind key version now payload db =
    let (r, t) = put_artifact content_hash [] [] kind key version now payload db.artifacts in
    (r, record db { artifacts = t })

-- `Store.audit`
unfoldable pub log :
    (Body → String) → String → String → String → String → List (String × String) → Exec Db String
log digest now actor action subject detail db =
    let (h, entries) = audit digest now actor action subject detail db.audit_log in
    (ok h, record db { audit_log = entries })

-- `str(len(history) + 1)`
unfoldable pub next_version : String → String → Db → String
next_version kind key db = str (length (artifact_history kind key db.artifacts) + 1)

module _ (content_hash : Payload → String) (digest : Body → String) where
  unfoldable pub activate : String → String → String → Exec Db (Unit {0})
  unfolding put log next_version
  activate now bundle_id actor = do
    seq ← reads (λ db. ok (next_version activation_kind "production" db))
    put content_hash activation_kind "production" seq now (activation_payload bundle_id actor now)
    log digest now actor "ACTIVATE_BUNDLE" bundle_id (("sequence", seq) ∷ [])
    pure tt

  abbrev initial_bundle : String → RuleSet → BulkPolicy → PolicyBundle
  initial_bundle now rules bulk = record {
    bundle_id = "BUNDLE-0001";
    version = 1;
    parent_id = none;
    rules = rules;
    bulk_policy = bulk;
    created_at = now;
    created_by = "seed";
    source_candidate = none;
    notes = "initial production policy";
  }

  unfoldable pub seed_unless :
      String → RuleSet → BulkPolicy → Option PolicyBundle → Exec Db PolicyBundle
  unfolding put activate
  seed_unless now rules bulk (some existing) = pure existing
  seed_unless now rules bulk none = do
    let b = initial_bundle now rules bulk
    put content_hash bundle_kind b.bundle_id "1" now (bundle_payload b)
    activate now b.bundle_id "seed"
    pure b

  unfoldable pub seed : String → RuleSet → BulkPolicy → Exec Db PolicyBundle
  unfolding seed_unless
  seed now rules bulk = do
    existing ← reads active_bundle_or_none
    seed_unless now rules bulk existing

  unfoldable pub rollback : String → String → Principal → String → Exec Db PolicyBundle
  unfolding activate log
  rollback now bundle_id principal reason = do
    lift (require_role principal (Role.approver ∷ []))
    lift (human principal)
    b ← reads (bundle bundle_id)
    activate now bundle_id principal.user_id
    log digest now principal.user_id "ROLLBACK" bundle_id (("reason", reason) ∷ [])
    pure b

  -- `_event` behind its check: append the event and its audit entry.
  unfoldable pub append_event :
      String → String → CandidateState → String → Option String → String → Exec Db CandidateEvent
  unfolding put log hash_text
  append_event now candidate_id new actor artifact_hash note = do
    es ← reads (events candidate_id)
    let event : CandidateEvent = record {
      candidate_id = candidate_id;
      state = new;
      actor = actor;
      at = now;
      artifact_hash = artifact_hash;
      note = note;
    }
    put content_hash event_kind candidate_id (str (length es + 1)) now (event_payload event)
    log digest now actor (String.◌++◌ "CANDIDATE_" (state_value new)) candidate_id
        (("artifact_hash", hash_text artifact_hash) ∷ ("note", note) ∷ [])
    pure event

  -- `_event` with its check on.
  unfoldable pub event :
      String → String → CandidateState → String → Option String → String → Exec Db CandidateEvent
  unfolding append_event require
  event now candidate_id new actor artifact_hash note = do
    current ← reads (state candidate_id)
    require (allowed current new) governance_error
    append_event now candidate_id new actor artifact_hash note

  unfoldable pub create_unless : String → Candidate → Option Payload → Exec Db Candidate
  unfolding put append_event
  create_unless now c (some p) = lift (as_candidate p)
  create_unless now c none = do
    put content_hash candidate_kind c.candidate_id "1" now (candidate_payload c)
    append_event now c.candidate_id draft c.proposed_by none "proposed"
    pure c

  unfoldable pub create : String → Candidate → Exec Db Candidate
  unfolding create_unless
  create now c = do
    existing ← reads (λ db. ok (get_artifact candidate_kind c.candidate_id none db.artifacts))
    create_unless now c existing

  unfoldable pub record_step :
      String
      → String
      → CandidateState
      → String
      → String
      → String
      → Payload
      → String
      → Exec Db CandidateEvent
  unfolding put event
  record_step now candidate_id new actor artifact_kind artifact_id artifact note = do
    h ← put content_hash artifact_kind artifact_id "1" now artifact
    event now candidate_id new actor (some h) note

  unfoldable pub submit : String → String → Principal → String → Exec Db CandidateEvent
  unfolding event
  submit now candidate_id principal note = do
    lift (require_role principal (Role.investigator ∷ Role.approver ∷ []))
    lift (human principal)
    event now candidate_id awaiting_approval principal.user_id none note

  unfoldable pub reject : String → String → Principal → String → Exec Db CandidateEvent
  unfolding event
  reject now candidate_id principal reason = do
    lift (require_role principal (Role.approver ∷ []))
    lift (human principal)
    event now candidate_id rejected principal.user_id none reason

  -- The part of `approve` behind its checks. `bundle_ref` is `stable_id("BND", bundle_id)`.
  unfoldable pub release :
      (String → String) → String → String → Principal → String → Exec Db PolicyBundle
  unfolding put event activate
  release bundle_ref now candidate_id principal note = do
    c ← reads (candidate candidate_id)
    parent ← reads active_bundle
    policy ← lift (amended c parent)
    let b = released_bundle parent policy candidate_id principal.user_id now note
    put content_hash bundle_kind b.bundle_id "1" now (bundle_payload b)
    event now candidate_id released principal.user_id (some (bundle_ref b.bundle_id)) note
    activate now b.bundle_id principal.user_id
    pure b

  unfoldable pub approve :
      (String → String) → Result Bool → String → String → Principal → String → Exec Db PolicyBundle
  unfolding release require
  approve bundle_ref four_eyes now candidate_id principal note = do
    lift (require_role principal (Role.approver ∷ []))
    lift (human principal)
    current ← reads (state candidate_id)
    require (is_awaiting current) governance_error
    es ← reads (events candidate_id)
    submitted_by ← lift (submitter es)
    on ← lift four_eyes
    require (not (on && submitted_by == principal.user_id)) permission_denied
    release bundle_ref now candidate_id principal note
