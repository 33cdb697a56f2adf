-- ===== src/Evolution/Governance/State.antt =====
-- evolution/governance.py: the transition table, the stored payloads, and the methods that only read.
use sep.Base.{
  String, Bool, true, false, not, ◌&&◌, ◌||◌, Option, none, some, List, [], ◌∷◌, find, reverse,
  if◌then◌else◌,
}
use text.Mathlib.Text.{starts_with}
use sep.Core.Errors.{
  Result, ok, err, governance_error, permission_denied, validation_error, key_error, value_error,
  ◌>>=◌,
}
use sep.Core.Security.{Role, Principal, has_role}
use sep.Domain.Policy.{
  PolicyBundle, CandidateState, draft, replayed, counterexamples_passed, counterexamples_failed,
  shadow_passed, shadow_failed, awaiting_approval, released, rejected, Candidate, CandidateEvent,
}
use sep.Store.Artifacts.{Table, get_artifact, artifact_history}
use sep.Store.Artifacts.Latest.{list_artifacts}
use sep.Store.Audit.{Log}

-- ALLOWED[current] holds the states that may follow.
unfoldable pub allowed : CandidateState → CandidateState → Bool
allowed draft replayed = true
allowed draft rejected = true
allowed replayed counterexamples_passed = true
allowed replayed counterexamples_failed = true
allowed replayed rejected = true
allowed counterexamples_passed shadow_passed = true
allowed counterexamples_passed shadow_failed = true
allowed counterexamples_passed rejected = true
allowed counterexamples_failed rejected = true
allowed shadow_passed awaiting_approval = true
allowed shadow_passed rejected = true
allowed shadow_failed rejected = true
allowed awaiting_approval released = true
allowed awaiting_approval rejected = true
allowed _ _ = false

-- `state.value`
unfoldable pub state_value : CandidateState → String
state_value draft = "DRAFT"
state_value replayed = "REPLAYED"
state_value counterexamples_passed = "COUNTEREXAMPLES_PASSED"
state_value counterexamples_failed = "COUNTEREXAMPLES_FAILED"
state_value shadow_passed = "SHADOW_PASSED"
state_value shadow_failed = "SHADOW_FAILED"
state_value awaiting_approval = "AWAITING_APPROVAL"
state_value released = "RELEASED"
state_value rejected = "REJECTED"

abbrev pub is_awaiting : CandidateState → Bool
is_awaiting awaiting_approval = true
is_awaiting _ = false

-- `_human`
unfoldable pub human : Principal → Result (Unit {0})
human p =
    let is_service = has_role Role.service p.roles && not (has_role Role.admin p.roles) in
    if starts_with p.user_id "agent:" || is_service then err permission_denied else ok tt

-- What governance stores: models, the activation record, and the reports of the evolution steps.
pub data Payload : Type 0 where
  bundle_payload : PolicyBundle → Payload
  candidate_payload : Candidate → Payload
  event_payload : CandidateEvent → Payload
  activation_payload : (bundle_id actor at : String) → Payload
  report_payload : String → Payload

-- `model_validate_json` at each model: a payload of another shape is refused.
abbrev pub as_bundle : Payload → Result PolicyBundle
as_bundle (bundle_payload b) = ok b
as_bundle _ = err validation_error

abbrev pub as_candidate : Payload → Result Candidate
as_candidate (candidate_payload c) = ok c
as_candidate _ = err validation_error

abbrev pub as_event : Payload → Result CandidateEvent
as_event (event_payload e) = ok e
as_event _ = err validation_error

-- `json.loads(payload)["bundle_id"]`
abbrev pub activated_id : Payload → Result String
activated_id (activation_payload bundle_id actor at) = ok bundle_id
activated_id (bundle_payload b) = ok b.bundle_id
activated_id _ = err key_error

pub record Db : Type 0 where
  pub artifacts : Table Payload
  pub audit_log : Log

abbrev pub empty : Db
empty = record { artifacts = []; audit_log = [] }

abbrev pub bundle_kind : String
bundle_kind = "policy_bundle"

abbrev pub activation_kind : String
activation_kind = "activation"

abbrev pub candidate_kind : String
candidate_kind = "candidate"

abbrev pub event_kind : String
event_kind = "candidate_event"

-- `get_model`, where the caller takes None as an error of its own.
abbrev pub required : {A : Type 0} → (Payload → Result A) → Option Payload → Result A
required as_model none = err governance_error
required as_model (some p) = as_model p

-- [M.model_validate_json(p) for p in payloads]
abbrev pub validate_all : {A : Type 0} → (Payload → Result A) → List Payload → Result (List A)
validate_all as_model [] = ok []
validate_all as_model (p ∷ ps) = do a ← as_model p; rest ← validate_all as_model ps; ok (a ∷ rest)

unfoldable pub bundle : String → Db → Result PolicyBundle
bundle bundle_id db = required as_bundle (get_artifact bundle_kind bundle_id none db.artifacts)

activated_bundle : Db → Option Payload → Result (Option PolicyBundle)
unfolding bundle
activated_bundle db none = ok none
activated_bundle db (some p) = do bundle_id ← activated_id p; b ← bundle bundle_id db; ok (some b)

unfoldable pub active_bundle_or_none : Db → Result (Option PolicyBundle)
unfolding activated_bundle
active_bundle_or_none db =
    activated_bundle db (get_artifact activation_kind "production" none db.artifacts)

-- [M.model_validate_json(p) for _, _, p in self.store.list_artifacts(kind)]
abbrev validate_listed :
    {A : Type 0} → (Payload → Result A) → List (String × (String × Payload)) → Result (List A)
validate_listed as_model [] = ok []
validate_listed as_model ((key, (version, p)) ∷ rows) = do
  a ← as_model p
  rest ← validate_listed as_model rows
  ok (a ∷ rest)

unfoldable pub bundles : Db → Result (List PolicyBundle)
bundles db = validate_listed as_bundle (list_artifacts bundle_kind db.artifacts)

unfoldable pub candidates : Db → Result (List Candidate)
candidates db = validate_listed as_candidate (list_artifacts candidate_kind db.artifacts)

-- The dictionaries as they were stored, the oldest first.
unfoldable pub activations : Db → List Payload
activations db = artifact_history activation_kind "production" db.artifacts

abbrev seeded : Option PolicyBundle → Result PolicyBundle
seeded none = err governance_error
seeded (some b) = ok b

unfoldable pub active_bundle : Db → Result PolicyBundle
unfolding active_bundle_or_none
active_bundle db = do b ← active_bundle_or_none db; seeded b

unfoldable pub candidate : String → Db → Result Candidate
candidate candidate_id db =
    required as_candidate (get_artifact candidate_kind candidate_id none db.artifacts)

unfoldable pub events : String → Db → Result (List CandidateEvent)
events candidate_id db =
    validate_all as_event (artifact_history event_kind candidate_id db.artifacts)

-- `events[-1].state`
abbrev pub last_state : List CandidateEvent → Result CandidateState
last_state [] = err governance_error
last_state (e ∷ []) = ok e.state
last_state (e ∷ (f ∷ es)) = last_state (f ∷ es)

unfoldable pub state : String → Db → Result CandidateState
unfolding events
state candidate_id db = do es ← events candidate_id db; last_state es

abbrev actor_of : Option CandidateEvent → Result String
actor_of none = err value_error
actor_of (some e) = ok e.actor

-- The actor of the latest submission: next(... for e in reversed(events) if ...).
abbrev pub submitter : List CandidateEvent → Result String
submitter es = actor_of (find (λ (e : CandidateEvent). is_awaiting e.state) (reverse es))
