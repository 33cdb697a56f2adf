-- ===== src/Domain/Policy.antt =====
-- domain/models.py: rules and policy, and the candidates that may change them.
use sep.Base.{ℕ, String, Bool, ◌&&◌, Option, List, ◌==◌}

pub data Op : Type 0 where
  gt ge lt le eq ne in_ : Op

pub record Condition : Type 0 where
  pub signal : String
  pub op : Op
  pub value : Option String
  pub param : Option String

pub record RuleSpec : Type 0 where
  pub rule_id : String
  pub subrule_id : String
  pub description : String
  pub severity : String
  pub conditions : List Condition
  pub parameters : List (String × String)

-- A `RuleSet` is its tuple of rules; the field `ruleset` that holds one is named `rules`.
abbrev pub RuleSet : Type 0
RuleSet = List RuleSpec

pub record BulkScope : Type 0 where
  pub hypothesis_type : String
  pub desk : String

abbrev pub same_scope : BulkScope → BulkScope → Bool
same_scope a b = a.hypothesis_type == b.hypothesis_type && a.desk == b.desk

-- A `BulkPolicy` is its tuple of allowed scopes.
abbrev pub BulkPolicy : Type 0
BulkPolicy = List BulkScope

pub record PolicyBundle : Type 0 where
  pub bundle_id : String
  pub version : ℕ
  pub parent_id : Option String
  pub rules : RuleSet
  pub bulk_policy : BulkPolicy
  pub created_at : String
  pub created_by : String
  pub source_candidate : Option String
  pub notes : String

pub data CandidateKind : Type 0 where
  detection_rule bulk_policy_scope : CandidateKind

pub data CandidateState : Type 0 where
  draft replayed counterexamples_passed counterexamples_failed : CandidateState
  shadow_passed shadow_failed awaiting_approval released rejected : CandidateState

pub record Candidate : Type 0 where
  pub candidate_id : String
  pub kind : CandidateKind
  pub rule : Option RuleSpec
  pub bulk_scope : Option BulkScope
  pub pattern_id : String
  pub rationale : String
  pub proposed_by : String
  pub created_at : String
  pub base_bundle_id : String

pub record CandidateEvent : Type 0 where
  pub candidate_id : String
  pub state : CandidateState
  pub actor : String
  pub at : String
  pub artifact_hash : Option String
  pub note : String
