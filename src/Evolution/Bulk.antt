-- ===== src/Evolution/Bulk.antt =====
-- evolution/replay.py, counterexamples.py and shadow.py: the replay of a bulk scope, the search for
-- counterexamples to it, and its shadow run. A report's own id, subject, window and hash are left out.
pub mod Agreement
mod Witnesses
use sep.Base.{
  ℕ, zero, suc, ◌+◌, String, Bool, true, false, not, ◌&&◌, ◌||◌, Option, none, some, List, [], ◌∷◌,
  ◌++◌, map, filter, length, take, any, elem, ltb, ◌==◌, if◌then◌else◌,
}
use sep.Base.Sort.{sorted_set}
use sep.Domain.Policy.{BulkScope}
use sep.Domain.Hypothesis.{HypothesisClass, is_benign}
use sep.Evolution.Replay.{HistoryPoint, is_label}
use sep.Evolution.Shadow.{ShadowDecision, ShadowReport, failure, is_none_of}

abbrev is_type : String → Option String → Bool
is_type type none = false
is_type type (some t) = t == type

abbrev is_benign_class : Option HypothesisClass → Bool
is_benign_class none = false
is_benign_class (some c) = is_benign c

abbrev pub is_member : BulkScope → HistoryPoint → Bool
is_member scope p =
    is_benign_class p.assessed_class
    && (is_type scope.hypothesis_type p.assessed_type
        && (scope.desk == "*" || scope.desk == p.desk))

unfoldable pub bulk_members : BulkScope → List HistoryPoint → List HistoryPoint
bulk_members scope points = filter (is_member scope) points

abbrev pub is_unlabelled : HistoryPoint → Bool
is_unlabelled p = elim p.label [ none ↦ true | some l ↦ false ]

abbrev pub episode_ids : List HistoryPoint → List String
episode_ids points = map (λ (p : HistoryPoint). p.episode_id) points

pub record BulkReplayReport : Type 0 where
  pub episodes : ℕ
  pub would_be_bulk : ℕ
  pub labelled_cleared : ℕ
  pub labelled_escalated : ℕ
  pub unlabelled : ℕ
  pub sample_escalated : List String

unfoldable pub replay_bulk : BulkScope → List HistoryPoint → ℕ → BulkReplayReport
unfolding bulk_members
replay_bulk scope points sample =
    let members = bulk_members scope points in
    let escalated = filter (is_label "ESCALATED") members in
    record {
      episodes = length points;
      would_be_bulk = length members;
      labelled_cleared = length (filter (is_label "CLEARED") members);
      labelled_escalated = length escalated;
      unlabelled = length (filter is_unlabelled members);
      sample_escalated = take sample (episode_ids escalated);
    }

pub record Counterexample : Type 0 where
  pub kind : String
  pub episode_id : Option String
  pub detail : List (String × String)

pub record CounterexampleReport : Type 0 where
  pub passed : Bool
  pub failures : List String
  pub counts : List (String × ℕ)
  pub counterexamples : List Counterexample
  pub temporal : List (String × String)

-- What is read of the section `counterexamples` of the configuration.
pub record BulkAttackConfig : Type 0 where
  pub max_listed : ℕ
  pub min_bulk_cleared : ℕ

abbrev false_bulk : HistoryPoint → Counterexample
false_bulk p = record {
  kind = "FALSE_BULK";
  episode_id = some p.episode_id;
  detail = ("desk", p.desk) ∷ [];
}

unfoldable pub attack_bulk : BulkScope → List HistoryPoint → BulkAttackConfig → CounterexampleReport
unfolding bulk_members
attack_bulk scope points cfg =
    let members = bulk_members scope points in
    let escalated = filter (is_label "ESCALATED") members in
    let cleared = filter (is_label "CLEARED") members in
    let failures =
      failure (not (is_none_of escalated))
        "a curated escalation would have been proposed for bulk review"
      ++ failure (ltb (length cleared) cfg.min_bulk_cleared)
          "not enough curated clean history for this scope" in
    record {
      passed = is_none_of failures;
      failures = failures;
      counts = ("FALSE_BULK", length escalated) ∷ ("CLEARED_SUPPORT", length cleared) ∷ [];
      counterexamples = map false_bulk (take cfg.max_listed escalated);
      temporal = [];
    }

-- What the shadow run says of a point, from the episode_ids of the members.
abbrev bulk_decision : List String → HistoryPoint → ShadowDecision
bulk_decision members p = record {
  episode_id = p.episode_id;
  eval_time = p.eval_time;
  production_fired = false;
  candidate_fired = elem p.episode_id members;
}

unfoldable pub shadow_bulk : BulkScope → List HistoryPoint → ShadowReport
unfolding bulk_members sorted_set
shadow_bulk scope points =
    let members = sorted_set (episode_ids (bulk_members scope points)) in
    let escalated =
      filter (λ (p : HistoryPoint). elem p.episode_id members && is_label "ESCALATED" p) points in
    let failures =
      failure (not (is_none_of escalated)) "a live escalation would have been proposed for bulk"
      ++ failure (is_none_of members) "policy never applied in shadow; nothing to learn" in
    record {
      episodes = length points;
      production_fires = 0;
      candidate_fires = length members;
      overlap = 0;
      candidate_only = length members;
      candidate_only_assessed_anomalous = 0;
      max_new_per_day = 0;
      passed = is_none_of failures;
      failures = failures;
      decisions = map (bulk_decision members) points;
    }
