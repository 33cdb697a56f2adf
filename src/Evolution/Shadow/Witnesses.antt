-- ===== src/Evolution/Shadow/Witnesses.antt =====
-- evolution/shadow.py: a shadow run over three points, where an amendment is detected.
use sep.Base.{◌≡◌, refl, String, Bool, true, false, none, some, List, [], ◌∷◌}
use sep.Base.Number.{number}
use sep.Core.Errors.{ok}
use sep.Domain.Policy.{Op, RuleSpec, PolicyBundle}
use sep.Domain.Hypothesis.{HypothesisClass}
use sep.Engine.Rules.{evaluate_rule, condition_holds, describe, signal_kind, signal_of, raw}
use sep.Evolution.Replay.{HistoryPoint, fires_any}
use sep.Evolution.Shadow.{ShadowDecision, ShadowReport, ShadowConfig, shadow_detection}
use sep.Evolution.Shadow.Limits.{EachDecided, Passed, shadow_detection-Passed}

abbrev amend_rule : RuleSpec
amend_rule = record {
  rule_id = "AMEND";
  subrule_id = "AMEND.1";
  description = "";
  severity = "LOW";
  conditions = record { signal = "has_amend"; op = Op.eq; value = some "true"; param = none } ∷ [];
  parameters = [];
}

abbrev no_rules : PolicyBundle
no_rules = record {
  bundle_id = "PB-1";
  version = 1;
  parent_id = none;
  rules = [];
  bulk_policy = [];
  created_at = "t0";
  created_by = "system";
  source_candidate = none;
  notes = "";
}

abbrev point : String → String → Bool → HistoryPoint
point id time amend = record {
  episode_id = id;
  eval_time = time;
  desk = "EQ";
  label = none;
  signals = record {
    episode_id = id;
    eval_time = time;
    numeric = [];
    flags = ("has_amend", amend) ∷ [];
    labels = [];
  };
  assessed_class = some HypothesisClass.anomalous;
  assessed_type = none;
}

abbrev points : List HistoryPoint
points =
    point "E-1" "2026-03-02T09:00:00+00:00" true
    ∷ point "E-2" "2026-03-02T17:30:00+00:00" false
    ∷ point "E-3" "2026-03-03T08:15:00+00:00" true
    ∷ []

abbrev limits : ShadowConfig
limits = record {
  max_new_alerts_per_day = 1;
  min_assessed_precision = record { negative = false; digits = 5; scale = 1 };
}

abbrev decided : String → String → Bool → ShadowDecision
decided id time fired = record {
  episode_id = id;
  eval_time = time;
  production_fired = false;
  candidate_fired = fired;
}

abbrev report : ShadowReport
report = record {
  episodes = 3;
  production_fires = 0;
  candidate_fires = 2;
  overlap = 0;
  candidate_only = 2;
  candidate_only_assessed_anomalous = 2;
  max_new_per_day = 1;
  passed = true;
  failures = [];
  decisions =
      decided "E-1" "2026-03-02T09:00:00+00:00" true
      ∷ decided "E-2" "2026-03-02T17:30:00+00:00" false
      ∷ decided "E-3" "2026-03-03T08:15:00+00:00" true
      ∷ [];
}

amended-report : shadow_detection amend_rule no_rules points limits ≡ ok report
unfolding shadow_detection fires_any evaluate_rule condition_holds describe signal_kind signal_of
    raw number
amended-report = refl

shadow_detection-Passed_example :
    EachDecided amend_rule [] points report.decisions × Passed limits report
shadow_detection-Passed_example =
    shadow_detection-Passed amend_rule no_rules points limits report amended-report refl
