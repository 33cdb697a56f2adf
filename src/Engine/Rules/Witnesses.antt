-- ===== src/Engine/Rules/Witnesses.antt =====
-- The evaluation of a rule with two conditions.
use sep.Base.{◌≡◌, refl, true, false, Option, none, some, [], ◌∷◌, All}
use sep.Base.Decimal.{ten_to, at_most}
use sep.Base.Number.{number}
use sep.Core.Errors.{ok, err, invalid_operation}
use sep.Domain.Policy.{Op, RuleSpec}
use sep.Engine.Rules.{
  EpisodeSignals, Detection, signal_kind, evaluate_rule, condition_holds, describe, signal_of, raw,
}
use sep.Engine.Rules.Validate.{validate_rule}
use sep.Engine.Rules.Matches.{Holds, evaluate_rule-Holds}
use sep.Engine.Rules.Total.{against_nan, evaluate_rule-Returns}

abbrev late_rule : RuleSpec
late_rule = record {
  rule_id = "LATE";
  subrule_id = "LATE.1";
  description = "";
  severity = "HIGH";
  conditions =
      record {
        signal = "booking_latency_hours_max";
        op = Op.ge;
        value = none;
        param = some "hours";
      }
      ∷ record { signal = "has_amend"; op = Op.eq; value = some "true"; param = none }
      ∷ [];
  parameters = ("hours", "24.5") ∷ [];
}

abbrev signals : EpisodeSignals
signals = record {
  episode_id = "EP-1";
  eval_time = "t0";
  numeric = ("booking_latency_hours_max", record { negative = false; digits = 30; scale = 0 }) ∷ [];
  flags = ("has_amend", true) ∷ [];
  labels = [];
}

evaluate_rule-Returns_example : (d : Option Detection) × (evaluate_rule late_rule signals ≡ ok d)
unfolding validate_rule against_nan signal_kind number
evaluate_rule-Returns_example = evaluate_rule-Returns 8 ("HIGH" ∷ []) late_rule signals refl refl

abbrev detection : Detection
detection = record {
  rule_id = "LATE";
  subrule_id = "LATE.1";
  episode_id = "EP-1";
  matched = "booking_latency_hours_max ge 24.5" ∷ "has_amend eq true" ∷ [];
}

evaluate_rule-Holds_example :
    All (Holds late_rule.parameters signals) late_rule.conditions
    × (detection.rule_id ≡ late_rule.rule_id)
    × (detection.episode_id ≡ signals.episode_id)
unfolding evaluate_rule condition_holds describe signal_kind signal_of number at_most ten_to raw
evaluate_rule-Holds_example = evaluate_rule-Holds late_rule signals detection refl

abbrev nan_rule : RuleSpec
nan_rule = record late_rule { parameters = ("hours", "NaN") ∷ [] }

-- The validation accepts a threshold NaN, and the evaluation raises InvalidOperation.
nan_validated :
    (validate_rule 8 ("HIGH" ∷ []) nan_rule ≡ [])
    × (evaluate_rule nan_rule signals ≡ err invalid_operation)
unfolding validate_rule evaluate_rule condition_holds signal_kind signal_of number raw
nan_validated = (refl, refl)
