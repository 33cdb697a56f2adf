-- ===== src/Engine/Decisions/Witnesses.antt =====
-- The gate at a concrete case: a late booking that its investigation explained.
use sep.Base.{String, refl, true, false, none, some, List, [], ◌∷◌}
use sep.Base.Decimal.{Decimal, zero_decimal}
use sep.Domain.Policy.{BulkPolicy}
use sep.Domain.Hypothesis.{HypothesisClass}
use sep.Domain.Cases.{
  Episode, EpisodeScore, InvestigationResult, DeviationProfile, Recommendation, CaseState, Category,
  Case, desk,
}
use sep.Engine.Classification.{classify, level, confidence, benign_lines}
use sep.Engine.Decisions.{
  DecisionConfig, decide_case, finish, first_reasons, policy_allows, further_reasons,
}
use sep.Engine.Decisions.Bulk.{Cleared, decide_case-bulk}

abbrev episode : Episode
episode = record {
  episode_id = "EP-1";
  trade_ids = "T-1" ∷ [];
  alert_ids = "A-1" ∷ [];
  start = "t0";
  end = "t1";
  desks = "EQ" ∷ [];
  books = "EQ-03" ∷ [];
  instrument_ids = [];
  product_types = [];
  links = [];
  rejected_links = [];
  quality_flags = [];
  linking_version = "1";
}

abbrev score : EpisodeScore
score = record {
  episode_id = "EP-1";
  total = zero_decimal;
  band = "LOW";
  bucket = "0";
  components = [];
  outliers = [];
  overrides = [];
  degraded = "NO_PEERS:EQ" ∷ [];
}

abbrev investigation : InvestigationResult
investigation = record {
  run_id = "RUN-1";
  case_id = "CASE-EP-1";
  episode_id = "EP-1";
  policy = "playbook";
  fallback_used = false;
  hypotheses = [];
  evidence = [];
  conclusion = some "LATE_BOOKING_OPERATIONAL";
  conclusion_class = some HypothesisClass.benign;
  abstained = false;
  abstain_reason = none;
  missing_evidence = [];
  contradictions = [];
  link_proposals = [];
  explanation = "late but operational";
  steps = 3;
  tool_calls = 2;
  unexplained_deviations = [];
  explained_deviations = [];
  pending_deviations = [];
}

abbrev config : DecisionConfig
config = record {
  classification = record {
    levels = "LOW" ∷ "MEDIUM" ∷ "HIGH" ∷ "CRITICAL" ∷ [];
    severity = ("LATE_BOOKING_OPERATIONAL", "MEDIUM") ∷ ("UNRESOLVED", "MEDIUM") ∷ [];
    typology_signals = [];
    confidence_high = 3;
    confidence_medium = 2;
    materiality_bump = true;
    materiality_usd = record { negative = false; digits = 8000000; scale = 0 };
  };
  residual_escalation_band = "HIGH";
  blocking_degraded = "NO_BASELINE" ∷ [];
  blocking_quality_flags = "VERSION_GAP" ∷ [];
}

abbrev scopes : BulkPolicy
scopes = record { hypothesis_type = "LATE_BOOKING_OPERATIONAL"; desk = "*" } ∷ []

abbrev no_residual : DeviationProfile → List String → Decimal × String
no_residual _ _ = (zero_decimal, "NONE")

abbrev proposal : Case
proposal = record {
  case_id = "CASE-EP-1";
  episode_id = "EP-1";
  as_of = "t2";
  alert_ids = "A-1" ∷ [];
  desk = "EQ";
  state = CaseState.investigated;
  recommendation = Recommendation.proposed_bulk;
  reasons = [];
  score = score;
  investigation_run_id = some "RUN-1";
  conclusion = some "LATE_BOOKING_OPERATIONAL";
  control_sample = false;
  cohort_id = none;
  classification = some (record {
    category = Category.verified_benign;
    typology = "LATE_BOOKING_OPERATIONAL";
    severity = "MEDIUM";
    confidence = "MEDIUM";
    corroboration =
        "HYPOTHESIS_VERIFIED:LATE_BOOKING_OPERATIONAL" ∷ "NO_UNEXPLAINED_DEVIATION" ∷ [];
    outlyingness = zero_decimal;
    residual_outlyingness = zero_decimal;
    band = "NONE";
    residual_band = "NONE";
    unexplained = [];
    explained = [];
  });
  deviation = none;
}

decide_case-bulk_example :
    Cleared
      (λ _. "CASE-EP-1")
      (λ _. false)
      no_residual
      config
      episode
      score
      (some investigation)
      scopes
      []
      proposal
unfolding decide_case finish classify level confidence benign_lines first_reasons policy_allows
    further_reasons desk
decide_case-bulk_example =
    decide_case-bulk (λ _. "CASE-EP-1") (λ _. false) no_residual config episode score
      (some investigation) none scopes "t2" none [] none [] proposal refl refl
