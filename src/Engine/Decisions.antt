-- ===== src/Engine/Decisions.antt =====
-- engine/decisions.py: `decide_case`. `case_id_for` and `sampled` stand for the hashes of a case:
-- `sampled cid` is the comparison of `fraction_from_hash` with the sample rate. `DecisionConfig`
-- holds what the function reads of the configuration.
pub mod Chain
pub mod Bulk
mod Witnesses
use sep.Base.{
  ℕ, zero, suc, ◌+◌, String, Bool, true, false, not, ◌&&◌, ◌||◌, Option, none, some, List, [], ◌∷◌,
  ◌++◌, map, filter, any, elem, leb, eqb, ◌==◌, if◌then◌else◌,
}
use sep.Base.Decimal.{Decimal}
use Prim.Native.String
use Prim.Native.Char.{code}
use sep.Core.Errors.{Result, ok, err, key_error, ◌>>=◌}
use sep.Domain.Policy.{BulkScope, BulkPolicy}
use sep.Domain.Hypothesis.{HypothesisClass, is_benign}
use sep.Domain.Cases.{
  LinkStatus, LinkProposal, Episode, desk, EpisodeScore, DeviationProfile, InvestigationResult,
  Recommendation, CaseState, Classification, Case,
}
use sep.Engine.Hypotheses.{catalog_by_type}
use sep.Engine.Classification.{
  ClassificationConfig, prefixed, or_raise, get_or, index_of, is_class_anomalous, adverse_history,
  classify,
}

pub record DecisionConfig : Type 0 where
  pub classification : ClassificationConfig
  pub residual_escalation_band : String
  pub blocking_degraded : List String
  pub blocking_quality_flags : List String

-- any(s.hypothesis_type == ... and s.desk in ("*", desk) for s in policy.allowed)
unfoldable pub policy_allows : BulkPolicy → String → String → Bool
policy_allows policy hypothesis_type at =
    any (λ (s : BulkScope). s.hypothesis_type == hypothesis_type && (s.desk == "*" || s.desk == at))
      policy

-- BANDS.index(band)
unfoldable pub band_rank : String → Result ℕ
band_rank band = index_of band ("NONE" ∷ "LOW" ∷ "MEDIUM" ∷ "HIGH" ∷ [])

-- d.split(":")[0]
pub head_part : String → String
head_part String.[] = ""
head_part (String.◌∷◌ c s) =
    let rest = head_part s in if eqb (code c) 58 then "" else String.◌∷◌ c rest

-- ",".join(xs)
commas : List String → String
commas [] = ""
commas (x ∷ []) = x
commas (x ∷ (y ∷ ys)) = prefixed x (prefixed "," (commas (y ∷ ys)))

-- list(dict.fromkeys(xs)): the first of each text.
pub deduped : List String → List String → List String
deduped seen [] = []
deduped seen (x ∷ xs) = let rest = deduped (x ∷ seen) xs in if elem x seen then rest else x ∷ rest

abbrev pub is_verified : LinkStatus → Bool
is_verified LinkStatus.verified = true
is_verified _ = false

abbrev pub is_escalation : Recommendation → Bool
is_escalation Recommendation.escalation_recommended = true
is_escalation _ = false

abbrev pub class_benign : Option HypothesisClass → Bool
class_benign none = false
class_benign (some k) = is_benign k

-- CATALOG_BY_TYPE[conclusion].residual, where there is a conclusion
pub residual_conclusion : Option String → Result Bool
residual_conclusion none = ok false
residual_conclusion (some c) = do h ← or_raise (err key_error) (catalog_by_type c); ok h.residual

-- `conclusion and not policy_allows(...)`: an empty conclusion is no conclusion.
abbrev pub is_ineligible : BulkPolicy → Option String → String → Bool
is_ineligible policy none at = false
is_ineligible policy (some c) at = not (c == "") && not (policy_allows policy c at)

-- `text or default`: an empty text gives way too.
or_text : String → Option String → String
or_text default none = default
or_text default (some s) = if s == "" then default else s

-- An f-string of an optional text.
abbrev shown : Option String → String
shown none = "None"
shown (some s) = s

module _ (cfg : DecisionConfig) (policy : BulkPolicy) (at : String) (residual_band : String) where
  -- The chain of `if investigation is None ... elif`: the recommendation and the first reasons.
  pub anomalous : InvestigationResult → Bool → Result (Recommendation × List String)
  unfolding commas
  anomalous inv true = do
    rank ← band_rank residual_band
    threshold ← band_rank cfg.residual_escalation_band
    ok (
      (if leb threshold rank
          then Recommendation.escalation_recommended
          else Recommendation.individual_review),
      prefixed "UNEXPLAINED_DEVIATION:" (commas inv.unexplained_deviations) ∷ [],
    )
  anomalous inv false = ok (
    Recommendation.escalation_recommended,
    prefixed "ANOMALY_SUPPORTED:" (shown inv.conclusion) ∷ [],
  )

  pub investigated :
      InvestigationResult
      → (abstained is_anomaly ineligible : Bool) → Result (Recommendation × List String)
  unfolding residual_conclusion anomalous
  investigated inv true is_anomaly ineligible =
      ok (Recommendation.individual_review, prefixed "ABSTAINED:" (shown inv.abstain_reason) ∷ [])
  investigated inv false true ineligible = do
    residual ← residual_conclusion inv.conclusion
    anomalous inv residual
  investigated inv false false true = ok (
    Recommendation.individual_review,
    prefixed "BULK_POLICY_NOT_ELIGIBLE:" (shown inv.conclusion) ∷ [],
  )
  investigated inv false false false = ok (Recommendation.individual_review, [])

  unfoldable pub first_reasons :
      Option InvestigationResult → Option String → Result (Recommendation × List String)
  unfolding investigated or_text
  first_reasons none error = ok (
    Recommendation.individual_review,
    prefixed "AGENT_UNAVAILABLE:" (or_text "NOT_RUN" error) ∷ [],
  )
  first_reasons (some inv) error =
      investigated inv inv.abstained (is_class_anomalous inv.conclusion_class)
        (is_ineligible policy inv.conclusion at)

abbrev pub reason_if : Bool → String → List String
reason_if true reason = reason ∷ []
reason_if false reason = []

pub unconfirmed : InvestigationResult → Bool
unconfirmed inv = any (λ (p : LinkProposal). is_verified p.status) inv.link_proposals

pub investigation_reasons : Option InvestigationResult → List String
unfolding unconfirmed
investigation_reasons none = []
investigation_reasons (some inv) =
    reason_if (unconfirmed inv) "UNCONFIRMED_AGENT_LINK"
    ++ reason_if (any adverse_history inv.hypotheses) "HISTORY_ADVERSE"

module _ (cfg : DecisionConfig) where
  abbrev pub blocking : EpisodeScore → List String
  blocking score = filter (λ (d : String). elem (head_part d) cfg.blocking_degraded) score.degraded

  abbrev pub flagged : Episode → List String
  flagged episode = filter (λ (f : String). elem f cfg.blocking_quality_flags) episode.quality_flags

  unfoldable pub further_reasons :
      Option InvestigationResult → EpisodeScore → Episode → List String → List String
  unfolding investigation_reasons head_part
  further_reasons investigation score episode run_blocks =
      investigation_reasons investigation
      ++ map (λ (o : String). prefixed "OVERRIDE:" o) score.overrides
      ++ reason_if (score.band == "HIGH") "HIGH_ATTENTION_SCORE"
      ++ map (λ (d : String). prefixed "DEGRADED:" d) (blocking score)
      ++ map (λ (f : String). prefixed "DATA_QUALITY:" f) (flagged episode)
      ++ run_blocks

abbrev pub is_empty : List String → Bool
is_empty [] = true
is_empty (x ∷ xs) = false

abbrev pub concluded_benign : Option InvestigationResult → Bool
concluded_benign none = false
concluded_benign (some inv) = class_benign inv.conclusion_class

-- The recommendation, the control flag and the reasons, from the comparison with the sample rate.
pub gate : Recommendation → List String → Bool → Bool → Recommendation × (Bool × List String)
gate recommendation reasons true true = (recommendation, (true, "CONTROL_SAMPLE" ∷ []))
gate recommendation reasons true false = (Recommendation.proposed_bulk, (false, []))
gate recommendation reasons false in_sample = (recommendation, (false, reasons))

abbrev state_of : Option InvestigationResult → CaseState
state_of none = CaseState.open_case
state_of (some inv) = CaseState.investigated

abbrev pub conclusion_of : Option InvestigationResult → Option String
conclusion_of none = none
conclusion_of (some inv) = inv.conclusion

abbrev run_of : Option InvestigationResult → Option String
run_of none = none
run_of (some inv) = some inv.run_id

module _ (case_id_for : String → String) (sampled : String → Bool) (cfg : DecisionConfig)
    (episode : Episode) (score : EpisodeScore) (investigation : Option InvestigationResult) where
  -- What follows the chain of tests: the further reasons, the gate and the case itself.
  unfoldable pub finish :
      String
      → Option DeviationProfile
      → List String
      → Classification
      → Recommendation
      → List String
      → Case
  unfolding gate deduped
  finish as_of deviation run_blocks c recommendation first =
      let cid = case_id_for episode.episode_id in
      let reasons = first ++ further_reasons cfg investigation score episode run_blocks in
      let eligible =
        not (is_escalation recommendation)
        && (concluded_benign investigation && is_empty reasons) in
      let out = gate recommendation reasons eligible (sampled cid) in
      record {
        case_id = cid;
        episode_id = episode.episode_id;
        as_of = as_of;
        alert_ids = episode.alert_ids;
        desk = desk episode;
        state = state_of investigation;
        recommendation = out.0;
        reasons = deduped [] out.1.1;
        score = score;
        investigation_run_id = run_of investigation;
        conclusion = conclusion_of investigation;
        control_sample = out.1.0;
        cohort_id = none;
        classification = some c;
        deviation = deviation;
      }

  unfoldable pub decide_case :
      (DeviationProfile → List String → Decimal × String)
      → Option String
      → BulkPolicy
      → String
      → Option DeviationProfile
      → List String
      → Option Decimal
      → List String
      → Result Case
  unfolding finish
  decide_case residual error policy as_of deviation rules notional run_blocks = do
    c ← classify residual cfg.classification investigation deviation rules notional
    chosen ← first_reasons cfg policy (desk episode) c.residual_band investigation error
    ok (finish as_of deviation run_blocks c chosen.0 chosen.1)
