-- ===== src/Engine/Decisions/Bulk.antt =====
-- engine/decisions.py: what a proposal of bulk attestation rests on.
use sep.Base.{
  String, ◌≡◌, refl, sym, ap, ◌∙◌, Bool, true, false, not, ◌&&◌, Option, none, some, List, [], ◌++◌,
  map, any, ◌==◌, and_left, and_right, arith,
}
use sep.Base.Decimal.{Decimal}
use sep.Core.Errors.{ok, ◌>>=◌}
use sep.Domain.Policy.{BulkPolicy}
use sep.Domain.Cases.{
  Episode, desk, EpisodeScore, DeviationProfile, InvestigationResult, Recommendation,
  Classification, Case,
}
use sep.Engine.Classification.{classify, adverse_history}
use sep.Engine.Decisions.{
  DecisionConfig, decide_case, finish, first_reasons, further_reasons, investigation_reasons,
  unconfirmed, blocking, flagged, is_empty, is_escalation, concluded_benign, is_ineligible,
  reason_if, class_benign,
}
use sep.Engine.Decisions.Chain.{
  halve, append-nil-both, map-nil, reason_if-nil, is_empty-nil, recommended, reasons_in, gate-bulk,
  gate-quiet, bulk_in, first_reasons-bulk, first-nil,
}

module _ (cfg : DecisionConfig) (episode : Episode) (score : EpisodeScore)
    (run_blocks : List String) where
  -- No reason against bulk from the investigation, the score, the data or the run.
  pub record Unblocked (inv : InvestigationResult) : Type 0 where
    pub links : unconfirmed inv ≡ false
    pub history : any adverse_history inv.hypotheses ≡ false
    pub overrides : score.overrides ≡ []
    pub attention : (score.band == "HIGH") ≡ false
    pub degraded : blocking cfg score ≡ []
    pub quality : flagged cfg episode ≡ []
    pub run : run_blocks ≡ []

  further-nil :
      (inv : InvestigationResult)
      → further_reasons cfg (some inv) score episode run_blocks ≡ []
      → Unblocked inv
  unfolding further_reasons investigation_reasons
  further-nil inv h =
      let (h4, blocks) = append-nil-both _ run_blocks h in
      let (h3, bad) = append-nil-both _ (map _ (flagged cfg episode)) h4 in
      let (h2, poor) = append-nil-both _ (map _ (blocking cfg score)) h3 in
      let (h1, high) = append-nil-both _ (reason_if (score.band == "HIGH") _) h2 in
      let (told, raised) = append-nil-both _ (map _ score.overrides) h1 in
      let (linked, past) =
        append-nil-both (reason_if (unconfirmed inv) _)
          (reason_if (any adverse_history inv.hypotheses) _) told in
      record {
        links = reason_if-nil (unconfirmed inv) _ linked;
        history = reason_if-nil (any adverse_history inv.hypotheses) _ past;
        overrides = map-nil _ score.overrides raised;
        attention = reason_if-nil (score.band == "HIGH") _ high;
        degraded = map-nil _ (blocking cfg score) poor;
        quality = map-nil _ (flagged cfg episode) bad;
        run = blocks;
      }

module _ (case_id_for : String → String) (sampled : String → Bool)
    (residual : DeviationProfile → List String → Decimal × String) (cfg : DecisionConfig) where
  -- Everything that a proposal of bulk attestation has passed.
  pub record Cleared (episode : Episode) (score : EpisodeScore)
      (investigation : Option InvestigationResult) (policy : BulkPolicy) (run_blocks : List String)
      (decided : Case) : Type 0 where
    pub inv : InvestigationResult
    pub ran : investigation ≡ some inv
    pub verdict : class_benign inv.conclusion_class ≡ true
    pub concluded : inv.abstained ≡ false
    pub eligible : is_ineligible policy inv.conclusion (desk episode) ≡ false
    pub unblocked : Unblocked cfg episode score run_blocks inv
    pub not_drawn : sampled (case_id_for episode.episode_id) ≡ false
    pub no_reason : decided.reasons ≡ []

  passed :
      (episode : Episode) (score : EpisodeScore) (investigation : Option InvestigationResult)
      (error : Option String) (policy : BulkPolicy) (run_blocks : List String) (decided : Case)
      (band : String) (r : Recommendation) (first : List String)
      → first_reasons cfg policy (desk episode) band investigation error ≡ ok (r, first)
      → concluded_benign investigation ≡ true
      → first ++ further_reasons cfg investigation score episode run_blocks ≡ []
      → sampled (case_id_for episode.episode_id) ≡ false
      → decided.reasons ≡ []
      → Cleared episode score investigation policy run_blocks decided
  passed episode score none error policy run_blocks decided band r first at benign none_left drawn
        reasons =
      ground arith
  passed episode score (some inv) error policy run_blocks decided band r first at benign none_left
        drawn reasons =
      let (nil, rest) = append-nil-both _ _ none_left in
      let (concluded, eligible) =
        first-nil cfg policy (desk episode) band inv error r
          (at ∙ ap (λ (x : List String). ok (r, x)) nil) benign in
      record {
        inv = inv;
        ran = refl;
        verdict = benign;
        concluded = concluded;
        eligible = eligible;
        unblocked = further-nil cfg episode score run_blocks inv rest;
        not_drawn = drawn;
        no_reason = reasons;
      }

  finished :
      (episode : Episode) (score : EpisodeScore) (investigation : Option InvestigationResult)
      (error : Option String) (policy : BulkPolicy) (as_of : String)
      (deviation : Option DeviationProfile) (run_blocks : List String) (c : Classification)
      (r : Recommendation) (first : List String) (decided : Case)
      → first_reasons cfg policy (desk episode) c.residual_band investigation error ≡ ok (r, first)
      → ok (
          finish case_id_for sampled cfg episode score investigation as_of deviation run_blocks c r
            first)
        ≡ ok decided
      → decided.recommendation ≡ Recommendation.proposed_bulk
      → Cleared episode score investigation policy run_blocks decided
  unfolding finish recommended reasons_in bulk_in
  finished episode score investigation error policy as_of deviation run_blocks c r first decided at
        h bulk =
      let reasons = first ++ further_reasons cfg investigation score episode run_blocks in
      let eligible =
        not (is_escalation r) && (concluded_benign investigation && is_empty reasons) in
      let (able, drawn) =
        gate-bulk r reasons eligible (sampled (case_id_for episode.episode_id))
          (sym (ap bulk_in at)
            ∙ first_reasons-bulk cfg policy (desk episode) c.residual_band investigation error)
          (ap recommended h ∙ bulk) in
      let rest = and_right (not (is_escalation r)) _ able in
      passed episode score investigation error policy run_blocks decided c.residual_band r first at
        (and_left (concluded_benign investigation) _ rest)
        (is_empty-nil reasons (and_right (concluded_benign investigation) (is_empty reasons) rest))
        drawn
        (sym (ap reasons_in h)
          ∙ gate-quiet r reasons eligible (sampled (case_id_for episode.episode_id)) able drawn)

  -- A case is proposed for bulk attestation only if an investigation ran, did not abstain and
  -- concluded a benign hypothesis; its conclusion, if there is one, is covered by the bulk policy for
  -- the desk; there is no verified but unconfirmed link, no adverse history, no override, no high
  -- attention score, no blocking data problem and no block of the run; and the case was not drawn
  -- into the control sample. It then carries no reason.
  pub decide_case-bulk :
      (episode : Episode) (score : EpisodeScore) (investigation : Option InvestigationResult)
      (error : Option String) (policy : BulkPolicy) (as_of : String)
      (deviation : Option DeviationProfile) (rules : List String) (notional : Option Decimal)
      (run_blocks : List String) (decided : Case)
      → decide_case case_id_for sampled cfg episode score investigation residual error policy as_of
          deviation rules notional run_blocks
        ≡ ok decided
      → decided.recommendation ≡ Recommendation.proposed_bulk
      → Cleared episode score investigation policy run_blocks decided
  unfolding decide_case
  decide_case-bulk episode score investigation error policy as_of deviation rules notional
        run_blocks decided h bulk =
      let one =
        halve
          (λ (c : Classification).
            first_reasons cfg policy (desk episode) c.residual_band investigation error
            >>= λ chosen. ok (
                finish case_id_for sampled cfg episode score investigation as_of deviation
                  run_blocks c chosen.0 chosen.1))
          decided (classify residual cfg.classification investigation deviation rules notional) h in
      let two =
        halve
          (λ (chosen : Recommendation × List String). ok (
            finish case_id_for sampled cfg episode score investigation as_of deviation run_blocks
              one.value chosen.0 chosen.1))
          decided
          (first_reasons cfg policy (desk episode) one.value.residual_band investigation error)
          one.after in
      finished episode score investigation error policy as_of deviation run_blocks one.value
        two.value.0 two.value.1 decided two.before two.after bulk
