-- ===== src/Domain/Cases.antt =====
-- domain/models.py: episodes, deviations, scores, investigations and cases. A time is its ISO text,
-- and a dictionary of texts is its list of pairs.
use sep.Base.{ℕ, String, Bool, Option, List, [], ◌∷◌}
use sep.Base.Decimal.{Decimal}
use sep.Domain.Hypothesis.{HypothesisClass, HypothesisStatus}

pub data LinkStatus : Type 0 where
  canonical proposed verified rejected : LinkStatus

-- The kind and the tier of a link are kept by their values.
pub record TradeLink : Type 0 where
  pub src : String
  pub dst : String
  pub kind : String
  pub tier : String
  pub status : LinkStatus
  pub provenance : String
  pub reason : String
  pub evidence : List (String × String)

pub record Episode : Type 0 where
  pub episode_id : String
  pub trade_ids : List String
  pub alert_ids : List String
  pub start : String
  pub end : String
  pub desks : List String
  pub books : List String
  pub instrument_ids : List String
  pub product_types : List String
  pub links : List TradeLink
  pub rejected_links : List TradeLink
  pub quality_flags : List String
  pub linking_version : String

first_desk : List String → String
first_desk [] = "UNKNOWN"
first_desk (d ∷ ds) = d

-- `Episode.desk`
unfoldable pub desk : Episode → String
unfolding first_desk
desk e = first_desk e.desks

pub record ScoreComponent : Type 0 where
  pub name : String
  pub raw : Decimal
  pub weight : Decimal
  pub contribution : Decimal
  pub detail : String

pub record OutlierEvidence : Type 0 where
  pub signal : String
  pub value : Decimal
  pub percentile : Decimal
  pub robust_z : Option Decimal
  pub peer_level : String
  pub peer_n : ℕ

pub record EpisodeScore : Type 0 where
  pub episode_id : String
  pub total : Decimal
  pub band : String
  pub bucket : String
  pub components : List ScoreComponent
  pub outliers : List OutlierEvidence
  pub overrides : List String
  pub degraded : List String

pub record PeerStat : Type 0 where
  pub level : String
  pub n : ℕ
  pub median : Decimal
  pub scale : Decimal
  pub percentile : Decimal
  pub robust_z : Decimal
  pub deviant : Bool

pub record SignalDeviation : Type 0 where
  pub signal : String
  pub value : Decimal
  pub tail : String
  pub peers : List PeerStat
  pub self_history : Option PeerStat
  pub stable : Option Bool
  pub confirming_levels : ℕ
  pub verified : Bool
  pub strength : Decimal
  pub reasons : List String

pub record JointRarity : Type 0 where
  pub items : List String
  pub support : ℕ
  pub reference_n : ℕ
  pub min_item_support : ℕ
  pub verified : Bool

pub record DeviationProfile : Type 0 where
  pub episode_id : String
  pub available : Bool
  pub baseline_period : Option String
  pub screened : List String
  pub deviations : List SignalDeviation
  pub joint : Option JointRarity
  pub verified : List String
  pub components : List ScoreComponent
  pub outlyingness : Decimal
  pub band : String
  pub notes : List String

pub record EvidenceRecord : Type 0 where
  pub evidence_id : String
  pub tool : String
  pub call_id : String
  pub args : List (String × String)
  pub facts : List (String × String)
  pub lead_only : Bool

pub record Hypothesis : Type 0 where
  pub hypothesis_id : String
  pub type : String
  pub klass : HypothesisClass
  pub status : HypothesisStatus
  pub rationale : String
  pub supporting : List String
  pub contradicting : List String
  pub missing : List String
  pub evidence_ids : List String
  pub signals : List String

pub record LinkProposal : Type 0 where
  pub proposal_id : String
  pub trade_a : String
  pub trade_b : String
  pub relation : String
  pub status : LinkStatus
  pub proposed_by : String
  pub verification : List (String × String)
  pub evidence_ids : List String
  pub created_at : String

pub record InvestigationResult : Type 0 where
  pub run_id : String
  pub case_id : String
  pub episode_id : String
  pub policy : String
  pub fallback_used : Bool
  pub hypotheses : List Hypothesis
  pub evidence : List EvidenceRecord
  pub conclusion : Option String
  pub conclusion_class : Option HypothesisClass
  pub abstained : Bool
  pub abstain_reason : Option String
  pub missing_evidence : List String
  pub contradictions : List String
  pub link_proposals : List LinkProposal
  pub explanation : String
  pub steps : ℕ
  pub tool_calls : ℕ
  pub unexplained_deviations : List String
  pub explained_deviations : List String
  pub pending_deviations : List String

pub data Recommendation : Type 0 where
  proposed_bulk individual_review escalation_recommended : Recommendation

pub data CaseState : Type 0 where
  open_case investigated decided : CaseState

pub data Category : Type 0 where
  typed_anomaly unexplained_deviation verified_benign unresolved : Category

pub record Classification : Type 0 where
  pub category : Category
  pub typology : String
  pub severity : String
  pub confidence : String
  pub corroboration : List String
  pub outlyingness : Decimal
  pub residual_outlyingness : Decimal
  pub band : String
  pub residual_band : String
  pub unexplained : List String
  pub explained : List String

pub record Case : Type 0 where
  pub case_id : String
  pub episode_id : String
  pub as_of : String
  pub alert_ids : List String
  pub desk : String
  pub state : CaseState
  pub recommendation : Recommendation
  pub reasons : List String
  pub score : EpisodeScore
  pub investigation_run_id : Option String
  pub conclusion : Option String
  pub control_sample : Bool
  pub cohort_id : Option String
  pub classification : Option Classification
  pub deviation : Option DeviationProfile

pub record Cohort : Type 0 where
  pub cohort_id : String
  pub hypothesis_type : String
  pub desk : String
  pub case_ids : List String
  pub status : String
