-- ===== src/Evolution/Shadow.antt =====
-- evolution/shadow.py: the shadow run of a detection rule beside the production rules. A report's own
-- id, subject and window are left out. A share is compared exactly, since the numbers of points are
-- far below the precision of the decimal context.
pub mod Limits
mod Witnesses
use Prim.Native.Nat.{max}
use Prim.Native.String.{slice}
use sep.Base.{
  ℕ, zero, suc, ◌+◌, ◌*◌, String, Bool, true, false, not, ◌&&◌, Option, none, some, List, [], ◌∷◌,
  ◌++◌, filter, length, any, ltb, ◌==◌, if◌then◌else◌,
}
use sep.Base.Decimal.{Decimal, ten_to}
use sep.Core.Errors.{Result, ok, err, key_error, ◌>>=◌}
use sep.Domain.Policy.{RuleSpec, PolicyBundle}
use sep.Domain.Hypothesis.{is_anomalous}
use sep.Engine.Rules.{EpisodeSignals, Detection, evaluate_rule}
use sep.Evolution.Replay.{HistoryPoint, fires_any}

pub record ShadowDecision : Type 0 where
  pub episode_id : String
  pub eval_time : String
  pub production_fired : Bool
  pub candidate_fired : Bool

pub record ShadowReport : Type 0 where
  pub episodes : ℕ
  pub production_fires : ℕ
  pub candidate_fires : ℕ
  pub overlap : ℕ
  pub candidate_only : ℕ
  pub candidate_only_assessed_anomalous : ℕ
  pub max_new_per_day : ℕ
  pub passed : Bool
  pub failures : List String
  pub decisions : List ShadowDecision

-- The section `shadow` of the configuration.
pub record ShadowConfig : Type 0 where
  pub max_new_alerts_per_day : ℕ
  pub min_assessed_precision : Decimal

abbrev decision : HistoryPoint → Bool → Option Detection → ShadowDecision
decision p prod cand = record {
  episode_id = p.episode_id;
  eval_time = p.eval_time;
  production_fired = prod;
  candidate_fired = elim cand [ none ↦ false | some d ↦ true ];
}

unfoldable pub decisions_of :
    RuleSpec → List RuleSpec → List HistoryPoint → Result (List ShadowDecision)
decisions_of rule rules [] = ok []
decisions_of rule rules (p ∷ points) = do
  prod ← fires_any rules p
  cand ← evaluate_rule rule p.signals
  rest ← decisions_of rule rules points
  ok (decision p prod cand ∷ rest)

abbrev pub is_only : ShadowDecision → Bool
is_only d = d.candidate_fired && not d.production_fired

-- `d.eval_time.date()`, the first ten characters of the time's text
abbrev pub date_of : ShadowDecision → String
date_of d = slice d.eval_time 0 10

-- One more for the day.
unfoldable pub count_day : String → List (String × ℕ) → List (String × ℕ)
count_day day [] = (day, 1) ∷ []
count_day day ((k, n) ∷ counts) =
    let rest = count_day day counts in if k == day then (k, n + 1) ∷ counts else (k, n) ∷ rest

unfoldable pub per_day : List ShadowDecision → List (String × ℕ) → List (String × ℕ)
unfolding count_day
per_day [] counts = counts
per_day (d ∷ ds) counts = per_day ds (count_day (date_of d) counts)

-- max(per_day.values(), default=0)
unfoldable pub largest : List (String × ℕ) → ℕ
largest [] = 0
largest ((k, n) ∷ counts) = max n (largest counts)

-- by_id[episode_id]: the last point of the id.
unfoldable pub point_of : String → List HistoryPoint → Result HistoryPoint
point_of id [] = err key_error
point_of id (p ∷ points) =
    let rest = point_of id points in
    elim rest [ ok later ↦ ok later | err e ↦ if p.episode_id == id then ok p else err e ]

abbrev pub is_corroborated : HistoryPoint → Bool
is_corroborated p = elim p.assessed_class [ none ↦ false | some c ↦ is_anomalous c ]

unfoldable pub count_anomalous : List HistoryPoint → List ShadowDecision → Result ℕ
unfolding point_of
count_anomalous points [] = ok 0
count_anomalous points (d ∷ ds) = do
  p ← point_of d.episode_id points
  n ← count_anomalous points ds
  ok (if is_corroborated p then suc n else n)

-- `whole and Decimal(part) / Decimal(whole) < least`
unfoldable pub share_below : ℕ → ℕ → Decimal → Bool
unfolding ten_to
share_below part zero least = false
share_below part (suc n) least =
    if least.negative then false else ltb (part * ten_to least.scale) (least.digits * suc n)

abbrev pub failure : Bool → String → List String
failure b text = if b then text ∷ [] else []

unfoldable pub shadow_failures :
    ShadowConfig → ℕ → ℕ → List ShadowDecision → List ShadowDecision → List String
unfolding share_below
shadow_failures cfg max_new anomalous only decisions =
    failure (ltb cfg.max_new_alerts_per_day max_new) "candidate adds too many alerts per day"
    ++ (failure (share_below anomalous (length only) cfg.min_assessed_precision)
          "new alerts are rarely corroborated by investigation"
        ++ failure (not (any (λ (d : ShadowDecision). d.candidate_fired) decisions))
            "candidate never fired in shadow; nothing to learn")

abbrev pub is_none_of {ℓ} : {A : Type ℓ} → List A → Bool
is_none_of [] = true
is_none_of (t ∷ ts) = false

unfoldable pub shadow_report :
    ShadowConfig → List HistoryPoint → List ShadowDecision → List ShadowDecision → ℕ → ShadowReport
unfolding shadow_failures per_day largest
shadow_report cfg points decisions only anomalous =
    let max_new = largest (per_day only []) in
    let failures = shadow_failures cfg max_new anomalous only decisions in
    record {
      episodes = length points;
      production_fires = length (filter (λ (d : ShadowDecision). d.production_fired) decisions);
      candidate_fires = length (filter (λ (d : ShadowDecision). d.candidate_fired) decisions);
      overlap =
          length
            (filter (λ (d : ShadowDecision). d.candidate_fired && d.production_fired) decisions);
      candidate_only = length only;
      candidate_only_assessed_anomalous = anomalous;
      max_new_per_day = max_new;
      passed = is_none_of failures;
      failures = failures;
      decisions = decisions;
    }

unfoldable pub shadow_detection :
    RuleSpec → PolicyBundle → List HistoryPoint → ShadowConfig → Result ShadowReport
unfolding shadow_report count_anomalous decisions_of
shadow_detection rule bundle points cfg = do
  decisions ← decisions_of rule bundle.rules points
  let only = filter is_only decisions
  anomalous ← count_anomalous points only
  ok (shadow_report cfg points decisions only anomalous)
