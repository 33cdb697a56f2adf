-- ===== src/Evolution/Replay.antt =====
-- evolution/replay.py: the metrics of a rule on curated history, and the replay of a detection rule. A
-- report's own id, subject, window, bundle and hash are left out. Ratios are exact before the rounding,
-- since the numbers of points are far below the precision of the decimal context.
pub mod Counts
mod Witnesses
use sep.Base.{
  ℕ, zero, suc, ◌+◌, ◌-◌, ◌*◌, ◌/◌, ◌%◌, String, Bool, true, false, not, ◌&&◌, ◌||◌, Option, none,
  some, List, [], ◌∷◌, ◌++◌, map, filter, length, take, ltb, leb, eqb, ◌==◌, if◌then◌else◌,
}
use sep.Base.Decimal.{Decimal}
use sep.Core.Errors.{Result, ok, err, ◌>>=◌}
use sep.Domain.Policy.{RuleSpec, RuleSet, BulkScope, PolicyBundle}
use sep.Domain.Hypothesis.{HypothesisClass, is_benign}
use sep.Engine.Rules.{EpisodeSignals, Detection, evaluate_rule}

pub record HistoryPoint : Type 0 where
  pub episode_id : String
  pub eval_time : String
  pub desk : String
  pub label : Option String
  pub signals : EpisodeSignals
  pub assessed_class : Option HypothesisClass
  pub assessed_type : Option String

pub record Metrics : Type 0 where
  pub fires : ℕ
  pub labelled : ℕ
  pub tp : ℕ
  pub fp : ℕ
  pub fn : ℕ
  pub precision : Option Decimal
  pub recall : Option Decimal

-- m / n to the nearest whole number, a tie to the even one.
half_even : ℕ → ℕ → ℕ
half_even m n =
    let q = m / n in
    let twice = 2 * (m % n) in
    if ltb twice n then q else if ltb n twice then q + 1 else if eqb (q % 2) 0 then q else q + 1

-- (Decimal(part) / Decimal(whole)).quantize(Decimal("0.0001")) if whole else None
ratio : ℕ → ℕ → Option Decimal
unfolding half_even
ratio part zero = none
ratio part (suc n) =
    some (record { negative = false; digits = half_even (part * 10000) (suc n); scale = 4 })

abbrev pub is_label : String → HistoryPoint → Bool
is_label wanted p = elim p.label [ none ↦ false | some l ↦ l == wanted ]

abbrev pub is_labelled : HistoryPoint → Bool
is_labelled p = elim p.label [ none ↦ false | some l ↦ not (l == "") ]

-- [p for p in points if test(p)], where the test may raise.
unfoldable pub filter_result :
    (HistoryPoint → Result Bool) → List HistoryPoint → Result (List HistoryPoint)
filter_result test [] = ok []
filter_result test (p ∷ ps) = do
  holds ← test p
  rest ← filter_result test ps
  ok (if holds then p ∷ rest else rest)

-- `p.label == "ESCALATED" and not fires(p)`
abbrev pub missed_by : (HistoryPoint → Result Bool) → HistoryPoint → Result Bool
missed_by fires p = if is_label "ESCALATED" p then (do f ← fires p; ok (not f)) else ok false

-- The record that `metrics` returns, from the points that fired and the escalated ones that did not.
unfoldable pub metrics_of : List HistoryPoint → List HistoryPoint → List HistoryPoint → Metrics
unfolding ratio
metrics_of points fired missed =
    let tp = length (filter (is_label "ESCALATED") fired) in
    let fp = length (filter (is_label "CLEARED") fired) in
    record {
      fires = length fired;
      labelled = length (filter is_labelled points);
      tp = tp;
      fp = fp;
      fn = length missed;
      precision = ratio tp (tp + fp);
      recall = ratio tp (tp + length missed);
    }

unfoldable pub metrics : List HistoryPoint → (HistoryPoint → Result Bool) → Result Metrics
metrics points fires = do
  fired ← filter_result fires points
  missed ← filter_result (missed_by fires) (filter is_labelled points)
  ok (metrics_of points fired missed)

-- `_fires(rules)`: the first rule that detects ends the search.
found_or : Option Detection → Result Bool → Result Bool
found_or none rest = rest
found_or (some d) rest = ok true

unfoldable pub fires_any : List RuleSpec → HistoryPoint → Result Bool
unfolding found_or
fires_any [] p = ok false
fires_any (r ∷ rules) p = do
  let rest = fires_any rules p
  d ← evaluate_rule r p.signals
  found_or d rest

-- a(p) and not b(p)
abbrev pub only :
    (HistoryPoint → Result Bool) → (HistoryPoint → Result Bool) → HistoryPoint → Result Bool
only a b p = do x ← a p; if x then (do y ← b p; ok (not y)) else ok false

-- ((Decimal(after - before) / Decimal(before)) * 100).quantize(...) if before else None
volume_delta : ℕ → ℕ → Option Decimal
unfolding half_even
volume_delta after zero = none
volume_delta after (suc b) = some (record {
  negative = ltb after (suc b);
  digits = half_even (((after - suc b) + (suc b - after)) * 1000000) (suc b);
  scale = 4;
})

pub record ReplayReport : Type 0 where
  pub episodes : ℕ
  pub current : Metrics
  pub candidate : Metrics
  pub combined : Metrics
  pub added : ℕ
  pub added_positive : ℕ
  pub lost : ℕ
  pub lost_positive : ℕ
  pub volume_delta_pct : Option Decimal
  pub sample_added : List String
  pub sample_false_positive : List String

abbrev ids_of : ℕ → List HistoryPoint → List String
ids_of sample points = take sample (map (λ (p : HistoryPoint). p.episode_id) points)

abbrev cleared_hit : (HistoryPoint → Result Bool) → HistoryPoint → Result Bool
cleared_hit fires p = do f ← fires p; ok (f && is_label "CLEARED" p)

-- The report from the lists of points and the metrics.
unfoldable pub report_of :
    (points added lost before after wrong : List HistoryPoint)
    → (current candidate combined : Metrics) → (sample : ℕ) → ReplayReport
unfolding volume_delta
report_of points added lost before after wrong current candidate combined sample = record {
  episodes = length points;
  current = current;
  candidate = candidate;
  combined = combined;
  added = length added;
  added_positive = length (filter (is_label "ESCALATED") added);
  lost = length lost;
  lost_positive = length (filter (is_label "ESCALATED") lost);
  volume_delta_pct = volume_delta (length after) (length before);
  sample_added = ids_of sample added;
  sample_false_positive = ids_of sample wrong;
}

-- The report from the tests of the current rules, the candidate and the combined rules.
unfoldable pub replay_with :
    (current candidate combined : HistoryPoint → Result Bool)
    → List HistoryPoint
    → ℕ
    → Result ReplayReport
replay_with cur cand comb points sample = do
  added ← filter_result (only comb cur) points
  lost ← filter_result (only cur comb) points
  before ← filter_result cur points
  after ← filter_result comb points
  m ← metrics points cur
  n ← metrics points cand
  k ← metrics points comb
  wrong ← filter_result (cleared_hit cand) points
  ok (report_of points added lost before after wrong m n k sample)

unfoldable pub replay_detection :
    RuleSpec → PolicyBundle → List HistoryPoint → ℕ → Result ReplayReport
unfolding replay_with fires_any
replay_detection rule bundle points sample =
    let others = filter (λ (r : RuleSpec). not (r.rule_id == rule.rule_id)) bundle.rules in
    replay_with (fires_any bundle.rules) (fires_any (rule ∷ [])) (fires_any (others ++ (rule ∷ [])))
      points sample
