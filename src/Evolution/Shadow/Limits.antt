-- ===== src/Evolution/Shadow/Limits.antt =====
-- evolution/shadow.py: what a shadow run that passes has shown.
use sep.Base.{
  ℕ, zero, suc, ◌+◌, ◌*◌, ◌≤◌, ◌≡◌, refl, sym, ap, subst, ◌∙◌, String, Bool, true, false, not,
  Option, none, some, List, [], ◌∷◌, ◌++◌, filter, length, any, ltb, ltb→ge, ◌==◌, if◌then◌else◌,
  Bool-cases, inl, inr, ◌⊎◌, arith, eq_iff,
}
use sep.Base.Decimal.{Decimal, ten_to}
use sep.Core.Errors.{ok, bind_ok, ok-injective}
use sep.Domain.Policy.{RuleSpec, PolicyBundle}
use sep.Engine.Rules.{Detection, evaluate_rule}
use sep.Evolution.Replay.{HistoryPoint, fires_any}
use sep.Evolution.Shadow.{
  ShadowDecision, ShadowReport, ShadowConfig, decision, decisions_of, is_only, date_of, count_day,
  per_day, largest, count_anomalous, share_below, shadow_failures, is_none_of, shadow_report,
  shadow_detection,
}

abbrev tally : Bool → ℕ
tally true = 1
tally false = 0

-- What a day was counted.
at_day : String → List (String × ℕ) → ℕ
at_day day [] = 0
at_day day ((k, n) ∷ counts) = if k == day then n else at_day day counts

two_days : (day j k : String) → (j == day) ≡ true → (k == day) ≡ true → (j == k) ≡ false → ⊥
two_days day j k e f apart =
    let same : (j == k) ≡ true = (eq_iff j k).1 ((eq_iff j day).0 e ∙ sym ((eq_iff k day).0 f)) in
    cc

at_day-count_day :
    (day k : String) (counts : List (String × ℕ))
    → at_day day (count_day k counts) ≡ at_day day counts + tally (k == day)
unfolding at_day count_day
at_day-count_day day k [] = elim (Bool-cases (k == day)) [
  | inl today ↦ rw today (omega arith)
  | inr other ↦ rw other (omega arith)
]
at_day-count_day day k ((j, n) ∷ counts) = elim (Bool-cases (j == k)) [
  | inl same ↦
      let at : (j == day) ≡ (k == day) = ap (λ x. x == day) ((eq_iff j k).0 same) in
      elim (Bool-cases (k == day)) [
        | inl today ↦ rw same (rw at (rw today (omega arith)))
        | inr other ↦ rw same (rw at (rw other (omega arith)))
      ]
  | inr apart ↦ elim (Bool-cases (j == day)) [
    | inl today ↦ elim (Bool-cases (k == day)) [
      | inl both ↦ absurd (two_days day j k today both apart)
      | inr other ↦ rw apart (rw (today, other) (omega arith))
    ]
    | inr other ↦ rw apart (rw other (at_day-count_day day k counts))
  ]
]

at_day-per_day :
    (day : String) (ds : List ShadowDecision) (counts : List (String × ℕ))
    → at_day day (per_day ds counts)
      ≡ at_day day counts + length (filter (λ (d : ShadowDecision). date_of d == day) ds)
unfolding per_day
at_day-per_day day [] counts = omega arith
at_day-per_day day (d ∷ ds) counts = elim (Bool-cases (date_of d == day)) [
  | inl today ↦ rw today (
      omega (
        arith,
        at_day-per_day day ds (count_day (date_of d) counts),
        at_day-count_day day (date_of d) counts,
        ap tally today,
      ))
  | inr other ↦ rw other (
      omega (
        arith,
        at_day-per_day day ds (count_day (date_of d) counts),
        at_day-count_day day (date_of d) counts,
        ap tally other,
      ))
]

at_day-largest : (day : String) (counts : List (String × ℕ)) → at_day day counts ≤ largest counts
unfolding at_day largest
at_day-largest day [] = omega arith
at_day-largest day ((k, n) ∷ counts) = elim (Bool-cases (k == day)) [
  | inl same ↦ rw same (omega arith)
  | inr other ↦ rw other (omega (arith, at_day-largest day counts))
]

not-false : (b : Bool) → not b ≡ false → b ≡ true
not-false true h = refl
not-false false h = sym h

-- No failure was written.
no_failure :
    (a b c : Bool) (s t u : String)
    → is_none_of
        ((if a then s ∷ [] else []) ++ ((if b then t ∷ [] else []) ++ (if c then u ∷ [] else [])))
      ≡ true
    → (a ≡ false) × (b ≡ false) × (c ≡ false)
no_failure false false false s t u h = (refl, refl, refl)
no_failure true b c s t u h = cc
no_failure false true c s t u h = cc
no_failure false false true s t u h = cc

-- What a shadow run that passed has shown of the decisions it recorded.
pub record Passed (cfg : ShadowConfig) (report : ShadowReport) : Type 0 where
  pub daily :
      (day : String)
      → length (filter (λ (d : ShadowDecision). date_of d == day) (filter is_only report.decisions))
        ≤ cfg.max_new_alerts_per_day
  pub fired : any (λ (d : ShadowDecision). d.candidate_fired) report.decisions ≡ true
  pub corroborated :
      (cfg.min_assessed_precision.negative ≡ true)
      ⊎ (cfg.min_assessed_precision.digits * length (filter is_only report.decisions)
          ≤ report.candidate_only_assessed_anomalous * ten_to cfg.min_assessed_precision.scale)

share_below-least :
    (part whole : ℕ) (least : Decimal)
    → share_below part whole least ≡ false
    → (least.negative ≡ true) ⊎ (least.digits * whole ≤ part * ten_to least.scale)
unfolding share_below
share_below-least part zero least h = inr (omega arith)
share_below-least part (suc n) least h = elim (Bool-cases least.negative) [
  | inl negative ↦ inl negative
  | inr positive ↦ inr (ltb→ge _ _ (rw positive at h))
]

shadow_report-Passed :
    (cfg : ShadowConfig) (points : List HistoryPoint) (ds : List ShadowDecision) (anomalous : ℕ)
    → (shadow_report cfg points ds (filter is_only ds) anomalous).passed ≡ true
    → Passed cfg (shadow_report cfg points ds (filter is_only ds) anomalous)
unfolding shadow_report shadow_failures
shadow_report-Passed cfg points ds anomalous h =
    let (calm, real, hit) =
      no_failure (ltb cfg.max_new_alerts_per_day (largest (per_day (filter is_only ds) [])))
        (share_below anomalous (length (filter is_only ds)) cfg.min_assessed_precision)
        (not (any (λ (d : ShadowDecision). d.candidate_fired) ds))
        "candidate adds too many alerts per day"
        "new alerts are rarely corroborated by investigation"
        "candidate never fired in shadow; nothing to learn" h in
    record {
      daily = λ day. omega (
        arith,
        ltb→ge _ _ calm,
        at_day-largest day (per_day (filter is_only ds) []),
        at_day-per_day day (filter is_only ds) [],
      );
      fired = not-false _ hit;
      corroborated =
          share_below-least anomalous (length (filter is_only ds)) cfg.min_assessed_precision real;
    }

-- Each point has its decision: whether a production rule and whether the candidate detects it.
pub record Decided (rule : RuleSpec) (rules : List RuleSpec) (p : HistoryPoint) (d : ShadowDecision)
    : Type 0 where
  pub same_id : d.episode_id ≡ p.episode_id
  pub same_time : d.eval_time ≡ p.eval_time
  pub production : fires_any rules p ≡ ok d.production_fired
  pub candidate :
      (found : Option Detection) × (evaluate_rule rule p.signals ≡ ok found)
      × (d.candidate_fired ≡ elim found [ none ↦ false | some x ↦ true ])

pub data EachDecided (rule : RuleSpec) (rules : List RuleSpec)
    : List HistoryPoint → List ShadowDecision → Type 0 where
  nothing : EachDecided rule rules [] []
  next :
      {p : HistoryPoint} {d : ShadowDecision} {points : List HistoryPoint}
      {ds : List ShadowDecision}
      → Decided rule rules p d
      → EachDecided rule rules points ds
      → EachDecided rule rules (p ∷ points) (d ∷ ds)

decisions_of-EachDecided :
    (rule : RuleSpec) (rules : List RuleSpec) (points : List HistoryPoint)
    (ds : List ShadowDecision)
    → decisions_of rule rules points ≡ ok ds
    → EachDecided rule rules points ds
unfolding decisions_of
decisions_of-EachDecided rule rules [] ds h =
    subst (λ ds. EachDecided rule rules [] ds) (ok-injective [] ds h) EachDecided.nothing
decisions_of-EachDecided rule rules (p ∷ points) ds h =
    let (prod, fires, h₁) = bind_ok (fires_any rules p) _ ds h in
    let (cand, found, h₂) = bind_ok (evaluate_rule rule p.signals) _ ds h₁ in
    let (rest, others, h₃) = bind_ok (decisions_of rule rules points) _ ds h₂ in
    subst (λ ds. EachDecided rule rules (p ∷ points) ds)
      (ok-injective (decision p prod cand ∷ rest) ds h₃)
      (EachDecided.next
        (record {
          same_id = refl;
          same_time = refl;
          production = fires;
          candidate = (cand, found, refl);
        })
        (decisions_of-EachDecided rule rules points rest others))

-- The shadow run of a rule returns a report that passed. Then there is a decision for each point, in
-- order, that says whether a production rule and whether the candidate detects it; the candidate
-- detects some point; on no day does it alone detect more points than the limit allows; and of the
-- points that it alone detects, the share counted as assessed anomalous is at least the floor.
pub shadow_detection-Passed :
    (rule : RuleSpec) (bundle : PolicyBundle) (points : List HistoryPoint) (cfg : ShadowConfig)
    (report : ShadowReport)
    → shadow_detection rule bundle points cfg ≡ ok report
    → report.passed ≡ true
    → EachDecided rule bundle.rules points report.decisions × Passed cfg report
unfolding shadow_detection shadow_report
shadow_detection-Passed rule bundle points cfg report h passed =
    let (ds, decided, h₁) = bind_ok (decisions_of rule bundle.rules points) _ report h in
    let (anomalous, counted, h₂) =
      bind_ok (count_anomalous points (filter is_only ds)) _ report h₁ in
    let same = ok-injective (shadow_report cfg points ds (filter is_only ds) anomalous) report h₂ in
    subst (λ (r : ShadowReport). EachDecided rule bundle.rules points r.decisions × Passed cfg r)
      same
      (
        decisions_of-EachDecided rule bundle.rules points ds decided,
        shadow_report-Passed cfg points ds anomalous
            (ap (λ (r : ShadowReport). r.passed) same ∙ passed),
      )
