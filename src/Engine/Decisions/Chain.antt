-- ===== src/Engine/Decisions/Chain.antt =====
-- engine/decisions.py: what the chain of tests and the gate of `decide_case` return.
use sep.Base.{
  String, ◌≡◌, refl, ap, Bool, true, false, Option, none, some, List, [], ◌∷◌, ◌++◌, map, arith,
}
use sep.Core.Errors.{Result, ok, err, ◌>>=◌}
use sep.Domain.Policy.{BulkPolicy}
use sep.Domain.Hypothesis.{HypothesisClass}
use sep.Domain.Cases.{InvestigationResult, Recommendation, Case}
use sep.Engine.Classification.{is_class_anomalous}
use sep.Engine.Decisions.{
  DecisionConfig, first_reasons, investigated, anomalous, gate, is_empty, is_ineligible, band_rank,
  residual_conclusion, reason_if, deduped, class_benign,
}

-- The two halves of a chain that returned `last`.
pub record Halves {A B : Type 0} (first : Result A) (next : A → Result B) (last : B) : Type 0 where
  pub value : A
  pub before : first ≡ ok value
  pub after : next value ≡ ok last

pub halve :
    {A B : Type 0} (next : A → Result B) (last : B) (first : Result A)
    → (first >>= next) ≡ ok last
    → Halves first next last
halve next last (ok value) h = record { value = value; before = refl; after = h }
halve next last (err error) h = ground arith

pub append-nil-both : {A : Type 0} (xs ys : List A) → xs ++ ys ≡ [] → (xs ≡ []) × (ys ≡ [])
append-nil-both [] ys h = (refl, h)
append-nil-both (x ∷ xs) ys h = ground arith

pub map-nil : {A B : Type 0} (f : A → B) (xs : List A) → map f xs ≡ [] → xs ≡ []
map-nil f [] h = refl
map-nil f (x ∷ xs) h = ground arith

pub reason_if-nil : (b : Bool) (r : String) → reason_if b r ≡ [] → b ≡ false
reason_if-nil true r h = ground arith
reason_if-nil false r h = refl

pub is_empty-nil : (xs : List String) → is_empty xs ≡ true → xs ≡ []
is_empty-nil [] h = refl
is_empty-nil (x ∷ xs) h = ground arith

pub is_bulk : Recommendation → Bool
is_bulk Recommendation.proposed_bulk = true
is_bulk _ = false

unfoldable pub recommended : Result Case → Recommendation
recommended (ok c) = c.recommendation
recommended (err e) = Recommendation.individual_review

unfoldable pub reasons_in : Result Case → List String
reasons_in (ok c) = c.reasons
reasons_in (err e) = []

pub gate-bulk :
    (r : Recommendation) (reasons : List String) (eligible in_sample : Bool)
    → is_bulk r ≡ false
    → (gate r reasons eligible in_sample).0 ≡ Recommendation.proposed_bulk
    → (eligible ≡ true) × (in_sample ≡ false)
unfolding gate is_bulk
gate-bulk r reasons true true n h = ground (arith, ap is_bulk h)
gate-bulk r reasons true false n h = (refl, refl)
gate-bulk r reasons false s n h = ground (arith, ap is_bulk h)

pub gate-quiet :
    (r : Recommendation) (reasons : List String) (eligible in_sample : Bool)
    → eligible ≡ true
    → in_sample ≡ false
    → deduped [] (gate r reasons eligible in_sample).1.1 ≡ []
unfolding gate deduped
gate-quiet r reasons eligible in_sample e s = rw (e, s) refl

-- The chain of tests itself never proposes bulk.
unfoldable pub bulk_in : Result (Recommendation × List String) → Bool
unfolding is_bulk
bulk_in (ok (r, reasons)) = is_bulk r
bulk_in (err e) = false

bind-bulk :
    {A : Type 0} (m : Result A) (f : A → Result (Recommendation × List String))
    → ((a : A) → bulk_in (f a) ≡ false)
    → bulk_in (m >>= f) ≡ false
unfolding bulk_in
bind-bulk (ok a) f h = h a
bind-bulk (err e) f h = refl

module _ (cfg : DecisionConfig) (policy : BulkPolicy) (at band : String) where
  anomalous-bulk :
      (inv : InvestigationResult) (b : Bool) → bulk_in (anomalous cfg policy at band inv b) ≡ false
  unfolding anomalous bulk_in is_bulk
  anomalous-bulk inv true =
      bind-bulk (band_rank band) _
        λ rank. bind-bulk (band_rank cfg.residual_escalation_band) _ λ threshold. ground arith
  anomalous-bulk inv false = refl

  investigated-bulk :
      (inv : InvestigationResult) (abstained is_anomaly ineligible : Bool)
      → bulk_in (investigated cfg policy at band inv abstained is_anomaly ineligible) ≡ false
  unfolding investigated bulk_in is_bulk
  investigated-bulk inv true is_anomaly ineligible = refl
  investigated-bulk inv false true ineligible =
      bind-bulk (residual_conclusion inv.conclusion) _ λ b. anomalous-bulk inv b
  investigated-bulk inv false false true = refl
  investigated-bulk inv false false false = refl

  pub first_reasons-bulk :
      (investigation : Option InvestigationResult) (error : Option String)
      → bulk_in (first_reasons cfg policy at band investigation error) ≡ false
  unfolding first_reasons bulk_in is_bulk
  first_reasons-bulk none error = refl
  first_reasons-bulk (some inv) error =
      investigated-bulk inv inv.abstained (is_class_anomalous inv.conclusion_class)
        (is_ineligible policy inv.conclusion at)

  -- The chain of tests gives no reason only for an investigation that did not abstain, is not
  -- anomalous, and is covered by the policy.
  investigated-nil :
      (inv : InvestigationResult) (abstained is_anomaly ineligible : Bool) (r : Recommendation)
      → investigated cfg policy at band inv abstained is_anomaly ineligible ≡ ok (r, [])
      → is_anomaly ≡ false
      → (abstained ≡ false) × (ineligible ≡ false)
  unfolding investigated
  investigated-nil inv true is_anomaly ineligible r h n = ground arith
  investigated-nil inv false true ineligible r h n = ground arith
  investigated-nil inv false false true r h n = ground arith
  investigated-nil inv false false false r h n = (refl, refl)

  pub first-nil :
      (inv : InvestigationResult) (error : Option String) (r : Recommendation)
      → first_reasons cfg policy at band (some inv) error ≡ ok (r, [])
      → class_benign inv.conclusion_class ≡ true
      → (inv.abstained ≡ false) × (is_ineligible policy inv.conclusion at ≡ false)
  unfolding first_reasons
  first-nil inv error r h benign =
      investigated-nil inv inv.abstained (is_class_anomalous inv.conclusion_class)
        (is_ineligible policy inv.conclusion at) r h (benign_only inv.conclusion_class benign)
    where
      benign_only :
          (k : Option HypothesisClass) → class_benign k ≡ true → is_class_anomalous k ≡ false
      benign_only none b = refl
      benign_only (some HypothesisClass.benign) b = refl
      benign_only (some HypothesisClass.anomalous) b = ground arith
      benign_only (some HypothesisClass.context) b = refl
