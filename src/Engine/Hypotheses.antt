-- ===== src/Engine/Hypotheses.antt =====
-- engine/hypotheses.py: the catalogue, and the evaluation of one hypothesis. The predicates and
-- evaluators of the catalogue's entries read evidence that is not modelled: they are the fields of
-- `Behaviour`, over any type of subjects (with the configuration) and of evidence bags.
pub mod Adjudicate
pub mod Guards
pub mod Verdict
mod Witnesses
use sep.Base.{
  ℕ, String, Bool, true, false, not, ◌&&◌, Option, none, some, List, [], ◌∷◌, filter, find, elem,
  map, ◌==◌, if◌then◌else◌,
}
use sep.Domain.Hypothesis.{HypothesisClass, HypothesisStatus}
use sep.Base.Sort.{sorted_set}
use Prim.Native.String.{◌++◌}

pub record Evaluation : Type 0 where
  pub status : HypothesisStatus
  pub supporting : List String
  pub contradicting : List String
  pub missing : List String
  pub signals : List String

pub record HypothesisDef : Type 0 where
  pub type : String
  pub klass : HypothesisClass
  pub description : String
  pub fields : List String
  pub residual : Bool

abbrev entry : String → HypothesisClass → String → List String → Bool → HypothesisDef
entry type klass description fields residual = record {
  type = type;
  klass = klass;
  description = description;
  fields = fields;
  residual = residual;
}

abbrev pub price : List String
price = "PRICE" ∷ []

abbrev pub economics : List String
economics = "PRICE" ∷ "QUANTITY" ∷ "SIDE" ∷ []

unfoldable pub catalog : List HypothesisDef
catalog =
    entry "PERIOD_END_ROUND_TRIP" HypothesisClass.anomalous
      "price moved into a period end and restored after it" price false
    ∷ entry "OFF_MARKET_AMENDMENT" HypothesisClass.anomalous
        "amendment moves price far outside the peer range" price false
    ∷ entry "REBOOK_ECONOMICS_CHANGED" HypothesisClass.anomalous
        "cancel/rebook presented as correction but economics changed" price false
    ∷ entry "VERIFIED_PEER_DEVIATION" HypothesisClass.anomalous
        "behaviour deviates from peers in a verified way that no benign explanation covers" [] true
    ∷ entry "CANCEL_REBOOK_CORRECTION" HypothesisClass.benign
        "cancelled and re-booked with identical economics" economics false
    ∷ entry "PRICE_CORRECTION" HypothesisClass.benign
        "prompt, bounded, price-only correction of a booking error" economics false
    ∷ entry "LATE_BOOKING_OPERATIONAL" HypothesisClass.benign
        "booked late for an operational reason" [] false
    ∷ entry "ROUTINE_EXECUTION" HypothesisClass.benign "single timely booking with nothing unusual"
        ("NOTIONAL_USD" ∷ []) false
    ∷ entry "RECURRING_BENIGN_CONTEXT" HypothesisClass.context
        "curated history of the same pattern (raises attention only)" [] false
    ∷ []

-- CATALOG_BY_TYPE.get(name)
unfoldable pub catalog_by_type : String → Option HypothesisDef
unfolding catalog
catalog_by_type name = find (λ (h : HypothesisDef). h.type == name) catalog

-- A request is kept by its `key`.
pub record Behaviour (S B : Type 0) : Type 0 where
  pub applies : HypothesisDef → S → Bool
  pub requirements : HypothesisDef → S → List String
  pub has : B → String → Bool
  pub unavailable : S → List String
  pub evaluator : HypothesisDef → S → B → Evaluation

abbrev refused : String → Evaluation
refused why = record {
  status = HypothesisStatus.contradicted;
  supporting = [];
  contradicting = why ∷ [];
  missing = [];
  signals = [];
}

abbrev pub lacking : List String → Evaluation
lacking missing = record {
  status = HypothesisStatus.insufficient;
  supporting = [];
  contradicting = [];
  missing = missing;
  signals = [];
}

-- The early returns of `evaluate`: the preconditions, the unavailable fields, the missing requests.
unfoldable pub checked : HypothesisDef → Bool → List String → List String → Evaluation → Evaluation
checked h false unavailable missing e = refused ("preconditions not met: " ++ h.description)
checked h true (f ∷ fs) missing e =
    lacking (map (λ (field : String). "FIELD_UNAVAILABLE:" ++ field) (f ∷ fs))
checked h true [] (r ∷ rs) e = lacking (r ∷ rs)
checked h true [] [] e = e

module _ {S B : Type 0} (behaviour : Behaviour S B) where
  unfoldable pub applicable : S → List HypothesisDef
  applicable subject = filter (λ (h : HypothesisDef). behaviour.applies h subject) catalog

  unfoldable pub missing_requests : HypothesisDef → S → B → List String
  missing_requests h subject bag =
      filter (λ (r : String). not (behaviour.has bag r)) (behaviour.requirements h subject)

  unfoldable pub unavailable_fields : HypothesisDef → S → List String
  unavailable_fields h subject =
      sorted_set (filter (λ (f : String). elem f (behaviour.unavailable subject)) h.fields)

  unfoldable pub evaluate : HypothesisDef → S → B → Evaluation
  unfolding missing_requests unavailable_fields checked
  evaluate h subject bag =
      checked h (behaviour.applies h subject) (unavailable_fields h subject)
        (missing_requests h subject bag) (behaviour.evaluator h subject bag)
