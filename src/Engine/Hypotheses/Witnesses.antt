-- ===== src/Engine/Hypotheses/Witnesses.antt =====
-- The theorems about hypotheses at concrete evaluations.
use sep.Base.{
  String, ◌≡◌, refl, Bool, true, false, none, some, List, [], ◌∷◌, any, sym, ap, ◌∙◌, eq_iff, arith,
}
use mathlib.Core.List.{Memᴰ, Permᴰ}
use sep.Base.Sort.{sorted_set, sort_by}
use sep.Core.Errors.{ok}
use sep.Domain.Hypothesis.{HypothesisClass, HypothesisStatus}
use sep.Engine.Hypotheses.{
  HypothesisDef, Evaluation, Behaviour, catalog, evaluate, missing_requests, unavailable_fields,
  checked,
}
use sep.Engine.Hypotheses.Adjudicate.{
  Judged, Adjudication, is_typed, is_lacking, is_cleared, adjudicate, judge, outcome, deviating,
  covered, could, position, settle_with,
}
use sep.Engine.Hypotheses.Verdict.{adjudicate-total, adjudicate-Permᴰ}
use sep.Engine.Hypotheses.Guards.{adjudicate-benign, evaluate-supported}

abbrev late_def : HypothesisDef
late_def = record {
  type = "LATE_BOOKING_OPERATIONAL";
  klass = HypothesisClass.benign;
  description = "booked late for an operational reason";
  fields = [];
  residual = false;
}

abbrev round_trip_def : HypothesisDef
round_trip_def = record {
  type = "PERIOD_END_ROUND_TRIP";
  klass = HypothesisClass.anomalous;
  description = "price moved into a period end and restored after it";
  fields = "PRICE" ∷ [];
  residual = false;
}

abbrev judged : HypothesisStatus → List String → Evaluation
judged status signals = record {
  status = status;
  supporting = [];
  contradicting = [];
  missing = [];
  signals = signals;
}

abbrev late : Judged
late = (late_def, judged HypothesisStatus.supported [])

abbrev round_trip : Judged
round_trip = (round_trip_def, judged HypothesisStatus.contradicted [])

abbrev results : List Judged
results = late ∷ round_trip ∷ []

abbrev explains : String → List String
explains _ = []

abbrev cleared_case : Adjudication
cleared_case = record {
  conclusion = some "LATE_BOOKING_OPERATIONAL";
  klass = some HypothesisClass.benign;
  abstain_reason = none;
  missing = [];
  contradicted = [];
  history_adverse = false;
  unexplained = [];
  explained = [];
  pending = [];
}

adjudicate-total_example : (a : Adjudication) × (adjudicate explains results ≡ ok a)
unfolding catalog
adjudicate-total_example = adjudicate-total explains results refl

adjudicate-benign_example :
    (any is_typed results ≡ false)
    × (any is_lacking results ≡ false)
    × (any is_cleared results ≡ true)
    × (cleared_case.unexplained ≡ [])
unfolding adjudicate judge outcome deviating covered could position settle_with catalog sorted_set
    sort_by
adjudicate-benign_example = adjudicate-benign explains results cleared_case refl refl

abbrev type_of : Judged → String
type_of r = r.0.type

two_types : late_def.type ≡ round_trip_def.type → ⊥
two_types h = ground (arith, eq_iff late_def.type round_trip_def.type)

distinct : (r s : Judged) → Memᴰ r results → Memᴰ s results → r.0.type ≡ s.0.type → r ≡ s
distinct r s (Memᴰ.head e) (Memᴰ.head f) h = e ∙ sym f
distinct r s (Memᴰ.head e) (Memᴰ.tail (Memᴰ.head f)) h =
    absurd (two_types (sym (ap type_of e) ∙ (h ∙ ap type_of f)))
distinct r s (Memᴰ.tail (Memᴰ.head e)) (Memᴰ.head f) h =
    absurd (two_types (sym (ap type_of f) ∙ (sym h ∙ ap type_of e)))
distinct r s (Memᴰ.tail (Memᴰ.head e)) (Memᴰ.tail (Memᴰ.head f)) h = e ∙ sym f
distinct r s (Memᴰ.head e) (Memᴰ.tail (Memᴰ.tail m)) h = elim m [ ]
distinct r s (Memᴰ.tail (Memᴰ.head e)) (Memᴰ.tail (Memᴰ.tail m)) h = elim m [ ]
distinct r s (Memᴰ.tail (Memᴰ.tail m)) n h = elim m [ ]

adjudicate-Permᴰ_example :
    adjudicate explains results ≡ adjudicate explains (round_trip ∷ late ∷ [])
adjudicate-Permᴰ_example =
    adjudicate-Permᴰ explains results (round_trip ∷ late ∷ []) (Permᴰ.swap refl refl) distinct

abbrev ready : Behaviour String Bool
ready = record {
  applies = λ _ _. true;
  requirements = λ _ _. "get_episode" ∷ [];
  has = λ bag _. bag;
  unavailable = λ _. "SIDE" ∷ [];
  evaluator = λ _ _ _. judged HypothesisStatus.supported [];
}

evaluate-supported_example :
    (true ≡ true)
    × (unavailable_fields ready late_def "EP-1" ≡ [])
    × (missing_requests ready late_def "EP-1" true ≡ [])
    × (HypothesisStatus.supported ≡ HypothesisStatus.supported)
unfolding evaluate checked sorted_set
evaluate-supported_example = evaluate-supported ready late_def "EP-1" true refl
