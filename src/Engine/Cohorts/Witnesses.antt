-- ===== src/Engine/Cohorts/Witnesses.antt =====
-- The forming of cohorts at three cases: two form a cohort, one is too few for its desk.
use sep.Base.{String, ◌≡◌, refl, false, none, some, List, [], ◌∷◌, any, All}
use sep.Base.Sort.{sort_with}
use sep.Base.Decimal.{zero_decimal}
use sep.Domain.Cases.{Recommendation, CaseState, Case, Cohort}
use sep.Engine.Cohorts.{form_cohorts, returned, joined, cohort_of}
use sep.Engine.Cohorts.Complete.{has, form_cohorts_complete}
use sep.Engine.Cohorts.Sizes.{IsSized, form_cohorts-Sized}

abbrev bulk_case : String → String → Case
bulk_case id desk = record {
  case_id = id;
  episode_id = id;
  as_of = "t0";
  alert_ids = [];
  desk = desk;
  state = CaseState.investigated;
  recommendation = Recommendation.proposed_bulk;
  reasons = [];
  score = record {
    episode_id = id;
    total = zero_decimal;
    band = "LOW";
    bucket = "0";
    components = [];
    outliers = [];
    overrides = [];
    degraded = [];
  };
  investigation_run_id = none;
  conclusion = some "ROUTINE_EXECUTION";
  control_sample = false;
  cohort_id = none;
  classification = none;
  deviation = none;
}

abbrev cohort_id_for : List String → String
cohort_id_for ids = "COH"

abbrev pair : List Case
pair = bulk_case "A" "EQ" ∷ bulk_case "B" "EQ" ∷ []

abbrev cases : List Case
cases = bulk_case "C" "FX" ∷ bulk_case "B" "EQ" ∷ bulk_case "A" "EQ" ∷ []

abbrev out : List Case
out =
    joined cohort_id_for 2 50 pair (bulk_case "A" "EQ")
    ∷ joined cohort_id_for 2 50 pair (bulk_case "B" "EQ")
    ∷ returned (bulk_case "C" "FX")
    ∷ []

abbrev cohorts : List Cohort
cohorts = cohort_of cohort_id_for 2 50 ("ROUTINE_EXECUTION", "EQ") pair ∷ []

form_cohorts_complete_example : any (has "C") out ≡ any (has "C") cases
unfolding form_cohorts sort_with
form_cohorts_complete_example = form_cohorts_complete cohort_id_for 2 50 cases out cohorts "C" refl

form_cohorts-Sized_example : All (IsSized cohort_id_for 2 50) cohorts
unfolding form_cohorts sort_with
form_cohorts-Sized_example = form_cohorts-Sized cohort_id_for 2 50 cases out cohorts refl
