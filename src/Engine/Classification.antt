-- ===== src/Engine/Classification.antt =====
-- engine/classification.py. `residual` stands for the function of that name in engine/deviation.py;
-- `ClassificationConfig` holds what the functions read of the configuration.
use sep.Base.{
  ℕ, zero, suc, ◌+◌, ◌-◌, String, Bool, true, false, not, ◌&&◌, Option, none, some, List, [], ◌∷◌,
  ◌++◌, map, filter, any, all, elem, length, get_elem?, ltb, leb, eqb, ◌==◌, if◌then◌else◌,
}
use sep.Base.Decimal.{Decimal, at_most, zero_decimal}
use Prim.Native.String
use Prim.Native.Nat.{min}
use sep.Core.Errors.{Result, ok, err, key_error, value_error, ◌>>=◌}
use sep.Domain.Hypothesis.{HypothesisClass, is_anomalous, is_supported, is_contradicted}
use sep.Domain.Cases.{
  SignalDeviation, JointRarity, PeerStat, DeviationProfile, Hypothesis, InvestigationResult,
  Category, Classification,
}
use sep.Engine.Hypotheses.{HypothesisDef, catalog_by_type}

pub record ClassificationConfig : Type 0 where
  pub levels : List String
  pub severity : List (String × String)
  pub typology_signals : List (String × List String)
  pub confidence_high : ℕ
  pub confidence_medium : ℕ
  pub materiality_bump : Bool
  pub materiality_usd : Decimal

abbrev pub prefixed : String → String → String
prefixed = String.◌++◌

-- d.get(key)
abbrev pub entry_of : {A : Type 0} → String → List (String × A) → Option A
entry_of key [] = none
entry_of key ((k, v) ∷ rest) = if k == key then some v else entry_of key rest

abbrev pub get_or : {A : Type 0} → A → Option A → A
get_or default none = default
get_or default (some a) = a

abbrev pub or_raise : {A : Type 0} → Result A → Option A → Result A
or_raise error none = error
or_raise error (some a) = ok a

-- xs.index(x), which raises ValueError
abbrev pub index_of : String → List String → Result ℕ
index_of x [] = err value_error
index_of x (y ∷ ys) = if y == x then ok zero else (do i ← index_of x ys; ok (suc i))

unfoldable pub level : ClassificationConfig → String → Bool → Result String
level cfg name bump = do
  default ← or_raise (err key_error) (entry_of "UNRESOLVED" cfg.severity)
  idx ← index_of (get_or default (entry_of name cfg.severity)) cfg.levels
  let at = min (idx + (if bump then 1 else 0)) (length cfg.levels - 1)
  or_raise (err value_error) (get_elem? cfg.levels at)

unfoldable pub confidence : ClassificationConfig → List String → String
confidence cfg lines =
    if leb cfg.confidence_high (length lines)
    then "HIGH"
    else if leb cfg.confidence_medium (length lines)
    then "MEDIUM"
    else "LOW"

is_some : {A : Type 0} → Option A → Bool
is_some none = false
is_some (some a) = true

has_any : List String → Bool
has_any [] = false
has_any (x ∷ xs) = true

abbrev pub is_class_anomalous : Option HypothesisClass → Bool
is_class_anomalous none = false
is_class_anomalous (some k) = is_anomalous k

-- A hypothesis of the recurring context, contradicted.
abbrev pub adverse_history : Hypothesis → Bool
adverse_history h = h.type == "RECURRING_BENIGN_CONTEXT" && is_contradicted h.status

abbrev line_if : Bool → String → List String
line_if true line = line ∷ []
line_if false line = []

relevant_signals : ClassificationConfig → InvestigationResult → String → List String
unfolding is_some has_any
relevant_signals cfg inv conclusion =
    if has_any inv.unexplained_deviations
      && not (is_some (entry_of conclusion cfg.typology_signals))
    then inv.unexplained_deviations
    else get_or [] (entry_of conclusion cfg.typology_signals)

joint_verified : Option JointRarity → Bool
joint_verified none = false
joint_verified (some j) = j.verified

own_deviant : Option PeerStat → Bool
own_deviant none = false
own_deviant (some p) = p.deviant

confirmed_everywhere : SignalDeviation → Bool
confirmed_everywhere d = eqb d.confirming_levels (length d.peers) && ltb 1 (length d.peers)

profile_lines : List String → Option DeviationProfile → List String
unfolding joint_verified own_deviant confirmed_everywhere
profile_lines relevant none = []
profile_lines relevant (some profile) =
    let verified =
      filter (λ (d : SignalDeviation). d.verified && elem d.signal relevant) profile.deviations in
    map (λ (d : SignalDeviation). prefixed "PEER_DEVIATION:" d.signal) verified
    ++ line_if (any confirmed_everywhere verified) "CONFIRMED_AT_EVERY_PEER_LEVEL"
    ++ line_if (any (λ (d : SignalDeviation). own_deviant d.self_history) verified)
        "OWN_BOOK_HISTORY_DEVIATION"
    ++ line_if (joint_verified profile.joint) "RARE_COMBINATION"

-- `_anomaly_lines`; `conclusion` is `investigation.conclusion or ""`.
unfoldable pub anomaly_lines :
    ClassificationConfig
    → InvestigationResult
    → String
    → Option DeviationProfile
    → List String
    → List String
unfolding profile_lines relevant_signals
anomaly_lines cfg inv conclusion profile rules =
    (prefixed "HYPOTHESIS_VERIFIED:" conclusion ∷ [])
    ++ profile_lines (relevant_signals cfg inv conclusion) profile
    ++ map (λ (r : String). prefixed "RULE_DETECTION:" r) rules
    ++ line_if (any adverse_history inv.hypotheses) "ADVERSE_CURATED_HISTORY"

cleared_history : Hypothesis → Bool
cleared_history h = h.type == "RECURRING_BENIGN_CONTEXT" && is_supported h.status

-- A list with members, all of which satisfy the test.
abbrev all_of_some : List Hypothesis → Bool
all_of_some [] = false
all_of_some (h ∷ hs) = all (λ (x : Hypothesis). is_contradicted x.status) (h ∷ hs)

unfoldable pub benign_lines : InvestigationResult → String → List String
unfolding cleared_history has_any
benign_lines inv conclusion =
    (prefixed "HYPOTHESIS_VERIFIED:" conclusion ∷ [])
    ++ line_if (all_of_some (filter (λ (h : Hypothesis). is_anomalous h.klass) inv.hypotheses))
        "COMPETING_ANOMALIES_CONTRADICTED"
    ++ line_if (not (has_any inv.unexplained_deviations)) "NO_UNEXPLAINED_DEVIATION"
    ++ line_if (any cleared_history inv.hypotheses) "CLEARED_CURATED_HISTORY"

module _ (residual : DeviationProfile → List String → Decimal × String)
    (cfg : ClassificationConfig) where
  -- The category of an anomalous conclusion: CATALOG_BY_TYPE[typology].residual
  anomalous_category : HypothesisDef → Category
  anomalous_category h =
      if h.residual then Category.unexplained_deviation else Category.typed_anomaly

  kind_concluded :
      Option DeviationProfile
      → List String
      → InvestigationResult
      → Option String
      → Result (Category × (String × List String))
  unfolding anomalous_category
  kind_concluded profile rules inv none = ok (
    Category.unresolved,
    ("UNRESOLVED", map (λ (m : String). prefixed "MISSING:" m) inv.missing_evidence),
  )
  kind_concluded profile rules inv (some typology) =
      if is_class_anomalous inv.conclusion_class
      then (do
        h ← or_raise (err key_error) (catalog_by_type typology)
        ok (anomalous_category h, (typology, anomaly_lines cfg inv typology profile rules)))
      else ok (Category.verified_benign, (typology, benign_lines inv typology))

  -- The category, the typology and the lines of evidence.
  kind :
      Option InvestigationResult
      → Option DeviationProfile
      → List String
      → Result (Category × (String × List String))
  unfolding kind_concluded
  kind none profile rules = ok (Category.unresolved, ("UNRESOLVED", []))
  kind (some inv) profile rules = kind_concluded profile rules inv inv.conclusion

  is_material : Option Decimal → Bool
  is_material none = false
  is_material (some notional) = cfg.materiality_bump && at_most cfg.materiality_usd notional

  residual_of : Option DeviationProfile → List String → Decimal × String
  residual_of none unexplained = (zero_decimal, "NONE")
  residual_of (some profile) unexplained = residual profile unexplained

  deviations_of : (InvestigationResult → List String) → Option InvestigationResult → List String
  deviations_of field none = []
  deviations_of field (some inv) = field inv

  raw_of : Option DeviationProfile → Decimal × String
  raw_of none = (zero_decimal, "NONE")
  raw_of (some profile) = (profile.outlyingness, profile.band)

  bumped : Category → Bool → Bool
  bumped Category.verified_benign material = false
  bumped _ material = material

  confidence_of : Category → List String → String
  confidence_of Category.unresolved lines = "LOW"
  confidence_of _ lines = confidence cfg lines

  unfoldable pub classify :
      Option InvestigationResult
      → Option DeviationProfile
      → List String
      → Option Decimal
      → Result Classification
  unfolding kind is_material residual_of deviations_of raw_of bumped confidence_of
  classify investigation profile rules notional_usd = do
    let unexplained =
        deviations_of (λ (i : InvestigationResult). i.unexplained_deviations) investigation
    (category, (typology, lines)) ← kind investigation profile rules
    severity ← level cfg typology (bumped category (is_material notional_usd))
    ok (record {
      category = category;
      typology = typology;
      severity = severity;
      confidence = confidence_of category lines;
      corroboration = lines;
      outlyingness = (raw_of profile).0;
      residual_outlyingness = (residual_of profile unexplained).0;
      band = (raw_of profile).1;
      residual_band = (residual_of profile unexplained).1;
      unexplained = unexplained;
      explained = deviations_of (λ (i : InvestigationResult). i.explained_deviations) investigation;
    })
