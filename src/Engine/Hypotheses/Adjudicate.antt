-- ===== src/Engine/Hypotheses/Adjudicate.antt =====
-- engine/hypotheses.py: `_deviation_split` and `adjudicate`. `covers` is the mapping `explains`, from a
-- hypothesis type to the signals that it explains.
use sep.Base.{
  ℕ, zero, suc, String, Bool, not, ◌&&◌, Option, none, some, List, [], ◌∷◌, ◌++◌, filter, find,
  elem, map, any, all, ◌==◌, if◌then◌else◌,
}
use sep.Base.Sort.{sorted_set, sort_by}
use sep.Core.Errors.{Result, ok, err, key_error, value_error}
use sep.Domain.Hypothesis.{
  HypothesisClass, is_benign, is_anomalous, is_context, is_supported, is_contradicted,
  is_insufficient,
}
use sep.Engine.Hypotheses.{HypothesisDef, Evaluation, catalog}

-- One pair of `results`.
abbrev pub Judged : Type 0
Judged = HypothesisDef × Evaluation

pub record Adjudication : Type 0 where
  pub conclusion : Option String
  pub klass : Option HypothesisClass
  pub abstain_reason : Option String
  pub missing : List String
  pub contradicted : List String
  pub history_adverse : Bool
  pub unexplained : List String
  pub explained : List String
  pub pending : List String

flat : {A : Type 0} → (A → List String) → List A → List String
flat f [] = []
flat f (x ∷ xs) = f x ++ flat f xs

abbrev pub is_residual : Judged → Bool
is_residual r = r.0.residual && is_supported r.1.status

abbrev explains_now : Judged → Bool
explains_now r = is_benign r.0.klass && is_supported r.1.status

abbrev could_explain : Judged → Bool
could_explain r = is_benign r.0.klass && is_insufficient r.1.status

-- The signals of the verified deviations.
unfoldable pub deviating : List Judged → List String
unfolding flat
deviating ranked = sorted_set (flat (λ (r : Judged). r.1.signals) (filter is_residual ranked))

module _ (covers : String → List String) where
  unfoldable pub covered : List Judged → List String
  unfolding flat
  covered ranked = flat (λ (r : Judged). covers r.0.type) (filter explains_now ranked)

  unfoldable pub could : List Judged → List String
  unfolding flat
  could ranked = flat (λ (r : Judged). covers r.0.type) (filter could_explain ranked)

  abbrev pub unexplained_of : List Judged → List String
  unexplained_of ranked =
      filter (λ (d : String). not (elem d (covered ranked)) && not (elem d (could ranked)))
        (deviating ranked)

  abbrev pub explained_of : List Judged → List String
  explained_of ranked = filter (λ (d : String). elem d (covered ranked)) (deviating ranked)

  abbrev pub pending_of : List Judged → List String
  pending_of ranked =
      filter (λ (d : String). not (elem d (covered ranked)) && elem d (could ranked))
        (deviating ranked)

-- `order[h.type]`, and the number of entries for a type that is not in the catalogue.
unfoldable pub position : String → List HypothesisDef → ℕ
position name [] = zero
position name (h ∷ hs) = let rest = position name hs in if h.type == name then zero else suc rest

abbrev pub order : Judged → ℕ
order r = position r.0.type catalog

abbrev pub is_known : Judged → Bool
is_known r = any (λ (h : HypothesisDef). h.type == r.0.type) catalog

abbrev pub is_typed : Judged → Bool
is_typed r = is_supported r.1.status && (is_anomalous r.0.klass && not r.0.residual)

abbrev pub is_lacking : Judged → Bool
is_lacking r = is_insufficient r.1.status && not (is_context r.0.klass)

abbrev pub is_cleared : Judged → Bool
is_cleared r = is_supported r.1.status && is_benign r.0.klass

abbrev is_adverse : Judged → Bool
is_adverse r = is_context r.0.klass && is_contradicted r.1.status

abbrev is_refuted : Judged → Bool
is_refuted r = is_contradicted r.1.status && is_benign r.0.klass

module _ (covers : String → List String) (ranked : List Judged) where
  -- The inner function `result`.
  unfoldable pub outcome :
      Option String → Option HypothesisClass → Option String → List String → Adjudication
  outcome conclusion klass reason missing = record {
    conclusion = conclusion;
    klass = klass;
    abstain_reason = reason;
    missing = missing;
    contradicted = map (λ (r : Judged). r.0.type) (filter is_refuted ranked);
    history_adverse = any is_adverse ranked;
    unexplained = unexplained_of covers ranked;
    explained = explained_of covers ranked;
    pending = pending_of covers ranked;
  }

  abbrev pub anomaly : Judged → Adjudication
  anomaly r = outcome (some r.0.type) (some HypothesisClass.anomalous) none []

  abbrev pub residual_of : Option Judged → Result Adjudication
  residual_of none = err value_error
  residual_of (some r) = ok (anomaly r)

  -- What is left when nothing anomalous was found, from the hypotheses that lack evidence and the
  -- first benign one that is supported.
  unfoldable pub settle_with : List Judged → Option Judged → Adjudication
  unfolding flat outcome
  settle_with [] (some r) = outcome (some r.0.type) (some HypothesisClass.benign) none []
  settle_with [] none = outcome none none (some "NO_SUPPORTED_EXPLANATION") []
  settle_with (r ∷ rs) benign =
      outcome none none (some "INSUFFICIENT_EVIDENCE")
        (sorted_set (flat (λ (x : Judged). x.1.missing) (r ∷ rs)))

  abbrev pub settle_benign : Option Judged → Adjudication
  settle_benign benign = settle_with (filter is_lacking ranked) benign

  abbrev pub after_typed : List String → Option Judged → Result Adjudication
  after_typed [] residual = ok (settle_benign (find is_cleared ranked))
  after_typed (d ∷ ds) residual = residual_of residual

  abbrev pub verdict : Option Judged → Result Adjudication
  verdict (some r) = ok (anomaly r)
  verdict none = after_typed (unexplained_of covers ranked) (find is_residual ranked)

  -- `adjudicate` behind its sorting.
  unfoldable pub judge : Result Adjudication
  judge = verdict (find is_typed ranked)

-- A type that is not in the catalogue raises KeyError.
unfoldable pub adjudicate : (String → List String) → List Judged → Result Adjudication
unfolding judge
adjudicate covers results =
    if all is_known results then judge covers (sort_by order results) else err key_error
