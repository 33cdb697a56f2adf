-- ===== src/Engine/Hypotheses/Guards.antt =====
-- engine/hypotheses.py: what a benign conclusion and a supported hypothesis rest on.
use sep.Base.{
  String, ◌≡◌, refl, sym, ap, ◌∙◌, Bool, true, false, Option, none, some, List, [], ◌∷◌, filter,
  find, any, all, Bool-cases, Option-cases, inl, inr, arith,
}
use sep.Base.Sort.{sort_by, any-sort_by}
use sep.Core.Errors.{Result, ok, err}
use sep.Store.Artifacts.Lookup.{any-find, any-find-none}
use sep.Domain.Hypothesis.{HypothesisClass, HypothesisStatus}
use sep.Engine.Hypotheses.{
  HypothesisDef, Evaluation, Behaviour, evaluate, missing_requests, unavailable_fields, checked,
}
use sep.Engine.Hypotheses.Adjudicate.{
  Judged, Adjudication, unexplained_of, is_residual, is_typed, is_lacking, is_cleared, is_known,
  order, outcome, settle_with, judge, adjudicate, after_typed, anomaly,
}

filter-any-nil : {A : Type 0} (p : A → Bool) (xs : List A) → filter p xs ≡ [] → any p xs ≡ false
filter-any-nil p [] h = refl
filter-any-nil p (x ∷ xs) h = elim (Bool-cases (p x)) [
  | inl holds ↦ ground (arith, rw holds at h)
  | inr fails ↦ rw fails (filter-any-nil p xs (rw fails at h))
]

klass_of : Result Adjudication → Option HypothesisClass
klass_of (ok a) = a.klass
klass_of (err e) = none

unexplained_in : Result Adjudication → List String
unexplained_in (ok a) = a.unexplained
unexplained_in (err e) = []

not_anomalous : some HypothesisClass.anomalous ≡ some HypothesisClass.benign → ⊥
not_anomalous h = ground arith

not_open : none ≡ some HypothesisClass.benign → ⊥
not_open h = ground arith

module _ (covers : String → List String) (ranked : List Judged) (a : Adjudication)
    (benign : a.klass ≡ some HypothesisClass.benign) where
  not_anomaly : (r : Judged) → ok (anomaly covers ranked r) ≡ ok a → ⊥
  unfolding outcome klass_of
  not_anomaly r h = not_anomalous (ap klass_of h ∙ benign)

  -- The benign branch was taken with nothing lacking and a benign hypothesis supported.
  settled :
      (lacking : List Judged) (found : Option Judged)
      → ok (settle_with covers ranked lacking found) ≡ ok a
      → (lacking ≡ [])
        × ((r : Judged) × (found ≡ some r))
        × (a.unexplained ≡ unexplained_of covers ranked)
  unfolding settle_with outcome klass_of unexplained_in
  settled [] (some r) h = (refl, (r, refl), sym (ap unexplained_in h))
  settled [] none h = absurd (not_open (ap klass_of h ∙ benign))
  settled (r ∷ rs) found h = absurd (not_open (ap klass_of h ∙ benign))

  after_benign :
      (ds : List String) (residual : Option Judged)
      → after_typed covers ranked ds residual ≡ ok a
      → (ds ≡ [])
        × (ok (settle_with covers ranked (filter is_lacking ranked) (find is_cleared ranked))
            ≡ ok a)
  after_benign [] residual h = (refl, h)
  after_benign (d ∷ ds) none h = ground arith
  after_benign (d ∷ ds) (some r) h = absurd (not_anomaly r h)

  judge-benign :
      judge covers ranked ≡ ok a
      → (any is_typed ranked ≡ false)
        × (any is_lacking ranked ≡ false)
        × (any is_cleared ranked ≡ true)
        × (a.unexplained ≡ [])
  unfolding judge
  judge-benign h = elim (Option-cases (find is_typed ranked)) [
    | inr (r, e) ↦ absurd (not_anomaly r (rw e at h))
    | inl e ↦
        let (covered, at) =
          after_benign (unexplained_of covers ranked) (find is_residual ranked) (rw e at h) in
        let (full, (r, found), same) =
          settled (filter is_lacking ranked) (find is_cleared ranked) at in
        (
          any-find-none is_typed ranked e,
          filter-any-nil is_lacking ranked full,
          any-find is_cleared r ranked found,
          same ∙ covered,
        )
  ]

-- A benign verdict means that no typed anomaly was supported, no hypothesis but one of context lacks
-- evidence, a benign hypothesis was supported, and no verified deviation is left unexplained.
pub adjudicate-benign :
    (covers : String → List String) (results : List Judged) (a : Adjudication)
    → adjudicate covers results ≡ ok a
    → a.klass ≡ some HypothesisClass.benign
    → (any is_typed results ≡ false)
      × (any is_lacking results ≡ false)
      × (any is_cleared results ≡ true)
      × (a.unexplained ≡ [])
unfolding adjudicate
adjudicate-benign covers results a h benign = elim (Bool-cases (all is_known results)) [
  | inr unknown ↦ ground (arith, rw unknown at h)
  | inl known ↦
      let (typed, full, cleared, covered) =
        judge-benign covers (sort_by order results) a benign (rw known at h) in
      (
        sym (any-sort_by order is_typed results) ∙ typed,
        sym (any-sort_by order is_lacking results) ∙ full,
        sym (any-sort_by order is_cleared results) ∙ cleared,
        covered,
      )
]

checked-supported :
    (h : HypothesisDef) (applies : Bool) (unavailable missing : List String) (e : Evaluation)
    → (checked h applies unavailable missing e).status ≡ HypothesisStatus.supported
    → (applies ≡ true)
      × (unavailable ≡ [])
      × (missing ≡ [])
      × (e.status ≡ HypothesisStatus.supported)
unfolding checked
checked-supported h false unavailable missing e s = ground arith
checked-supported h true (f ∷ fs) missing e s = ground arith
checked-supported h true [] (r ∷ rs) e s = ground arith
checked-supported h true [] [] e s = (refl, refl, refl, s)

module _ {S B : Type 0} (behaviour : Behaviour S B) where
  -- A hypothesis is supported only if it applies, no field that it relies on is unavailable, none of
  -- the evidence that it requires is missing, and its own evaluator supports it.
  pub evaluate-supported :
      (h : HypothesisDef) (subject : S) (bag : B)
      → (evaluate behaviour h subject bag).status ≡ HypothesisStatus.supported
      → (behaviour.applies h subject ≡ true)
        × (unavailable_fields behaviour h subject ≡ [])
        × (missing_requests behaviour h subject bag ≡ [])
        × ((behaviour.evaluator h subject bag).status ≡ HypothesisStatus.supported)
  unfolding evaluate
  evaluate-supported h subject bag e =
      checked-supported h (behaviour.applies h subject) (unavailable_fields behaviour h subject)
        (missing_requests behaviour h subject bag) (behaviour.evaluator h subject bag) e
