-- ===== src/Engine/Hypotheses/Verdict.antt =====
-- engine/hypotheses.py: what the verdict of `adjudicate` says of the evaluations it was given.
use sep.Base.{
  String, ◌≡◌, refl, ap, ◌∙◌, Bool, true, false, none, some, List, [], ◌∷◌, filter, find, any, all,
  ◌==◌, inl, inr, Bool-cases, Option-cases, arith, eq_iff, and_left, and_right,
}
use mathlib.Core.List.{Memᴰ, Permᴰ}
use sep.Base.Sort.{sorted_set, sort_by, sort_by-Permᴰ, IsKey}
use sep.Core.Errors.{ok}
use sep.Engine.Hypotheses.{HypothesisDef, catalog}
use sep.Engine.Hypotheses.Adjudicate.{
  Judged, Adjudication, deviating, unexplained_of, is_residual, is_typed, is_cleared, is_known,
  order, position, settle_benign, judge, adjudicate, after_typed, anomaly,
}

module _ {A : Type 0} (p : A → Bool) where
  filter-find-none : (xs : List A) → find p xs ≡ none → filter p xs ≡ []
  filter-find-none [] h = refl
  filter-find-none (x ∷ xs) h = elim (Bool-cases (p x)) [
    | inl holds ↦ ground arith
    | inr fails ↦ rw fails (filter-find-none xs (rw fails at h))
  ]

  filter-any : (xs : List A) → any p xs ≡ false → filter p xs ≡ []
  filter-any [] h = refl
  filter-any (x ∷ xs) h = elim (Bool-cases (p x)) [
    | inl holds ↦ ground arith
    | inr fails ↦ rw fails (filter-any xs (ground arith))
  ]

-- No residual hypothesis is supported: no deviation is unexplained.
no_residual :
    (covers : String → List String) (ranked : List Judged)
    → find is_residual ranked ≡ none
    → unexplained_of covers ranked ≡ []
unfolding deviating sorted_set
no_residual covers ranked h = rw (filter-find-none is_residual ranked h) refl

module _ (covers : String → List String) (ranked : List Judged) where
  after-some :
      (ds : List String) (r : Judged)
      → (a : Adjudication) × (after_typed covers ranked ds (some r) ≡ ok a)
  after-some [] r = (settle_benign covers ranked (find is_cleared ranked), refl)
  after-some (d ∷ ds) r = (anomaly covers ranked r, refl)

  judge-total : (a : Adjudication) × (judge covers ranked ≡ ok a)
  unfolding judge
  judge-total = elim (Option-cases (find is_typed ranked)) [
    | inr (r, e) ↦ (anomaly covers ranked r, rw e refl)
    | inl e ↦ elim (Option-cases (find is_residual ranked)) [
      | inl n ↦ (
        settle_benign covers ranked (find is_cleared ranked),
        rw (e, no_residual covers ranked n) refl,
      )
      | inr (r, s) ↦
          let (a, done) = after-some (unexplained_of covers ranked) r in (a, rw (e, s) done)
    ]
  ]

-- Evaluations of catalogued hypotheses always have a verdict: no error is raised, and where a
-- deviation is unexplained the residual hypothesis it rests on is found.
pub adjudicate-total :
    (covers : String → List String) (results : List Judged)
    → all is_known results ≡ true
    → (a : Adjudication) × (adjudicate covers results ≡ ok a)
unfolding adjudicate
adjudicate-total covers results known = rw known (judge-total covers (sort_by order results))

same_place :
    (s t : String) (hs : List HypothesisDef)
    → any (λ (h : HypothesisDef). h.type == s) hs ≡ true
    → position s hs ≡ position t hs
    → s ≡ t
unfolding position
same_place s t [] known e = ground arith
same_place s t (h ∷ hs) known e = elim (Bool-cases (h.type == s)) [
  | inl here ↦ elim (Bool-cases (h.type == t)) [
    | inl there ↦ ground (arith, eq_iff h.type s, eq_iff h.type t)
    | inr behind ↦ absurd (ground (arith, rw (here, behind) at e))
  ]
  | inr later ↦ elim (Bool-cases (h.type == t)) [
    | inl there ↦ absurd (ground (arith, rw (later, there) at e))
    | inr behind ↦ same_place s t hs (rw later at known) (omega (arith, rw (later, behind) at e))
  ]
]

all-Memᴰ :
    (results : List Judged) (r : Judged)
    → all is_known results ≡ true
    → Memᴰ r results
    → is_known r ≡ true
all-Memᴰ [] r h m = elim m [ ]
all-Memᴰ (x ∷ xs) r h (Memᴰ.head e) = ap is_known e ∙ and_left (is_known x) (all is_known xs) h
all-Memᴰ (x ∷ xs) r h (Memᴰ.tail m) = all-Memᴰ xs r (and_right (is_known x) (all is_known xs) h) m

all-Permᴰ : {xs ys : List Judged} → Permᴰ xs ys → all is_known xs ≡ all is_known ys
all-Permᴰ Permᴰ.nil = refl
all-Permᴰ (Permᴰ.cons e p) = rw (ap is_known e, all-Permᴰ p) refl
all-Permᴰ (Permᴰ.swap e f) = rw (ap is_known e, ap is_known f) (ground arith)
all-Permᴰ (Permᴰ.trans p q) = all-Permᴰ p ∙ all-Permᴰ q

-- The verdict does not depend on the order of the evaluations, if no two of one hypothesis differ.
pub adjudicate-Permᴰ :
    (covers : String → List String) (xs ys : List Judged)
    → Permᴰ xs ys
    → ((r s : Judged) → Memᴰ r xs → Memᴰ s xs → r.0.type ≡ s.0.type → r ≡ s)
    → adjudicate covers xs ≡ adjudicate covers ys
unfolding adjudicate
adjudicate-Permᴰ covers xs ys p one = elim (Bool-cases (all is_known xs)) [
  | inr unknown ↦ rw (← all-Permᴰ p, unknown) refl
  | inl known ↦
      let key : IsKey order xs =
        λ r s m n e. one r s m n (same_place r.0.type s.0.type catalog (all-Memᴰ xs r known m) e) in
      rw (← all-Permᴰ p, known) (ap (judge covers) (sort_by-Permᴰ order p key))
]
