-- ===== src/Evolution/Replay/Counts.antt =====
-- evolution/replay.py: the counts of the metrics and of a replay.
use sep.Base.{
  ℕ, ◌+◌, ◌≤◌, String, ◌≡◌, refl, sym, Bool, true, false, not, ◌&&◌, Option, none, some, List, [],
  ◌∷◌, filter, length, ◌==◌, Bool-cases, inl, inr, arith, eq_iff, subst,
}
use sep.Core.Errors.{Result, ok}
use sep.Evolution.Replay.{
  HistoryPoint, Metrics, metrics, metrics_of, report_of, is_label, is_labelled, filter_result,
  missed_by, only, cleared_hit, ReplayReport, replay_with,
}

-- A test that never raises, and its truth values.
abbrev pub IsTest : (HistoryPoint → Result Bool) → (HistoryPoint → Bool) → Type 0
IsTest fires t = (p : HistoryPoint) → fires p ≡ ok (t p)

filter_result-test :
    (fires : HistoryPoint → Result Bool) (t : HistoryPoint → Bool)
    → IsTest fires t
    → (ps : List HistoryPoint) → filter_result fires ps ≡ ok (filter t ps)
unfolding filter_result
filter_result-test fires t h [] = refl
filter_result-test fires t h (p ∷ ps) = rw (h p, filter_result-test fires t h ps) refl

module _ (fires : HistoryPoint → Result Bool) (t : HistoryPoint → Bool) (h : IsTest fires t) where
  missed-IsTest : IsTest (missed_by fires) (λ p. is_label "ESCALATED" p && not (t p))
  missed-IsTest p = elim (Bool-cases (is_label "ESCALATED" p)) [
    | inl yes_label ↦ rw (yes_label, h p) refl
    | inr no_label ↦ rw no_label refl
  ]

  cleared-IsTest : IsTest (cleared_hit fires) (λ p. t p && is_label "CLEARED" p)
  cleared-IsTest p = rw (h p) refl

escalated-labelled : (p : HistoryPoint) → is_label "ESCALATED" p ≡ true → is_labelled p ≡ true
escalated-labelled p h = go p.label h
  where
    go :
        (l : Option String)
        → (elim l [ none ↦ false | some s ↦ s == "ESCALATED" ]) ≡ true
        → (elim l [ none ↦ false | some s ↦ not (s == "") ]) ≡ true
    go none e = ground arith
    go (some s) e =
        subst (λ (x : String). not (x == "") ≡ true) (sym ((eq_iff s "ESCALATED").0 e)) refl

one_label : (p : HistoryPoint) → (is_label "ESCALATED" p && is_label "CLEARED" p) ≡ false
one_label p = go p.label
  where
    go :
        (l : Option String)
        → ((elim l [ none ↦ false | some s ↦ s == "ESCALATED" ])
            && (elim l [ none ↦ false | some s ↦ s == "CLEARED" ]))
          ≡ false
    go none = refl
    go (some s) = elim (Bool-cases (s == "ESCALATED")) [
      | inl same ↦
          subst (λ (x : String). (x == "ESCALATED" && x == "CLEARED") ≡ false)
            (sym ((eq_iff s "ESCALATED").0 same)) refl
      | inr other ↦ rw other refl
    ]

-- An escalated point fires or is missed.
hits_and_misses :
    (t : HistoryPoint → Bool) (ps : List HistoryPoint)
    → length (filter (is_label "ESCALATED") (filter t ps))
        + length (
            filter
              (λ (p : HistoryPoint). is_label "ESCALATED" p && not (t p))
              (filter is_labelled ps))
      ≡ length (filter (is_label "ESCALATED") ps)
hits_and_misses t [] = refl
hits_and_misses t (p ∷ ps) = elim (Bool-cases (is_label "ESCALATED" p)) [
  | inl e ↦ elim (Bool-cases (t p)) [
    | inl fired ↦
        rw (fired, escalated-labelled p e, e) (rw fired (omega (arith, hits_and_misses t ps)))
    | inr still ↦
        rw (still, escalated-labelled p e, e) (rw still (omega (arith, hits_and_misses t ps)))
  ]
  | inr e ↦ elim (Bool-cases (t p)) [
    | inl fired ↦ elim (Bool-cases (is_labelled p)) [
      | inl known ↦ rw (fired, known, e) (hits_and_misses t ps)
      | inr unknown ↦ rw (fired, unknown, e) (hits_and_misses t ps)
    ]
    | inr still ↦ elim (Bool-cases (is_labelled p)) [
      | inl known ↦ rw (still, known, e) (hits_and_misses t ps)
      | inr unknown ↦ rw (still, unknown, e) (hits_and_misses t ps)
    ]
  ]
]

two_labels :
    (ps : List HistoryPoint)
    → length (filter (is_label "ESCALATED") ps) + length (filter (is_label "CLEARED") ps)
      ≤ length ps
two_labels [] = omega arith
two_labels (p ∷ ps) = elim (Bool-cases (is_label "ESCALATED" p)) [
  | inl e ↦ elim (Bool-cases (is_label "CLEARED" p)) [
    | inl c ↦ absurd (ground (arith, one_label p))
    | inr n ↦ rw (e, n) (omega (arith, two_labels ps))
  ]
  | inr e ↦ elim (Bool-cases (is_label "CLEARED" p)) [
    | inl c ↦ rw (e, c) (omega (arith, two_labels ps))
    | inr n ↦ rw (e, n) (omega (arith, two_labels ps))
  ]
]

-- What the metrics are, where the rules never raise.
abbrev counted : (HistoryPoint → Bool) → List HistoryPoint → Metrics
counted t points =
    metrics_of points (filter t points) (
      filter (λ (p : HistoryPoint). is_label "ESCALATED" p && not (t p))
        (filter is_labelled points))

metrics-counted :
    (fires : HistoryPoint → Result Bool) (t : HistoryPoint → Bool) (points : List HistoryPoint)
    → IsTest fires t
    → metrics points fires ≡ ok (counted t points)
unfolding metrics
metrics-counted fires t points h =
    rw
      (
        filter_result-test fires t h points,
        filter_result-test (missed_by fires) _ (missed-IsTest fires t h)
            (filter is_labelled points),
      )
      refl

-- Where the rules never raise, the metrics are reported: the fires are counted, every point labelled
-- ESCALATED is a true positive or a false negative and none is both, and the true and false positives
-- together are at most the fires.
pub metrics-counts :
    (fires : HistoryPoint → Result Bool) (t : HistoryPoint → Bool) (points : List HistoryPoint)
    → IsTest fires t
    → (m : Metrics) × (metrics points fires ≡ ok m)
      × (m.fires ≡ length (filter t points))
      × (m.tp + m.fn ≡ length (filter (is_label "ESCALATED") points))
      × (m.tp + m.fp ≤ m.fires)
unfolding metrics_of
metrics-counts fires t points h = (
  counted t points,
  metrics-counted fires t points h,
  refl,
  hits_and_misses t points,
  two_labels (filter t points),
)

change :
    (a k : HistoryPoint → Bool) (ps : List HistoryPoint)
    → length (filter k ps) + length (filter (λ (p : HistoryPoint). a p && not (k p)) ps)
      ≡ length (filter a ps) + length (filter (λ (p : HistoryPoint). k p && not (a p)) ps)
change a k [] = refl
change a k (p ∷ ps) = elim (Bool-cases (a p)) [
  | inl x ↦ elim (Bool-cases (k p)) [
    | inl y ↦ rw (x, y) (omega (arith, change a k ps))
    | inr y ↦ rw (x, y) (omega (arith, change a k ps))
  ]
  | inr x ↦ elim (Bool-cases (k p)) [
    | inl y ↦ rw (x, y) (omega (arith, change a k ps))
    | inr y ↦ rw (x, y) (omega (arith, change a k ps))
  ]
]

only-IsTest :
    (a b : HistoryPoint → Result Bool) (s t : HistoryPoint → Bool)
    → IsTest a s
    → IsTest b t
    → IsTest (only a b) (λ p. s p && not (t p))
only-IsTest a b s t h k p = elim (Bool-cases (s p)) [
  | inl x ↦ rw (h p, x, k p) refl
  | inr x ↦ rw (h p, x) refl
]

-- Where the rules never raise, a replay reports, and its balance holds: what the combined rules fire
-- on, with what was lost, is what the current rules fire on, with what was added.
pub replay_with-balance :
    (cur cand comb : HistoryPoint → Result Bool) (a c k : HistoryPoint → Bool)
    (points : List HistoryPoint) (sample : ℕ)
    → IsTest cur a
    → IsTest cand c
    → IsTest comb k
    → (r : ReplayReport) × (replay_with cur cand comb points sample ≡ ok r)
      × (r.combined.fires + r.lost ≡ r.current.fires + r.added)
unfolding replay_with report_of metrics_of
replay_with-balance cur cand comb a c k points sample ha hc hk = (
  report_of points (filter (λ p. k p && not (a p)) points) (filter (λ p. a p && not (k p)) points)
      (filter a points) (filter k points) (filter (λ p. c p && is_label "CLEARED" p) points)
      (counted a points) (counted c points) (counted k points) sample,
  rw
      (
        filter_result-test (only comb cur) _ (only-IsTest comb cur k a hk ha) points,
        filter_result-test (only cur comb) _ (only-IsTest cur comb a k ha hk) points,
        filter_result-test cur a ha points,
        filter_result-test comb k hk points,
        metrics-counted cur a points ha,
        metrics-counted cand c points hc,
        metrics-counted comb k points hk,
        filter_result-test (cleared_hit cand) _ (cleared-IsTest cand c hc) points,
      )
      refl,
  change a k points,
)
