-- ===== src/Evolution/Bulk/Witnesses.antt =====
-- evolution/replay.py, counterexamples.py and shadow.py: the reports on a scope over two points.
use mathlib.Core.List.{Memᴰ}
use sep.Base.{
  ◌≤◌, ◌<◌, ◌≡◌, refl, sym, ap, ◌∙◌, ◌↔◌, String, true, false, some, List, [], ◌∷◌, ◌==◌, eq_iff,
}
use sep.Domain.Policy.{BulkScope}
use sep.Domain.Hypothesis.{HypothesisClass}
use sep.Evolution.Replay.{HistoryPoint}
use sep.Evolution.Bulk.{BulkAttackConfig, replay_bulk, attack_bulk, shadow_bulk}
use sep.Evolution.Bulk.Agreement.{Distinct, bulk_reports_agree}

abbrev point : String → String → String → HistoryPoint
point id desk label = record {
  episode_id = id;
  eval_time = "t0";
  desk = desk;
  label = some label;
  signals = record { episode_id = id; eval_time = "t0"; numeric = []; flags = []; labels = [] };
  assessed_class = some HypothesisClass.benign;
  assessed_type = some "HEDGE";
}

abbrev cleared : HistoryPoint
cleared = point "E-1" "EQ" "CLEARED"

abbrev escalated : HistoryPoint
escalated = point "E-2" "FX" "ESCALATED"

abbrev history : List HistoryPoint
history = cleared ∷ escalated ∷ []

abbrev hedges : String → BulkScope
hedges desk = record { hypothesis_type = "HEDGE"; desk = desk }

abbrev limits : BulkAttackConfig
limits = record { max_listed = 5; min_bulk_cleared = 1 }

one_desk : (attack_bulk (hedges "EQ") history limits).passed ≡ true
unfolding attack_bulk
one_desk = refl

any_desk : (attack_bulk (hedges "*") history limits).passed ≡ false
unfolding attack_bulk
any_desk = refl

unlike : cleared.episode_id ≡ escalated.episode_id → cleared ≡ escalated
unlike h = absurd (apart ((eq_iff "E-1" "E-2").1 h))
  where
    apart : ("E-1" == "E-2") ≡ true → ⊥
    apart e = cc

abbrev id_of : HistoryPoint → String
id_of p = p.episode_id

history-Distinct : Distinct history
history-Distinct p q (Memᴰ.head e) (Memᴰ.head f) h = e ∙ sym f
history-Distinct p q (Memᴰ.head e) (Memᴰ.tail (Memᴰ.head f)) h =
    e ∙ (unlike (ap id_of (sym e) ∙ (h ∙ ap id_of f)) ∙ sym f)
history-Distinct p q (Memᴰ.tail (Memᴰ.head e)) (Memᴰ.head f) h =
    e ∙ (sym (unlike (ap id_of (sym f) ∙ (sym h ∙ ap id_of e))) ∙ sym f)
history-Distinct p q (Memᴰ.tail (Memᴰ.head e)) (Memᴰ.tail (Memᴰ.head f)) h = e ∙ sym f
history-Distinct p q (Memᴰ.tail (Memᴰ.tail m)) n h = elim m [ ]
history-Distinct p q (Memᴰ.head e) (Memᴰ.tail (Memᴰ.tail n)) h = elim n [ ]
history-Distinct p q (Memᴰ.tail (Memᴰ.head e)) (Memᴰ.tail (Memᴰ.tail n)) h = elim n [ ]

bulk_reports_agree_example :
    ((attack_bulk (hedges "EQ") history limits).passed ≡ true
      ↔ ((replay_bulk (hedges "EQ") history 3).labelled_escalated ≡ 0)
        × (1 ≤ (replay_bulk (hedges "EQ") history 3).labelled_cleared))
    × ((shadow_bulk (hedges "EQ") history).passed ≡ true
        ↔ ((replay_bulk (hedges "EQ") history 3).labelled_escalated ≡ 0)
          × (0 < (replay_bulk (hedges "EQ") history 3).would_be_bulk))
bulk_reports_agree_example = bulk_reports_agree (hedges "EQ") history history-Distinct limits 3
