-- ===== src/Evolution/Replay/Witnesses.antt =====
-- A replay over three points, where the test is the desk.
use sep.Base.{◌+◌, ◌≤◌, String, ◌≡◌, refl, Bool, none, some, List, [], ◌∷◌, filter, length, ◌==◌}
use sep.Core.Errors.{ok}
use sep.Evolution.Replay.{HistoryPoint, Metrics, metrics, is_label, ReplayReport, replay_with}
use sep.Evolution.Replay.Counts.{metrics-counts, replay_with-balance}

abbrev point : String → String → String → HistoryPoint
point id desk label = record {
  episode_id = id;
  eval_time = "t0";
  desk = desk;
  label = some label;
  signals = record { episode_id = id; eval_time = "t0"; numeric = []; flags = []; labels = [] };
  assessed_class = none;
  assessed_type = none;
}

abbrev points : List HistoryPoint
points =
    point "E-1" "EQ" "ESCALATED" ∷ point "E-2" "FX" "ESCALATED" ∷ point "E-3" "EQ" "CLEARED" ∷ []

abbrev at_desk : String → HistoryPoint → Bool
at_desk desk p = p.desk == desk

metrics-counts_example :
    (m : Metrics) × (metrics points (λ p. ok (at_desk "EQ" p)) ≡ ok m)
    × (m.fires ≡ length (filter (at_desk "EQ") points))
    × (m.tp + m.fn ≡ length (filter (is_label "ESCALATED") points))
    × (m.tp + m.fp ≤ m.fires)
metrics-counts_example = metrics-counts (λ p. ok (at_desk "EQ" p)) (at_desk "EQ") points (λ _. refl)

replay_with-balance_example :
    (r : ReplayReport) × (replay_with
        (λ p. ok (at_desk "EQ" p))
        (λ p. ok (at_desk "FX" p))
        (λ p. ok (at_desk "FX" p))
        points
        5
      ≡ ok r)
    × (r.combined.fires + r.lost ≡ r.current.fires + r.added)
replay_with-balance_example =
    replay_with-balance (λ p. ok (at_desk "EQ" p)) (λ p. ok (at_desk "FX" p))
      (λ p. ok (at_desk "FX" p)) (at_desk "EQ") (at_desk "FX") (at_desk "FX") points 5 (λ _. refl)
      (λ _. refl) (λ _. refl)
