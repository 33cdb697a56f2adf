-- ===== src/Engine/Linking/Build.antt =====
-- engine/linking.py: the result of `build_episodes`.
pub mod Fails
use Prim.Native.Nat.{suc}
use sep.Base.{
  ℕ, zero, ◌+◌, ◌-◌, ◌/◌, String, Bool, true, false, not, ◌&&◌, ◌||◌, Option, none, some, List, [],
  ◌∷◌, ◌++◌, map, if◌then◌else◌, eqb, ltb, leb, length, any, all, filter, find, elem, take, ◌==◌,
}
use sep.Base.Text.{str}
use sep.Base.Sort.{sort_with, text_le}
use sep.Base.Decimal.{Decimal, at_most}
use sep.Core.Errors.{Result, ok, err, index_error, ◌>>=◌}
use sep.Domain.Cases.{Episode}
use sep.Domain.Trades.{TradeEvent, Alert, Side, buy, sell}
use sep.Engine.Linking.Attempt.{Link, Guards, Linking}
use sep.Engine.Linking.Trades.{Inputs, places, trade_ids, name_of, events_of, original_of, least}
use sep.Engine.Linking.Stages.{linked}
use sep.Engine.Linking.Components.{components}
use sep.Engine.Linking.Episodes.{Texts, is_new, is_cancel, episode_of, episode_times, member_alerts}
use sep.Engine.Linking.Residue.{ResidueConfig, UnresolvedPair, residue}

pub record LinkingResult : Type 0 where
  pub episodes : List Episode
  pub unresolved : List UnresolvedPair
  pub episode_of_trade : List (String × String)
  pub episode_of_alert : List (String × String)
  pub version : String

-- An episode beside its start, by which the episodes are sorted.
dated_le : ℕ × Episode → ℕ × Episode → Bool
dated_le (m, d) (n, e) = if eqb m n then text_le d.episode_id e.episode_id else leb m n

module _ (inputs : Inputs) (guards : Guards) (texts : Texts) (config : ResidueConfig) where
  dated : ℕ × List ℕ → ℕ × Episode
  unfolding episode_of episode_times least
  dated (root, members) =
      (least (episode_times inputs guards texts members), episode_of inputs guards texts members)

  undated : ℕ × Episode → Episode
  undated (start, episode) = episode

  trades_in : List (ℕ × List ℕ) → List (String × String)
  unfolding episode_of
  trades_in [] = []
  trades_in ((root, members) ∷ groups) =
      map (λ t. (t, (episode_of inputs guards texts members).episode_id))
        (episode_of inputs guards texts members).trade_ids
      ++ trades_in groups

  alerts_in : List (ℕ × List ℕ) → List (String × String)
  unfolding episode_of member_alerts
  alerts_in [] = []
  alerts_in ((root, members) ∷ groups) =
      map (λ (a : Alert). (a.alert_id, (episode_of inputs guards texts members).episode_id))
        (member_alerts inputs guards texts members)
      ++ alerts_in groups

  result_with : List UnresolvedPair → LinkingResult
  unfolding trades_in alerts_in dated undated dated_le sort_with components
  result_with pairs = record {
    episodes = map undated (sort_with dated_le (map dated (components inputs guards)));
    unresolved = pairs;
    episode_of_trade = trades_in (components inputs guards);
    episode_of_alert = alerts_in (components inputs guards);
    version = inputs.version;
  }

  unfoldable pub build_episodes : Result LinkingResult
  unfolding residue result_with
  build_episodes = residue inputs guards texts config >>= λ pairs. ok (result_with pairs)
