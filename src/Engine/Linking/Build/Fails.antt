-- ===== src/Engine/Linking/Build/Fails.antt =====
-- engine/linking.py: `build_episodes` with a trade of which only cancellations are known.
use sep.Base.{ℕ, ◌<◌, ◌≤◌, ◌≡◌, refl, true, false, length, all}
use sep.Core.Errors.{err, index_error}
use sep.Engine.Linking.Attempt.{Guards}
use sep.Engine.Linking.Trades.{Inputs, events_of, trade_ids}
use sep.Engine.Linking.Episodes.{Texts}
use sep.Engine.Linking.Residue.{ResidueConfig, is_rebooked}
use sep.Engine.Linking.Residue.Fails.{cancels, residue-fails}
use sep.Engine.Linking.Build.{build_episodes}

module _ (inputs : Inputs) (guards : Guards) (texts : Texts) (config : ResidueConfig) where
  -- A trade with at least two events, all of them cancellations, that no accepted rebooking touches
  -- makes the linking raise IndexError, whatever the other trades are.
  pub build_episodes-fails :
      (t : ℕ)
      → t < length (trade_ids inputs)
      → 2 ≤ length (events_of inputs t)
      → all cancels (events_of inputs t) ≡ true
      → is_rebooked inputs guards texts config t ≡ false
      → build_episodes inputs guards texts config ≡ err index_error
  unfolding build_episodes
  build_episodes-fails t h two c n = rw (residue-fails inputs guards texts config t h two c n) refl
