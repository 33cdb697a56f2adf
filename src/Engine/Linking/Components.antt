-- ===== src/Engine/Linking/Components.antt =====
-- engine/linking.py: the components of the union-find, in the order in which their first trades come.
pub mod Groups
pub mod Partition
use sep.Base.{ℕ, List, [], ◌∷◌, ◌++◌, if◌then◌else◌, eqb, length}
use sep.Engine.Linking.UnionFind.{find_root}
use sep.Engine.Linking.Attempt.{Guards, Linking}
use sep.Engine.Linking.Trades.{Inputs, places, trade_ids}
use sep.Engine.Linking.Stages.{linked}

-- components[root].append(t)
unfoldable pub put_in : ℕ → ℕ → List (ℕ × List ℕ) → List (ℕ × List ℕ)
put_in r t [] = (r, t ∷ []) ∷ []
put_in r t ((k, members) ∷ groups) =
    if eqb k r then (k, members ++ (t ∷ [])) ∷ groups else (k, members) ∷ put_in r t groups

unfoldable pub gather : List ℕ → List (ℕ × List ℕ) × (ℕ → ℕ) → List (ℕ × List ℕ) × (ℕ → ℕ)
unfolding put_in find_root
gather [] (groups, parent) = (groups, parent)
gather (t ∷ ts) (groups, parent) =
    let (r, parent') = find_root parent t in gather ts (put_in r t groups, parent')

unfoldable pub components : Inputs → Guards → List (ℕ × List ℕ)
unfolding gather linked
components inputs guards =
    (gather (places (length (trade_ids inputs)) []) ([], (linked inputs guards).parent)).0
