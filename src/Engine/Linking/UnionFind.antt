-- ===== src/Engine/Linking/UnionFind.antt =====
-- engine/linking.py: `_UnionFind`. The dictionary of parents is a function; a key that is none of the
-- items, which would raise, is never asked for.
pub mod Roots
pub mod Unions
use sep.Base.{ℕ, zero, suc, if◌then◌else◌, eqb, ltb}

-- parent[k] = v
unfoldable pub update {ℓ} : {A : Type ℓ} → (ℕ → A) → ℕ → A → ℕ → A
update f k v x = if eqb x k then v else f x

-- self.parent[x] = self.parent[self.parent[x]]
unfoldable pub halved : (ℕ → ℕ) → ℕ → ℕ → ℕ
unfolding update
halved parent x = update parent x (parent (parent x))

-- The loop of `find`, and the parents behind it.
unfoldable pub find_from : ℕ → (ℕ → ℕ) → ℕ → ℕ × (ℕ → ℕ)
unfolding halved
find_from zero parent x = (x, parent)
find_from (suc fuel) parent x =
    let rest = find_from fuel (halved parent x) (halved parent x x) in
    if eqb (parent x) x then (x, parent) else rest

-- A parent is never above its child, so there are no more passes than `x`.
unfoldable pub find_root : (ℕ → ℕ) → ℕ → ℕ × (ℕ → ℕ)
unfolding find_from
find_root parent x = find_from x parent x

-- The smaller of two roots becomes the parent of the other one.
unfoldable pub hang : (ℕ → ℕ) → ℕ → ℕ → ℕ × (ℕ → ℕ)
unfolding update
hang parent ra rb = if ltb ra rb then (ra, update parent rb ra) else (rb, update parent ra rb)

unfoldable pub union : (ℕ → ℕ) → ℕ → ℕ → ℕ × (ℕ → ℕ)
unfolding find_root hang
union parent a b =
    let (ra, parent₁) = find_root parent a in
    let (rb, parent₂) = find_root parent₁ b in hang parent₂ ra rb
