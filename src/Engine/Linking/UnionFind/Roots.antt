-- ===== src/Engine/Linking/UnionFind/Roots.antt =====
-- engine/linking.py: the root of an item, and path halving.
use sep.Base.{
  ℕ, zero, suc, ◌+◌, ◌-◌, ◌≤◌, ◌<◌, ◌≡◌, ◌≢◌, refl, sym, ap, ◌∙◌, true, false, inl, inr, ◌⊎◌, eqb,
  Bool-cases, arith,
}
use sep.Engine.Linking.UnionFind.{update, halved, find_from, find_root}

-- No parent is above its child.
pub record Falls (parent : ℕ → ℕ) : Type 0 where
  pub falls : (x : ℕ) → parent x ≤ x

climb : ℕ → (ℕ → ℕ) → ℕ → ℕ
climb zero parent x = x
climb (suc n) parent x = climb n parent (parent x)

-- The root of an item: as many steps up as the item has items below it.
unfoldable pub root : (ℕ → ℕ) → ℕ → ℕ
unfolding climb
root parent x = climb x parent x

pub eqb→eq : (a b : ℕ) → eqb a b ≡ true → a ≡ b
eqb→eq a b h = ground arith

pub eqb→ne : (a b : ℕ) → eqb a b ≡ false → a ≢ b
eqb→ne a b h = ground arith

climb-fixed : (n : ℕ) (parent : ℕ → ℕ) (x : ℕ) → parent x ≡ x → climb n parent x ≡ x
unfolding climb
climb-fixed zero parent x h = refl
climb-fixed (suc n) parent x h = ap (climb n parent) h ∙ climb-fixed n parent x h

module _ (parent : ℕ → ℕ) (f : Falls parent) where
  -- More steps than there are items below change nothing.
  climb-enough : (n x : ℕ) → x ≤ n → climb (suc n) parent x ≡ climb n parent x
  unfolding climb
  climb-enough zero x h = let e : parent x ≡ x = omega (arith, f.falls x) in e
  climb-enough (suc n) x h = elim (Bool-cases (eqb (parent x) x)) [
    | inl top ↦
        let e = eqb→eq (parent x) x top in
        climb-fixed (suc (suc n)) parent x e ∙ sym (climb-fixed (suc n) parent x e)
    | inr below ↦ climb-enough n (parent x) (omega (arith, f.falls x, eqb→ne (parent x) x below, h))
  ]

  climb-same : (n k x : ℕ) → x ≤ k → climb (n + k) parent x ≡ climb k parent x
  climb-same zero k x h = ap (λ m. climb m parent x) (omega arith)
  climb-same (suc n) k x h =
      ap (λ m. climb m parent x) (omega arith)
      ∙ (climb-enough (n + k) x (omega (arith, h)) ∙ climb-same n k x h)

  pub root-top : (x : ℕ) → parent x ≡ x → root parent x ≡ x
  unfolding root
  root-top x h = climb-fixed x parent x h

  pub root-parent : (x : ℕ) → root parent (parent x) ≡ root parent x
  unfolding root
  root-parent x = elim (Bool-cases (eqb (parent x) x)) [
    | inl top ↦ ap (λ y. climb y parent y) (eqb→eq (parent x) x top)
    | inr below ↦ strict x (eqb→ne (parent x) x below) (f.falls x)
  ]
    where
      strict :
          (x : ℕ)
          → parent x ≢ x
          → parent x ≤ x
          → climb (parent x) parent (parent x) ≡ climb x parent x
      strict zero ne le = absurd (omega (arith, ne, le))
      strict (suc k) ne le =
          sym (climb-same (k - parent (suc k)) (parent (suc k)) (parent (suc k)) (omega arith))
          ∙ ap (λ m. climb m parent (parent (suc k))) even
        where
          even : k - parent (suc k) + parent (suc k) ≡ k
          even = omega (arith, ne, le)

  -- A statement about an item that follows from that about its parent holds of every item.
  pub by_parent :
      (P : ℕ → Type 0)
      → ((x : ℕ) → parent x ≡ x → P x)
      → ((x : ℕ) → parent x ≢ x → P (parent x) → P x)
      → (n x : ℕ) → x < n
      → P x
  by_parent P top below zero x h = absurd (omega (arith, h))
  by_parent P top below (suc n) x h = elim (Bool-cases (eqb (parent x) x)) [
    | inl same ↦ top x (eqb→eq (parent x) x same)
    | inr other ↦
        let ne = eqb→ne (parent x) x other in
        below x ne (by_parent P top below n (parent x) (omega (arith, ne, f.falls x, h)))
  ]

  pub root_lem : (x : ℕ) → parent (root parent x) ≡ root parent x
  root_lem x =
      by_parent (λ x. parent (root parent x) ≡ root parent x) (λ x h. rw (root-top x h) h)
        (λ x h ih. ap parent (sym (root-parent x)) ∙ (ih ∙ root-parent x)) (suc x) x (omega arith)

  pub root-le : (x : ℕ) → root parent x ≤ x
  root-le x =
      by_parent (λ x. root parent x ≤ x) (λ x h. omega (arith, root-top x h))
        (λ x h ih. omega (arith, root-parent x, ih, f.falls x)) (suc x) x (omega arith)

  pub root-root : (x : ℕ) → root parent (root parent x) ≡ root parent x
  root-root x = root-top (root parent x) (root_lem x)

  -- Path halving keeps the order and every root.
  halved-Falls : (x : ℕ) → Falls (halved parent x)
  unfolding halved update
  halved-Falls x = record {
    falls = λ y. ground (arith, f.falls y, f.falls x, f.falls (parent x), eqb→eq y x);
  }

module _ (parent : ℕ → ℕ) (f : Falls parent) (x : ℕ) where
  halved-at : (y : ℕ) → (halved parent x y ≡ parent y) ⊎ (halved parent x y ≡ parent (parent y))
  unfolding halved update
  halved-at y = elim (Bool-cases (eqb y x)) [
    | inl at ↦ inr (rw at (ap (λ z. parent (parent z)) (sym (eqb→eq y x at))))
    | inr off ↦ inl (rw off refl)
  ]

  halved-top : (y : ℕ) → halved parent x y ≡ y → parent y ≡ y
  halved-top y h = elim (halved-at y) [
    | inl e ↦ sym e ∙ h
    | inr e ↦ omega (arith, e, h, f.falls y, f.falls (parent y))
  ]

  halved-root : (y : ℕ) → root parent (halved parent x y) ≡ root parent y
  halved-root y = elim (halved-at y) [
    | inl e ↦ ap (root parent) e ∙ root-parent parent f y
    | inr e ↦ ap (root parent) e ∙ (root-parent parent f (parent y) ∙ root-parent parent f y)
  ]

  pub root-halved : (y : ℕ) → root (halved parent x) y ≡ root parent y
  root-halved y =
      let g = halved-Falls parent f x in
      by_parent (halved parent x) g (λ y. root (halved parent x) y ≡ root parent y)
        (λ y h. root-top (halved parent x) g y h ∙ sym (root-top parent f y (halved-top y h)))
        (λ y h ih. sym (root-parent (halved parent x) g y) ∙ (ih ∙ halved-root y)) (suc y) y
        (omega arith)

-- What `find` does: it gives the root, and leaves parents with the same roots.
pub record Finds (parent : ℕ → ℕ) (x : ℕ) (out : ℕ × (ℕ → ℕ)) : Type 0 where
  pub is_root : out.0 ≡ root parent x
  pub after : Falls out.1
  pub same_roots : (y : ℕ) → root out.1 y ≡ root parent y

find_from-Finds :
    (n : ℕ) (parent : ℕ → ℕ) (x : ℕ) → Falls parent → x ≤ n → Finds parent x (find_from n parent x)
unfolding find_from
find_from-Finds zero parent x f h = record {
  is_root = sym (root-top parent f x (omega (arith, f.falls x)));
  after = f;
  same_roots = λ y. refl;
}
find_from-Finds (suc n) parent x f h = elim (Bool-cases (eqb (parent x) x)) [
  | inl top ↦ rw top (record {
    is_root = sym (root-top parent f x (eqb→eq (parent x) x top));
    after = f;
    same_roots = λ y. refl;
  })
  | inr below ↦
      let g = halved-Falls parent f x in
      let e : halved parent x x ≤ parent x = halved-le parent f x in
      let later =
        find_from-Finds n (halved parent x) (halved parent x x) g
          (omega (arith, e, f.falls x, eqb→ne (parent x) x below)) in
      rw below (record {
        is_root =
            later.is_root ∙ (root-halved parent f x (halved parent x x) ∙ halved-root parent f x x);
        after = later.after;
        same_roots = λ y. later.same_roots y ∙ root-halved parent f x y;
      })
]
  where
    halved-le : (parent : ℕ → ℕ) → Falls parent → (x : ℕ) → halved parent x x ≤ parent x
    halved-le parent f x = elim (halved-at parent f x x) [
      | inl e ↦ omega (arith, e)
      | inr e ↦ omega (arith, e, f.falls (parent x))
    ]

pub find_root-Finds : (parent : ℕ → ℕ) (x : ℕ) → Falls parent → Finds parent x (find_root parent x)
unfolding find_root
find_root-Finds parent x f = find_from-Finds x parent x f (omega arith)
