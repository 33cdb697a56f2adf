-- ===== src/Engine/Linking/UnionFind/Unions.antt =====
-- engine/linking.py: what a union does to the roots.
use sep.Base.{
  ℕ, suc, ◌≤◌, ◌≡◌, refl, sym, ap, ◌∙◌, inl, inr, if◌then◌else◌, eqb, ltb, ltb→lt, ltb→ge,
  Bool-cases, arith,
}
use sep.Engine.Linking.UnionFind.{update, find_root, hang, union}
use sep.Engine.Linking.UnionFind.Roots.{
  Falls, root, eqb→eq, root-top, root-parent, by_parent, root_lem, find_root-Finds,
}

module _ (parent : ℕ → ℕ) (f : Falls parent) (child r : ℕ) (le : r ≤ child)
    (top : parent child ≡ child) (top_r : parent r ≡ r) where
  abbrev moved : ℕ → ℕ
  unfolding update
  moved = update parent child r

  pub update-Falls : Falls (update parent child r)
  unfolding update
  update-Falls = record { falls = λ y. ground (arith, f.falls y, eqb→eq y child) }

  moved-r : moved r ≡ r
  unfolding moved
  moved-r = elim (Bool-cases (eqb r child)) [ inl at ↦ rw at refl | inr off ↦ rw off top_r ]

  abbrev Moves : ℕ → Type 0
  Moves y =
      root (update parent child r) y ≡ (if eqb (root parent y) child then r else root parent y)

  moved-top : (y : ℕ) → update parent child r y ≡ y → Moves y
  unfolding update
  moved-top y h = elim (Bool-cases (eqb y child)) [
    | inl at ↦
        let e : y ≡ child = eqb→eq y child at in
        let e' : r ≡ y = rw at at h in
        let p : parent y ≡ y = ap parent e ∙ (top ∙ sym e) in
        root-top (update parent child r) update-Falls y h ∙ rw (root-top parent f y p, at) (sym e')
    | inr off ↦
        let p : parent y ≡ y = rw off at h in
        root-top (update parent child r) update-Falls y h ∙ rw (root-top parent f y p, off) refl
  ]

  moved-below : (y : ℕ) → Moves (update parent child r y) → Moves y
  unfolding update
  moved-below y ih = elim (Bool-cases (eqb y child)) [
    | inl at ↦
        let e : y ≡ child = eqb→eq y child at in
        let p : parent y ≡ y = ap parent e ∙ (top ∙ sym e) in
        sym (root-parent (update parent child r) update-Falls y)
        ∙ (ap (root (update parent child r)) (rw at refl)
            ∙ (root-top (update parent child r) update-Falls r moved-r
                ∙ rw (root-top parent f y p, at) refl))
    | inr off ↦
        let step : update parent child r y ≡ parent y = rw off refl in
        sym (root-parent (update parent child r) update-Falls y)
        ∙ (ih
            ∙ ap (λ z. if eqb z child then r else z)
                (ap (root parent) step ∙ root-parent parent f y))
  ]

  pub root-update : (y : ℕ) → Moves y
  root-update y =
      by_parent (update parent child r) update-Falls Moves moved-top (λ y _. moved-below y) (suc y)
        y (omega arith)

-- The root of a class after the classes with the roots `ra` and `rb` were made one.
abbrev pub merged : ℕ → ℕ → ℕ → ℕ
merged ra rb r = if ltb ra rb then (if eqb r rb then ra else r) else (if eqb r ra then rb else r)

-- What `union` does: the classes of its arguments become one, the others stay.
pub record Unites (parent : ℕ → ℕ) (ra rb : ℕ) (out : ℕ × (ℕ → ℕ)) : Type 0 where
  pub is_root : out.0 ≡ merged ra rb ra
  pub after : Falls out.1
  pub roots : (y : ℕ) → root out.1 y ≡ merged ra rb (root parent y)

hang-Unites :
    (parent : ℕ → ℕ) (ra rb : ℕ)
    → Falls parent
    → parent ra ≡ ra
    → parent rb ≡ rb
    → Unites parent ra rb (hang parent ra rb)
unfolding hang
hang-Unites parent ra rb f ta tb = elim (Bool-cases (ltb ra rb)) [
  | inl lt ↦
      let le : ra ≤ rb = omega (arith, ltb→lt ra rb lt) in
      rw lt (record {
        is_root = ground (arith, lt);
        after = update-Falls parent f rb ra le tb ta;
        roots = λ y. root-update parent f rb ra le tb ta y ∙ rw lt refl;
      })
  | inr ge ↦
      let le : rb ≤ ra = ltb→ge ra rb ge in
      rw ge (record {
        is_root = ground arith;
        after = update-Falls parent f ra rb le ta tb;
        roots = λ y. root-update parent f ra rb le ta tb y ∙ rw ge refl;
      })
]

pub union-Unites :
    (parent : ℕ → ℕ) (a b : ℕ)
    → Falls parent
    → Unites parent (root parent a) (root parent b) (union parent a b)
unfolding union
union-Unites parent a b f =
    let p = find_root-Finds parent a f in
    let q = find_root-Finds (find_root parent a).1 b p.after in
    let out = find_root (find_root parent a).1 b in
    let ea : (find_root parent a).0 ≡ root parent a = p.is_root in
    let eb : out.0 ≡ root parent b = q.is_root ∙ p.same_roots b in
    let same : (y : ℕ) → root out.1 y ≡ root parent y = λ y. q.same_roots y ∙ p.same_roots y in
    let ta : out.1 (root parent a) ≡ root parent a =
      ap out.1 (sym (same a)) ∙ (root_lem out.1 q.after a ∙ same a) in
    let tb : out.1 (root parent b) ≡ root parent b =
      ap out.1 (sym (same b)) ∙ (root_lem out.1 q.after b ∙ same b) in
    let u = hang-Unites out.1 (root parent a) (root parent b) q.after ta tb in
    rw (ea, eb)
      (record {
        is_root = u.is_root;
        after = u.after;
        roots = λ y. u.roots y ∙ ap (merged (root parent a) (root parent b)) (same y);
      })
