-- ===== src/Engine/Linking/Attempt/Classes.antt =====
-- engine/linking.py: the classes of the union-find and the accepted links.
use sep.Base.{
  ℕ, ◌≡◌, refl, sym, ap, subst, ◌∙◌, inl, inr, List, [], ◌∷◌, eqb, ltb, All, Bool-cases, arith,
}
use mathlib.Core.List.{Memᴰ}
use mathlib.Core.Path.{ap₂}
use sep.Base.{◌↔◌}
use sep.Engine.Linking.UnionFind.{union}
use sep.Engine.Linking.UnionFind.Roots.{root, Falls, root-root, eqb→eq}
use sep.Engine.Linking.UnionFind.Unions.{merged, union-Unites}
use sep.Engine.Linking.Attempt.{Link, Guards, Linking, reject_link, flag, accept, joined_at}
use sep.Engine.Linking.Attempt.Kept.{Kept}

-- The least equivalence in which the ends of each of the links are related.
pub data Connected (links : List Link) : ℕ → ℕ → Type 0 where
  itself : {x : ℕ} → Connected links x x
  by_link : {x y : ℕ} (l : Link) → Memᴰ l links → l.src ≡ x → l.dst ≡ y → Connected links x y
  back : {x y : ℕ} → Connected links x y → Connected links y x
  through : {x y z : ℕ} → Connected links x y → Connected links y z → Connected links x z

-- Trades have one root exactly if accepted links connect them.
pub record Classes (s : Linking) : Type 0 where
  pub falls : Falls s.parent
  pub one_root : All (λ l. root s.parent l.src ≡ root s.parent l.dst) s.accepted
  pub linked : (x : ℕ) → Connected s.accepted x (root s.parent x)

more : {links : List Link} (l : Link) {x y : ℕ} → Connected links x y → Connected (l ∷ links) x y
more l itself = itself
more l (by_link k m e e') = by_link k (Memᴰ.tail m) e e'
more l (back c) = back (more l c)
more l (through c d) = through (more l c) (more l d)

All-pointwise :
    (P Q : Link → Type 0) (links : List Link) → ((l : Link) → P l → Q l) → All P links → All Q links
All-pointwise P Q [] f h = tt
All-pointwise P Q (l ∷ links) f (h, hs) = (f l h, All-pointwise P Q links f hs)

All-Memᴰ : (P : Link → Type 0) (l : Link) (links : List Link) → All P links → Memᴰ l links → P l
All-Memᴰ P l [] h m = elim m [ ]
All-Memᴰ P l (k ∷ links) (h, hs) (Memᴰ.head e) = subst P (sym e) h
All-Memᴰ P l (k ∷ links) (h, hs) (Memᴰ.tail m) = All-Memᴰ P l links hs m

module _ (guards : Guards) where
  reparented-Classes :
      (s : Linking) (p : ℕ → ℕ)
      → Classes s
      → Falls p
      → ((x : ℕ) → root p x ≡ root s.parent x)
      → Classes (record s { parent = p })
  reparented-Classes s p i f same = record {
    falls = f;
    one_root = All-pointwise _ _ s.accepted (λ l e. same l.src ∙ (e ∙ sym (same l.dst))) i.one_root;
    linked = λ x. subst (Connected s.accepted x) (sym (same x)) (i.linked x);
  }

  inside-Classes :
      (link : Link) (s : Linking)
      → Classes s
      → root s.parent link.src ≡ root s.parent link.dst
      → Classes (accept link s)
  unfolding accept
  inside-Classes link s i e = record {
    falls = i.falls;
    one_root = (e, i.one_root);
    linked = λ x. more link (i.linked x);
  }

  module _ (link : Link) (s : Linking) (i : Classes s) where
    abbrev a : ℕ
    a = root s.parent link.src

    abbrev b : ℕ
    b = root s.parent link.dst

    abbrev links : List Link
    links = link ∷ s.accepted

    bridge : Connected links a b
    bridge =
        through (back (more link (i.linked link.src)))
          (through (by_link link (Memᴰ.head refl) refl refl) (more link (i.linked link.dst)))

    merged-linked : (r : ℕ) → Connected links r (merged a b r)
    merged-linked r = elim (Bool-cases (ltb a b)) [
      | inl lt ↦ elim (Bool-cases (eqb r b)) [
        | inl at ↦
            rw (lt, at) (subst (λ z. Connected links z a) (sym (eqb→eq r b at)) (back bridge))
        | inr off ↦ rw (lt, off) itself
      ]
      | inr ge ↦ elim (Bool-cases (eqb r a)) [
        | inl at ↦ rw (ge, at) (subst (λ z. Connected links z b) (sym (eqb→eq r a at)) bridge)
        | inr off ↦ rw (ge, off) itself
      ]
    ]

    merged-ends : merged a b a ≡ merged a b b
    merged-ends = ground arith

    joining-Classes :
        (ra rb : ℕ)
        → ra ≡ a
        → rb ≡ b
        → Classes (accept link (joined_at (union s.parent ra rb) ra rb s))
    unfolding accept joined_at
    joining-Classes ra rb ea eb =
        let u = union-Unites s.parent ra rb i.falls in
        let at_a : root s.parent ra ≡ a =
          ap (root s.parent) ea ∙ root-root s.parent i.falls link.src in
        let at_b : root s.parent rb ≡ b =
          ap (root s.parent) eb ∙ root-root s.parent i.falls link.dst in
        let roots : (y : ℕ) → root (union s.parent ra rb).1 y ≡ merged a b (root s.parent y) =
          λ y. u.roots y ∙ ap₂ (λ m n. merged m n (root s.parent y)) at_a at_b in
        record {
          falls = u.after;
          one_root = (
            roots link.src ∙ (merged-ends ∙ sym (roots link.dst)),
            All-pointwise _ _ s.accepted
                (λ l e. roots l.src ∙ (ap (merged a b) e ∙ sym (roots l.dst))) i.one_root,
          );
          linked = λ x.
              subst (Connected links x) (sym (roots x))
                (through (more link (i.linked x)) (merged-linked (root s.parent x)));
        }

  pub Classes-Kept : Kept guards Classes
  unfolding reject_link flag
  Classes-Kept = record {
    falls = λ s i. i.falls;
    reparented = reparented-Classes;
    inside = inside-Classes;
    joining = λ link s ra rb i ea eb ne h. joining-Classes link s i ra rb ea eb;
    rejecting =
        λ link reason s i. record { falls = i.falls; one_root = i.one_root; linked = i.linked };
    flagging =
        λ place text s i. record { falls = i.falls; one_root = i.one_root; linked = i.linked };
  }

Connected-root :
    (s : Linking) (x y : ℕ)
    → All (λ l. root s.parent l.src ≡ root s.parent l.dst) s.accepted
    → Connected s.accepted x y
    → root s.parent x ≡ root s.parent y
Connected-root s x y h itself = refl
Connected-root s x y h (by_link l m e e') =
    ap (root s.parent) (sym e) ∙ (All-Memᴰ _ l s.accepted h m ∙ ap (root s.parent) e')
Connected-root s x y h (back c) = sym (Connected-root s _ _ h c)
Connected-root s x y h (through c d) = Connected-root s _ _ h c ∙ Connected-root s _ _ h d

pub Classes-iff :
    (s : Linking)
    → Classes s
    → (x y : ℕ) → (root s.parent x ≡ root s.parent y) ↔ Connected s.accepted x y
Classes-iff s i x y = (
  λ e. through (i.linked x) (subst (λ r. Connected s.accepted r y) (sym e) (back (i.linked y))),
  Connected-root s x y i.one_root,
)
