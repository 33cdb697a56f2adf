-- ===== src/Engine/Graph/Layers.antt =====
-- engine/graph.py: the ends of an edge, and the depths of the nodes in the queue.
use mathlib.Core.List.{Memᴰ}
use sep.Base.{
  ℕ, ◌+◌, ◌≤◌, ◌≡◌, refl, sym, ap, subst, ◌∙◌, String, Bool, true, false, inl, inr, ◌⊎◌, List, [],
  ◌∷◌, ◌++◌, if◌then◌else◌, All, Bool-cases, eq_iff, ◌==◌, arith,
}
use sep.Engine.Graph.{GraphEdge, adjacent, other_end}

-- An edge joins two nodes, in either direction.
abbrev pub Joins : GraphEdge → String → String → Type 0
Joins e x y = ((e.src ≡ x) × (e.dst ≡ y)) ⊎ ((e.dst ≡ x) × (e.src ≡ y))

pub other_end-Joins : (e : GraphEdge) (x y : String) → Joins e x y → other_end x e ≡ y
unfolding other_end
other_end-Joins e x y (inl (s, d)) = rw ((eq_iff e.src x).1 s) d
other_end-Joins e x y (inr (d, s)) = elim (Bool-cases (e.src == x)) [
  | inl at ↦ rw at (d ∙ (sym ((eq_iff e.src x).0 at) ∙ s))
  | inr off ↦ rw off s
]

Memᴰ-if :
    (e f : GraphEdge) (b : Bool) (es : List GraphEdge)
    → Memᴰ e es
    → Memᴰ e (if b then f ∷ es else es)
Memᴰ-if e f true es m = Memᴰ.tail m
Memᴰ-if e f false es m = m

Memᴰ-of_if :
    (e f : GraphEdge) (b : Bool) (es : List GraphEdge)
    → Memᴰ e (if b then f ∷ es else es)
    → ((b ≡ true) × (e ≡ f)) ⊎ Memᴰ e es
Memᴰ-of_if e f true es (Memᴰ.head same) = inl (refl, same)
Memᴰ-of_if e f true es (Memᴰ.tail m) = inr m
Memᴰ-of_if e f false es m = inr m

pub adjacent-Memᴰ :
    (x y : String) (e : GraphEdge) (es : List GraphEdge)
    → Memᴰ e es
    → Joins e x y
    → Memᴰ e (adjacent x es)
unfolding adjacent
adjacent-Memᴰ x y e [] m j = elim m [ ]
adjacent-Memᴰ x y e (f ∷ fs) (Memᴰ.tail m) j =
    Memᴰ-if e f (f.src == x) _
      (Memᴰ-if e f (f.dst == x) (adjacent x fs) (adjacent-Memᴰ x y e fs m j))
adjacent-Memᴰ x y e (f ∷ fs) (Memᴰ.head same) (inl (s, d)) =
    let at : (f.src == x) ≡ true =
      (eq_iff f.src x).1 (ap (λ (g : GraphEdge). g.src) (sym same) ∙ s) in
    rw at (Memᴰ.head same)
adjacent-Memᴰ x y e (f ∷ fs) (Memᴰ.head same) (inr (d, s)) =
    let at : (f.dst == x) ≡ true =
      (eq_iff f.dst x).1 (ap (λ (g : GraphEdge). g.dst) (sym same) ∙ d) in
    rw at (Memᴰ-if e f (f.src == x) (f ∷ adjacent x fs) (Memᴰ.head same))

pub adjacent_sound :
    (x : String) (es : List GraphEdge) (e : GraphEdge)
    → Memᴰ e (adjacent x es)
    → Memᴰ e es × Joins e x (other_end x e)
unfolding adjacent other_end
adjacent_sound x [] e m = elim m [ ]
adjacent_sound x (f ∷ fs) e m = elim (Memᴰ-of_if e f (f.src == x) _ m) [
  | inl (at, same) ↦ (
    Memᴰ.head same,
    subst (λ e. Joins e x (other_end x e)) (sym same) (rw at (inl ((eq_iff f.src x).0 at, refl))),
  )
  | inr inner ↦ elim (Memᴰ-of_if e f (f.dst == x) _ inner) [
    | inl (at, same) ↦ (
      Memᴰ.head same,
      subst (λ e. Joins e x (other_end x e)) (sym same)
          (elim (Bool-cases (f.src == x)) [
            | inl both ↦ rw both (inl ((eq_iff f.src x).0 both, refl))
            | inr off ↦ rw off (inr ((eq_iff f.dst x).0 at, refl))
          ]),
    )
    | inr later ↦ (let (there, joins) = adjacent_sound x fs e later in (Memᴰ.tail there, joins))
  ]
]

-- The queue holds nodes of one depth, and behind them nodes of the next.
abbrev pub Layered : ℕ → List (String × ℕ) → Type 0
Layered m [] = Unit {0}
Layered m ((x, d) ∷ q) =
    ((d ≡ m) × Layered m q) ⊎ ((d ≡ m + 1) × All (λ (p : String × ℕ). p.1 ≡ m + 1) q)

All-last :
    (n : ℕ) (y : String) (q : List (String × ℕ))
    → All (λ (p : String × ℕ). p.1 ≡ n) q
    → All (λ (p : String × ℕ). p.1 ≡ n) (q ++ ((y, n) ∷ []))
All-last n y [] h = (refl, tt)
All-last n y (p ∷ q) (h, hs) = (h, All-last n y q hs)

pub Layered-last :
    (m : ℕ) (y : String) (q : List (String × ℕ)) → Layered m q → Layered m (q ++ ((y, m + 1) ∷ []))
Layered-last m y [] h = inr (refl, tt)
Layered-last m y ((x, d) ∷ q) (inl (e, h)) = inl (e, Layered-last m y q h)
Layered-last m y ((x, d) ∷ q) (inr (e, h)) = inr (e, All-last (m + 1) y q h)

pub Layered-le :
    (m : ℕ) (q : List (String × ℕ)) (x : String) (n : ℕ) → Layered m q → Memᴰ (x, n) q → n ≤ m + 1
Layered-le m [] x n h mem = elim mem [ ]
Layered-le m ((y, d) ∷ q) x n (inl (e, h)) (Memᴰ.head s) =
    omega (arith, e, ap (λ (p : String × ℕ). p.1) s)
Layered-le m ((y, d) ∷ q) x n (inl (e, h)) (Memᴰ.tail mem) = Layered-le m q x n h mem
Layered-le m ((y, d) ∷ q) x n (inr (e, h)) (Memᴰ.head s) =
    omega (arith, e, ap (λ (p : String × ℕ). p.1) s)
Layered-le m ((y, d) ∷ q) x n (inr (e, h)) (Memᴰ.tail mem) =
    omega (arith, All-depth (m + 1) q x n h mem)
  where
    All-depth :
        (k : ℕ) (q : List (String × ℕ)) (x : String) (n : ℕ)
        → All (λ (p : String × ℕ). p.1 ≡ k) q
        → Memᴰ (x, n) q
        → n ≡ k
    All-depth k [] x n h mem = elim mem [ ]
    All-depth k (p ∷ q) x n (h, hs) (Memᴰ.head s) = ap (λ (p : String × ℕ). p.1) s ∙ h
    All-depth k (p ∷ q) x n (h, hs) (Memᴰ.tail mem) = All-depth k q x n hs mem

pub Layered-tail :
    (m : ℕ) (x : String) (d : ℕ) (q : List (String × ℕ))
    → Layered m ((x, d) ∷ q)
    → Layered d q × (m ≤ d)
Layered-tail m x d q (inl (e, h)) = (subst (λ m. Layered m q) (sym e) h, omega (arith, e))
Layered-tail m x d q (inr (e, h)) =
    (subst (λ m. Layered m q) (sym e) (All-Layered (m + 1) q h), omega (arith, e))
  where
    All-Layered :
        (n : ℕ) (q : List (String × ℕ)) → All (λ (p : String × ℕ). p.1 ≡ n) q → Layered n q
    All-Layered n [] h = tt
    All-Layered n ((y, d) ∷ q) (h, hs) = inl (h, All-Layered n q hs)
