-- ===== src/Engine/Graph/Known.antt =====
-- engine/graph.py: what the search knows of the nodes, before and after it follows an edge.
use Prim.Native.Nat.{max}
use mathlib.Core.List.{Memᴰ}
use sep.Base.{
  or_true, ℕ, zero, suc, ◌+◌, ◌-◌, ◌≤◌, ◌<◌, ◌≡◌, refl, sym, ap, subst, ◌∙◌, String, true, false,
  ◌||◌, inl, inr, ◌⊎◌, List, [], ◌∷◌, ◌++◌, length, length-append, elem, Bool-cases, eq_iff, ◌==◌,
  arith,
}
use sep.Engine.Graph.{GraphEdge, Search, keep_edge}
use sep.Engine.Graph.Layers.{Joins, Layered, Layered-last, Layered-le}

-- A node is this many edges away from the root, by some path.
pub data Near (edges : List GraphEdge) (root : String) : ℕ → String → Type 0 where
  here : Near edges root zero root
  along :
      {n : ℕ} {x y : String} (e : GraphEdge)
      → Near edges root n x
      → Memᴰ e edges
      → Joins e x y
      → Near edges root (suc n) y

-- A node with the depth at which it was queued, whether it is still in the queue or done.
abbrev pub At : List (String × ℕ) → List (String × ℕ) → String → ℕ → Type 0
At done queue x n = Memᴰ (x, n) done ⊎ Memᴰ (x, n) queue

Memᴰ-left : (p : String × ℕ) (q r : List (String × ℕ)) → Memᴰ p q → Memᴰ p (q ++ r)
Memᴰ-left p [] r m = elim m [ ]
Memᴰ-left p (x ∷ q) r (Memᴰ.head e) = Memᴰ.head e
Memᴰ-left p (x ∷ q) r (Memᴰ.tail m) = Memᴰ.tail (Memᴰ-left p q r m)

Memᴰ-last : (p : String × ℕ) (q : List (String × ℕ)) → Memᴰ p (q ++ (p ∷ []))
Memᴰ-last p [] = Memᴰ.head refl
Memᴰ-last p (x ∷ q) = Memᴰ.tail (Memᴰ-last p q)

Memᴰ-snoc : (p r : String × ℕ) (q : List (String × ℕ)) → Memᴰ p (q ++ (r ∷ [])) → Memᴰ p q ⊎ (p ≡ r)
Memᴰ-snoc p r [] (Memᴰ.head e) = inr e
Memᴰ-snoc p r [] (Memᴰ.tail m) = elim m [ ]
Memᴰ-snoc p r (x ∷ q) (Memᴰ.head e) = inl (Memᴰ.head e)
Memᴰ-snoc p r (x ∷ q) (Memᴰ.tail m) = elim (Memᴰ-snoc p r q m) [
  | inl n ↦ inl (Memᴰ.tail n)
  | inr e ↦ inr e
]

module _ (edges : List GraphEdge) (depth max_nodes : ℕ) (root : String) where
  abbrev pub cap : ℕ
  cap = max max_nodes 1

  pub record Known (done : List (String × ℕ)) (m : ℕ) (s : Search) : Type 0 where
    pub layered : Layered m s.queue
    pub low : (x : String) (n : ℕ) → Memᴰ (x, n) done → n ≤ m
    pub listed : (x : String) → elem x s.seen ≡ true → (n : ℕ) × At done s.queue x n
    pub in_seen : (x : String) (n : ℕ) → At done s.queue x n → elem x s.seen ≡ true
    pub near : (x : String) (n : ℕ) → At done s.queue x n → Near edges root n x × (n ≤ depth)
    pub few : length s.seen ≤ cap

  -- What a pass over edges of a node at depth `d` does.
  pub record Grown (done : List (String × ℕ)) (d : ℕ) (s s' : Search) : Type 0 where
    pub known : Known done d s'
    pub grows : (p : String × ℕ) → Memᴰ p s.queue → Memᴰ p s'.queue
    pub opens : s'.truncated ≡ false → s.truncated ≡ false
    pub falls : length s'.queue + (cap - length s'.seen) ≤ length s.queue + (cap - length s.seen)

  abbrev pub Reached : List (String × ℕ) → ℕ → Search → String → Type 0
  Reached done d s y = (n : ℕ) × (n ≤ d + 1) × At done s.queue y n

  module _ (done : List (String × ℕ)) (d : ℕ) (e : GraphEdge) (x y : String) (s : Search)
      (k : Known done d s) (Near-x : Near edges root d x) (deep : d < depth) (there : Memᴰ e edges)
      (joins : Joins e x y) where
    pub kept_edge-Grown : Grown done d s (keep_edge e s)
    unfolding keep_edge
    kept_edge-Grown = record {
      known = record {
        layered = k.layered;
        low = k.low;
        listed = k.listed;
        in_seen = k.in_seen;
        near = k.near;
        few = k.few;
      };
      grows = λ p m. m;
      opens = λ h. h;
      falls = omega arith;
    }

    pub seen-Reached : elem y s.seen ≡ true → Reached done d (keep_edge e s) y
    unfolding keep_edge
    seen-Reached h =
        let (n, at) = k.listed y h in
        elim at [
          | inl m ↦ (n, omega (arith, k.low y n m), inl m)
          | inr m ↦ (n, Layered-le d s.queue y n k.layered m, inr m)
        ]

    abbrev pub found : Search
    found = record s { seen = y ∷ s.seen; queue = s.queue ++ ((y, d + 1) ∷ []) }

    At-found : (z : String) (n : ℕ) → At done s.queue z n → At done found.queue z n
    At-found z n (inl m) = inl m
    At-found z n (inr m) = inr (Memᴰ-left (z, n) s.queue _ m)

    found-listed : (z : String) → elem z found.seen ≡ true → (n : ℕ) × At done found.queue z n
    found-listed z h = elim (Bool-cases (z == y)) [
      | inl same ↦ (
        d + 1,
        inr (
            subst (λ u. Memᴰ (u, d + 1) (s.queue ++ ((y, d + 1) ∷ []))) (sym ((eq_iff z y).0 same))
              (Memᴰ-last (y, d + 1) s.queue)),
      )
      | inr other ↦
          (let (n, at) = k.listed z (sym (ap (λ b. b || elem z s.seen) other) ∙ h) in
            (n, At-found z n at))
    ]

    found-in_seen : (z : String) (n : ℕ) → At done found.queue z n → elem z found.seen ≡ true
    found-in_seen z n (inl m) = rw (k.in_seen z n (inl m)) (or_true (z == y))
    found-in_seen z n (inr m) = elim (Memᴰ-snoc (z, n) (y, d + 1) s.queue m) [
      | inl old ↦ rw (k.in_seen z n (inr old)) (or_true (z == y))
      | inr new ↦ rw ((eq_iff z y).1 (ap (λ (p : String × ℕ). p.0) new)) refl
    ]

    found-Near : (z : String) (n : ℕ) → At done found.queue z n → Near edges root n z × (n ≤ depth)
    found-Near z n (inl m) = k.near z n (inl m)
    found-Near z n (inr m) = elim (Memᴰ-snoc (z, n) (y, d + 1) s.queue m) [
      | inl old ↦ k.near z n (inr old)
      | inr new ↦
          subst (λ (p : String × ℕ). Near edges root p.1 p.0 × (p.1 ≤ depth)) (sym new)
            (
              subst (λ n. Near edges root n y) (omega arith) (Near.along e Near-x there joins),
              omega (arith, deep),
            )
    ]

    pub found-Grown : length s.seen < max_nodes → Grown done d s (keep_edge e found)
    unfolding keep_edge
    found-Grown room = record {
      known = record {
        layered = Layered-last d y s.queue k.layered;
        low = k.low;
        listed = found-listed;
        in_seen = found-in_seen;
        near = found-Near;
        few = omega (arith, room);
      };
      grows = λ p m. Memᴰ-left p s.queue _ m;
      opens = λ h. h;
      falls = omega (arith, room, length-append s.queue ((y, d + 1) ∷ []));
    }

    pub found-Reached : Reached done d (keep_edge e found) y
    unfolding keep_edge
    found-Reached = (d + 1, omega arith, inr (Memᴰ-last (y, d + 1) s.queue))
