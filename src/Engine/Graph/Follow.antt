-- ===== src/Engine/Graph/Follow.antt =====
-- engine/graph.py: one edge, and all the edges of a node.
use mathlib.Core.List.{Memᴰ}
use sep.Base.{
  ℕ, ◌<◌, ◌≡◌, refl, sym, subst, String, true, false, inl, inr, List, [], ◌∷◌, leb, leb→gt, length,
  elem, Bool-cases, arith,
}
use sep.Engine.Graph.{GraphEdge, Search, other_end, follow_edge, visit}
use sep.Engine.Graph.Layers.{Joins}
use sep.Engine.Graph.Known.{
  Near, Known, Grown, Reached, kept_edge-Grown, seen-Reached, found-Grown, found-Reached,
}

module _ (edges : List GraphEdge) (depth max_nodes : ℕ) (root : String) (done : List (String × ℕ))
    (d : ℕ) where
  abbrev pub Grew : Search → Search → Type 0
  Grew = Grown edges depth max_nodes root done d

  abbrev pub Knows : Search → Type 0
  Knows = Known edges depth max_nodes root done d

  abbrev pub Gets : Search → String → Type 0
  Gets = Reached edges depth max_nodes root done d

  pub Grown-refl : (s : Search) → Knows s → Grew s s
  Grown-refl s k = record { known = k; grows = λ p m. m; opens = λ h. h; falls = omega arith }

  Grown-trans : (s t u : Search) → Grew s t → Grew t u → Grew s u
  Grown-trans s t u g h = record {
    known = h.known;
    grows = λ p m. h.grows p (g.grows p m);
    opens = λ o. g.opens (h.opens o);
    falls = omega (arith, g.falls, h.falls);
  }

  pub Gets-Grown : (s t : Search) → Grew s t → (y : String) → Gets s y → Gets t y
  Gets-Grown s t g y (n, le, inl m) = (n, le, inl m)
  Gets-Grown s t g y (n, le, inr m) = (n, le, inr (g.grows (y, n) m))

  stopped-Grown : (s : Search) → Knows s → Grew s (record s { truncated = true })
  stopped-Grown s k = record {
    known = record {
      layered = k.layered;
      low = k.low;
      listed = k.listed;
      in_seen = k.in_seen;
      near = k.near;
      few = k.few;
    };
    grows = λ p m. m;
    opens = λ h. cc;
    falls = omega arith;
  }

  -- An edge of the node: what is known is kept, and its other end is reached unless there was no room.
  abbrev Followed : Search → String → Search → Type 0
  Followed s y t = Grew s t × (t.truncated ≡ false → Gets t y)

  follow_edge-Followed :
      (e : GraphEdge) (x y : String) (s : Search)
      → Knows s
      → Near edges root d x
      → d < depth
      → Memᴰ e edges
      → Joins e x y
      → Followed s y (follow_edge max_nodes d y e s)
  unfolding follow_edge
  follow_edge-Followed e x y s k near deep there joins = elim (Bool-cases (elem y s.seen)) [
    | inl old ↦ rw old (
      kept_edge-Grown edges depth max_nodes root done d e x y s k near deep there joins,
      λ o. seen-Reached edges depth max_nodes root done d e x y s k near deep there joins old,
    )
    | inr new ↦ rw new (elim (Bool-cases (leb max_nodes (length s.seen))) [
      | inl full ↦ rw full (stopped-Grown s k, λ o. cc)
      | inr room ↦ rw room (
        found-Grown edges depth max_nodes root done d e x y s k near deep there joins
            (leb→gt _ _ room),
        λ o. found-Reached edges depth max_nodes root done d e x y s k near deep there joins,
      )
    ])
  ]

  -- All of a list of edges of the node.
  pub record Visited (x : String) (es : List GraphEdge) (s t : Search) : Type 0 where
    pub grown : Grew s t
    pub ends : t.truncated ≡ false → (e : GraphEdge) → Memᴰ e es → Gets t (other_end x e)

  pub visit-Visited :
      (x : String) (es : List GraphEdge) (s : Search)
      → Knows s
      → Near edges root d x
      → d < depth
      → ((e : GraphEdge) → Memᴰ e es → Memᴰ e edges × Joins e x (other_end x e))
      → Visited x es s (visit max_nodes d x es s)
  unfolding visit
  visit-Visited x [] s k near deep from = record {
    grown = Grown-refl s k;
    ends = λ o e m. elim m [ ];
  }
  visit-Visited x (e ∷ es) s k near deep from =
      let t = follow_edge max_nodes d (other_end x e) e s in
      let (there, joins) = from e (Memᴰ.head refl) in
      let (g, reach) = follow_edge-Followed e x (other_end x e) s k near deep there joins in
      let v = visit-Visited x es t g.known near deep (λ f m. from f (Memᴰ.tail m)) in
      let u = visit max_nodes d x es t in
      record {
        grown = Grown-trans s t u g v.grown;
        ends = λ o f m. elim m [
          | Memᴰ.head same ↦
              subst (λ f. Gets u (other_end x f)) (sym same)
                (Gets-Grown t u v.grown (other_end x e) (reach (v.grown.opens o)))
          | Memᴰ.tail later ↦ v.ends o f later
        ];
      }
