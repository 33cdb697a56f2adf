-- ===== src/Engine/Graph/Witnesses.antt =====
-- engine/graph.py: runs of the search over a small graph.
use mathlib.Core.List.{Memᴰ}
use sep.Base.{ℕ, ◌≤◌, ◌≡◌, refl, sym, subst, ◌↔◌, String, true, false, [], ◌∷◌, elem}
use sep.Core.Errors.{ok}
use sep.Engine.Graph.{GraphNode, GraphEdge, EvidenceGraph, Neighborhood, neighborhood}
use sep.Engine.Graph.Known.{Near}
use sep.Engine.Graph.Neighbors.{ids, Closed, Fits, neighborhood-Fits, neighborhood-Near}

abbrev node : String → GraphNode
node id = record { node_id = id; kind = "case"; label = id; props = [] }

abbrev joins : String → String → GraphEdge
joins x y = record {
  src = x;
  dst = y;
  kind = "IN_EPISODE";
  status = "active";
  provenance = "linking";
  evidence = [];
}

-- From a to b, from c to b, and from c to d.
abbrev chain : EvidenceGraph
chain = record {
  version = "1";
  snapshot_id = "s";
  nodes = node "a" ∷ (node "b" ∷ (node "c" ∷ (node "d" ∷ [])));
  edges = joins "a" "b" ∷ (joins "c" "b" ∷ (joins "c" "d" ∷ []));
}

abbrev two_steps : Neighborhood
two_steps = record {
  root = "a";
  depth = 2;
  nodes = node "a" ∷ (node "b" ∷ (node "c" ∷ []));
  edges = joins "a" "b" ∷ (joins "c" "b" ∷ []);
  truncated = false;
}

chain-two_steps : neighborhood chain "a" 2 10 ≡ ok two_steps
unfolding neighborhood
chain-two_steps = refl

-- There is no room for a third node.
cut_off :
    neighborhood chain "a" 2 2
    ≡ ok (record {
      root = "a";
      depth = 2;
      nodes = node "a" ∷ (node "b" ∷ []);
      edges = joins "a" "b" ∷ [];
      truncated = true;
    })
unfolding neighborhood
cut_off = refl

end_at :
    (e f : GraphEdge)
    → e ≡ f
    → (elem f.src (ids chain.nodes) ≡ true) × (elem f.dst (ids chain.nodes) ≡ true)
    → (elem e.src (ids chain.nodes) ≡ true) × (elem e.dst (ids chain.nodes) ≡ true)
end_at e f same h =
    subst
      (λ (e : GraphEdge).
        (elem e.src (ids chain.nodes) ≡ true) × (elem e.dst (ids chain.nodes) ≡ true))
      (sym same) h

chain-Closed : Closed chain
chain-Closed e (Memᴰ.head same) = end_at e _ same (refl, refl)
chain-Closed e (Memᴰ.tail (Memᴰ.head same)) = end_at e _ same (refl, refl)
chain-Closed e (Memᴰ.tail (Memᴰ.tail (Memᴰ.head same))) = end_at e _ same (refl, refl)
chain-Closed e (Memᴰ.tail (Memᴰ.tail (Memᴰ.tail m))) = elim m [ ]

neighborhood-Fits_example :
    (hood : Neighborhood) × (neighborhood chain "a" 2 2 ≡ ok hood) × Fits chain "a" 2 hood
neighborhood-Fits_example = neighborhood-Fits chain "a" 2 2 refl chain-Closed

neighborhood-Near_example :
    (elem "d" (ids two_steps.nodes) ≡ true) ↔ (n : ℕ) × (n ≤ 2) × Near chain.edges "a" n "d"
neighborhood-Near_example =
    neighborhood-Near chain "a" 2 10 refl chain-Closed two_steps chain-two_steps refl "d"
