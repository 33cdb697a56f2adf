-- ===== src/Engine/Graph/Neighbors.antt =====
-- engine/graph.py: what `neighborhood` answers.
use Prim.Native.Nat.{max}
use mathlib.Core.List.{Memᴰ}
use sep.Base.{
  or_true, ℕ, zero, suc, ◌≤◌, ◌≡◌, refl, sym, ap, subst, ◌∙◌, String, Bool, true, false, ◌||◌, ◌==◌,
  inl, inr, ◌↔◌, List, [], ◌∷◌, map, length, elem, Bool-cases, eq_iff, arith,
}
use sep.Base.Sort.{sorted_set}
use sep.Base.Sets.{elem-sorted_set, length-sorted_set}
use sep.Core.Errors.{ok, err, key_error, ok-injective}
use sep.Engine.Graph.{
  GraphNode, GraphEdge, EvidenceGraph, Neighborhood, Search, explored, seen_edges, node_at,
  nodes_at, neighborhood_of, neighborhood,
}
use sep.Engine.Graph.Known.{Near}
use sep.Engine.Graph.Explored.{explored-Few, seen-Near, seen-Near_iff}
use sep.Engine.Graph.Kept.{explored-Own, seen_edges-Memᴰ}

or_first : (a b : Bool) → b ≡ false → (a || b) ≡ true → a ≡ true
or_first a b f h = ground arith

neither : (a b : Bool) → (a || b) ≡ false → (a ≡ false) × (b ≡ false)
neither a b h = ground arith

abbrev pub ids : List GraphNode → List String
ids nodes = map (λ (n : GraphNode). n.node_id) nodes

node_at-missing :
    (id : String) (nodes : List GraphNode)
    → elem id (ids nodes) ≡ false
    → node_at id nodes ≡ err key_error
unfolding node_at
node_at-missing id [] h = refl
node_at-missing id (n ∷ ns) h =
    let (other, rest) = neither (id == n.node_id) (elem id (ids ns)) h in
    elim (Bool-cases (n.node_id == id)) [
      | inl here ↦
          let there : (id == n.node_id) ≡ true =
            (eq_iff id n.node_id).1 (sym ((eq_iff n.node_id id).0 here)) in
          cc
      | inr off ↦ rw (node_at-missing id ns rest, off) refl
    ]

node_at-found :
    (id : String) (nodes : List GraphNode)
    → elem id (ids nodes) ≡ true
    → (n : GraphNode) × (node_at id nodes ≡ ok n) × (n.node_id ≡ id)
unfolding node_at
node_at-found id [] h = cc
node_at-found id (n ∷ ns) h = elim (Bool-cases (elem id (ids ns))) [
  | inl later ↦ let (m, e, same) = node_at-found id ns later in (m, rw e refl, same)
  | inr last ↦
      let here : (id == n.node_id) ≡ true = or_first (id == n.node_id) (elem id (ids ns)) last h in
      let same : n.node_id ≡ id = sym ((eq_iff id n.node_id).0 here) in
      (n, rw (node_at-missing id ns last, (eq_iff n.node_id id).1 same) refl, same)
]

nodes_at-found :
    (l : List String) (nodes : List GraphNode)
    → ((id : String) → elem id l ≡ true → elem id (ids nodes) ≡ true)
    → (ns : List GraphNode) × (nodes_at l nodes ≡ ok ns) × (ids ns ≡ l)
unfolding nodes_at
nodes_at-found [] nodes h = ([], refl, refl)
nodes_at-found (id ∷ l) nodes h =
    let (n, e, same) = node_at-found id nodes (h id (rw ((eq_iff id id).1 refl) refl)) in
    let (ns, es, sames) = nodes_at-found l nodes (λ x m. h x (rw m (or_true (x == id)))) in
    (n ∷ ns, rw (e, es) refl, ap (λ x. x ∷ ids ns) same ∙ ap (λ l. id ∷ l) sames)

length-ids : (nodes : List GraphNode) → length (ids nodes) ≡ length nodes
length-ids [] = refl
length-ids (n ∷ ns) = ap suc (length-ids ns)

-- Every edge runs between nodes of the graph.
abbrev pub Closed : EvidenceGraph → Type 0
Closed graph =
    (e : GraphEdge)
    → Memᴰ e graph.edges
    → (elem e.src (ids graph.nodes) ≡ true) × (elem e.dst (ids graph.nodes) ≡ true)

-- An answer keeps to its bounds: there are few nodes, the root among them, and every edge is an edge
-- of the graph between two of them.
pub record Fits (graph : EvidenceGraph) (root : String) (max_nodes : ℕ) (hood : Neighborhood)
    : Type 0 where
  pub few : length hood.nodes ≤ max max_nodes 1
  pub root_in : elem root (ids hood.nodes) ≡ true
  pub within :
      (e : GraphEdge)
      → Memᴰ e hood.edges
      → Memᴰ e graph.edges
        × (elem e.src (ids hood.nodes) ≡ true)
        × (elem e.dst (ids hood.nodes) ≡ true)

module _ (graph : EvidenceGraph) (root : String) (depth max_nodes : ℕ)
    (known_root : elem root (ids graph.nodes) ≡ true) (closed : Closed graph) where
  abbrev search : Search
  search = explored graph.edges depth max_nodes root

  Near-ids : (n : ℕ) (y : String) → Near graph.edges root n y → elem y (ids graph.nodes) ≡ true
  Near-ids zero y Near.here = known_root
  Near-ids (suc n) y (Near.along {x = x} e near there (inl (s, d))) =
      subst (λ y. elem y (ids graph.nodes) ≡ true) d (closed e there).1
  Near-ids (suc n) y (Near.along {x = x} e near there (inr (d, s))) =
      subst (λ y. elem y (ids graph.nodes) ≡ true) s (closed e there).0

  -- The answer, with the nodes that were seen.
  pub record Answered (hood : Neighborhood) : Type 0 where
    pub answer : neighborhood graph root depth max_nodes ≡ ok hood
    pub same_nodes : ids hood.nodes ≡ sorted_set search.seen
    pub same_edges : hood.edges ≡ seen_edges search
    pub same_flag : hood.truncated ≡ search.truncated

  answered : (hood : Neighborhood) × Answered hood
  unfolding neighborhood neighborhood_of
  answered =
      let (ns, e, same) = nodes_at-found (sorted_set search.seen) graph.nodes (λ id m.
        (let (n, le, near) =
            seen-Near graph.edges depth max_nodes root id
              (sym (elem-sorted_set id search.seen) ∙ m) in
          Near-ids n id near)) in
      (
        record {
          root = root;
          depth = depth;
          nodes = ns;
          edges = seen_edges search;
          truncated = search.truncated;
        },
        record {
          answer = rw (known_root, e) refl;
          same_nodes = same;
          same_edges = refl;
          same_flag = refl;
        },
      )

  ids-hood :
      (hood : Neighborhood)
      → Answered hood
      → (y : String) → elem y (ids hood.nodes) ≡ elem y search.seen
  ids-hood hood a y = ap (elem y) a.same_nodes ∙ elem-sorted_set y search.seen

  -- The root is a node of the graph, and every edge runs between nodes of the graph. Then the search
  -- answers, whatever the depth and the limit: with at most `max_nodes` nodes, or the root alone if
  -- that is 0, the root among them; and every edge of the answer is an edge of the graph that runs
  -- between two of its nodes.
  pub neighborhood-Fits :
      (hood : Neighborhood) × (neighborhood graph root depth max_nodes ≡ ok hood)
      × Fits graph root max_nodes hood
  neighborhood-Fits =
      let (hood, a) = answered in
      let (empty, few, root_in) = explored-Few graph.edges depth max_nodes root in
      (
        hood,
        a.answer,
        record {
          few = omega (
            arith,
            few,
            length-sorted_set search.seen,
            ap (λ l. length l) a.same_nodes,
            length-ids hood.nodes,
          );
          root_in = ids-hood hood a root ∙ root_in;
          within = λ e m.
              (let (old, src, dst) =
                  seen_edges-Memᴰ search e (subst (λ es. Memᴰ e es) a.same_edges m) in
                (
                  explored-Own graph.edges depth max_nodes root e old,
                  ids-hood hood a e.src ∙ src,
                  ids-hood hood a e.dst ∙ dst,
                ));
        },
      )

  -- The root is a node of the graph, every edge runs between nodes of the graph, and the search
  -- answers and does not say that it was cut short. Then a node is in the answer exactly if a path of
  -- at most `depth` edges leads to it from the root, each edge taken in either direction.
  pub neighborhood-Near :
      (hood : Neighborhood)
      → neighborhood graph root depth max_nodes ≡ ok hood
      → hood.truncated ≡ false
      → (y : String)
      → (elem y (ids hood.nodes) ≡ true) ↔ (n : ℕ) × (n ≤ depth) × Near graph.edges root n y
  neighborhood-Near hood e whole y =
      let (found, a) = answered in
      let same : hood ≡ found = ok-injective hood found (sym e ∙ a.answer) in
      let open_search =
        sym a.same_flag ∙ (ap (λ (h : Neighborhood). h.truncated) (sym same) ∙ whole) in
      let reach = seen-Near_iff graph.edges depth max_nodes root open_search y in
      let at = ap (λ (h : Neighborhood). elem y (ids h.nodes)) same ∙ ids-hood found a y in
      (λ h. reach.0 (sym at ∙ h), λ r. at ∙ reach.1 r)
