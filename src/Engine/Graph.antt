-- ===== src/Engine/Graph.antt =====
-- engine/graph.py: the evidence graph's models and `neighborhood`, the bounded search from a node. A
-- dictionary of texts is its list of pairs. `seen` is kept newest first.
pub mod Layers
pub mod Known
pub mod Follow
pub mod Explored
pub mod Kept
pub mod Neighbors
mod Witnesses
use sep.Base.{
  ℕ, zero, suc, ◌+◌, String, Bool, true, false, ◌&&◌, ◌||◌, Option, none, some, List, [], ◌∷◌, ◌++◌,
  map, filter, if◌then◌else◌, leb, length, any, elem, ◌==◌,
}
use sep.Base.Sort.{sorted_set, sort_with, text_le}
use sep.Core.Errors.{Result, ok, err, key_error, ◌>>=◌}

pub record GraphNode : Type 0 where
  pub node_id : String
  pub kind : String
  pub label : String
  pub props : List (String × String)

pub record GraphEdge : Type 0 where
  pub src : String
  pub dst : String
  pub kind : String
  pub status : String
  pub provenance : String
  pub evidence : List (String × String)

pub record EvidenceGraph : Type 0 where
  pub version : String
  pub snapshot_id : String
  pub nodes : List GraphNode
  pub edges : List GraphEdge

pub record Neighborhood : Type 0 where
  pub root : String
  pub depth : ℕ
  pub nodes : List GraphNode
  pub edges : List GraphEdge
  pub truncated : Bool

-- The variables of the loop.
pub record Search : Type 0 where
  pub seen : List String
  pub kept : List GraphEdge
  pub queue : List (String × ℕ)
  pub truncated : Bool

-- `adjacency[current]`: an edge of a node with itself is there twice.
unfoldable pub adjacent : String → List GraphEdge → List GraphEdge
adjacent current [] = []
adjacent current (e ∷ es) =
    let rest = adjacent current es in
    let once = if e.dst == current then e ∷ rest else rest in
    if e.src == current then e ∷ once else once

unfoldable pub other_end : String → GraphEdge → String
other_end current e = if e.src == current then e.dst else e.src

unfoldable pub keep_edge : GraphEdge → Search → Search
keep_edge e s = record s { kept = s.kept ++ (e ∷ []) }

-- The part of the loop's body for one edge.
unfoldable pub follow_edge : ℕ → ℕ → String → GraphEdge → Search → Search
unfolding keep_edge
follow_edge max_nodes d other e s =
    if elem other s.seen
    then keep_edge e s
    else if leb max_nodes (length s.seen)
    then record s { truncated = true }
    else keep_edge e (record s { seen = other ∷ s.seen; queue = s.queue ++ ((other, d + 1) ∷ []) })

unfoldable pub visit : ℕ → ℕ → String → List GraphEdge → Search → Search
unfolding follow_edge other_end
visit max_nodes d current [] s = s
visit max_nodes d current (e ∷ es) s =
    visit max_nodes d current es (follow_edge max_nodes d (other_end current e) e s)

module _ (edges : List GraphEdge) (depth max_nodes : ℕ) where
  -- What is done with a node that was taken from the queue.
  unfoldable pub attend_node : String → ℕ → Search → Search
  unfolding visit adjacent
  attend_node current d s =
      if leb depth d then s else visit max_nodes d current (adjacent current edges) s

  unfoldable pub search_from : ℕ → List (String × ℕ) → Search → Search
  unfolding attend_node
  search_from zero queue s = s
  search_from (suc fuel) [] s = s
  search_from (suc fuel) ((current, d) ∷ queue) s =
      let s' = attend_node current d (record s { queue = queue }) in search_from fuel s'.queue s'

  abbrev pub first_search : String → Search
  first_search root = record {
    seen = root ∷ [];
    kept = [];
    queue = (root, 0) ∷ [];
    truncated = false;
  }

  -- A node is queued once, and there are never more nodes than `max_nodes` and the root.
  unfoldable pub explored : String → Search
  unfolding search_from
  explored root = search_from (max_nodes + 2) ((root, 0) ∷ []) (first_search root)

unfoldable pub same_edge : GraphEdge → GraphEdge → Bool
same_edge e f = e.src == f.src && e.dst == f.dst && e.kind == f.kind

unfoldable pub key_le : GraphEdge → GraphEdge → Bool
key_le e f =
    if e.src == f.src
    then (if e.dst == f.dst then text_le e.kind f.kind else text_le e.dst f.dst)
    else text_le e.src f.src

-- A dictionary by keys: the last edge of a key replaces those before it.
unfoldable pub put_edge : GraphEdge → List GraphEdge → List GraphEdge
unfolding same_edge
put_edge e [] = e ∷ []
put_edge e (f ∷ fs) = if same_edge f e then e ∷ fs else f ∷ put_edge e fs

unfoldable pub put_edges : List GraphEdge → List GraphEdge → List GraphEdge
unfolding put_edge
put_edges [] fs = fs
put_edges (e ∷ es) fs = put_edges es (put_edge e fs)

-- The edges kept whose ends were seen, one for each key.
unfoldable pub seen_edges : Search → List GraphEdge
unfolding put_edges key_le sort_with
seen_edges s =
    sort_with key_le
      (put_edges (filter (λ (e : GraphEdge). elem e.src s.seen && elem e.dst s.seen) s.kept) [])

-- by_id[id]
unfoldable pub node_at : String → List GraphNode → Result GraphNode
node_at id [] = err key_error
node_at id (n ∷ ns) =
    let rest = node_at id ns in
    elim rest [ ok later ↦ ok later | err e ↦ if n.node_id == id then ok n else err e ]

unfoldable pub nodes_at : List String → List GraphNode → Result (List GraphNode)
unfolding node_at
nodes_at [] nodes = ok []
nodes_at (id ∷ ids) nodes = node_at id nodes >>= λ n. nodes_at ids nodes >>= λ rest. ok (n ∷ rest)

unfoldable pub neighborhood_of : EvidenceGraph → String → ℕ → Search → Result Neighborhood
unfolding nodes_at sorted_set seen_edges
neighborhood_of graph root depth s = nodes_at (sorted_set s.seen) graph.nodes >>= λ nodes.
    ok (record {
      root = root;
      depth = depth;
      nodes = nodes;
      edges = seen_edges s;
      truncated = s.truncated;
    })

unfoldable pub neighborhood : EvidenceGraph → String → ℕ → ℕ → Result Neighborhood
unfolding neighborhood_of explored
neighborhood graph root depth max_nodes =
    if elem root (map (λ (n : GraphNode). n.node_id) graph.nodes)
    then neighborhood_of graph root depth (explored graph.edges depth max_nodes root)
    else ok (record { root = root; depth = depth; nodes = []; edges = []; truncated = false })
