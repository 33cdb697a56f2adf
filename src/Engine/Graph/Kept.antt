-- ===== src/Engine/Graph/Kept.antt =====
-- engine/graph.py: the edges that the search keeps.
use mathlib.Core.List.{Memᴰ}
use sep.Base.{
  and_left, and_right, ℕ, zero, suc, ◌+◌, ◌≡◌, refl, sym, subst, String, Bool, true, false, ◌&&◌,
  inl, inr, ◌⊎◌, List, [], ◌∷◌, ◌++◌, if◌then◌else◌, filter, leb, length, elem, Bool-cases,
}
use sep.Base.Filters.{Memᴰ-filter}
use sep.Base.Sort.{Memᴰ-sort_with}
use sep.Engine.Graph.{
  GraphEdge, Search, adjacent, other_end, keep_edge, follow_edge, visit, attend_node, search_from,
  first_search, explored, same_edge, put_edge, put_edges, key_le, seen_edges,
}
use sep.Engine.Graph.Layers.{adjacent_sound}

module _ (edges : List GraphEdge) (depth max_nodes : ℕ) where
  abbrev Own : Search → Type 0
  Own s = (e : GraphEdge) → Memᴰ e s.kept → Memᴰ e edges

  keep_edge-Own : (e : GraphEdge) (s : Search) → Own s → Memᴰ e edges → Own (keep_edge e s)
  unfolding keep_edge
  keep_edge-Own e s own there f m = elim (Memᴰ-kept s.kept m) [
    | inl old ↦ own f old
    | inr new ↦ subst (λ e. Memᴰ e edges) (sym new) there
  ]
    where
      Memᴰ-kept : (es : List GraphEdge) → Memᴰ f (es ++ (e ∷ [])) → Memᴰ f es ⊎ (f ≡ e)
      Memᴰ-kept [] (Memᴰ.head same) = inr same
      Memᴰ-kept [] (Memᴰ.tail m) = elim m [ ]
      Memᴰ-kept (g ∷ es) (Memᴰ.head same) = inl (Memᴰ.head same)
      Memᴰ-kept (g ∷ es) (Memᴰ.tail m) = elim (Memᴰ-kept es m) [
        | inl old ↦ inl (Memᴰ.tail old)
        | inr new ↦ inr new
      ]

  follow_edge-Own :
      (d : ℕ) (y : String) (e : GraphEdge) (s : Search)
      → Own s
      → Memᴰ e edges
      → Own (follow_edge max_nodes d y e s)
  unfolding follow_edge
  follow_edge-Own d y e s own there = elim (Bool-cases (elem y s.seen)) [
    | inl old ↦ rw old (keep_edge-Own e s own there)
    | inr new ↦ rw new (elim (Bool-cases (leb max_nodes (length s.seen))) [
      | inl full ↦ rw full own
      | inr room ↦ rw room (
          keep_edge-Own e (record s { seen = y ∷ s.seen; queue = s.queue ++ ((y, d + 1) ∷ []) }) own
            there)
    ])
  ]

  visit-Own :
      (d : ℕ) (x : String) (es : List GraphEdge) (s : Search)
      → Own s
      → ((e : GraphEdge) → Memᴰ e es → Memᴰ e edges)
      → Own (visit max_nodes d x es s)
  unfolding visit
  visit-Own d x [] s own from = own
  visit-Own d x (e ∷ es) s own from =
      visit-Own d x es _ (follow_edge-Own d (other_end x e) e s own (from e (Memᴰ.head refl)))
        (λ f m. from f (Memᴰ.tail m))

  attend_node-Own :
      (x : String) (d : ℕ) (s : Search) → Own s → Own (attend_node edges depth max_nodes x d s)
  unfolding attend_node
  attend_node-Own x d s own = elim (Bool-cases (leb depth d)) [
    | inl over ↦ (rw over own)
    | inr deep ↦
        rw deep (visit-Own d x (adjacent x edges) s own (λ e m. (adjacent_sound x edges e m).0))
  ]

  search_from-Own :
      (fuel : ℕ) (queue : List (String × ℕ)) (s : Search)
      → Own s
      → Own (search_from edges depth max_nodes fuel queue s)
  unfolding search_from
  search_from-Own zero queue s own = own
  search_from-Own (suc fuel) [] s own = own
  search_from-Own (suc fuel) ((x, d) ∷ queue) s own =
      search_from-Own fuel _ _ (attend_node-Own x d (record s { queue = queue }) own)

  pub explored-Own : (root : String) → Own (explored edges depth max_nodes root)
  unfolding explored
  explored-Own root =
      search_from-Own (max_nodes + 2) _ (first_search edges depth max_nodes root)
        (λ e m. elim m [ ])

-- What `seen_edges` returns was kept, and both ends were seen.
put_edge-Memᴰ :
    (e f : GraphEdge) (fs : List GraphEdge) → Memᴰ e (put_edge f fs) → (e ≡ f) ⊎ Memᴰ e fs
unfolding put_edge
put_edge-Memᴰ e f [] (Memᴰ.head same) = inl same
put_edge-Memᴰ e f [] (Memᴰ.tail m) = inr m
put_edge-Memᴰ e f (g ∷ fs) m = placed (same_edge g f) m (put_edge-Memᴰ e f fs)
  where
    placed :
        (b : Bool)
        → Memᴰ e (if b then f ∷ fs else g ∷ put_edge f fs)
        → (Memᴰ e (put_edge f fs) → (e ≡ f) ⊎ Memᴰ e fs)
        → (e ≡ f) ⊎ Memᴰ e (g ∷ fs)
    placed true (Memᴰ.head same) rest = inl same
    placed true (Memᴰ.tail m) rest = inr (Memᴰ.tail m)
    placed false (Memᴰ.head same) rest = inr (Memᴰ.head same)
    placed false (Memᴰ.tail m) rest = elim (rest m) [
      | inl new ↦ inl new
      | inr old ↦ inr (Memᴰ.tail old)
    ]

put_edges-Memᴰ :
    (e : GraphEdge) (es fs : List GraphEdge) → Memᴰ e (put_edges es fs) → Memᴰ e es ⊎ Memᴰ e fs
unfolding put_edges
put_edges-Memᴰ e [] fs m = inr m
put_edges-Memᴰ e (f ∷ es) fs m = elim (put_edges-Memᴰ e es (put_edge f fs) m) [
  | inl later ↦ inl (Memᴰ.tail later)
  | inr put ↦ elim (put_edge-Memᴰ e f fs put) [
    | inl same ↦ inl (Memᴰ.head same)
    | inr old ↦ inr old
  ]
]

pub seen_edges-Memᴰ :
    (s : Search) (e : GraphEdge)
    → Memᴰ e (seen_edges s)
    → Memᴰ e s.kept × (elem e.src s.seen ≡ true) × (elem e.dst s.seen ≡ true)
unfolding seen_edges
seen_edges-Memᴰ s e m =
    elim (put_edges-Memᴰ e (filter within s.kept) [] (Memᴰ-sort_with key_le e _ m)) [
      | inl there ↦
          (let (old, ends) = Memᴰ-filter within e s.kept there in
            (
              old,
              and_left (elem e.src s.seen) (elem e.dst s.seen) ends,
              and_right (elem e.src s.seen) (elem e.dst s.seen) ends,
            ))
      | inr none_yet ↦ elim none_yet [ ]
    ]
  where
    within : GraphEdge → Bool
    within e = elem e.src s.seen && elem e.dst s.seen
