-- ===== src/Engine/Graph/Explored.antt =====
-- engine/graph.py: the whole search, its end and what it has seen.
use Prim.Native.Nat.{max}
use mathlib.Core.List.{Memᴰ}
use sep.Base.{
  ℕ, zero, suc, ◌+◌, ◌-◌, ◌≤◌, ◌<◌, ◌≡◌, refl, sym, ap, subst, String, Bool, true, false, inl, inr,
  ◌↔◌, List, [], ◌∷◌, leb, leb→le, leb→gt, length, elem, Bool-cases, ◌==◌, ◌||◌, eq_iff, arith,
}
use sep.Engine.Graph.{
  GraphEdge, Search, adjacent, other_end, attend_node, search_from, first_search, explored,
}
use sep.Engine.Graph.Layers.{
  Joins, Layered, Layered-tail, adjacent-Memᴰ, adjacent_sound, other_end-Joins,
}
use sep.Engine.Graph.Known.{Near, At, Known, Grown, Reached, cap}
use sep.Engine.Graph.Follow.{visit-Visited, Grown-refl}

or_false : (a : Bool) → (a || false) ≡ true → a ≡ true
or_false true h = refl
or_false false h = h

module _ (edges : List GraphEdge) (depth max_nodes : ℕ) (root : String) where
  abbrev room : Search → ℕ
  room s = cap edges depth max_nodes root - length s.seen

  -- What holds before each pass of the loop.
  record Going (done : List (String × ℕ)) (m : ℕ) (s : Search) : Type 0 where
    known : Known edges depth max_nodes root done m s
    follows :
        s.truncated ≡ false
        → (x : String) (n : ℕ) → Memᴰ (x, n) done
        → n < depth
        → (e : GraphEdge) (y : String) → Memᴰ e edges
        → Joins e x y
        → Reached edges depth max_nodes root done n s y
    root_at : At done s.queue root 0

  module _ (done : List (String × ℕ)) (m : ℕ) (x : String) (d : ℕ) (q : List (String × ℕ))
      (s : Search) (g : Going done m s) (front : s.queue ≡ (x, d) ∷ q) where
    abbrev done' : List (String × ℕ)
    done' = (x, d) ∷ done

    abbrev popped : Search
    popped = record s { queue = q }

    At-pop : (y : String) (n : ℕ) → At done s.queue y n → At done' q y n
    At-pop y n (inl mem) = inl (Memᴰ.tail mem)
    At-pop y n (inr mem) = elim (subst (λ q. Memᴰ (y, n) q) front mem) [
      | Memᴰ.head same ↦ inl (Memᴰ.head same)
      | Memᴰ.tail rest ↦ inr rest
    ]

    At-push : (y : String) (n : ℕ) → At done' q y n → At done s.queue y n
    At-push y n (inl (Memᴰ.tail mem)) = inl mem
    At-push y n (inl (Memᴰ.head same)) =
        inr (subst (λ q. Memᴰ (y, n) q) (sym front) (Memᴰ.head same))
    At-push y n (inr mem) = inr (subst (λ q. Memᴰ (y, n) q) (sym front) (Memᴰ.tail mem))

    layers : Layered d q × (m ≤ d)
    layers = Layered-tail m x d q (subst (Layered m) front g.known.layered)

    popped-Known : Known edges depth max_nodes root done' d popped
    popped-Known = record {
      layered = layers.0;
      low = λ y n mem. elim mem [
        | Memᴰ.head same ↦ omega (arith, ap (λ (p : String × ℕ). p.1) same)
        | Memᴰ.tail rest ↦ omega (arith, g.known.low y n rest, layers.1)
      ];
      listed = λ y h. (let (n, at) = g.known.listed y h in (n, At-pop y n at));
      in_seen = λ y n at. g.known.in_seen y n (At-push y n at);
      near = λ y n at. g.known.near y n (At-push y n at);
      few = g.known.few;
    }

    Near-x : Near edges root d x × (d ≤ depth)
    Near-x = popped-Known.near x d (inl (Memᴰ.head refl))

    -- What a pass over the node's edges makes of the search.
    Grown-Going :
        (t : Search)
        → Grown edges depth max_nodes root done' d popped t
        → (t.truncated ≡ false
            → d < depth
            → (e : GraphEdge) → Memᴰ e (adjacent x edges)
            → Reached edges depth max_nodes root done' d t (other_end x e))
        → Going done' d t
    Grown-Going t w ends = record {
      known = w.known;
      follows = λ o y n mem deep e z there joins. elim mem [
        | Memᴰ.head same ↦
            (let turned = subst (λ y. Joins e y z) (ap (λ (p : String × ℕ). p.0) same) joins in
              let same_depth : n ≡ d = ap (λ (p : String × ℕ). p.1) same in
              let (k, le, at) =
                ends o (omega (arith, deep, same_depth)) e
                  (adjacent-Memᴰ x z e edges there turned) in
              (
                k,
                omega (arith, le, same_depth),
                subst (λ u. At done' t.queue u k) (other_end-Joins e x z turned) at,
              ))
        | Memᴰ.tail rest ↦
            (let (k, le, at) = g.follows (w.opens o) y n rest deep e z there joins in
              (k, le, at_grown z k (At-pop z k at)))
      ];
      root_at = at_grown root 0 (At-pop root 0 g.root_at);
    }
      where
        at_grown : (y : String) (n : ℕ) → At done' q y n → At done' t.queue y n
        at_grown y n (inl mem) = inl mem
        at_grown y n (inr mem) = inr (w.grows (y, n) mem)

    attend_node-Going :
        Going done' d (attend_node edges depth max_nodes x d popped)
        × (length (attend_node edges depth max_nodes x d popped).queue
              + room (attend_node edges depth max_nodes x d popped)
            ≤ length q + room s)
    unfolding attend_node
    attend_node-Going = elim (Bool-cases (leb depth d)) [
      | inl over ↦ rw over (
        Grown-Going popped (Grown-refl edges depth max_nodes root done' d popped popped-Known)
            (λ o deep. absurd (omega (arith, deep, leb→le depth d over))),
        omega arith,
      )
      | inr deep ↦ rw deep (
          let v =
            visit-Visited edges depth max_nodes root done' d x (adjacent x edges) popped
              popped-Known Near-x.0 (leb→gt depth d deep) (adjacent_sound x edges) in
          (Grown-Going _ v.grown (λ o deep. v.ends o), v.grown.falls))
    ]

  record Finished (t : Search) : Type 0 where
    done : List (String × ℕ)
    depth_of_last : ℕ
    going : Going done depth_of_last t
    queue_empty : t.queue ≡ []

  search_from-Finished :
      (fuel : ℕ) (queue : List (String × ℕ)) (s : Search) (done : List (String × ℕ)) (m : ℕ)
      → Going done m s
      → s.queue ≡ queue
      → length queue + room s < fuel
      → Finished (search_from edges depth max_nodes fuel queue s)
  unfolding search_from
  search_from-Finished zero queue s done m g at enough = absurd (omega (arith, enough))
  search_from-Finished (suc fuel) [] s done m g at enough = record {
    done = done;
    depth_of_last = m;
    going = g;
    queue_empty = at;
  }
  search_from-Finished (suc fuel) ((x, d) ∷ queue) s done m g at enough =
      let (g', falls) = attend_node-Going done m x d queue s g at in
      search_from-Finished fuel _ _ ((x, d) ∷ done) d g' refl (omega (arith, enough, falls))

  only_root : (x : String) (n : ℕ) → At [] ((root, 0) ∷ []) x n → (x ≡ root) × (n ≡ 0)
  only_root x n (inl m) = elim m [ ]
  only_root x n (inr (Memᴰ.head same)) =
      (ap (λ (p : String × ℕ). p.0) same, ap (λ (p : String × ℕ). p.1) same)
  only_root x n (inr (Memᴰ.tail m)) = elim m [ ]

  first-Going : Going [] 0 (first_search edges depth max_nodes root)
  first-Going = record {
    known = record {
      layered = inl (refl, tt);
      low = λ x n mem. elim mem [ ];
      listed = λ x h.
          (0, inr (Memᴰ.head (ap (λ y. (y, 0)) ((eq_iff x root).0 (or_false (x == root) h)))));
      in_seen = λ x n at. rw ((eq_iff x root).1 (only_root x n at).0) refl;
      near = λ x n at.
          (let (at_x, zero_n) = only_root x n at in
            subst (λ n. Near edges root n x × (n ≤ depth)) (sym zero_n)
              (subst (λ x. Near edges root 0 x) (sym at_x) Near.here, omega arith));
      few = omega arith;
    };
    follows = λ o x n mem. elim mem [ ];
    root_at = inr (Memᴰ.head refl);
  }

  explored-Finished : Finished (explored edges depth max_nodes root)
  unfolding explored
  explored-Finished = search_from-Finished (max_nodes + 2) _ _ [] 0 first-Going refl (omega arith)

  -- However the graph is: the search comes to its end, with no node left in its queue, and has seen
  -- at most `max_nodes` nodes, the root always.
  pub explored-Few :
      ((explored edges depth max_nodes root).queue ≡ [])
      × (length (explored edges depth max_nodes root).seen ≤ max max_nodes 1)
      × (elem root (explored edges depth max_nodes root).seen ≡ true)
  explored-Few =
      let f = explored-Finished in
      (f.queue_empty, f.going.known.few, f.going.known.in_seen root 0 f.going.root_at)

  emptied :
      (y : String) (n : ℕ)
      → At explored-Finished.done (explored edges depth max_nodes root).queue y n
      → Memᴰ (y, n) explored-Finished.done
  emptied y n (inl m) = m
  emptied y n (inr m) = elim (subst (λ q. Memᴰ (y, n) q) explored-Finished.queue_empty m) [ ]

  Near-done :
      (n : ℕ) (y : String)
      → Near edges root n y
      → n ≤ depth
      → (explored edges depth max_nodes root).truncated ≡ false
      → (k : ℕ) × (k ≤ n) × Memᴰ (y, k) explored-Finished.done
  Near-done zero y Near.here le o = (0, omega arith, emptied root 0 explored-Finished.going.root_at)
  Near-done (suc n) y (Near.along {x = x} e near there joins) le o =
      let (k, below, mem) = Near-done n x near (omega (arith, le)) o in
      let (j, next, at) =
        explored-Finished.going.follows o x k mem (omega (arith, below, le)) e y there joins in
      (j, omega (arith, next, below), emptied y j at)

  pub seen-Near :
      (y : String)
      → elem y (explored edges depth max_nodes root).seen ≡ true
      → (n : ℕ) × (n ≤ depth) × Near edges root n y
  seen-Near y h =
      let (n, at) = explored-Finished.going.known.listed y h in
      let (near, le) = explored-Finished.going.known.near y n at in (n, le, near)

  pub seen-Near_iff :
      (explored edges depth max_nodes root).truncated ≡ false
      → (y : String)
      → (elem y (explored edges depth max_nodes root).seen ≡ true)
        ↔ (n : ℕ) × (n ≤ depth) × Near edges root n y
  seen-Near_iff o y = (
    seen-Near y,
    λ r.
        (let (n, le, near) = r in
          let (k, below, mem) = Near-done n y near le o in
          explored-Finished.going.known.in_seen y k (inl mem)),
  )
