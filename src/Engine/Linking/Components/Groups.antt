-- ===== src/Engine/Linking/Components/Groups.antt =====
-- engine/linking.py: the groups of trades that `gather` makes.
use mathlib.Core.List.{Memᴰ}
use sep.Base.{
  ℕ, zero, suc, ◌<◌, ◌≡◌, refl, sym, ap, subst, ◌∙◌, Bool, true, false, inl, inr, ◌⊎◌, List, [],
  ◌∷◌, ◌++◌, if◌then◌else◌, eqb, All, Bool-cases, arith,
}
use sep.Engine.Linking.UnionFind.{find_root}
use sep.Engine.Linking.UnionFind.Roots.{root, Falls, find_root-Finds, eqb→eq, eqb→ne}
use sep.Engine.Linking.Trades.{places}
use sep.Engine.Linking.Components.{put_in, gather}

-- The trades of the first group with this key.
pub at_key : ℕ → List (ℕ × List ℕ) → List ℕ
at_key r [] = []
at_key r ((k, members) ∷ groups) = if eqb k r then members else at_key r groups

-- A key under which there is a trade is that of a group.
pub at_key-Memᴰ :
    (r u : ℕ) (groups : List (ℕ × List ℕ))
    → Memᴰ u (at_key r groups)
    → Memᴰ (r, at_key r groups) groups
unfolding at_key
at_key-Memᴰ r u [] m = elim m [ ]
at_key-Memᴰ r u ((k, members) ∷ groups) m = elim (Bool-cases (eqb k r)) [
  | inl at ↦ rw at (Memᴰ.head (ap (λ (c : ℕ). (c, members)) (sym (eqb→eq k r at))))
  | inr off ↦ rw off (Memᴰ.tail (at_key-Memᴰ r u groups (rw off at m)))
]

eqb_refl : (n : ℕ) → eqb n n ≡ true
eqb_refl n = ground arith

Memᴰ-left : (t u : ℕ) (ts : List ℕ) → Memᴰ u ts → Memᴰ u (ts ++ (t ∷ []))
Memᴰ-left t u [] m = elim m [ ]
Memᴰ-left t u (x ∷ xs) (Memᴰ.head e) = Memᴰ.head e
Memᴰ-left t u (x ∷ xs) (Memᴰ.tail m) = Memᴰ.tail (Memᴰ-left t u xs m)

Memᴰ-last : (t : ℕ) (ts : List ℕ) → Memᴰ t (ts ++ (t ∷ []))
Memᴰ-last t [] = Memᴰ.head refl
Memᴰ-last t (x ∷ xs) = Memᴰ.tail (Memᴰ-last t xs)

module _ (class : ℕ → ℕ) where
  -- A group has the trades of one class.
  abbrev pub OfClass : ℕ × List ℕ → Type 0
  OfClass (k, members) = All (λ t. class t ≡ k) members

  All-snoc :
      (k t : ℕ) (ts : List ℕ)
      → All (λ t. class t ≡ k) ts
      → class t ≡ k
      → All (λ t. class t ≡ k) (ts ++ (t ∷ []))
  All-snoc k t [] h e = (e, tt)
  All-snoc k t (u ∷ us) (h, hs) e = (h, All-snoc k t us hs e)

  put_in-OfClass :
      (t : ℕ) (groups : List (ℕ × List ℕ))
      → All OfClass groups
      → All OfClass (put_in (class t) t groups)
  unfolding put_in
  put_in-OfClass t [] h = ((refl, tt), tt)
  put_in-OfClass t ((k, members) ∷ groups) (h, hs) = elim (Bool-cases (eqb k (class t))) [
    | inl at ↦ rw at (All-snoc k t members h (sym (eqb→eq k (class t) at)), hs)
    | inr off ↦ rw off (h, put_in-OfClass t groups hs)
  ]

  abbrev pub Holds : List (ℕ × List ℕ) → ℕ → Type 0
  Holds groups t = Memᴰ t (at_key (class t) groups)

  put_in-adds : (t : ℕ) (groups : List (ℕ × List ℕ)) → Holds (put_in (class t) t groups) t
  unfolding put_in at_key
  put_in-adds t [] = rw (eqb_refl (class t)) (Memᴰ.head refl)
  put_in-adds t ((k, members) ∷ groups) = elim (Bool-cases (eqb k (class t))) [
    | inl at ↦ rw at (rw at (Memᴰ-last t members))
    | inr off ↦ rw off (rw off (put_in-adds t groups))
  ]

  put_in-keeps :
      (r t k : ℕ) (u : ℕ) (groups : List (ℕ × List ℕ))
      → Memᴰ u (at_key k groups)
      → Memᴰ u (at_key k (put_in r t groups))
  unfolding put_in at_key
  put_in-keeps r t k u [] m = elim m [ ]
  put_in-keeps r t k u ((j, members) ∷ groups) m = elim (Bool-cases (eqb j r)) [
    | inl at ↦ rw at (grown (eqb j k) members groups m)
    | inr off ↦ rw off (below (eqb j k) members groups m (put_in-keeps r t k u groups))
  ]
    where
      grown :
          (b : Bool) (ms : List ℕ) (gs : List (ℕ × List ℕ))
          → Memᴰ u (if b then ms else at_key k gs)
          → Memᴰ u (if b then ms ++ (t ∷ []) else at_key k gs)
      grown true ms gs m = Memᴰ-left t u ms m
      grown false ms gs m = m

      below :
          (b : Bool) (ms : List ℕ) (gs : List (ℕ × List ℕ))
          → Memᴰ u (if b then ms else at_key k gs)
          → (Memᴰ u (at_key k gs) → Memᴰ u (at_key k (put_in r t gs)))
          → Memᴰ u (if b then ms else at_key k (put_in r t gs))
      below true ms gs m ih = m
      below false ms gs m ih = ih m

  pub record Gathered (ts : List ℕ) (groups out : List (ℕ × List ℕ)) : Type 0 where
    pub of_class : All OfClass out
    pub kept : (u : ℕ) → Holds groups u → Holds out u
    pub added : (u : ℕ) → Memᴰ u ts → Holds out u

  pub gather-Gathered :
      (ts : List ℕ) (groups : List (ℕ × List ℕ)) (parent : ℕ → ℕ)
      → Falls parent
      → ((x : ℕ) → root parent x ≡ class x)
      → All OfClass groups
      → Gathered ts groups (gather ts (groups, parent)).0
  unfolding gather
  gather-Gathered [] groups parent f same h = record {
    of_class = h;
    kept = λ u i. i;
    added = λ u m. elim m [ ];
  }
  gather-Gathered (t ∷ ts) groups parent f same h =
      let found = find_root-Finds parent t f in
      let out = find_root parent t in
      let e : out.0 ≡ class t = found.is_root ∙ same t in
      let later =
        gather-Gathered ts (put_in (class t) t groups) out.1 found.after
          (λ x. found.same_roots x ∙ same x) (put_in-OfClass t groups h) in
      subst (λ r. Gathered (t ∷ ts) groups (gather ts (put_in r t groups, out.1)).0) (sym e)
        (record {
          of_class = later.of_class;
          kept = λ u m. later.kept u (put_in-keeps (class t) t (class u) u groups m);
          added = λ u m. added_to t ts groups _ u later m;
        })
    where
      added_to :
          (t : ℕ) (ts : List ℕ) (groups out : List (ℕ × List ℕ)) (u : ℕ)
          → Gathered ts (put_in (class t) t groups) out
          → Memᴰ u (t ∷ ts)
          → Holds out u
      added_to t ts groups out u later (Memᴰ.head e) =
          later.kept u (subst (Holds (put_in (class t) t groups)) (sym e) (put_in-adds t groups))
      added_to t ts groups out u later (Memᴰ.tail m) = later.added u m

pub places-Memᴰ : (n x : ℕ) (rest : List ℕ) → (x < n) ⊎ Memᴰ x rest → Memᴰ x (places n rest)
places-Memᴰ zero x rest (inl h) = absurd (omega (arith, h))
places-Memᴰ zero x rest (inr m) = m
places-Memᴰ (suc n) x rest (inr m) = places-Memᴰ n x (n ∷ rest) (inr (Memᴰ.tail m))
places-Memᴰ (suc n) x rest (inl h) = elim (Bool-cases (eqb x n)) [
  | inl at ↦ places-Memᴰ n x (n ∷ rest) (inr (Memᴰ.head (eqb→eq x n at)))
  | inr off ↦ places-Memᴰ n x (n ∷ rest) (inl (omega (arith, h, eqb→ne x n off)))
]

pub All-at : (P : ℕ → Type 0) (x : ℕ) (xs : List ℕ) → All P xs → Memᴰ x xs → P x
All-at P x [] h m = elim m [ ]
All-at P x (y ∷ ys) (h, hs) (Memᴰ.head e) = subst P (sym e) h
All-at P x (y ∷ ys) (h, hs) (Memᴰ.tail m) = All-at P x ys hs m

pub group_at :
    (P : ℕ × List ℕ → Type 0) (g : ℕ × List ℕ) (gs : List (ℕ × List ℕ)) → All P gs → Memᴰ g gs → P g
group_at P g [] h m = elim m [ ]
group_at P g (k ∷ gs) (h, hs) (Memᴰ.head e) = subst P (sym e) h
group_at P g (k ∷ gs) (h, hs) (Memᴰ.tail m) = group_at P g gs hs m
