-- ===== src/Engine/Linking/Attempt.antt =====
-- engine/linking.py: the state of `build_episodes` and its inner function `attempt`. The lists of links
-- and of flags are kept newest first.
pub mod Kept
pub mod Classes
pub mod Spans
use Prim.Native.Nat.{min, max}
use Prim.Native.String
use sep.Base.{
  ℕ, ◌-◌, String, Bool, true, false, not, ◌&&◌, Option, none, some, List, [], ◌∷◌, ◌++◌,
  if◌then◌else◌, eqb, ltb, ◌==◌,
}
use sep.Base.Sort.{sorted_set}
use sep.Domain.Cases.{LinkStatus}
use sep.Engine.Linking.UnionFind.{update, find_root, union}

-- `TradeLink`, between places. The kind and the tier of a link are kept by their values.
pub record Link : Type 0 where
  pub src : ℕ
  pub dst : ℕ
  pub kind : String
  pub tier : String
  pub status : LinkStatus
  pub provenance : String
  pub reason : String
  pub evidence : List (String × String)

-- `_Guards`: the limits, and the tests of a value. `normal` is `value.strip().upper()`, and
-- `full_match` that some pattern matches the whole text.
pub record Guards : Type 0 where
  pub max_span : ℕ
  pub medium_gap : ℕ
  pub max_fanout : ℕ
  pub degenerate : List String
  pub normal : String → String
  pub full_match : String → Bool

pub record Linking : Type 0 where
  pub parent : ℕ → ℕ
  pub span_lo : ℕ → ℕ
  pub span_hi : ℕ → ℕ
  pub instruments : ℕ → List String
  pub accepted : List Link
  pub rejected : List Link
  pub flags : List (ℕ × String)

-- Sets of texts are kept sorted, so that equal sets are equal lists.
unfoldable pub same_texts : List String → List String → Bool
same_texts [] [] = true
same_texts [] (y ∷ ys) = false
same_texts (x ∷ xs) [] = false
same_texts (x ∷ xs) (y ∷ ys) = x == y && same_texts xs ys

unfoldable pub reject_link : Link → String → Linking → Linking
reject_link link reason s = record s {
  rejected = record link { status = LinkStatus.rejected; reason = reason } ∷ s.rejected;
}

unfoldable pub flag : ℕ → String → Linking → Linking
flag place text s = record s { flags = (place, text) ∷ s.flags }

unfoldable pub accept : Link → Linking → Linking
accept link s = record s { accepted = link ∷ s.accepted }

unfoldable pub joined_at : ℕ × (ℕ → ℕ) → ℕ → ℕ → Linking → Linking
unfolding update sorted_set
joined_at (root, parent) ra rb s = record s {
  parent = parent;
  span_lo = update s.span_lo root (min (s.span_lo ra) (s.span_lo rb));
  span_hi = update s.span_hi root (max (s.span_hi ra) (s.span_hi rb));
  instruments = update s.instruments root (sorted_set (s.instruments ra ++ s.instruments rb));
}

unfoldable pub settle_link : Link → ℕ → ℕ → Option String → Linking → Linking
unfolding accept joined_at union reject_link flag
settle_link link ra rb none s = accept link (joined_at (union s.parent ra rb) ra rb s)
settle_link link ra rb (some reason) s =
    let text = String.◌++◌ "LINK_REJECTED_" reason in
    flag link.dst text (flag link.src text (reject_link link reason s))

module _ (guards : Guards) where
  -- Why the episodes with the roots `ra` and `rb` are not joined.
  unfoldable pub refusal : Link → ℕ → ℕ → Linking → Option String
  unfolding same_texts
  refusal link ra rb s =
      if ltb guards.max_span (max (s.span_hi ra) (s.span_hi rb) - min (s.span_lo ra) (s.span_lo rb))
      then some "OVER_SPAN"
      else if not (link.tier == "S") && not (same_texts (s.instruments ra) (s.instruments rb))
      then some "CROSS_INSTRUMENT"
      else none

  unfoldable pub between : Link → ℕ → ℕ → Linking → Linking
  unfolding accept settle_link refusal
  between link ra rb s =
      if eqb ra rb then accept link s else settle_link link ra rb (refusal link ra rb s) s

  unfoldable pub attempt : Link → Linking → Linking
  unfolding find_root between
  attempt link s =
      let (ra, parent₁) = find_root s.parent link.src in
      let (rb, parent₂) = find_root parent₁ link.dst in
      between link ra rb (record s { parent = parent₂ })
