-- ===== src/Engine/Linking/Components/Partition.antt =====
-- engine/linking.py: the components, their trades and their spans.
use mathlib.Core.List.{Memᴰ}
use sep.Base.{
  ℕ, ◌+◌, ◌≤◌, ◌<◌, ◌≡◌, ◌≢◌, refl, sym, ap, subst, ◌∙◌, inl, ◌↔◌, List, [], length, arith,
}
use sep.Engine.Linking.UnionFind.Roots.{root, Falls, root-top}
use sep.Engine.Linking.Attempt.{Guards}
use sep.Engine.Linking.Attempt.Classes.{Connected, itself, Classes, Classes-Kept, Classes-iff}
use sep.Engine.Linking.Attempt.Spans.{Spans, Spans-Kept}
use sep.Engine.Linking.Trades.{Inputs, unlinked, places, trade_ids, first_time, last_time}
use sep.Engine.Linking.Stages.{linked}
use sep.Engine.Linking.Stages.Kept.{linked-Kept}
use sep.Engine.Linking.Components.{components}
use sep.Engine.Linking.Components.Groups.{
  at_key, at_key-Memᴰ, OfClass, Gathered, gather-Gathered, places-Memᴰ, All-at, group_at,
}

-- Two trades stand in one component.
pub record Together (groups : List (ℕ × List ℕ)) (x y : ℕ) : Type 0 where
  pub group : ℕ × List ℕ
  pub there : Memᴰ group groups
  pub first : Memᴰ x group.1
  pub second : Memᴰ y group.1

module _ (inputs : Inputs) (guards : Guards) where
  unlinked-Falls : Falls (unlinked inputs).parent
  unfolding unlinked
  unlinked-Falls = record { falls = λ x. omega arith }

  alone : (x : ℕ) → root (unlinked inputs).parent x ≡ x
  unfolding unlinked
  alone x = root-top (unlinked inputs).parent unlinked-Falls x refl

  unlinked-Classes : Classes (unlinked inputs)
  unfolding unlinked
  unlinked-Classes = record {
    falls = unlinked-Falls;
    one_root = tt;
    linked = λ x. subst (Connected [] x) (sym (alone x)) itself;
  }

  unlinked-Spans : Spans guards.max_span (first_time inputs) (last_time inputs) (unlinked inputs)
  unfolding unlinked
  unlinked-Spans = record {
    falls = unlinked-Falls;
    starts = λ x. omega (arith, ap (first_time inputs) (alone x));
    ends = λ x. omega (arith, ap (last_time inputs) (alone x));
    bounded = λ x y ne e. absurd (ne (sym (alone x) ∙ (e ∙ alone y)));
  }

  pub linked-Classes : Classes (linked inputs guards)
  linked-Classes = linked-Kept inputs guards Classes (Classes-Kept guards) unlinked-Classes

  pub linked-Spans :
      Spans guards.max_span (first_time inputs) (last_time inputs) (linked inputs guards)
  linked-Spans =
      linked-Kept inputs guards (Spans guards.max_span (first_time inputs) (last_time inputs))
        (Spans-Kept guards (first_time inputs) (last_time inputs)) unlinked-Spans

  abbrev class : ℕ → ℕ
  class = root (linked inputs guards).parent

  abbrev count : ℕ
  count = length (trade_ids inputs)

  gathered : Gathered class (places count []) [] (components inputs guards)
  unfolding components
  gathered =
      gather-Gathered class (places count []) [] (linked inputs guards).parent linked-Classes.falls
        (λ x. refl) tt

  Together-class : (x y : ℕ) → Together (components inputs guards) x y → class x ≡ class y
  Together-class x y h =
      let all =
        group_at (OfClass class) h.group (components inputs guards) gathered.of_class h.there in
      All-at _ x h.group.1 all h.first ∙ sym (All-at _ y h.group.1 all h.second)

  class-Together :
      (x y : ℕ)
      → x < count
      → y < count
      → class x ≡ class y
      → Together (components inputs guards) x y
  class-Together x y hx hy e =
      let at_x = gathered.added x (places-Memᴰ count x [] (inl hx)) in
      let at_y = gathered.added y (places-Memᴰ count y [] (inl hy)) in
      record {
        group = (class x, at_key (class x) (components inputs guards));
        there = at_key-Memᴰ (class x) x (components inputs guards) at_x;
        first = at_x;
        second = subst (λ k. Memᴰ y (at_key k (components inputs guards))) (sym e) at_y;
      }

  -- Two trades stand in one component exactly if they are the same or accepted links lead from one
  -- to the other, each link taken in either direction: the least equivalence that relates the ends
  -- of every accepted link. The trades are places in the list of trade ids.
  pub components-Connected :
      (x y : ℕ)
      → x < length (trade_ids inputs)
      → y < length (trade_ids inputs)
      → Together (components inputs guards) x y ↔ Connected (linked inputs guards).accepted x y
  components-Connected x y hx hy = (
    λ t. (Classes-iff (linked inputs guards) linked-Classes x y).0 (Together-class x y t),
    λ c. class-Together x y hx hy ((Classes-iff (linked inputs guards) linked-Classes x y).1 c),
  )

  -- However links follow one another: of two different trades in one component, the last time of the
  -- one is not later than the first time of the other by more than the maximal span. A trade's times
  -- are those of its events, or of its alerts if it has no events.
  pub components-span :
      (x y : ℕ)
      → x ≢ y
      → Together (components inputs guards) x y
      → last_time inputs y ≤ first_time inputs x + guards.max_span
  components-span x y ne t =
      let e = Together-class x y t in
      omega (
        arith,
        linked-Spans.starts x,
        linked-Spans.ends y,
        linked-Spans.bounded x y ne e,
        ap (linked inputs guards).span_hi e,
      )
