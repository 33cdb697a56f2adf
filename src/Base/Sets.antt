-- ===== src/Base/Sets.antt =====
-- What `sorted(set(texts))` holds.
use Prim.Native.Nat.{suc, ◌≤◌, Ordering}
use Prim.Native.String.{String, compare}
use text.Mathlib.TextEquality.{path_by_compare}
use sep.Base.{◌≡◌, refl, ap, ◌∙◌, ◌||◌, ◌==◌, List, [], ◌∷◌, length, elem, arith}
use sep.Base.Sort.{insert_text, sorted_set}

elem-insert_text :
    (x s : String) (l : List String) → elem x (insert_text s l) ≡ (x == s || elem x l)
unfolding insert_text
elem-insert_text x s [] = refl
elem-insert_text x s (t ∷ ts) =
    elim (compare s t)
        as (λ o.
          compare s t ≡ o
          → elem x (elim o [
            | Ordering.lt ↦ s ∷ (t ∷ ts)
            | Ordering.eq ↦ t ∷ ts
            | Ordering.gt ↦ t ∷ insert_text s ts
          ])
            ≡ (x == s || elem x (t ∷ ts))) [
              | Ordering.lt ↦ λ e. refl
              | Ordering.eq ↦ λ e. rw (path_by_compare s t e) (ground arith)
              | Ordering.gt ↦ λ e. rw (elem-insert_text x s ts) (ground arith)
            ]
      refl

pub elem-sorted_set : (x : String) (l : List String) → elem x (sorted_set l) ≡ elem x l
unfolding sorted_set
elem-sorted_set x [] = refl
elem-sorted_set x (s ∷ l) =
    elem-insert_text x s (sorted_set l) ∙ ap (λ b. x == s || b) (elem-sorted_set x l)

length-insert_text : (s : String) (l : List String) → length (insert_text s l) ≤ suc (length l)
unfolding insert_text
length-insert_text s [] = omega arith
length-insert_text s (t ∷ ts) =
    let shorter = length-insert_text s ts in
    elim (compare s t)
      as (λ o.
        length (elim o [
          | Ordering.lt ↦ s ∷ (t ∷ ts)
          | Ordering.eq ↦ t ∷ ts
          | Ordering.gt ↦ t ∷ insert_text s ts
        ])
        ≤ suc (length (t ∷ ts))) [
          | Ordering.lt ↦ omega arith
          | Ordering.eq ↦ omega arith
          | Ordering.gt ↦ omega (arith, shorter)
        ]

pub length-sorted_set : (l : List String) → length (sorted_set l) ≤ length l
unfolding sorted_set
length-sorted_set [] = omega arith
length-sorted_set (s ∷ l) = omega (arith, length-insert_text s (sorted_set l), length-sorted_set l)
