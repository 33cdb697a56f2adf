-- ===== src/Base/Sort.antt =====
-- Python's `sorted`: by a numeric key, stable, and of a set of texts.
use Prim.Native.Nat.{ℕ, suc, ◌<◌, Ordering}
use Prim.Native.String.{String, compare}
use mathlib.Core.Path.{◌≡◌, refl, ap, ap₂, sym, ◌∙◌}
use mathlib.Core.Logic.{inl, inr}
use mathlib.Core.Bool.{Bool, true, false, ◌||◌}
use mathlib.Core.List.{List, [], ◌∷◌, Memᴰ, Permᴰ}
use native.Mathlib.Omega.{arith}
use sep.Base.Tests.{if◌then◌else◌, leb, leb→le, leb→gt, le→leb, Bool-cases}
use sep.Base.Lists.{any, length}

-- A text goes before the first one that is not smaller; one that is there already is dropped.
unfoldable pub insert_text : String → List String → List String
insert_text s [] = s ∷ []
insert_text s (t ∷ ts) =
    let rest = insert_text s ts in
    elim (compare s t) [
      | Ordering.lt ↦ s ∷ (t ∷ ts)
      | Ordering.eq ↦ t ∷ ts
      | Ordering.gt ↦ t ∷ rest
    ]

-- `sorted(set(texts))`
unfoldable pub sorted_set : List String → List String
unfolding insert_text
sorted_set [] = []
sorted_set (s ∷ texts) = insert_text s (sorted_set texts)

module _ {ℓ} {A : Type ℓ} (key : A → ℕ) where
  insert_by : A → List A → List A
  insert_by x [] = x ∷ []
  insert_by x (y ∷ ys) =
      let rest = insert_by x ys in if leb (key x) (key y) then x ∷ (y ∷ ys) else y ∷ rest

  -- `sorted(xs, key=key)`
  unfoldable pub sort_by : List A → List A
  unfolding insert_by
  sort_by [] = []
  sort_by (x ∷ xs) = insert_by x (sort_by xs)

  gt→leb : (x y : A) → key x < key y → leb (key y) (key x) ≡ false
  gt→leb x y h = ground arith

  insert_by-lt :
      (x y : A) (l : List A)
      → key x < key y
      → insert_by x (insert_by y l) ≡ insert_by y (insert_by x l)
  unfolding insert_by
  insert_by-lt x y [] h = rw (le→leb (key x) (key y) (omega (arith, h)), gt→leb x y h) refl
  insert_by-lt x y (z ∷ l) h = elim (Bool-cases (leb (key y) (key z))) [
    | inl below ↦
        rw
          (
            below,
            le→leb (key x) (key y) (omega (arith, h)),
            le→leb (key x) (key z) (omega (arith, h, leb→le (key y) (key z) below)),
            gt→leb x y h,
            below,
          )
          refl
    | inr above ↦ elim (Bool-cases (leb (key x) (key z))) [
      | inl before ↦ rw (above, before, gt→leb x y h) (rw above refl)
      | inr behind ↦
          rw (above, behind) (rw above (ap (λ (r : List A). z ∷ r) (insert_by-lt x y l h)))
    ]
  ]

  -- Elements with one key are one.
  abbrev pub IsKey : List A → Type ℓ
  IsKey xs = (x y : A) → Memᴰ x xs → Memᴰ y xs → key x ≡ key y → x ≡ y

  insert_by-swap :
      (x y : A) (l : List A)
      → (key x ≡ key y → x ≡ y)
      → insert_by x (insert_by y l) ≡ insert_by y (insert_by x l)
  insert_by-swap x y l same = elim (Bool-cases (leb (key x) (key y))) [
    | inl le ↦ elim (Bool-cases (leb (key y) (key x))) [
      | inl ge ↦
          let e : x ≡ y =
            same (omega (arith, leb→le (key x) (key y) le, leb→le (key y) (key x) ge)) in
          rw e refl
      | inr lt ↦ insert_by-lt x y l (leb→gt (key y) (key x) lt)
    ]
    | inr gt ↦ sym (insert_by-lt y x l (leb→gt (key x) (key y) gt))
  ]

  module _ (p : A → Bool) where
    any-insert_by : (x : A) (l : List A) → any p (insert_by x l) ≡ (p x || any p l)
    unfolding insert_by
    any-insert_by x [] = refl
    any-insert_by x (y ∷ l) = elim (Bool-cases (leb (key x) (key y))) [
      | inl le ↦ rw le refl
      | inr gt ↦ rw (gt, any-insert_by x l) (ground arith)
    ]

    pub any-sort_by : (xs : List A) → any p (sort_by xs) ≡ any p xs
    unfolding sort_by
    any-sort_by [] = refl
    any-sort_by (x ∷ xs) =
        any-insert_by x (sort_by xs) ∙ ap (λ (b : Bool). p x || b) (any-sort_by xs)

-- Membership goes back along a permutation.
pub Memᴰ-Permᴰ {ℓ} : {A : Type ℓ} {x : A} {xs ys : List A} → Permᴰ xs ys → Memᴰ x ys → Memᴰ x xs
Memᴰ-Permᴰ Permᴰ.nil m = m
Memᴰ-Permᴰ (Permᴰ.cons e p) (Memᴰ.head h) = Memᴰ.head (h ∙ sym e)
Memᴰ-Permᴰ (Permᴰ.cons e p) (Memᴰ.tail m) = Memᴰ.tail (Memᴰ-Permᴰ p m)
Memᴰ-Permᴰ (Permᴰ.swap e f) (Memᴰ.head h) = Memᴰ.tail (Memᴰ.head (h ∙ sym f))
Memᴰ-Permᴰ (Permᴰ.swap e f) (Memᴰ.tail (Memᴰ.head h)) = Memᴰ.head (h ∙ sym e)
Memᴰ-Permᴰ (Permᴰ.swap e f) (Memᴰ.tail (Memᴰ.tail m)) = Memᴰ.tail (Memᴰ.tail m)
Memᴰ-Permᴰ (Permᴰ.trans p q) m = Memᴰ-Permᴰ p (Memᴰ-Permᴰ q m)

module _ {ℓ} {A : Type ℓ} (key : A → ℕ) where
  -- Sorting forgets the order, where no two elements share a key.
  pub sort_by-Permᴰ :
      {xs ys : List A} → Permᴰ xs ys → IsKey key xs → sort_by key xs ≡ sort_by key ys
  unfolding sort_by
  sort_by-Permᴰ Permᴰ.nil k = refl
  sort_by-Permᴰ (Permᴰ.cons {l₂ = l₂} e p) k =
      ap (insert_by key _) (sort_by-Permᴰ p (λ x y m n. k x y (Memᴰ.tail m) (Memᴰ.tail n)))
      ∙ ap (λ x. insert_by key x (sort_by key l₂)) e
  sort_by-Permᴰ (Permᴰ.swap {l = l} e f) k =
      insert_by-swap key _ _ _ (k _ _ (Memᴰ.head refl) (Memᴰ.tail (Memᴰ.head refl)))
      ∙ ap₂ (λ x y. insert_by key x (insert_by key y (sort_by key l))) f e
  sort_by-Permᴰ (Permᴰ.trans p q) k =
      sort_by-Permᴰ p k ∙ sort_by-Permᴰ q (λ x y m n. k x y (Memᴰ-Permᴰ p m) (Memᴰ-Permᴰ p n))

-- `s <= t` of texts
abbrev pub text_le : String → String → Bool
text_le s t = elim (compare s t) [ Ordering.gt ↦ false | _ ↦ true ]

module _ {ℓ} {A : Type ℓ} (le : A → A → Bool) where
  insert_with : A → List A → List A
  insert_with x [] = x ∷ []
  insert_with x (y ∷ ys) = let rest = insert_with x ys in if le x y then x ∷ (y ∷ ys) else y ∷ rest

  -- A stable sort by the order `le`.
  unfoldable pub sort_with : List A → List A
  unfolding insert_with
  sort_with [] = []
  sort_with (x ∷ xs) = insert_with x (sort_with xs)

  module _ (p : A → Bool) where
    any-insert_with : (x : A) (l : List A) → any p (insert_with x l) ≡ (p x || any p l)
    unfolding insert_with
    any-insert_with x [] = refl
    any-insert_with x (y ∷ l) = elim (Bool-cases (le x y)) [
      | inl before ↦ rw before refl
      | inr behind ↦ rw (behind, any-insert_with x l) (ground arith)
    ]

    pub any-sort_with : (xs : List A) → any p (sort_with xs) ≡ any p xs
    unfolding sort_with
    any-sort_with [] = refl
    any-sort_with (x ∷ xs) =
        any-insert_with x (sort_with xs) ∙ ap (λ (b : Bool). p x || b) (any-sort_with xs)

  length-insert_with : (x : A) (l : List A) → length (insert_with x l) ≡ suc (length l)
  unfolding insert_with
  length-insert_with x [] = refl
  length-insert_with x (y ∷ l) = elim (Bool-cases (le x y)) [
    | inl before ↦ rw before refl
    | inr behind ↦ rw behind (ap suc (length-insert_with x l))
  ]

  pub length-sort_with : (xs : List A) → length (sort_with xs) ≡ length xs
  unfolding sort_with
  length-sort_with [] = refl
  length-sort_with (x ∷ xs) = length-insert_with x (sort_with xs) ∙ ap suc (length-sort_with xs)

  Memᴰ-second : (x y z : A) (l : List A) → Memᴰ x (y ∷ l) → Memᴰ x (y ∷ (z ∷ l))
  Memᴰ-second x y z l (Memᴰ.head e) = Memᴰ.head e
  Memᴰ-second x y z l (Memᴰ.tail m) = Memᴰ.tail (Memᴰ.tail m)

  Memᴰ-insert_with : (x y : A) (l : List A) → Memᴰ x (insert_with y l) → Memᴰ x (y ∷ l)
  unfolding insert_with
  Memᴰ-insert_with x y [] m = m
  Memᴰ-insert_with x y (z ∷ l) m = elim (Bool-cases (le y z)) [
    | inl before ↦ rw before at m
    | inr behind ↦
        let m' : Memᴰ x (z ∷ insert_with y l) = rw behind at m in
        elim m' [
          | Memᴰ.head e ↦ Memᴰ.tail (Memᴰ.head e)
          | Memᴰ.tail n ↦ Memᴰ-second x y z l (Memᴰ-insert_with x y l n)
        ]
  ]

  -- Sorting adds nothing.
  pub Memᴰ-sort_with : (x : A) (xs : List A) → Memᴰ x (sort_with xs) → Memᴰ x xs
  unfolding sort_with
  Memᴰ-sort_with x [] m = m
  Memᴰ-sort_with x (y ∷ ys) m = elim (Memᴰ-insert_with x y (sort_with ys) m) [
    | Memᴰ.head e ↦ Memᴰ.head e
    | Memᴰ.tail n ↦ Memᴰ.tail (Memᴰ-sort_with x ys n)
  ]

  insert_with-Memᴰ : (x y : A) (l : List A) → Memᴰ x (y ∷ l) → Memᴰ x (insert_with y l)
  unfolding insert_with
  insert_with-Memᴰ x y [] m = m
  insert_with-Memᴰ x y (z ∷ l) m = elim (Bool-cases (le y z)) [
    | inl before ↦ rw before m
    | inr behind ↦ rw behind (elim m [
      | Memᴰ.head e ↦ Memᴰ.tail (insert_with-Memᴰ x y l (Memᴰ.head e))
      | Memᴰ.tail (Memᴰ.head e) ↦ Memᴰ.head e
      | Memᴰ.tail (Memᴰ.tail n) ↦ Memᴰ.tail (insert_with-Memᴰ x y l (Memᴰ.tail n))
    ])
  ]

  -- And it loses nothing.
  pub sort_with-Memᴰ : (x : A) (xs : List A) → Memᴰ x xs → Memᴰ x (sort_with xs)
  unfolding sort_with
  sort_with-Memᴰ x [] m = m
  sort_with-Memᴰ x (y ∷ ys) (Memᴰ.head e) = insert_with-Memᴰ x y (sort_with ys) (Memᴰ.head e)
  sort_with-Memᴰ x (y ∷ ys) (Memᴰ.tail m) =
      insert_with-Memᴰ x y (sort_with ys) (Memᴰ.tail (sort_with-Memᴰ x ys m))
