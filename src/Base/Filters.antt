-- ===== src/Base/Filters.antt =====
-- What a comprehension with a test keeps.
use mathlib.Core.List.{Memᴰ}
use sep.Base.{
  ◌≡◌, refl, sym, ap, subst, ◌∙◌, Bool, true, ◌&&◌, List, [], ◌∷◌, filter, if◌then◌else◌,
  Bool-cases, inl, inr,
}

module _ {ℓ} {A : Type ℓ} (t : A → Bool) where
  pub filter-Memᴰ : (p : A) (l : List A) → Memᴰ p l → t p ≡ true → Memᴰ p (filter t l)
  filter-Memᴰ p [] m h = elim m [ ]
  filter-Memᴰ p (q ∷ l) (Memᴰ.head same) h = rw (sym (ap t same) ∙ h) (Memᴰ.head same)
  filter-Memᴰ p (q ∷ l) (Memᴰ.tail m) h = elim (Bool-cases (t q)) [
    | inl here ↦ rw here (Memᴰ.tail (filter-Memᴰ p l m h))
    | inr skip ↦ rw skip (filter-Memᴰ p l m h)
  ]

  pub Memᴰ-filter : (p : A) (l : List A) → Memᴰ p (filter t l) → Memᴰ p l × (t p ≡ true)
  Memᴰ-filter p [] m = elim m [ ]
  Memᴰ-filter p (q ∷ l) m = elim (Bool-cases (t q)) [
    | inl here ↦ (elim (subst (λ b. Memᴰ p (if b then q ∷ filter t l else filter t l)) here m) [
      | Memᴰ.head same ↦ (Memᴰ.head same, ap t same ∙ here)
      | Memᴰ.tail n ↦ (let (there, holds) = Memᴰ-filter p l n in (Memᴰ.tail there, holds))
    ])
    | inr skip ↦
        (let (there, holds) =
            Memᴰ-filter p l
              (subst (λ b. Memᴰ p (if b then q ∷ filter t l else filter t l)) skip m) in
          (Memᴰ.tail there, holds))
  ]

  pub filter-filter :
      (s : A → Bool) (l : List A) → filter s (filter t l) ≡ filter (λ p. t p && s p) l
  filter-filter s [] = refl
  filter-filter s (p ∷ l) = elim (Bool-cases (t p)) [
    | inl here ↦ elim (Bool-cases (s p)) [
      | inl too ↦ rw (here, too) (ap (λ l. p ∷ l) (filter-filter s l))
      | inr drop ↦ rw (here, drop) (filter-filter s l)
    ]
    | inr skip ↦ rw skip (filter-filter s l)
  ]

  pub filter-same :
      (s : A → Bool) (l : List A) → ((p : A) → Memᴰ p l → t p ≡ s p) → filter t l ≡ filter s l
  filter-same s [] h = refl
  filter-same s (p ∷ l) h =
      let rest = filter-same s l (λ q m. h q (Memᴰ.tail m)) in rw (h p (Memᴰ.head refl), rest) refl
