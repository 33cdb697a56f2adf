-- ===== src/Engine/Cohorts/Sizes.antt =====
-- engine/decisions.py: the sizes of the cohorts that `form_cohorts` proposes.
use sep.Base.{
  ℕ, zero, suc, ◌≤◌, String, ◌≡◌, refl, ap, subst, ◌&&◌, List, [], ◌∷◌, ◌++◌, map, length, drop,
  length-take, ltb, ltb→ge, eqb, Bool-cases, inl, inr, All, arith,
}
use sep.Base.Sort.{sort_with}
use sep.Core.Errors.{Result, ok, err}
use sep.Domain.Cases.{Case, Cohort}
use sep.Engine.Cohorts.{
  Group, sort_out, chunked, group_le, case_le, cohort_of, place, place_all, attend, form_cohorts,
  is_nonempty,
}

length-map : {A B : Type 0} (f : A → B) (xs : List A) → length (map f xs) ≡ length xs
length-map f [] = refl
length-map f (x ∷ xs) = ap suc (length-map f xs)

All-append :
    {A : Type 0} (P : A → Type 0) (xs : List A) (y : A) → All P xs → P y → All P (xs ++ (y ∷ []))
All-append P [] y h k = (k, tt)
All-append P (x ∷ xs) y h k = (h.0, All-append P xs y h.1 k)

cohorts_in : Result (List Case × List Cohort) → List Cohort
cohorts_in (ok (cases, cohorts)) = cohorts
cohorts_in (err e) = []

module _ (cohort_id_for : List String → String) (min_size max_size : ℕ) where
  -- A cohort of an allowed size.
  abbrev pub IsSized : Cohort → Type 0
  IsSized k = (min_size ≤ length k.case_ids) × (length k.case_ids ≤ max_size)

  chunked-Short :
      (fuel : ℕ) (members : List Case)
      → All (λ (chunk : List Case). length chunk ≤ max_size) (chunked fuel max_size members)
  unfolding chunked
  chunked-Short zero members = tt
  chunked-Short (suc fuel) [] = tt
  chunked-Short (suc fuel) (c ∷ cs) =
      (omega (arith, length-take max_size (c ∷ cs)), chunked-Short fuel (drop max_size (c ∷ cs)))

  place-Sized :
      (key : String × String) (chunk : List Case) (s : List Case × List Cohort)
      → length chunk ≤ max_size
      → All IsSized s.1
      → All IsSized (place cohort_id_for min_size max_size key chunk s).1
  unfolding place
  place-Sized key chunk (final, cohorts) short sized =
      elim (Bool-cases (ltb (length chunk) min_size)) [
        | inl small ↦ rw small sized
        | inr full ↦
            let n = length-map (λ (c : Case). c.case_id) chunk in
            rw full (
              All-append IsSized cohorts (cohort_of cohort_id_for min_size max_size key chunk) sized
                (omega (arith, n, ltb→ge (length chunk) min_size full), omega (arith, n, short)))
      ]

  place_all-Sized :
      (key : String × String) (chunks : List (List Case)) (s : List Case × List Cohort)
      → All (λ (chunk : List Case). length chunk ≤ max_size) chunks
      → All IsSized s.1
      → All IsSized (place_all cohort_id_for min_size max_size key chunks s).1
  unfolding place_all
  place_all-Sized key [] s short sized = sized
  place_all-Sized key (chunk ∷ chunks) s short sized =
      place_all-Sized key chunks (place cohort_id_for min_size max_size key chunk s) short.1
        (place-Sized key chunk s short.0 sized)

  attend-Sized :
      (groups : List Group) (s : List Case × List Cohort)
      → All IsSized s.1
      → All IsSized (attend cohort_id_for min_size max_size groups s).1
  unfolding attend
  attend-Sized [] s sized = sized
  attend-Sized ((key, members) ∷ groups) s sized =
      let chunks = chunked (length members) max_size (sort_with case_le members) in
      attend-Sized groups (place_all cohort_id_for min_size max_size key chunks s) (
        place_all-Sized key chunks s (chunked-Short (length members) (sort_with case_le members))
          sized)

  -- Every cohort has at least the configured minimum and at most the configured maximum of cases.
  pub form_cohorts-Sized :
      (cases out : List Case) (cohorts : List Cohort)
      → form_cohorts cohort_id_for min_size max_size cases ≡ ok (out, cohorts)
      → All IsSized cohorts
  unfolding form_cohorts cohorts_in
  form_cohorts-Sized cases out cohorts h =
      let s = sort_out cases ([], []) in
      elim (Bool-cases (is_nonempty s.0 && eqb max_size 0)) [
        | inl refused ↦ absurd (ground (arith, rw refused at h))
        | inr fine ↦
            subst (All IsSized) (ap cohorts_in (rw fine at h))
              (attend-Sized (sort_with group_le s.0) (s.1, []) tt)
      ]
