-- ===== src/Engine/Cohorts/Complete.antt =====
-- engine/decisions.py: the cases that `form_cohorts` returns.
use sep.Base.{
  ℕ, zero, suc, ◌≤◌, String, ◌≡◌, refl, sym, ap, ◌∙◌, Bool, true, false, ◌&&◌, ◌||◌, Option, none,
  some, List, [], ◌∷◌, ◌++◌, map, any, length, take, drop, take-append-drop, length-drop, ltb, eqb,
  ◌==◌, Bool-cases, inl, inr, arith, eq_iff,
}
use sep.Base.Sort.{sort_with, any-sort_with, length-sort_with}
use sep.Core.Errors.{Result, ok, err}
use sep.Domain.Cases.{Case, Cohort}
use sep.Engine.Cohorts.{
  Group, put, put_all, same_group, join, sort_one, sort_out, is_bulk, concluded, group_of, chunked,
  group_le, case_le, returned, joined, place, place_all, attend, form_cohorts, is_nonempty,
}

module _ (id : String) where
  abbrev pub has : Case → Bool
  has c = c.case_id == id

  abbrev has_in : Group → Bool
  has_in (key, members) = any has members

  one_id : (c d : Case) → (d.case_id == c.case_id) ≡ true → has d ≡ has c
  one_id c d h = ap (λ (s : String). s == id) ((eq_iff d.case_id c.case_id).0 h)

  put-has : (c : Case) (ds : List Case) → any has (put c ds) ≡ (has c || any has ds)
  unfolding put
  put-has c [] = refl
  put-has c (d ∷ ds) = elim (Bool-cases (d.case_id == c.case_id)) [
    | inl same ↦ rw (same, one_id c d same) (ground arith)
    | inr other ↦ rw (other, put-has c ds) (ground arith)
  ]

  put_all-has : (cs ds : List Case) → any has (put_all cs ds) ≡ (any has cs || any has ds)
  unfolding put_all
  put_all-has [] ds = refl
  put_all-has (c ∷ cs) ds = rw (put_all-has cs (put c ds), put-has c ds) (ground arith)

  any-append : (xs ys : List Case) → any has (xs ++ ys) ≡ (any has xs || any has ys)
  any-append [] ys = refl
  any-append (x ∷ xs) ys = rw (any-append xs ys) (ground arith)

  join-has :
      (key : String × String) (c : Case) (groups : List Group)
      → any has_in (join key c groups) ≡ (has c || any has_in groups)
  unfolding join
  join-has key c [] = ground arith
  join-has key c ((k, members) ∷ groups) = elim (Bool-cases (same_group k key)) [
    | inl same ↦ rw (same, any-append members (c ∷ [])) (ground arith)
    | inr other ↦ rw (other, join-has key c groups) (ground arith)
  ]

  -- The ids held by the groups and by the final cases.
  abbrev held : List Group × List Case → Bool
  held (groups, final) = any has_in groups || any has final

  sort_one-has :
      (key : Option (String × String)) (c : Case) (s : List Group × List Case)
      → held (sort_one key c s) ≡ (has c || held s)
  sort_one-has none c (groups, final) = rw (put-has c final) (ground arith)
  sort_one-has (some key) c (groups, final) = rw (join-has key c groups) (ground arith)

  sort_out-has :
      (cases : List Case) (s : List Group × List Case)
      → held (sort_out cases s) ≡ (any has cases || held s)
  unfolding sort_out
  sort_out-has [] s = refl
  sort_out-has (c ∷ cs) s =
      let key = group_of (is_bulk c.recommendation) (concluded c.conclusion) c.desk in
      rw (sort_out-has cs (sort_one key c s), sort_one-has key c s) (ground arith)

  chunked-has :
      (fuel size : ℕ) (members : List Case)
      → 1 ≤ size
      → length members ≤ fuel
      → any (any has) (chunked fuel size members) ≡ any has members
  unfolding chunked
  chunked-has zero size [] h k = refl
  chunked-has zero size (c ∷ cs) h k = absurd (omega arith)
  chunked-has (suc fuel) size [] h k = refl
  chunked-has (suc fuel) size (c ∷ cs) h k =
      rw (chunked-has fuel size (drop size (c ∷ cs)) h (omega (arith, length-drop size (c ∷ cs)))) (
        sym (any-append (take size (c ∷ cs)) (drop size (c ∷ cs)))
        ∙ ap (any has) (take-append-drop size (c ∷ cs)))

  map-has :
      (f : Case → Case)
      → ((c : Case) → (f c).case_id ≡ c.case_id)
      → (cs : List Case) → any has (map f cs) ≡ any has cs
  map-has f keeps [] = refl
  map-has f keeps (c ∷ cs) = rw (keeps c, map-has f keeps cs) refl

  module _ (cohort_id_for : List String → String) (min_size max_size : ℕ) where
    place-has :
        (key : String × String) (chunk : List Case) (s : List Case × List Cohort)
        → any has (place cohort_id_for min_size max_size key chunk s).0
          ≡ (any has chunk || any has s.0)
    unfolding place
    place-has key chunk (final, cohorts) = elim (Bool-cases (ltb (length chunk) min_size)) [
      | inl small ↦ rw small (
          put_all-has (map returned chunk) final
          ∙ ap (λ (b : Bool). b || any has final) (map-has returned (λ _. refl) chunk))
      | inr full ↦
          let f = joined cohort_id_for min_size max_size chunk in
          rw full (
            put_all-has (map f chunk) final
            ∙ ap (λ (b : Bool). b || any has final) (map-has f (λ _. refl) chunk))
    ]

    place_all-has :
        (key : String × String) (chunks : List (List Case)) (s : List Case × List Cohort)
        → any has (place_all cohort_id_for min_size max_size key chunks s).0
          ≡ (any (any has) chunks || any has s.0)
    unfolding place_all
    place_all-has key [] s = refl
    place_all-has key (chunk ∷ chunks) s =
        rw
          (
            place_all-has key chunks (place cohort_id_for min_size max_size key chunk s),
            place-has key chunk s,
          )
          (ground arith)

    attend-has :
        1 ≤ max_size
        → (groups : List Group) (s : List Case × List Cohort)
        → any has (attend cohort_id_for min_size max_size groups s).0
          ≡ (any has_in groups || any has s.0)
    unfolding attend
    attend-has h [] s = refl
    attend-has h ((key, members) ∷ groups) s =
        let sorted = sort_with case_le members in
        let chunks = chunked (length members) max_size sorted in
        rw
          (
            attend-has h groups (place_all cohort_id_for min_size max_size key chunks s),
            place_all-has key chunks s,
            chunked-has (length members) max_size sorted h
                (omega (arith, length-sort_with case_le members)),
            any-sort_with case_le has members,
          )
          (ground arith)

nonzero : (m : ℕ) → eqb m 0 ≡ false → 1 ≤ m
nonzero m h = ground arith

cases_in : Result (List Case × List Cohort) → List Case
cases_in (ok (cases, cohorts)) = cases
cases_in (err e) = []

module _ (cohort_id_for : List String → String) (min_size max_size : ℕ) where
  sorted-has :
      (id : String) (groups : List Group) (s : List Case × List Cohort)
      → (is_nonempty groups && eqb max_size 0) ≡ false
      → any (has id) (attend cohort_id_for min_size max_size (sort_with group_le groups) s).0
        ≡ (any (has_in id) groups || any (has id) s.0)
  unfolding attend is_nonempty sort_with
  sorted-has id [] s h = refl
  sorted-has id (g ∷ gs) s h =
      attend-has id cohort_id_for min_size max_size (nonzero max_size h)
        (sort_with group_le (g ∷ gs)) s
      ∙ ap (λ (b : Bool). b || any (has id) s.0) (any-sort_with group_le (has_in id) (g ∷ gs))

  -- Nothing is dropped and nothing is added: the ids of the cases that come back are those of the
  -- cases that went in.
  pub form_cohorts_complete :
      (cases out : List Case) (cohorts : List Cohort) (id : String)
      → form_cohorts cohort_id_for min_size max_size cases ≡ ok (out, cohorts)
      → any (has id) out ≡ any (has id) cases
  unfolding form_cohorts cases_in
  form_cohorts_complete cases out cohorts id h =
      let s = sort_out cases ([], []) in
      elim (Bool-cases (is_nonempty s.0 && eqb max_size 0)) [
        | inl refused ↦ ground (arith, rw refused at h)
        | inr fine ↦
            let final =
              (attend cohort_id_for min_size max_size (sort_with group_le s.0) (s.1, [])).0 in
            ap (any (has id)) (sym (ap cases_in (rw fine at h)))
            ∙ (any-sort_with case_le (has id) final
                ∙ (sorted-has id s.0 (s.1, []) fine
                    ∙ (sort_out-has id cases ([], []) ∙ ground arith)))
      ]
