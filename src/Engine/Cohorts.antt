-- ===== src/Engine/Cohorts.antt =====
-- engine/decisions.py: `form_cohorts`. The dictionary `final` is the list of its cases, in the order of
-- their first assignment; `groups` is the list of its items. `cohort_id_for` is the hash of the ids.
-- The configured sizes are not negative.
pub mod Complete
pub mod Sizes
mod Witnesses
use sep.Base.{
  ℕ, zero, suc, String, Bool, true, false, not, ◌&&◌, ◌||◌, Option, none, some, List, [], ◌∷◌, ◌++◌,
  map, any, length, take, drop, ltb, eqb, ◌==◌, if◌then◌else◌,
}
use sep.Base.Sort.{text_le, sort_with}
use sep.Core.Errors.{Result, ok, err, value_error}
use sep.Domain.Cases.{Recommendation, Case, Cohort}

abbrev pub Group : Type 0
Group = (String × String) × List Case

-- final[c.case_id] = c
pub put : Case → List Case → List Case
put c [] = c ∷ []
put c (d ∷ ds) = let rest = put c ds in if d.case_id == c.case_id then c ∷ ds else d ∷ rest

pub put_all : List Case → List Case → List Case
unfolding put
put_all [] final = final
put_all (c ∷ cs) final = put_all cs (put c final)

abbrev pub same_group : String × String → String × String → Bool
same_group (h, d) (h', d') = h == h' && d == d'

-- groups[key].append(c)
pub join : String × String → Case → List Group → List Group
join key c [] = (key, c ∷ []) ∷ []
join key c ((k, members) ∷ groups) =
    let rest = join key c groups in
    if same_group k key then (k, members ++ (c ∷ [])) ∷ groups else (k, members) ∷ rest

abbrev pub is_bulk : Recommendation → Bool
is_bulk Recommendation.proposed_bulk = true
is_bulk _ = false

-- `c.conclusion`, where it counts as true
abbrev pub concluded : Option String → Option String
concluded none = none
concluded (some s) = if s == "" then none else some s

-- The key of the group that a case joins, if it joins one.
pub group_of : Bool → Option String → String → Option (String × String)
group_of true (some hypothesis) desk = some (hypothesis, desk)
group_of _ _ desk = none

abbrev pub sort_one :
    Option (String × String) → Case → List Group × List Case → List Group × List Case
sort_one (some key) c (groups, final) = (join key c groups, final)
sort_one none c (groups, final) = (groups, put c final)

-- The first loop.
pub sort_out : List Case → List Group × List Case → List Group × List Case
unfolding put join group_of
sort_out [] s = s
sort_out (c ∷ cs) s =
    sort_out cs (sort_one (group_of (is_bulk c.recommendation) (concluded c.conclusion) c.desk) c s)

-- [members[start : start + size] for start in range(0, len(members), size)], with fuel for each chunk.
pub chunked : ℕ → ℕ → List Case → List (List Case)
chunked zero size members = []
chunked (suc fuel) size [] = []
chunked (suc fuel) size (c ∷ cs) = take size (c ∷ cs) ∷ chunked fuel size (drop size (c ∷ cs))

abbrev pub group_le : Group → Group → Bool
group_le ((h, d), _) ((h', d'), _) = if h == h' then text_le d d' else text_le h h'

abbrev pub case_le : Case → Case → Bool
case_le c d = text_le c.case_id d.case_id

abbrev pub returned : Case → Case
returned c = record c {
  recommendation = Recommendation.individual_review;
  reasons = c.reasons ++ ("COHORT_BELOW_MIN_SIZE" ∷ []);
}

pub is_nonempty : List Group → Bool
is_nonempty [] = false
is_nonempty (g ∷ gs) = true

module _ (cohort_id_for : List String → String) (min_size max_size : ℕ) where
  abbrev pub ids : List Case → List String
  ids chunk = map (λ (c : Case). c.case_id) chunk

  abbrev pub cohort_of : String × String → List Case → Cohort
  cohort_of (hypothesis, desk) chunk = record {
    cohort_id = cohort_id_for (ids chunk);
    hypothesis_type = hypothesis;
    desk = desk;
    case_ids = ids chunk;
    status = "PROPOSED_AWAITING_SUPERVISOR_ATTESTATION";
  }

  abbrev pub joined : List Case → Case → Case
  joined chunk c = record c { cohort_id = some (cohort_id_for (ids chunk)) }

  -- One chunk of a group.
  pub place : String × String → List Case → List Case × List Cohort → List Case × List Cohort
  unfolding put_all
  place key chunk (final, cohorts) =
      if ltb (length chunk) min_size
      then (put_all (map returned chunk) final, cohorts)
      else (put_all (map (joined chunk) chunk) final, cohorts ++ (cohort_of key chunk ∷ []))

  pub place_all :
      String × String → List (List Case) → List Case × List Cohort → List Case × List Cohort
  unfolding place
  place_all key [] s = s
  place_all key (chunk ∷ chunks) s = place_all key chunks (place key chunk s)

  -- The second loop.
  pub attend : List Group → List Case × List Cohort → List Case × List Cohort
  unfolding place_all chunked
  attend [] s = s
  attend ((key, members) ∷ groups) s =
      attend groups
        (place_all key (chunked (length members) max_size (sort_with case_le members)) s)

  unfoldable pub form_cohorts : List Case → Result (List Case × List Cohort)
  unfolding sort_out attend is_nonempty
  form_cohorts cases =
      let (groups, final) = sort_out cases ([], []) in
      if is_nonempty groups && eqb max_size 0
      then err value_error
      else (let (final', cohorts) = attend (sort_with group_le groups) (final, []) in
          ok (sort_with case_le final', cohorts))
