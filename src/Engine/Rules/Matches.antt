-- ===== src/Engine/Rules/Matches.antt =====
-- engine/rules.py: the conditions of a rule that fires.
use sep.Base.{
  String, ◌≡◌, refl, sym, ap, Bool, true, false, Option, none, some, List, [], ◌∷◌, All, arith,
}
use sep.Core.Errors.{Result, ok, err, ◌>>=◌}
use sep.Domain.Policy.{Condition, RuleSpec}
use sep.Engine.Rules.{
  EpisodeSignals, Detection, condition_holds, describe, matches, go_on, add_line, detected,
  evaluate_rule,
}

-- One pass that ends with all conditions met.
passed :
    (holds : Result Bool) (line : Result String) (rest : Result (Option (List String)))
    (lines : List String)
    → (holds >>= λ h. go_on h line rest) ≡ ok (some lines)
    → (holds ≡ ok true) × ((more : List String) × (rest ≡ ok (some more)))
unfolding go_on add_line
passed (err e) line rest lines h = ground arith
passed (ok false) line rest lines h = ground arith
passed (ok true) (err e) rest lines h = ground arith
passed (ok true) (ok l) (err e) lines h = ground arith
passed (ok true) (ok l) (ok none) lines h = ground arith
passed (ok true) (ok l) (ok (some more)) lines h = (refl, (more, refl))

module _ (params : List (String × String)) (signals : EpisodeSignals) where
  abbrev pub Holds : Condition → Type 0
  Holds c = condition_holds params signals c ≡ ok true

  matched-All :
      (cs : List Condition) (lines : List String)
      → matches params signals cs ≡ ok (some lines)
      → All Holds cs
  unfolding matches
  matched-All [] lines h = tt
  matched-All (c ∷ cs) lines h =
      let (holds, (more, rest)) =
        passed (condition_holds params signals c) (describe c params) (matches params signals cs)
          lines h in
      (holds, matched-All cs more rest)

rule_in : Result (Option Detection) → String
rule_in (ok (some d)) = d.rule_id
rule_in _ = ""

episode_in : Result (Option Detection) → String
episode_in (ok (some d)) = d.episode_id
episode_in _ = ""

fired :
    (rule : RuleSpec) (signals : EpisodeSignals) (found : Result (Option (List String)))
    (d : Detection)
    → (found >>= λ f. ok (detected rule signals f)) ≡ ok (some d)
    → ((lines : List String) × (found ≡ ok (some lines)))
      × (d.rule_id ≡ rule.rule_id)
      × (d.episode_id ≡ signals.episode_id)
unfolding detected rule_in episode_in
fired rule signals (err e) d h = ground arith
fired rule signals (ok none) d h = ground arith
fired rule signals (ok (some lines)) d h =
    ((lines, refl), sym (ap rule_in h), sym (ap episode_in h))

-- A detection names its rule and its episode, and every condition of the rule holds for the signals.
pub evaluate_rule-Holds :
    (rule : RuleSpec) (signals : EpisodeSignals) (d : Detection)
    → evaluate_rule rule signals ≡ ok (some d)
    → All (Holds rule.parameters signals) rule.conditions
      × (d.rule_id ≡ rule.rule_id)
      × (d.episode_id ≡ signals.episode_id)
unfolding evaluate_rule
evaluate_rule-Holds rule signals d h =
    let ((lines, found), id, episode) =
      fired rule signals (matches rule.parameters signals rule.conditions) d h in
    (matched-All rule.parameters signals rule.conditions lines found, id, episode)
