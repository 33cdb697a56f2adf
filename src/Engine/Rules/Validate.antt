-- ===== src/Engine/Rules/Validate.antt =====
-- engine/rules.py: `validate_rule`.
use sep.Base.{
  ℕ, String, Bool, true, false, not, ◌||◌, Option, none, some, List, [], ◌∷◌, ◌++◌, elem, length,
  ltb, eqb, ◌==◌, if◌then◌else◌,
}
use sep.Base.Number.{number}
use sep.Domain.Policy.{Op, Condition, RuleSpec}
use sep.Engine.Classification.{entry_of, get_or}
use sep.Engine.Rules.{SignalKind, signal_kind, given, same_flag}

-- What `validate_rule` finds wrong; the texts are left out.
pub data RuleProblem : Type 0 where
  no_condition too_many unknown_severity : RuleProblem
  unknown_signal one_of_value_param undefined_parameter : String → RuleProblem
  in_on_numeric not_a_number flag_operator label_operator : String → RuleProblem

abbrev pub is_in : Op → Bool
is_in Op.in_ = true
is_in _ = false

abbrev is_eq_ne : Op → Bool
is_eq_ne Op.eq = true
is_eq_ne Op.ne = true
is_eq_ne _ = false

abbrev pub is_none : {A : Type 0} → Option A → Bool
is_none none = true
is_none (some a) = false

abbrev pub problem_if : Bool → RuleProblem → List RuleProblem
problem_if true p = p ∷ []
problem_if false p = []

-- The value that is checked, and whether the parameter is defined.
abbrev pub checked_raw : Option String → Option String → List (String × String) → String
checked_raw (some p) value params = get_or "" (entry_of p params)
checked_raw none value params = get_or "" value

abbrev pub is_undefined : Option String → List (String × String) → Bool
is_undefined none params = false
is_undefined (some p) params = is_none (entry_of p params)

unfoldable pub kind_problems : SignalKind → Condition → String → List RuleProblem
kind_problems SignalKind.numeric c text =
    problem_if (is_in c.op) (in_on_numeric c.signal)
    ++ problem_if (is_none (number text)) (not_a_number c.signal)
kind_problems SignalKind.flag c text =
    problem_if (not (is_eq_ne c.op) || not (text == "true" || text == "false"))
      (flag_operator c.signal)
kind_problems SignalKind.label c text =
    problem_if (not (is_eq_ne c.op || is_in c.op)) (label_operator c.signal)

-- One pass of the loop over the conditions, with its `continue`s.
unfoldable pub condition_problems :
    List (String × String) → Condition → Option SignalKind → List RuleProblem
unfolding kind_problems
condition_problems params c none = unknown_signal c.signal ∷ []
condition_problems params c (some kind) =
    if same_flag (is_none c.value) (is_none c.param)
    then one_of_value_param c.signal ∷ []
    else if is_undefined (given c.param) params
    then undefined_parameter c.signal ∷ []
    else kind_problems kind c (checked_raw (given c.param) c.value params)

unfoldable pub all_problems : List (String × String) → List Condition → List RuleProblem
unfolding condition_problems
all_problems params [] = []
all_problems params (c ∷ cs) =
    condition_problems params c (signal_kind c.signal) ++ all_problems params cs

unfoldable pub validate_rule : ℕ → List String → RuleSpec → List RuleProblem
unfolding all_problems
validate_rule max_conditions severities rule =
    problem_if (eqb (length rule.conditions) 0) no_condition
    ++ problem_if (ltb max_conditions (length rule.conditions)) too_many
    ++ problem_if (not (elem rule.severity severities)) unknown_severity
    ++ all_problems rule.parameters rule.conditions
