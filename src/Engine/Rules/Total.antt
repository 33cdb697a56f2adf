-- ===== src/Engine/Rules/Total.antt =====
-- engine/rules.py: the evaluation of a rule that was validated.
use sep.Base.{
  ℕ, String, ◌≡◌, refl, Bool, true, false, not, ◌&&◌, Option, none, some, List, [], ◌∷◌, ◌++◌,
  length, any, ltb, eqb, elem, Bool-cases, inl, inr, arith,
}
use sep.Base.Decimal.{Decimal}
use sep.Base.Number.{Number, finite, infinite, nan, number}
use sep.Core.Errors.{Result, ok, err, key_error, ◌>>=◌}
use sep.Domain.Policy.{Op, Condition, RuleSpec}
use sep.Engine.Classification.{entry_of, or_raise, get_or}
use sep.Engine.Rules.{
  SignalKind, SignalValue, EpisodeSignals, Detection, number_value, flag_value, label_value,
  signal_kind, signal_of, given, raw, raw_of, compared, decimal_of, test, test_if_there,
  condition_holds, describe, matches, go_on, evaluate_rule, same_flag, shown_raw, detected,
}
use sep.Engine.Rules.Validate.{
  RuleProblem, problem_if, checked_raw, is_undefined, kind_problems, condition_problems,
  all_problems, validate_rule, is_none, is_in, no_condition, too_many, unknown_severity,
  in_on_numeric, not_a_number,
}

-- A computation that returns.
abbrev Returns : {A : Type 0} → Result A → Type 0
Returns {A} r = (a : A) × (r ≡ ok a)

bind-Returns :
    {A B : Type 0} (m : Result A) (f : A → Result B)
    → Returns m
    → ((a : A) → m ≡ ok a → Returns (f a))
    → Returns (m >>= f)
bind-Returns m f (a, e) k = rw e (k a e)

is_nan : Option Number → Bool
is_nan (some nan) = true
is_nan _ = false

-- A condition that compares a numeric signal with NaN.
is_numeric : Option SignalKind → Bool
is_numeric (some SignalKind.numeric) = true
is_numeric _ = false

unfoldable pub against_nan : List (String × String) → Condition → Bool
unfolding is_nan is_numeric
against_nan params c =
    is_numeric (signal_kind c.signal)
    && is_nan (number (checked_raw (given c.param) c.value params))

compared-Returns :
    (op : Op) (actual : Decimal) (t : Number)
    → is_nan (some t) ≡ false
    → Returns (compared op actual t)
unfolding compared is_nan
compared-Returns op actual nan h = ground arith
compared-Returns Op.gt actual (finite t) h = (_, refl)
compared-Returns Op.gt actual (infinite b) h = (_, refl)
compared-Returns Op.ge actual (finite t) h = (_, refl)
compared-Returns Op.ge actual (infinite b) h = (_, refl)
compared-Returns Op.lt actual (finite t) h = (_, refl)
compared-Returns Op.lt actual (infinite b) h = (_, refl)
compared-Returns Op.le actual (finite t) h = (_, refl)
compared-Returns Op.le actual (infinite b) h = (_, refl)
compared-Returns Op.eq actual (finite t) h = (_, refl)
compared-Returns Op.eq actual (infinite b) h = (_, refl)
compared-Returns Op.ne actual (finite t) h = (_, refl)
compared-Returns Op.ne actual (infinite b) h = (_, refl)
compared-Returns Op.in_ actual (finite t) h = (_, refl)
compared-Returns Op.in_ actual (infinite b) h = (_, refl)

decimal-Returns :
    (op : Op) (actual : Decimal) (o : Option Number)
    → is_none o ≡ false
    → is_nan o ≡ false
    → Returns (decimal_of o >>= compared op actual)
unfolding decimal_of
decimal-Returns op actual none h k = ground arith
decimal-Returns op actual (some t) h k = compared-Returns op actual t k

test-Returns :
    (kind : Option SignalKind) (actual : SignalValue) (op : Op) (text : String)
    → (is_numeric kind ≡ true → is_none (number text) ≡ false)
    → (is_numeric kind && is_nan (number text)) ≡ false
    → Returns (test kind actual op text)
unfolding test is_numeric
test-Returns none actual op text h k = (_, refl)
test-Returns (some SignalKind.numeric) (number_value a) op text h k =
    decimal-Returns op a (number text) (h refl) k
test-Returns (some SignalKind.numeric) (flag_value a) op text h k = (_, refl)
test-Returns (some SignalKind.numeric) (label_value a) op text h k = (_, refl)
test-Returns (some SignalKind.flag) (number_value a) op text h k = (_, refl)
test-Returns (some SignalKind.flag) (flag_value a) op text h k = (_, refl)
test-Returns (some SignalKind.flag) (label_value a) op text h k = (_, refl)
test-Returns (some SignalKind.label) (number_value a) op text h k = (_, refl)
test-Returns (some SignalKind.label) (flag_value a) op text h k = (_, refl)
test-Returns (some SignalKind.label) (label_value a) op text h k = (_, refl)

there-Returns :
    (kind : Option SignalKind) (actual : Option SignalValue) (op : Op) (text : String)
    → (is_numeric kind ≡ true → is_none (number text) ≡ false)
    → (is_numeric kind && is_nan (number text)) ≡ false
    → Returns (test_if_there kind actual op text)
unfolding test_if_there
there-Returns kind none op text h k = (_, refl)
there-Returns kind (some a) op text h k = test-Returns kind a op text h k

append-nil-left : {A : Type 0} (xs ys : List A) → xs ++ ys ≡ [] → xs ≡ []
append-nil-left [] ys h = refl
append-nil-left (x ∷ xs) ys h = ground arith

append-nil-right : {A : Type 0} (xs ys : List A) → xs ++ ys ≡ [] → ys ≡ []
append-nil-right [] ys h = h
append-nil-right (x ∷ xs) ys h = ground arith

problem_if-nil : (b : Bool) (p : RuleProblem) → problem_if b p ≡ [] → b ≡ false
problem_if-nil true p h = ground arith
problem_if-nil false p h = refl

module _ (params : List (String × String)) (c : Condition) where
  -- What the validation of one condition leaves to rely on.
  valid :
      (kind : Option SignalKind)
      → condition_problems params c kind ≡ []
      → (is_undefined (given c.param) params ≡ false)
        × (is_numeric kind ≡ true
            → is_none (number (checked_raw (given c.param) c.value params)) ≡ false)
  unfolding condition_problems kind_problems is_numeric
  valid none h = ground arith
  valid (some kind) h = elim (Bool-cases (same_flag (is_none c.value) (is_none c.param))) [
    | inl bad ↦ absurd (ground (arith, rw bad at h))
    | inr one ↦ elim (Bool-cases (is_undefined (given c.param) params)) [
      | inl lost ↦ absurd (ground (arith, rw (one, lost) at h))
      | inr there ↦ (there, λ n. number_there kind n (rw (one, there) at h))
    ]
  ]
    where
      number_there :
          (kind : SignalKind)
          → is_numeric (some kind) ≡ true
          → kind_problems kind c (checked_raw (given c.param) c.value params) ≡ []
          → is_none (number (checked_raw (given c.param) c.value params)) ≡ false
      number_there SignalKind.numeric n k =
          problem_if-nil (is_none (number (checked_raw (given c.param) c.value params)))
            (not_a_number c.signal)
            (append-nil-right (problem_if (is_in c.op) (in_on_numeric c.signal)) _ k)
      number_there SignalKind.flag n k = ground arith
      number_there SignalKind.label n k = ground arith

  raw-there :
      (p value : Option String)
      → is_undefined p params ≡ false
      → raw_of p value params ≡ ok (checked_raw p value params)
  raw-there none value h = refl
  raw-there (some p) value h = found (entry_of p params) h
    where
      found :
          (o : Option String) → is_none o ≡ false → or_raise (err key_error) o ≡ ok (get_or "" o)
      found none k = ground arith
      found (some t) k = refl

  -- A condition without problems, that does not compare with NaN, has a truth value.
  holds-Returns :
      (signals : EpisodeSignals)
      → condition_problems params c (signal_kind c.signal) ≡ []
      → against_nan params c ≡ false
      → Returns (condition_holds params signals c)
  unfolding condition_holds raw against_nan
  holds-Returns signals h k =
      let (there, known) = valid (signal_kind c.signal) h in
      rw (raw-there (given c.param) c.value there) (
        there-Returns (signal_kind c.signal) (signal_of c.signal signals) c.op
          (checked_raw (given c.param) c.value params) known k)

  shown-Returns :
      (p : Option String) → is_undefined p params ≡ false → Returns (shown_raw p c.value params)
  unfolding shown_raw
  shown-Returns none h = (_, refl)
  shown-Returns (some p) h = found (entry_of p params) h
    where
      found : (o : Option String) → is_none o ≡ false → Returns (or_raise (err key_error) o)
      found none k = ground arith
      found (some t) k = (t, refl)

  describe-Returns :
      (kind : Option SignalKind)
      → condition_problems params c kind ≡ []
      → Returns (describe c params)
  unfolding describe
  describe-Returns kind h =
      let (text, e) = shown-Returns (given c.param) (valid kind h).0 in rw e (_, refl)

go_on-Returns :
    (holds : Bool) (line : String) (rest : Option (List String))
    → Returns (go_on holds (ok line) (ok rest))
unfolding go_on
go_on-Returns true line rest = (_, refl)
go_on-Returns false line rest = (_, refl)

module _ (params : List (String × String)) (signals : EpisodeSignals) where
  matches-Returns :
      (cs : List Condition)
      → all_problems params cs ≡ []
      → any (against_nan params) cs ≡ false
      → Returns (matches params signals cs)
  unfolding matches all_problems
  matches-Returns [] h k = (some [], refl)
  matches-Returns (c ∷ cs) h k =
      let fine = append-nil-left (condition_problems params c (signal_kind c.signal)) _ h in
      let others = append-nil-right (condition_problems params c (signal_kind c.signal)) _ h in
      let (holds, e) = holds-Returns params c signals fine (ground arith) in
      let (rest, r) = matches-Returns cs others (ground arith) in
      let (line, l) = describe-Returns params c (signal_kind c.signal) fine in
      rw (e, r, l) (go_on-Returns holds line rest)

-- A rule in which the validation finds no problem, and none of whose numeric conditions compares with
-- NaN, is evaluated without an exception, whatever the signals.
pub evaluate_rule-Returns :
    (max_conditions : ℕ) (severities : List String) (rule : RuleSpec) (signals : EpisodeSignals)
    → validate_rule max_conditions severities rule ≡ []
    → any (against_nan rule.parameters) rule.conditions ≡ false
    → (d : Option Detection) × (evaluate_rule rule signals ≡ ok d)
unfolding validate_rule evaluate_rule
evaluate_rule-Returns max_conditions severities rule signals h k =
    let (found, e) =
      matches-Returns rule.parameters signals rule.conditions
        (append-nil-right
          (problem_if (eqb (length rule.conditions) 0) no_condition
            ++ problem_if (ltb max_conditions (length rule.conditions)) too_many
            ++ problem_if (not (elem rule.severity severities)) unknown_severity)
          _ h)
        k in
    (detected rule signals found, rw e refl)
