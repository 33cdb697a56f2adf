-- ===== src/Engine/Rules.antt =====
-- engine/rules.py: the rule language. A dictionary is its list of items. Blanks are the ASCII ones.
-- `max_conditions` and `severities` are what the validation reads of the configuration.
pub mod Validate
pub mod Total
pub mod Matches
mod Witnesses
use sep.Base.{
  ℕ, String, Bool, true, false, not, ◌&&◌, ◌||◌, Option, none, some, List, [], ◌∷◌, ◌++◌, map, any,
  elem, reverse, length, ltb, eqb, ◌==◌, if◌then◌else◌,
}
use sep.Base.Decimal.{Decimal, at_most}
use sep.Base.Number.{Number, finite, infinite, nan, number, codes, drop_blanks, same_codes}
use sep.Core.Errors.{Result, ok, err, key_error, invalid_operation, ◌>>=◌}
use sep.Domain.Policy.{Op, Condition, RuleSpec}
use sep.Engine.Classification.{entry_of, or_raise, get_or, prefixed}

pub record EpisodeSignals : Type 0 where
  pub episode_id : String
  pub eval_time : String
  pub numeric : List (String × Decimal)
  pub flags : List (String × Bool)
  pub labels : List (String × String)

pub data SignalValue : Type 0 where
  number_value : Decimal → SignalValue
  flag_value : Bool → SignalValue
  label_value : String → SignalValue

later : {A : Type 0} → Option A → Option A → Option A
later none second = second
later (some a) second = some a

-- `EpisodeSignals.get`
unfoldable pub signal_of : String → EpisodeSignals → Option SignalValue
unfolding later
signal_of name s = later (value_of number_value (entry_of name s.numeric)) (
    later (value_of flag_value (entry_of name s.flags))
      (value_of label_value (entry_of name s.labels)))
  where
    value_of : {A : Type 0} → (A → SignalValue) → Option A → Option SignalValue
    value_of f none = none
    value_of f (some a) = some (f a)

pub data SignalKind : Type 0 where
  numeric flag label : SignalKind

abbrev numeric_signals : List String
numeric_signals =
    "n_trades" ∷ "n_events" ∷ "n_amends" ∷ "n_cancels" ∷ "n_alerts" ∷ "n_rules_fired" ∷ "span_hours"
    ∷ "max_price_change_pct" ∷ "max_qty_change_pct" ∷ "notional_usd_max"
    ∷ "booking_latency_hours_max" ∷ "rebook_count" ∷ "rebook_price_change_pct"
    ∷ "hours_to_period_end_min" ∷ "hours_first_amend" ∷ "book_signature_recurrence"
    ∷ "instrument_signature_recurrence" ∷ "signature_rarity_pct" ∷ []

abbrev flag_signals : List String
flag_signals =
    "near_period_end" ∷ "crosses_period_end" ∷ "price_round_trip" ∷ "has_amend" ∷ "has_cancel"
    ∷ "has_rebook_link" ∷ "lifecycle_valid" ∷ []

abbrev label_signals : List String
label_signals =
    "sequence_signature" ∷ "desk" ∷ "book" ∷ "product_type" ∷ "instrument_id" ∷ "desk_product" ∷ []

unfoldable pub signal_kind : String → Option SignalKind
signal_kind name =
    if elem name numeric_signals
    then some SignalKind.numeric
    else if elem name flag_signals
    then some SignalKind.flag
    else if elem name label_signals
    then some SignalKind.label
    else none

-- An optional text that counts as true.
abbrev pub given : Option String → Option String
given none = none
given (some s) = if s == "" then none else some s

-- `params[c.param] if c.param else (c.value or "")`
abbrev pub raw_of : Option String → Option String → List (String × String) → Result String
raw_of (some p) value params = or_raise (err key_error) (entry_of p params)
raw_of none value params = ok (get_or "" value)

unfoldable pub raw : Condition → List (String × String) → Result String
raw c params = raw_of (given c.param) c.value params

both : Decimal → Decimal → Bool
both a b = at_most a b && at_most b a

-- The dictionary of the comparisons, all of which are computed: NaN raises InvalidOperation.
pub compared : Op → Decimal → Number → Result Bool
unfolding both
compared op actual nan = err invalid_operation
compared Op.gt actual (finite t) = ok (not (at_most actual t))
compared Op.ge actual (finite t) = ok (at_most t actual)
compared Op.lt actual (finite t) = ok (not (at_most t actual))
compared Op.le actual (finite t) = ok (at_most actual t)
compared Op.eq actual (finite t) = ok (both actual t)
compared Op.ne actual (finite t) = ok (not (both actual t))
compared Op.in_ actual (finite t) = ok false
compared Op.gt actual (infinite negative) = ok negative
compared Op.ge actual (infinite negative) = ok negative
compared Op.lt actual (infinite negative) = ok (not negative)
compared Op.le actual (infinite negative) = ok (not negative)
compared Op.eq actual (infinite negative) = ok false
compared Op.ne actual (infinite negative) = ok true
compared Op.in_ actual (infinite negative) = ok false

-- Decimal(text)
pub decimal_of : Option Number → Result Number
decimal_of none = err invalid_operation
decimal_of (some t) = ok t

-- raw.split(","), as codes
split_commas : List ℕ → List ℕ → List (List ℕ)
split_commas word [] = reverse word ∷ []
split_commas word (c ∷ cs) =
    let new = split_commas [] cs in
    let more = split_commas (c ∷ word) cs in if eqb c 44 then reverse word ∷ new else more

strip : List ℕ → List ℕ
unfolding drop_blanks
strip cs = reverse (drop_blanks (reverse (drop_blanks cs)))

-- actual in {v.strip() for v in raw.split(",")}
pub listed : String → String → Bool
unfolding split_commas strip codes
listed actual text =
    any (λ (v : List ℕ). same_codes (strip v) (codes actual)) (split_commas [] (codes text))

abbrev pub same_flag : Bool → Bool → Bool
same_flag true b = b
same_flag false b = not b

flag_test : Op → Bool → Bool → Bool
flag_test Op.eq actual wanted = same_flag actual wanted
flag_test _ actual wanted = not (same_flag actual wanted)

label_test : Op → String → String → Bool
unfolding listed
label_test Op.in_ actual text = listed actual text
label_test Op.eq actual text = actual == text
label_test _ actual text = not (actual == text)

-- The test of a signal that is there, by its kind; a value of another type does not hold.
pub test : Option SignalKind → SignalValue → Op → String → Result Bool
unfolding compared decimal_of flag_test label_test
test (some SignalKind.numeric) (number_value actual) op text = do
  target ← decimal_of (number text)
  compared op actual target
test (some SignalKind.flag) (flag_value actual) op text = ok (flag_test op actual (text == "true"))
test (some SignalKind.label) (label_value actual) op text = ok (label_test op actual text)
test _ actual op text = ok false

pub test_if_there : Option SignalKind → Option SignalValue → Op → String → Result Bool
unfolding test
test_if_there kind none op text = ok false
test_if_there kind (some actual) op text = test kind actual op text

-- `_condition_holds`
unfoldable pub condition_holds : List (String × String) → EpisodeSignals → Condition → Result Bool
unfolding test_if_there
condition_holds params signals c = do
  text ← raw c params
  test_if_there (signal_kind c.signal) (signal_of c.signal signals) c.op text

op_value : Op → String
op_value Op.gt = "gt"
op_value Op.ge = "ge"
op_value Op.lt = "lt"
op_value Op.le = "le"
op_value Op.eq = "eq"
op_value Op.ne = "ne"
op_value Op.in_ = "in"

pub shown_raw : Option String → Option String → List (String × String) → Result String
shown_raw (some p) value params = or_raise (err key_error) (entry_of p params)
shown_raw none value params = ok (get_or "None" value)

unfoldable pub describe : Condition → List (String × String) → Result String
unfolding shown_raw op_value
describe c params = do
  text ← shown_raw (given c.param) c.value params
  ok (prefixed c.signal (prefixed " " (prefixed (op_value c.op) (prefixed " " text))))

pub record Detection : Type 0 where
  pub rule_id : String
  pub subrule_id : String
  pub episode_id : String
  pub matched : List String

pub add_line : String → Option (List String) → Option (List String)
add_line line none = none
add_line line (some lines) = some (line ∷ lines)

-- One pass of the loop of `evaluate_rule`: a condition that fails ends it without a detection.
unfoldable pub go_on :
    Bool → Result String → Result (Option (List String)) → Result (Option (List String))
unfolding add_line
go_on false line rest = ok none
go_on true line rest = do l ← line; lines ← rest; ok (add_line l lines)

module _ (params : List (String × String)) (signals : EpisodeSignals) where
  unfoldable pub matches : List Condition → Result (Option (List String))
  unfolding go_on
  matches [] = ok (some [])
  matches (c ∷ cs) = do
    let rest = matches cs
    holds ← condition_holds params signals c
    go_on holds (describe c params) rest

pub detected : RuleSpec → EpisodeSignals → Option (List String) → Option Detection
detected rule signals none = none
detected rule signals (some matched) = some (record {
  rule_id = rule.rule_id;
  subrule_id = rule.subrule_id;
  episode_id = signals.episode_id;
  matched = matched;
})

unfoldable pub evaluate_rule : RuleSpec → EpisodeSignals → Result (Option Detection)
unfolding matches detected
evaluate_rule rule signals = do
  found ← matches rule.parameters signals rule.conditions
  ok (detected rule signals found)

-- [d for r in rules if (d := evaluate_rule(r, signals)) is not None]
unfoldable pub evaluate_ruleset : List RuleSpec → EpisodeSignals → Result (List Detection)
unfolding evaluate_rule
evaluate_ruleset [] signals = ok []
evaluate_ruleset (r ∷ rules) signals = do
  d ← evaluate_rule r signals
  rest ← evaluate_ruleset rules signals
  ok (kept d rest)
  where
    kept : Option Detection → List Detection → List Detection
    kept none ds = ds
    kept (some d) ds = d ∷ ds
