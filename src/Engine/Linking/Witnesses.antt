-- ===== src/Engine/Linking/Witnesses.antt =====
-- The theorems about linking at four trades: T1 was cancelled and rebooked as T2; T3 was cancelled, and
-- T4 was booked on the same terms soon after.
use sep.Base.{
  ℕ, ◌+◌, ◌<◌, ◌≤◌, ◌≡◌, ◌↔◌, refl, String, false, Option, none, some, List, [], ◌∷◌, length, arith,
}
use mathlib.Core.List.{Memᴰ}
use sep.Base.Decimal.{zero_decimal, at_most}
use sep.Core.Errors.{ok, err, index_error}
use sep.Domain.Trades.{TradeEvent, EventType, buy}
use sep.Engine.Linking.Attempt.{Guards}
use sep.Engine.Linking.Attempt.Classes.{Connected}
use sep.Engine.Linking.Trades.{Inputs, events_of, trade_ids, first_time, last_time}
use sep.Engine.Linking.Stages.{linked}
use sep.Engine.Linking.Components.{components}
use sep.Engine.Linking.Components.Partition.{Together, components-Connected, components-span}
use sep.Engine.Linking.Episodes.{Texts, is_cancel}
use sep.Engine.Linking.Residue.{ResidueConfig, UnresolvedPair, is_rebooked, residue}
use sep.Engine.Linking.Residue.Sound.{Proposed, residue-Proposed}
use sep.Engine.Linking.Build.{build_episodes}
use sep.Engine.Linking.Build.Fails.{build_episodes-fails}

abbrev trade_event : String → ℕ → EventType → ℕ → Option String → TradeEvent
trade_event trade version type time original = record {
  trade_id = trade;
  version = version;
  event_type = type;
  event_time = time;
  record_time = time;
  book = "B";
  desk = "D";
  instrument_id = "I";
  product_type = "P";
  side = some buy;
  quantity = some zero_decimal;
  price = none;
  currency = "EUR";
  notional_usd = none;
  original_trade_id = original;
  alternate_trade_id = none;
  urn_ref = none;
  source = "book";
}

abbrev inputs_of : List TradeEvent → Inputs
inputs_of events = record {
  events = events;
  alerts = [];
  overlay = [];
  version = "1";
  strip = λ s. s;
}

abbrev inputs : Inputs
inputs = inputs_of (
    trade_event "T1" 1 EventType.new 0 none
    ∷ trade_event "T1" 2 EventType.cancel 10 none
    ∷ trade_event "T2" 1 EventType.new 20 (some "T1")
    ∷ trade_event "T3" 1 EventType.new 0 none
    ∷ trade_event "T3" 2 EventType.cancel 5 none
    ∷ trade_event "T4" 1 EventType.new 15 none
    ∷ [])

abbrev guards : Guards
guards = record {
  max_span = 30;
  medium_gap = 10;
  max_fanout = 5;
  degenerate = [];
  normal = λ s. s;
  full_match = λ _. false;
}

abbrev first_of : List String → String
first_of [] = ""
first_of (s ∷ ss) = s

abbrev texts : Texts
texts = record { stable_id = λ _ names. first_of names; isoformat = λ _. "" }

abbrev config : ResidueConfig
config = record { window = 60; max_candidates = 3; minute = 1 }

count : length (trade_ids inputs) ≡ 4
unfolding trade_ids
count = refl

together : Together (components inputs guards) 0 1
unfolding components
together = record {
  group = (0, 0 ∷ 1 ∷ []);
  there = Memᴰ.head refl;
  first = Memᴰ.head refl;
  second = Memᴰ.tail (Memᴰ.head refl);
}

components-Connected_example :
    Together (components inputs guards) 0 1 ↔ Connected (linked inputs guards).accepted 0 1
components-Connected_example =
    components-Connected inputs guards 0 1 (omega (arith, count)) (omega (arith, count))

components-span_example : last_time inputs 1 ≤ first_time inputs 0 + 30
components-span_example = components-span inputs guards 0 1 (omega arith) together

abbrev pair : UnresolvedPair
pair = record {
  pair_id = "T3";
  cancelled_trade = "T3";
  candidate_trade = "T4";
  episode_a = "T3";
  episode_b = "T4";
  features =
      ("same_instrument", "true")
      ∷ ("same_book", "true")
      ∷ ("same_side", "true")
      ∷ ("same_quantity", "true")
      ∷ ("minutes_after_cancel", "10")
      ∷ ("candidate_source", "book")
      ∷ [];
}

residue_runs : residue inputs guards texts config ≡ ok (pair ∷ [])
unfolding residue at_most
residue_runs = refl

residue-Proposed_example : Proposed inputs guards texts config pair
residue-Proposed_example =
    residue-Proposed inputs guards texts config (pair ∷ []) pair residue_runs (Memᴰ.head refl)

-- T5 is known by two cancellations only.
abbrev cancelled_twice : Inputs
cancelled_twice =
    inputs_of
      (trade_event "T5" 2 EventType.cancel 0 none ∷ trade_event "T5" 3 EventType.cancel 5 none ∷ [])

two_cancels : (0 < length (trade_ids cancelled_twice)) × (2 ≤ length (events_of cancelled_twice 0))
unfolding trade_ids events_of
two_cancels = omega arith

build_episodes-fails_example : build_episodes cancelled_twice guards texts config ≡ err index_error
unfolding events_of is_cancel is_rebooked
build_episodes-fails_example =
    build_episodes-fails cancelled_twice guards texts config 0 two_cancels.0 two_cancels.1 refl refl
