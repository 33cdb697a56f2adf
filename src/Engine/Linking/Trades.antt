-- ===== src/Engine/Linking/Trades.antt =====
-- engine/linking.py: the trades, their events and their times, and the guards' test of a value.
use Prim.Native.Nat.{min, max}
use Prim.Native.String
use sep.Base.{
  ℕ, zero, suc, ◌+◌, String, Bool, true, false, ◌||◌, Option, none, some, List, [], ◌∷◌, ◌++◌, map,
  if◌then◌else◌, eqb, leb, filter, elem, get_elem?, ◌==◌,
}
use sep.Base.Sort.{sorted_set, sort_with}
use sep.Domain.Cases.{LinkStatus, TradeLink}
use sep.Domain.Trades.{TradeEvent, Alert}
use sep.Engine.Linking.Attempt.{Link, Guards, Linking}

-- `_Guards.is_degenerate` of a text
unfoldable pub is_degenerate : Guards → String → Bool
is_degenerate guards value =
    let text = guards.normal value in elem text guards.degenerate || guards.full_match text

event_le : TradeEvent → TradeEvent → Bool
event_le d e =
    if eqb d.version e.version then leb d.event_time e.event_time else leb d.version e.version

-- `by_trade` at one id
pub events_named : String → List TradeEvent → List TradeEvent
unfolding event_le sort_with
events_named name events =
    sort_with event_le (filter (λ (e : TradeEvent). e.trade_id == name) events)

abbrev pub place_from : ℕ → String → List String → Option ℕ
place_from n name [] = none
place_from n name (t ∷ ts) = if t == name then some n else place_from (n + 1) name ts

-- The places 0, …, n - 1, behind which `rest` stands.
abbrev pub places : ℕ → List ℕ → List ℕ
places zero rest = rest
places (suc n) rest = places n (n ∷ rest)

-- min(times) and max(times); a trade has an event or an alert, so there is a time.
unfoldable pub least : List ℕ → ℕ
least [] = 0
least (t ∷ []) = t
least (t ∷ u ∷ ts) = min t (least (u ∷ ts))

unfoldable pub greatest : List ℕ → ℕ
greatest [] = 0
greatest (t ∷ ts) = max t (greatest ts)

or_name : Option String → String
or_name none = ""
or_name (some name) = name

-- The first original_trade_id that is neither missing nor empty.
original_or : Option String → Option String → Option String
original_or none rest = rest
original_or (some name) rest = if name == "" then rest else some name

unfoldable pub original_of : List TradeEvent → Option String
unfolding original_or
original_of [] = none
original_of (e ∷ es) = original_or e.original_trade_id (original_of es)

-- What `build_episodes` is given and what it makes of it first.
pub record Inputs : Type 0 where
  pub events : List TradeEvent
  pub alerts : List Alert
  pub overlay : List TradeLink
  pub version : String
  -- `str.strip`
  pub strip : String → String

module _ (inputs : Inputs) where
  -- `trade_ids`
  unfoldable pub trade_ids : List String
  unfolding sorted_set
  trade_ids = sorted_set (
      map (λ (e : TradeEvent). e.trade_id) inputs.events
      ++ map (λ (a : Alert). a.trade_id) inputs.alerts)

  unfoldable pub name_of : ℕ → String
  unfolding trade_ids or_name
  name_of t = or_name (get_elem? trade_ids t)

  unfoldable pub place_of : String → Option ℕ
  unfolding trade_ids
  place_of name = place_from 0 name trade_ids

  unfoldable pub events_of : ℕ → List TradeEvent
  unfolding name_of events_named
  events_of t = events_named (name_of t) inputs.events

  alert_times : ℕ → List ℕ
  unfolding name_of
  alert_times t =
      map (λ (a : Alert). a.alert_time)
        (filter (λ (a : Alert). a.trade_id == name_of t) inputs.alerts)

  times_or : List ℕ → List ℕ → List ℕ
  times_or [] alerts = alerts
  times_or (t ∷ ts) alerts = t ∷ ts

  unfoldable pub times : ℕ → List ℕ
  unfolding times_or events_of alert_times
  times t = times_or (map (λ (e : TradeEvent). e.event_time) (events_of t)) (alert_times t)

  unfoldable pub first_time : ℕ → ℕ
  unfolding least times
  first_time t = least (times t)

  unfoldable pub last_time : ℕ → ℕ
  unfolding greatest times
  last_time t = greatest (times t)

  instruments_in : List TradeEvent → List String
  instruments_in [] = []
  instruments_in (e ∷ es) = e.instrument_id ∷ []

  -- Every trade by itself.
  unfoldable pub unlinked : Linking
  unfolding first_time last_time instruments_in events_of
  unlinked = record {
    parent = λ t. t;
    span_lo = first_time;
    span_hi = last_time;
    instruments = λ t. instruments_in (events_of t);
    accepted = [];
    rejected = [];
    flags = [];
  }

  is_booked : List TradeEvent → Bool
  is_booked [] = false
  is_booked (e ∷ es) = true

  booked : Option ℕ → Option ℕ
  unfolding is_booked events_of
  booked none = none
  booked (some t) = if is_booked (events_of t) then some t else none

  -- The place of an id in `by_trade`.
  unfoldable pub booked_place : String → Option ℕ
  unfolding booked place_of
  booked_place name = booked (place_of name)

  unfoldable pub canonical_link : ℕ → ℕ → String → String → String → String → Link
  canonical_link src dst kind tier reason value = record {
    src = src;
    dst = dst;
    kind = kind;
    tier = tier;
    status = LinkStatus.canonical;
    provenance = String.◌++◌ "deterministic:" inputs.version;
    reason = reason;
    evidence = (reason, value) ∷ [];
  }
