-- ===== src/Engine/Linking/Keys.antt =====
-- engine/linking.py: stage 2 of `build_episodes`, the trades that share a key.
pub mod Kept
use Prim.Native.Nat.{min, max}
use Prim.Native.String
use sep.Base.{
  ℕ, zero, suc, ◌+◌, ◌-◌, String, Bool, true, false, not, ◌&&◌, ◌||◌, Option, none, some, List, [],
  ◌∷◌, ◌++◌, map, if◌then◌else◌, eqb, ltb, leb, length, any, filter, elem, get_elem?, ◌==◌,
}
use sep.Base.Sort.{sorted_set, sort_with, text_le}
use sep.Domain.Cases.{LinkStatus, TradeLink}
use sep.Domain.Trades.{TradeEvent, Alert}
use sep.Engine.Linking.Attempt.{Link, Guards, Linking, flag, reject_link, attempt}
use sep.Engine.Linking.Trades.{
  Inputs, is_degenerate, unlinked, trade_ids, name_of, place_of, events_of, first_time, last_time,
  booked_place, original_of, places, canonical_link,
}

-- The keys of stage 2.
pub data Key : Type 0 where
  urn_ref alternate_trade_id : Key

pub key_name : Key → String
key_name urn_ref = "URN_REF"
key_name alternate_trade_id = "ALTERNATE_TRADE_ID"

key_kind : Key → String
key_kind urn_ref = "SHARED_URN"
key_kind alternate_trade_id = "ALTERNATE_ID"

key_value : Key → List TradeEvent → Option String
key_value key [] = none
key_value urn_ref (e ∷ es) = e.urn_ref
key_value alternate_trade_id (e ∷ es) = e.alternate_trade_id

module _ (inputs : Inputs) (guards : Guards) where
  -- `index`: the pairs of a value and a trade under it.
  abbrev pub Index : Type 0
  Index = List (String × ℕ)

  -- A trade that another one names as its alternate is under that name too.
  also_named : Key → String → Option ℕ → Index → Index
  also_named urn_ref value place index = index
  also_named alternate_trade_id value none index = index
  also_named alternate_trade_id value (some t) index = (value, t) ∷ index

  pub enter_value : Key → ℕ → Option String → Index × Linking → Index × Linking
  unfolding key_name is_degenerate flag also_named booked_place
  enter_value key t none (index, s) = (index, s)
  enter_value key t (some value) (index, s) =
      if is_degenerate guards value
      then (index, flag t (String.◌++◌ "DEGENERATE_" (key_name key)) s)
      else (
        also_named key (inputs.strip value) (booked_place inputs (inputs.strip value))
            ((inputs.strip value, t) ∷ index),
        s,
      )

  pub enter_all : Key → List ℕ → Index × Linking → Index × Linking
  unfolding enter_value key_value events_of
  enter_all key [] p = p
  enter_all key (t ∷ ts) p =
      enter_all key ts (enter_value key t (key_value key (events_of inputs t)) p)

  -- sorted(index[value])
  pub members_of : Index → String → List ℕ
  unfolding trade_ids
  members_of index value =
      filter (λ t. any (λ (p : String × ℕ). p.0 == value && eqb p.1 t) index)
        (places (length (trade_ids inputs)) [])

  pub key_link : Key → String → ℕ → ℕ → Link
  unfolding canonical_link key_name key_kind
  key_link key value other anchor =
      canonical_link inputs other anchor (key_kind key) "M" (key_name key) value

  -- abs(first_time[other] - first_time[anchor]) > medium_gap
  pub is_far : ℕ → ℕ → Bool
  unfolding first_time
  is_far other anchor = ltb guards.medium_gap (
      (first_time inputs other - first_time inputs anchor)
      + (first_time inputs anchor - first_time inputs other))

  pub attach : Key → String → ℕ → ℕ → Linking → Linking
  unfolding key_link is_far attempt reject_link
  attach key value anchor other s =
      if is_far other anchor
      then reject_link (key_link key value other anchor) "OVER_GAP" s
      else attempt guards (key_link key value other anchor) s

  pub attach_all : Key → String → ℕ → List ℕ → Linking → Linking
  unfolding attach
  attach_all key value anchor [] s = s
  attach_all key value anchor (t ∷ ts) s =
      attach_all key value anchor ts (attach key value anchor t s)

  pub flag_all : String → List ℕ → Linking → Linking
  unfolding flag
  flag_all text [] s = s
  flag_all text (t ∷ ts) s = flag_all text ts (flag t text s)

  -- One value of a key: too many trades under it, or a link of each to the first.
  pub join_members : Key → String → List ℕ → Linking → Linking
  unfolding attach_all flag_all key_name
  join_members key value [] s = s
  join_members key value (anchor ∷ others) s =
      if ltb guards.max_fanout (length (anchor ∷ others))
      then flag_all (String.◌++◌ "HUB_DEMOTED_" (key_name key)) (anchor ∷ others) s
      else attach_all key value anchor others s

  pub join_values : Key → Index → List String → Linking → Linking
  unfolding join_members members_of
  join_values key index [] s = s
  join_values key index (value ∷ values) s =
      join_values key index values (join_members key value (members_of index value) s)

  -- The index of a key over all trades.
  pub entered : Key → Linking → Index × Linking
  unfolding enter_all trade_ids
  entered key s = enter_all key (places (length (trade_ids inputs)) []) ([], s)

  pub values_of : Index → List String
  unfolding sorted_set
  values_of index = sorted_set (map (λ (p : String × ℕ). p.0) index)

  unfoldable pub shared_key : Key → Linking → Linking
  unfolding entered join_values values_of
  shared_key key s = let (index, s') = entered key s in join_values key index (values_of index) s'
