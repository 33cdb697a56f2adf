-- ===== src/Engine/Linking/Stages.antt =====
-- engine/linking.py: `build_episodes` up to the components: the lineage stage, the links confirmed by
-- people, and the stage of shared keys.
pub mod Kept
use Prim.Native.Nat.{min, max}
use Prim.Native.String
use sep.Base.{
  ℕ, zero, suc, ◌+◌, ◌-◌, String, Bool, true, false, not, ◌&&◌, ◌||◌, Option, none, some, List, [],
  ◌∷◌, ◌++◌, map, if◌then◌else◌, eqb, ltb, leb, length, any, filter, elem, get_elem?, ◌==◌,
}
use sep.Base.Sort.{sorted_set, sort_with, text_le}
use sep.Domain.Cases.{LinkStatus, TradeLink}
use sep.Domain.Trades.{TradeEvent, Alert}
use sep.Engine.Linking.Attempt.{Link, Guards, Linking, flag, reject_link, attempt}
use sep.Engine.Linking.Trades.{
  Inputs, is_degenerate, unlinked, trade_ids, name_of, place_of, events_of, first_time, last_time,
  booked_place, original_of, places, canonical_link,
}
use sep.Engine.Linking.Keys.{urn_ref, alternate_trade_id, shared_key}

module _ (inputs : Inputs) where
  module _ (guards : Guards) where
    pub link_original : ℕ → String → Option ℕ → Linking → Linking
    unfolding canonical_link attempt flag
    link_original t original none s = flag t "DANGLING_ORIGINAL_TRADE_ID" s
    link_original t original (some place) s =
        attempt guards (canonical_link inputs t place "REBOOK_OF" "S" "ORIGINAL_TRADE_ID" original)
          s

    pub lineage_to : ℕ → Option String → Linking → Linking
    unfolding link_original is_degenerate flag booked_place name_of
    lineage_to t none s = s
    lineage_to t (some original) s =
        if original == name_of inputs t
        then s
        else if is_degenerate guards original
        then flag t "DEGENERATE_ORIGINAL_TRADE_ID" s
        else link_original t original (booked_place inputs original) s

    -- Stage 1 at one trade.
    pub lineage : ℕ → Linking → Linking
    unfolding lineage_to original_of events_of
    lineage t s = lineage_to t (original_of (events_of inputs t)) s

    pub placed_link : TradeLink → ℕ → ℕ → Link
    placed_link link src dst = record {
      src = src;
      dst = dst;
      kind = link.kind;
      tier = link.tier;
      status = link.status;
      provenance = link.provenance;
      reason = link.reason;
      evidence = link.evidence;
    }

    pub is_canonical : LinkStatus → Bool
    is_canonical LinkStatus.canonical = true
    is_canonical LinkStatus.proposed = false
    is_canonical LinkStatus.verified = false
    is_canonical LinkStatus.rejected = false

    pub confirm_between : TradeLink → Option ℕ → Option ℕ → Linking → Linking
    unfolding placed_link attempt is_canonical
    confirm_between link none dst s = s
    confirm_between link (some src) none s = s
    confirm_between link (some src) (some dst) s =
        if is_canonical link.status then attempt guards (placed_link link src dst) s else s

    -- A link that people confirmed.
    pub confirm : TradeLink → Linking → Linking
    unfolding confirm_between place_of
    confirm link s = confirm_between link (place_of inputs link.src) (place_of inputs link.dst) s

pub overlay_le : TradeLink → TradeLink → Bool
overlay_le l m = if l.src == m.src then text_le l.dst m.dst else text_le l.src m.src

module _ (inputs : Inputs) (guards : Guards) where
  pub lineage_all : List ℕ → Linking → Linking
  unfolding lineage
  lineage_all [] s = s
  lineage_all (t ∷ ts) s = lineage_all ts (lineage inputs guards t s)

  pub confirm_all : List TradeLink → Linking → Linking
  unfolding confirm
  confirm_all [] s = s
  confirm_all (l ∷ ls) s = confirm_all ls (confirm inputs guards l s)

  -- The state behind all stages.
  unfoldable pub linked : Linking
  unfolding unlinked lineage_all confirm_all shared_key sort_with overlay_le trade_ids
  linked = shared_key inputs guards alternate_trade_id (
      shared_key inputs guards urn_ref (
        confirm_all (sort_with overlay_le inputs.overlay)
          (lineage_all (places (length (trade_ids inputs)) []) (unlinked inputs))))
