-- ===== src/Engine/Linking/Residue.antt =====
-- engine/linking.py: `_residue`, the pairs of a cancelled trade and a new one that may replace it.
pub mod Sound
pub mod Fails
use Prim.Native.Nat.{suc}
use sep.Base.{
  ℕ, zero, ◌+◌, ◌-◌, ◌/◌, String, Bool, true, false, not, ◌&&◌, ◌||◌, Option, none, some, List, [],
  ◌∷◌, ◌++◌, map, if◌then◌else◌, eqb, ltb, leb, length, any, all, filter, find, elem, take, ◌==◌,
}
use sep.Base.Text.{str}
use sep.Base.Sort.{sort_with, text_le}
use sep.Base.Decimal.{Decimal, at_most}
use sep.Core.Errors.{Result, ok, err, index_error, ◌>>=◌}
use sep.Domain.Cases.{Episode}
use sep.Domain.Trades.{TradeEvent, Alert, Side, buy, sell}
use sep.Engine.Linking.Attempt.{Link, Guards, Linking}
use sep.Engine.Linking.Trades.{Inputs, places, trade_ids, name_of, events_of, original_of, least}
use sep.Engine.Linking.Stages.{linked}
use sep.Engine.Linking.Components.{components}
use sep.Engine.Linking.Episodes.{Texts, is_new, is_cancel, episode_of, episode_times, member_alerts}

-- `window` is in the unit of the times, of which a minute has `minute`.
pub record ResidueConfig : Type 0 where
  pub window : ℕ
  pub max_candidates : ℕ
  pub minute : ℕ

pub record UnresolvedPair : Type 0 where
  pub pair_id : String
  pub cancelled_trade : String
  pub candidate_trade : String
  pub episode_a : String
  pub episode_b : String
  pub features : List (String × String)

same_side : Option Side → Option Side → Bool
same_side none none = true
same_side none (some s) = false
same_side (some s) none = false
same_side (some buy) (some buy) = true
same_side (some buy) (some sell) = false
same_side (some sell) (some buy) = false
same_side (some sell) (some sell) = true

same_quantity : Option Decimal → Option Decimal → Bool
same_quantity none none = true
same_quantity none (some d) = false
same_quantity (some d) none = false
same_quantity (some d) (some e) = at_most d e && at_most e d

-- The four fields in which a rebooked trade is identical.
unfoldable pub same_terms : TradeEvent → TradeEvent → Bool
unfolding same_side same_quantity
same_terms d e =
    d.instrument_id == e.instrument_id
    && d.book == e.book
    && same_side d.side e.side
    && same_quantity d.quantity e.quantity

-- [...][-1]
pub last_of : List TradeEvent → Result TradeEvent
last_of [] = err index_error
last_of (e ∷ []) = ok e
last_of (e ∷ d ∷ es) = last_of (d ∷ es)

-- The last event that is no cancellation, or the only event.
unfoldable pub last_terms : List TradeEvent → Result TradeEvent
unfolding last_of
last_terms [] = err index_error
last_terms (e ∷ []) = ok e
last_terms (e ∷ d ∷ es) =
    last_of (filter (λ (e : TradeEvent). not (is_cancel e.event_type)) (e ∷ d ∷ es))

is_some {ℓ} : {A : Type ℓ} → Option A → Bool
is_some none = false
is_some (some a) = true

-- The first event of a trade that was booked anew and names no original.
unfoldable pub start_of : List TradeEvent → Option TradeEvent
unfolding original_of is_some
start_of [] = none
start_of (e ∷ es) =
    if is_new e.event_type && not (is_some (original_of (e ∷ es))) then some e else none

pub record RebookCandidate : Type 0 where
  pub gap : ℕ
  pub other : ℕ

module _ (inputs : Inputs) (guards : Guards) (texts : Texts) (config : ResidueConfig) where
  -- `episode_of_trade`: the id of the episode that a place is in.
  pub episode_id_in : ℕ → List (ℕ × List ℕ) → String
  unfolding episode_of
  episode_id_in t [] = ""
  episode_id_in t ((root, members) ∷ groups) =
      let rest = episode_id_in t groups in
      if any (λ u. eqb u t) members
      then (episode_of inputs guards texts members).episode_id
      else rest

  pub episode_id_of : ℕ → String
  unfolding episode_id_in components
  episode_id_of t = episode_id_in t (components inputs guards)

  is_rebook_at : ℕ → Link → Bool
  is_rebook_at t link = link.kind == "REBOOK_OF" && (eqb link.src t || eqb link.dst t)

  unfoldable pub is_rebooked : ℕ → Bool
  unfolding is_rebook_at linked
  is_rebooked t = any (is_rebook_at t) (linked inputs guards).accepted

  -- Whether a trade with the first event `first` may replace one that was cancelled by `cancel`.
  unfoldable pub may_replace : ℕ → TradeEvent → TradeEvent → ℕ → TradeEvent → Bool
  unfolding same_terms episode_id_of
  may_replace t cancel last other first =
      not (eqb other t)
      && not (episode_id_of other == episode_id_of t)
      && leb cancel.event_time first.event_time
      && leb (first.event_time - cancel.event_time) config.window
      && same_terms first last

  pub candidate_from :
      ℕ
      → TradeEvent
      → TradeEvent
      → ℕ
      → Option TradeEvent
      → List RebookCandidate
      → List RebookCandidate
  unfolding may_replace
  candidate_from t cancel last other none found = found
  candidate_from t cancel last other (some first) found =
      if may_replace t cancel last other first
      then record { gap = first.event_time - cancel.event_time; other = other } ∷ found
      else found

  unfoldable pub candidates_in : ℕ → TradeEvent → TradeEvent → List ℕ → List RebookCandidate
  unfolding candidate_from start_of events_of
  candidates_in t cancel last [] = []
  candidates_in t cancel last (other ∷ others) =
      candidate_from t cancel last other (start_of (events_of inputs other))
        (candidates_in t cancel last others)

  pub candidate_le : RebookCandidate → RebookCandidate → Bool
  candidate_le c d = if eqb c.gap d.gap then leb c.other d.other else leb c.gap d.gap

  source_of : List TradeEvent → String
  source_of [] = ""
  source_of (e ∷ es) = e.source

  unfoldable pub pair_of : ℕ → RebookCandidate → UnresolvedPair
  unfolding episode_id_of source_of events_of name_of str
  pair_of t c = record {
    pair_id = texts.stable_id "PAIR" (name_of inputs t ∷ name_of inputs c.other ∷ []);
    cancelled_trade = name_of inputs t;
    candidate_trade = name_of inputs c.other;
    episode_a = episode_id_of t;
    episode_b = episode_id_of c.other;
    features =
        ("same_instrument", "true")
        ∷ ("same_book", "true")
        ∷ ("same_side", "true")
        ∷ ("same_quantity", "true")
        ∷ ("minutes_after_cancel", str (c.gap / config.minute))
        ∷ ("candidate_source", source_of (events_of inputs c.other))
        ∷ [];
  }

  -- sorted(found)[:max_candidates]
  unfoldable pub chosen : ℕ → TradeEvent → TradeEvent → List RebookCandidate
  unfolding candidates_in sort_with candidate_le trade_ids
  chosen t cancel last =
      take config.max_candidates (
        sort_with candidate_le
          (candidates_in t cancel last (places (length (trade_ids inputs)) [])))

  pub residue_with : ℕ → TradeEvent → Result TradeEvent → Result (List UnresolvedPair)
  unfolding chosen pair_of
  residue_with t cancel (err e) = err e
  residue_with t cancel (ok last) = ok (map (pair_of t) (chosen t cancel last))

  pub residue_after : ℕ → Option TradeEvent → Result (List UnresolvedPair)
  unfolding residue_with last_terms events_of is_rebooked
  residue_after t none = ok []
  residue_after t (some cancel) =
      if is_rebooked t then ok [] else residue_with t cancel (last_terms (events_of inputs t))

  -- The pairs of one trade, of which the first cancellation counts.
  unfoldable pub residue_at : ℕ → Result (List UnresolvedPair)
  unfolding residue_after events_of
  residue_at t =
      residue_after t (find (λ (e : TradeEvent). is_cancel e.event_type) (events_of inputs t))

  unfoldable pub residue_of : List ℕ → Result (List UnresolvedPair)
  unfolding residue_at
  residue_of [] = ok []
  residue_of (t ∷ ts) = residue_at t >>= λ pairs. residue_of ts >>= λ rest. ok (pairs ++ rest)

  unfoldable pub residue : Result (List UnresolvedPair)
  unfolding residue_of trade_ids
  residue = residue_of (places (length (trade_ids inputs)) [])
