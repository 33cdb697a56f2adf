-- ===== src/Engine/Linking/Episodes.antt =====
-- engine/linking.py: `_lifecycle_issues`, and the episodes that `build_episodes` makes of the components.
use sep.Base.{
  ℕ, ◌+◌, String, Bool, true, false, not, ◌&&◌, ◌||◌, List, [], ◌∷◌, ◌++◌, map, if◌then◌else◌, eqb,
  filter, elem, reverse, ◌==◌,
}
use sep.Base.Sort.{sorted_set, sort_with, text_le}
use sep.Domain.Cases.{TradeLink, Episode}
use sep.Domain.Trades.{TradeEvent, Alert, EventType}
use sep.Engine.Linking.Attempt.{Link, Guards}
use sep.Engine.Linking.Trades.{Inputs, name_of, events_of, least, greatest}
use sep.Engine.Linking.Stages.{linked}

unfoldable pub is_new : EventType → Bool
is_new EventType.new = true
is_new EventType.amend = false
is_new EventType.cancel = false

unfoldable pub is_cancel : EventType → Bool
is_cancel EventType.new = false
is_cancel EventType.amend = false
is_cancel EventType.cancel = true

-- versions == list(range(versions[0], versions[0] + len(versions)))
unfoldable pub are_consecutive : ℕ → List TradeEvent → Bool
are_consecutive n [] = true
are_consecutive n (e ∷ es) = eqb e.version n && are_consecutive (n + 1) es

-- A cancellation is there, and the first one is not the last event.
unfoldable pub goes_on_after_cancel : List TradeEvent → Bool
unfolding is_cancel
goes_on_after_cancel [] = false
goes_on_after_cancel (e ∷ []) = false
goes_on_after_cancel (e ∷ d ∷ es) =
    if is_cancel e.event_type then true else goes_on_after_cancel (d ∷ es)

abbrev issue : Bool → String → List String → List String
issue b text rest = if b then text ∷ rest else rest

unfoldable pub lifecycle_issues : List TradeEvent → List String
unfolding is_new are_consecutive goes_on_after_cancel
lifecycle_issues [] = "NO_LIFECYCLE" ∷ []
lifecycle_issues (e ∷ es) = issue (not (is_new e.event_type)) "FIRST_EVENT_NOT_NEW" (
    issue (not (are_consecutive e.version (e ∷ es))) "VERSION_GAP"
      (issue (goes_on_after_cancel (e ∷ es)) "EVENTS_AFTER_CANCEL" []))

concat {ℓ} : {A : Type ℓ} → List (List A) → List A
concat [] = []
concat (xs ∷ xss) = xs ++ concat xss

alert_le : Alert → Alert → Bool
alert_le a b = text_le a.alert_id b.alert_id

link_le : TradeLink → TradeLink → Bool
link_le l m =
    if l.src == m.src
    then (if l.dst == m.dst then text_le l.kind m.kind else text_le l.dst m.dst)
    else text_le l.src m.src

-- `stable_id(prefix, *parts)`, and the text by which an episode keeps a time
pub record Texts : Type 0 where
  pub stable_id : String → List String → String
  pub isoformat : ℕ → String

module _ (inputs : Inputs) (guards : Guards) (texts : Texts) where
  named : Link → TradeLink
  unfolding name_of
  named link = record {
    src = name_of inputs link.src;
    dst = name_of inputs link.dst;
    kind = link.kind;
    tier = link.tier;
    status = link.status;
    provenance = link.provenance;
    reason = link.reason;
    evidence = link.evidence;
  }

  -- The links in the order in which they came.
  links_of : List Link → List TradeLink
  unfolding named
  links_of links = reverse (map named links)

  pub member_events : List ℕ → List TradeEvent
  unfolding concat events_of
  member_events members = concat (map (events_of inputs) members)

  alerts_of : ℕ → List Alert
  unfolding name_of sort_with alert_le
  alerts_of t =
      filter (λ (a : Alert). a.trade_id == name_of inputs t) (sort_with alert_le inputs.alerts)

  unfoldable pub member_alerts : List ℕ → List Alert
  unfolding concat alerts_of
  member_alerts members = concat (map alerts_of members)

  unfoldable pub episode_times : List ℕ → List ℕ
  unfolding member_events member_alerts
  episode_times members =
      map (λ (e : TradeEvent). e.event_time) (member_events members)
      ++ map (λ (a : Alert). a.alert_time) (member_alerts members)

  flags_at : ℕ → List String
  unfolding linked
  flags_at t =
      map (λ (f : ℕ × String). f.1)
        (filter (λ (f : ℕ × String). eqb f.0 t) (linked inputs guards).flags)

  quality_at : ℕ → List String
  unfolding flags_at lifecycle_issues events_of
  quality_at t = lifecycle_issues (events_of inputs t) ++ flags_at t

  is_in : List String → String → Bool
  is_in names name = elem name names

  episode_named : List ℕ → List String → Episode
  unfolding links_of link_le is_in quality_at concat episode_times member_events member_alerts least
      greatest sorted_set sort_with linked
  episode_named members names = record {
    episode_id = texts.stable_id "EP" names;
    trade_ids = names;
    alert_ids = sort_with text_le (map (λ (a : Alert). a.alert_id) (member_alerts members));
    start = texts.isoformat (least (episode_times members));
    end = texts.isoformat (greatest (episode_times members));
    desks = sorted_set (
        map (λ (e : TradeEvent). e.desk) (member_events members)
        ++ map (λ (a : Alert). a.desk) (member_alerts members));
    books = sorted_set (
        map (λ (e : TradeEvent). e.book) (member_events members)
        ++ map (λ (a : Alert). a.book) (member_alerts members));
    instrument_ids = sorted_set (
        map (λ (e : TradeEvent). e.instrument_id) (member_events members)
        ++ map (λ (a : Alert). a.instrument_id) (member_alerts members));
    product_types = sorted_set (map (λ (e : TradeEvent). e.product_type) (member_events members));
    links =
        sort_with link_le (
          filter (λ (l : TradeLink). is_in names l.src) (links_of (linked inputs guards).accepted));
    rejected_links = sort_with link_le (
        filter (λ (l : TradeLink). is_in names l.src || is_in names l.dst)
          (links_of (linked inputs guards).rejected));
    quality_flags = sorted_set (concat (map quality_at members));
    linking_version = inputs.version;
  }

  -- One component's episode. The places of a component ascend, as its sorted names do.
  unfoldable pub episode_of : List ℕ → Episode
  unfolding episode_named name_of
  episode_of members = episode_named members (map (name_of inputs) members)
