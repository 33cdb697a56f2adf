-- ===== src/Engine/Linking/Stages/Kept.antt =====
-- engine/linking.py: properties of the state in all stages.
use sep.Base.{
  ℕ, String, Bool, true, false, Option, none, some, List, [], ◌∷◌, if◌then◌else◌, length,
}
use sep.Base.Sort.{sort_with}
use sep.Domain.Cases.{TradeLink}
use sep.Engine.Linking.Attempt.{Guards, Linking}
use sep.Engine.Linking.Attempt.Kept.{Kept, attempt-Kept}
use sep.Engine.Linking.Trades.{Inputs, unlinked, canonical_link, places, trade_ids}
use sep.Engine.Linking.Keys.{urn_ref, alternate_trade_id}
use sep.Engine.Linking.Stages.{
  link_original, lineage_to, lineage, confirm_between, confirm, placed_link, is_canonical,
  overlay_le, lineage_all, confirm_all, linked,
}
use sep.Engine.Linking.Keys.Kept.{shared_key-Kept}

module _ (inputs : Inputs) (guards : Guards) (I : Linking → Type 0) (kept : Kept guards I) where
  kept-if : (b : Bool) (s t : Linking) → I s → I t → I (if b then s else t)
  kept-if true s t i j = i
  kept-if false s t i j = j

  link_original-Kept :
      (t : ℕ) (name : String) (o : Option ℕ) (s : Linking)
      → I s
      → I (link_original inputs guards t name o s)
  unfolding link_original
  link_original-Kept t name none s i = kept.flagging t _ s i
  link_original-Kept t name (some place) s i =
      attempt-Kept guards I kept
        (canonical_link inputs t place "REBOOK_OF" "S" "ORIGINAL_TRADE_ID" name) s i

  lineage_to-Kept :
      (t : ℕ) (o : Option String) (s : Linking) → I s → I (lineage_to inputs guards t o s)
  unfolding lineage_to
  lineage_to-Kept t none s i = i
  lineage_to-Kept t (some name) s i =
      kept-if _ s _ i (kept-if _ _ _ (kept.flagging t _ s i) (link_original-Kept t name _ s i))

  lineage_all-Kept : (ts : List ℕ) (s : Linking) → I s → I (lineage_all inputs guards ts s)
  unfolding lineage_all lineage
  lineage_all-Kept [] s i = i
  lineage_all-Kept (t ∷ ts) s i = lineage_all-Kept ts _ (lineage_to-Kept t _ s i)

  confirm_between-Kept :
      (link : TradeLink) (src dst : Option ℕ) (s : Linking)
      → I s
      → I (confirm_between inputs guards link src dst s)
  unfolding confirm_between
  confirm_between-Kept link none dst s i = i
  confirm_between-Kept link (some src) none s i = i
  confirm_between-Kept link (some src) (some dst) s i =
      kept-if (is_canonical inputs guards link.status) _ s
        (attempt-Kept guards I kept (placed_link inputs guards link src dst) s i) i

  confirm_all-Kept :
      (links : List TradeLink) (s : Linking) → I s → I (confirm_all inputs guards links s)
  unfolding confirm_all confirm
  confirm_all-Kept [] s i = i
  confirm_all-Kept (l ∷ ls) s i = confirm_all-Kept ls _ (confirm_between-Kept l _ _ s i)

  pub linked-Kept : I (unlinked inputs) → I (linked inputs guards)
  unfolding linked
  linked-Kept i = shared_key-Kept inputs guards I kept alternate_trade_id _ (
      shared_key-Kept inputs guards I kept urn_ref _ (
        confirm_all-Kept (sort_with overlay_le inputs.overlay) _
          (lineage_all-Kept (places (length (trade_ids inputs)) []) _ i)))
