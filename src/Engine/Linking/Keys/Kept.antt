-- ===== src/Engine/Linking/Keys/Kept.antt =====
-- engine/linking.py: properties of the state in the stage of a key.
use sep.Base.{
  ℕ, String, Bool, true, false, inl, inr, Option, none, some, List, [], ◌∷◌, if◌then◌else◌,
  Bool-cases, length,
}
use sep.Engine.Linking.Attempt.{Guards, Linking}
use sep.Engine.Linking.Attempt.Kept.{Kept, attempt-Kept}
use sep.Engine.Linking.Trades.{Inputs, is_degenerate, places, trade_ids}
use sep.Engine.Linking.Keys.{
  Key, Index, key_link, is_far, enter_value, enter_all, attach, attach_all, flag_all, join_members,
  join_values, entered, values_of, shared_key,
}

module _ (inputs : Inputs) (guards : Guards) (I : Linking → Type 0) (kept : Kept guards I) where
  kept-if : (b : Bool) (s t : Linking) → I s → I t → I (if b then s else t)
  kept-if true s t i j = i
  kept-if false s t i j = j

  enter_value-Kept :
      (key : Key) (t : ℕ) (value : Option String) (index : Index inputs guards) (s : Linking)
      → I s
      → I (enter_value inputs guards key t value (index, s)).1
  unfolding enter_value
  enter_value-Kept key t none index s i = i
  enter_value-Kept key t (some value) index s i = elim (Bool-cases (is_degenerate guards value)) [
    | inl bad ↦ rw bad (kept.flagging t _ s i)
    | inr good ↦ rw good i
  ]

  enter_all-Kept :
      (key : Key) (ts : List ℕ) (index : Index inputs guards) (s : Linking)
      → I s
      → I (enter_all inputs guards key ts (index, s)).1
  unfolding enter_all
  enter_all-Kept key [] index s i = i
  enter_all-Kept key (t ∷ ts) index s i =
      enter_all-Kept key ts _ _ (enter_value-Kept key t _ index s i)

  attach-Kept :
      (key : Key) (value : String) (anchor t : ℕ) (s : Linking)
      → I s
      → I (attach inputs guards key value anchor t s)
  unfolding attach
  attach-Kept key value anchor t s i = elim (Bool-cases (is_far inputs guards t anchor)) [
    | inl far ↦ rw far (kept.rejecting (key_link inputs guards key value t anchor) "OVER_GAP" s i)
    | inr near ↦
        rw near (attempt-Kept guards I kept (key_link inputs guards key value t anchor) s i)
  ]

  attach_all-Kept :
      (key : Key) (value : String) (anchor : ℕ) (ts : List ℕ) (s : Linking)
      → I s
      → I (attach_all inputs guards key value anchor ts s)
  unfolding attach_all
  attach_all-Kept key value anchor [] s i = i
  attach_all-Kept key value anchor (t ∷ ts) s i =
      attach_all-Kept key value anchor ts (attach inputs guards key value anchor t s)
        (attach-Kept key value anchor t s i)

  flag_all-Kept :
      (text : String) (ts : List ℕ) (s : Linking) → I s → I (flag_all inputs guards text ts s)
  unfolding flag_all
  flag_all-Kept text [] s i = i
  flag_all-Kept text (t ∷ ts) s i = flag_all-Kept text ts _ (kept.flagging t text s i)

  join_members-Kept :
      (key : Key) (value : String) (members : List ℕ) (s : Linking)
      → I s
      → I (join_members inputs guards key value members s)
  unfolding join_members
  join_members-Kept key value [] s i = i
  join_members-Kept key value (anchor ∷ others) s i =
      kept-if _ _ _ (flag_all-Kept _ (anchor ∷ others) s i)
        (attach_all-Kept key value anchor others s i)

  join_values-Kept :
      (key : Key) (index : Index inputs guards) (values : List String) (s : Linking)
      → I s
      → I (join_values inputs guards key index values s)
  unfolding join_values
  join_values-Kept key index [] s i = i
  join_values-Kept key index (value ∷ values) s i =
      join_values-Kept key index values _ (join_members-Kept key value _ s i)

  pub shared_key-Kept : (key : Key) (s : Linking) → I s → I (shared_key inputs guards key s)
  unfolding shared_key entered
  shared_key-Kept key s i =
      let out = entered inputs guards key s in
      join_values-Kept key out.0 (values_of inputs guards out.0) out.1
        (enter_all-Kept key (places (length (trade_ids inputs)) []) [] s i)
