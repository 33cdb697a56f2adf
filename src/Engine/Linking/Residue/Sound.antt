-- ===== src/Engine/Linking/Residue/Sound.antt =====
-- engine/linking.py: what is known of a pair that `_residue` gives.
use mathlib.Core.List.{Memᴰ}
use sep.Base.{
  ℕ, zero, suc, ◌+◌, ◌-◌, ◌≤◌, ◌≡◌, ◌≢◌, refl, sym, subst, Bool, true, false, not, ◌&&◌, inl, inr,
  ◌⊎◌, Option, none, some, List, [], ◌∷◌, ◌++◌, map, leb, leb→le, eqb, length, find, take,
  Bool-cases, ◌==◌, arith,
}
use sep.Base.Sort.{Memᴰ-sort_with}
use sep.Core.Errors.{Result, ok, err, ◌>>=◌}
use sep.Domain.Trades.{TradeEvent}
use sep.Engine.Linking.Attempt.{Guards}
use sep.Engine.Linking.Trades.{Inputs, events_of, places, trade_ids}
use sep.Engine.Linking.Episodes.{Texts, is_cancel}
use sep.Engine.Linking.Residue.{
  ResidueConfig, UnresolvedPair, RebookCandidate, same_terms, last_terms, start_of, episode_id_of,
  is_rebooked, may_replace, candidate_from, candidates_in, candidate_le, pair_of, chosen,
  residue_with, residue_after, residue_at, residue_of, residue,
}

module _ (inputs : Inputs) (guards : Guards) (texts : Texts) (config : ResidueConfig) where
  -- A trade that was cancelled and not rebooked, and another one, which begins in another episode on
  -- the same terms within the window after the cancellation.
  pub record Proposed (pair : UnresolvedPair) : Type 0 where
    pub trade : ℕ
    pub candidate : RebookCandidate
    pub cancel : TradeEvent
    pub last : TradeEvent
    pub first : TradeEvent
    pub is_pair : pair ≡ pair_of inputs guards texts config trade candidate
    pub cancelled :
        find (λ (e : TradeEvent). is_cancel e.event_type) (events_of inputs trade) ≡ some cancel
    pub not_rebooked : is_rebooked inputs guards texts config trade ≡ false
    pub last_known : last_terms (events_of inputs trade) ≡ ok last
    pub started : start_of (events_of inputs candidate.other) ≡ some first
    pub other_trade : candidate.other ≢ trade
    pub other_episode :
        (episode_id_of inputs guards texts config candidate.other
          == episode_id_of inputs guards texts config trade)
        ≡ false
    pub not_before : cancel.event_time ≤ first.event_time
    pub in_window : first.event_time ≤ cancel.event_time + config.window
    pub on_terms : same_terms first last ≡ true

  -- What a candidate in the list of those found has passed.
  record Found (t : ℕ) (cancel last : TradeEvent) (c : RebookCandidate) : Type 0 where
    pub first : TradeEvent
    pub started : start_of (events_of inputs c.other) ≡ some first
    pub passed : may_replace inputs guards texts config t cancel last c.other first ≡ true

  candidate_from-Found :
      (t : ℕ) (cancel last : TradeEvent) (other : ℕ) (o : Option TradeEvent)
      (found : List RebookCandidate) (c : RebookCandidate)
      → start_of (events_of inputs other) ≡ o
      → Memᴰ c (candidate_from inputs guards texts config t cancel last other o found)
      → (Memᴰ c found → Found t cancel last c)
      → Found t cancel last c
  unfolding candidate_from
  candidate_from-Found t cancel last other none found c e m before = before m
  candidate_from-Found t cancel last other (some first) found c e m before =
      elim (Bool-cases (may_replace inputs guards texts config t cancel last other first)) [
        | inl yes_it_may ↦
            let m' : Memᴰ c
                (record { gap = first.event_time - cancel.event_time; other = other } ∷ found) =
              rw yes_it_may at m in
            elim m' [
              | Memᴰ.head same ↦
                  subst (Found t cancel last) (sym same)
                    (record { first = first; started = e; passed = yes_it_may })
              | Memᴰ.tail n ↦ before n
            ]
        | inr may_not ↦ before (rw may_not at m)
      ]

  candidates_in-Found :
      (t : ℕ) (cancel last : TradeEvent) (others : List ℕ) (c : RebookCandidate)
      → Memᴰ c (candidates_in inputs guards texts config t cancel last others)
      → Found t cancel last c
  unfolding candidates_in
  candidates_in-Found t cancel last [] c m = elim m [ ]
  candidates_in-Found t cancel last (other ∷ others) c m =
      candidate_from-Found t cancel last other (start_of (events_of inputs other))
        (candidates_in inputs guards texts config t cancel last others) c refl m
        (candidates_in-Found t cancel last others c)

  Memᴰ-take :
      (n : ℕ) (c : RebookCandidate) (cs : List RebookCandidate) → Memᴰ c (take n cs) → Memᴰ c cs
  Memᴰ-take zero c cs m = elim m [ ]
  Memᴰ-take (suc n) c [] m = elim m [ ]
  Memᴰ-take (suc n) c (d ∷ cs) (Memᴰ.head e) = Memᴰ.head e
  Memᴰ-take (suc n) c (d ∷ cs) (Memᴰ.tail m) = Memᴰ.tail (Memᴰ-take n c cs m)

  chosen-Found :
      (t : ℕ) (cancel last : TradeEvent) (c : RebookCandidate)
      → Memᴰ c (chosen inputs guards texts config t cancel last)
      → Found t cancel last c
  unfolding chosen
  chosen-Found t cancel last c m =
      candidates_in-Found t cancel last _ c
        (Memᴰ-sort_with (candidate_le inputs guards texts config) c _ (Memᴰ-take _ c _ m))

  all_five :
      (a b c d e : Bool)
      → (a && b && c && d && e) ≡ true
      → (a ≡ true) × (b ≡ true) × (c ≡ true) × (d ≡ true) × (e ≡ true)
  all_five a b c d e h = ground arith

  not-eq_true : (b : Bool) → not b ≡ true → b ≡ false
  not-eq_true b h = ground arith

  eqb→ne : (m n : ℕ) → not (eqb m n) ≡ true → m ≢ n
  eqb→ne m n h = ground arith

  in_window_of : (m n w : ℕ) → leb m n ≡ true → leb (n - m) w ≡ true → n ≤ m + w
  in_window_of m n w h k = omega (arith, leb→le m n h, leb→le (n - m) w k)

  Found-Proposed :
      (t : ℕ) (cancel last : TradeEvent) (c : RebookCandidate)
      → find (λ (e : TradeEvent). is_cancel e.event_type) (events_of inputs t) ≡ some cancel
      → is_rebooked inputs guards texts config t ≡ false
      → last_terms (events_of inputs t) ≡ ok last
      → Found t cancel last c
      → Proposed (pair_of inputs guards texts config t c)
  unfolding may_replace
  Found-Proposed t cancel last c e n l f =
      let (other, episode, after, near, terms) = all_five _ _ _ _ _ f.passed in
      record {
        trade = t;
        candidate = c;
        cancel = cancel;
        last = last;
        first = f.first;
        is_pair = refl;
        cancelled = e;
        not_rebooked = n;
        last_known = l;
        started = f.started;
        other_trade = eqb→ne c.other t other;
        other_episode = not-eq_true _ episode;
        not_before = leb→le _ _ after;
        in_window = in_window_of cancel.event_time f.first.event_time config.window after near;
        on_terms = terms;
      }

  map-Proposed :
      (t : ℕ) (cs : List RebookCandidate) (pair : UnresolvedPair)
      → ((c : RebookCandidate) → Memᴰ c cs → Proposed (pair_of inputs guards texts config t c))
      → Memᴰ pair (map (pair_of inputs guards texts config t) cs)
      → Proposed pair
  map-Proposed t [] pair h m = elim m [ ]
  map-Proposed t (c ∷ cs) pair h (Memᴰ.head e) = subst Proposed (sym e) (h c (Memᴰ.head refl))
  map-Proposed t (c ∷ cs) pair h (Memᴰ.tail m) = map-Proposed t cs pair (λ d n. h d (Memᴰ.tail n)) m

  residue_with-Proposed :
      (t : ℕ) (cancel : TradeEvent) (l : Result TradeEvent) (pairs : List UnresolvedPair)
      (pair : UnresolvedPair)
      → find (λ (e : TradeEvent). is_cancel e.event_type) (events_of inputs t) ≡ some cancel
      → is_rebooked inputs guards texts config t ≡ false
      → last_terms (events_of inputs t) ≡ l
      → residue_with inputs guards texts config t cancel l ≡ ok pairs
      → Memᴰ pair pairs
      → Proposed pair
  unfolding residue_with
  residue_with-Proposed t cancel (err x) pairs pair e n l h m = absurd (ground arith)
  residue_with-Proposed t cancel (ok last) pairs pair e n l h m =
      let same : map (pair_of inputs guards texts config t)
            (chosen inputs guards texts config t cancel last)
          ≡ pairs =
        cc in
      map-Proposed t (chosen inputs guards texts config t cancel last) pair
        (λ c k. Found-Proposed t cancel last c e n l (chosen-Found t cancel last c k))
        (subst (Memᴰ pair) (sym same) m)

  residue_after-Proposed :
      (t : ℕ) (o : Option TradeEvent) (pairs : List UnresolvedPair) (pair : UnresolvedPair)
      → find (λ (e : TradeEvent). is_cancel e.event_type) (events_of inputs t) ≡ o
      → residue_after inputs guards texts config t o ≡ ok pairs
      → Memᴰ pair pairs
      → Proposed pair
  unfolding residue_after
  residue_after-Proposed t none pairs pair e h m =
      let same : pairs ≡ [] = cc in elim (subst (Memᴰ pair) same m) [ ]
  residue_after-Proposed t (some cancel) pairs pair e h m =
      elim (Bool-cases (is_rebooked inputs guards texts config t)) [
        | inl rebooked ↦
            let h' = rw rebooked at h in
            let same : pairs ≡ [] = cc in elim (subst (Memᴰ pair) same m) [ ]
        | inr not_rebooked ↦
            residue_with-Proposed t cancel (last_terms (events_of inputs t)) pairs pair e
              not_rebooked refl (rw not_rebooked at h) m
      ]

  Memᴰ-append :
      (pair : UnresolvedPair) (ps qs : List UnresolvedPair)
      → Memᴰ pair (ps ++ qs)
      → Memᴰ pair ps ⊎ Memᴰ pair qs
  Memᴰ-append pair [] qs m = inr m
  Memᴰ-append pair (p ∷ ps) qs (Memᴰ.head e) = inl (Memᴰ.head e)
  Memᴰ-append pair (p ∷ ps) qs (Memᴰ.tail m) = elim (Memᴰ-append pair ps qs m) [
    | inl n ↦ inl (Memᴰ.tail n)
    | inr n ↦ inr n
  ]

  both_parts :
      (r q : Result (List UnresolvedPair)) (pairs : List UnresolvedPair) (pair : UnresolvedPair)
      → (r >>= λ ps. q >>= λ rest. ok (ps ++ rest)) ≡ ok pairs
      → ((ps : List UnresolvedPair) → r ≡ ok ps → Memᴰ pair ps → Proposed pair)
      → ((ps : List UnresolvedPair) → q ≡ ok ps → Memᴰ pair ps → Proposed pair)
      → Memᴰ pair pairs
      → Proposed pair
  both_parts (err x) q pairs pair h first second m = absurd (ground arith)
  both_parts (ok ps) (err x) pairs pair h first second m = absurd (ground arith)
  both_parts (ok ps) (ok rest) pairs pair h first second m =
      let same : pairs ≡ ps ++ rest = cc in
      elim (Memᴰ-append pair ps rest (subst (Memᴰ pair) same m)) [
        | inl n ↦ first ps refl n
        | inr n ↦ second rest refl n
      ]

  residue_of-Proposed :
      (ts : List ℕ) (pairs : List UnresolvedPair) (pair : UnresolvedPair)
      → residue_of inputs guards texts config ts ≡ ok pairs
      → Memᴰ pair pairs
      → Proposed pair
  unfolding residue_of residue_at
  residue_of-Proposed [] pairs pair h m =
      let same : pairs ≡ [] = cc in elim (subst (Memᴰ pair) same m) [ ]
  residue_of-Proposed (t ∷ ts) pairs pair h m =
      both_parts (residue_at inputs guards texts config t)
        (residue_of inputs guards texts config ts) pairs pair h
        (λ ps e. residue_after-Proposed t _ ps pair refl e)
        (λ ps e. residue_of-Proposed ts ps pair e) m

  -- A pair that is left to the agent consists of a trade that was cancelled and that no accepted
  -- rebooking touches, and of another trade, which was booked anew in another episode, not before the
  -- first cancellation and within the window after it, in the same instrument and book, on the same
  -- side and for the same quantity as the last terms of the cancelled trade.
  pub residue-Proposed :
      (pairs : List UnresolvedPair) (pair : UnresolvedPair)
      → residue inputs guards texts config ≡ ok pairs
      → Memᴰ pair pairs
      → Proposed pair
  unfolding residue
  residue-Proposed pairs pair h m =
      residue_of-Proposed (places (length (trade_ids inputs)) []) pairs pair h m
