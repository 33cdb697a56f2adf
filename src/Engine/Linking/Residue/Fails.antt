-- ===== src/Engine/Linking/Residue/Fails.antt =====
-- engine/linking.py: `_residue` at a trade of which only cancellations are known.
use mathlib.Core.List.{Memᴰ}
use sep.Base.{
  ℕ, ◌<◌, ◌≤◌, ◌≡◌, refl, ap, subst, Bool, true, false, not, inl, inr, Option, none, some, List, [],
  ◌∷◌, ◌++◌, filter, find, length, all, Bool-cases, and_left, and_right, arith,
}
use sep.Core.Errors.{Error, Result, ok, err, index_error, ◌>>=◌}
use sep.Domain.Trades.{TradeEvent}
use sep.Engine.Linking.Attempt.{Guards}
use sep.Engine.Linking.Trades.{Inputs, events_of, places, trade_ids}
use sep.Engine.Linking.Episodes.{Texts, is_cancel}
use sep.Engine.Linking.Components.Groups.{places-Memᴰ}
use sep.Engine.Linking.Residue.{
  ResidueConfig, UnresolvedPair, last_of, last_terms, is_rebooked, residue_with, residue_after,
  residue_at, residue_of, residue,
}

abbrev pub cancels : TradeEvent → Bool
cancels e = is_cancel e.event_type

filter-cancels :
    (es : List TradeEvent) → all cancels es ≡ true → filter (λ e. not (cancels e)) es ≡ []
filter-cancels [] h = refl
filter-cancels (e ∷ es) h =
    rw (and_left (cancels e) (all cancels es) h)
      (filter-cancels es (and_right (cancels e) (all cancels es) h))

last_terms-cancels :
    (e d : TradeEvent) (es : List TradeEvent)
    → all cancels (e ∷ (d ∷ es)) ≡ true
    → last_terms (e ∷ (d ∷ es)) ≡ err index_error
unfolding last_terms last_of
last_terms-cancels e d es h = ap last_of (filter-cancels (e ∷ (d ∷ es)) h)

last_of-error : (es : List TradeEvent) (x : Error) → last_of es ≡ err x → x ≡ index_error
unfolding last_of
last_of-error [] x h = cc
last_of-error (e ∷ []) x h = absurd (ground arith)
last_of-error (e ∷ d ∷ es) x h = last_of-error (d ∷ es) x h

last_terms-error : (es : List TradeEvent) (x : Error) → last_terms es ≡ err x → x ≡ index_error
unfolding last_terms
last_terms-error [] x h = cc
last_terms-error (e ∷ []) x h = absurd (ground arith)
last_terms-error (e ∷ d ∷ es) x h = last_of-error (filter (λ e. not (cancels e)) (e ∷ (d ∷ es))) x h

module _ (inputs : Inputs) (guards : Guards) (texts : Texts) (config : ResidueConfig) where
  -- The only error is an IndexError.
  abbrev OnlyIndex : Result (List UnresolvedPair) → Type 0
  OnlyIndex (ok pairs) = Unit {0}
  OnlyIndex (err x) = x ≡ index_error

  residue_with-OnlyIndex :
      (t : ℕ) (cancel : TradeEvent) (l : Result TradeEvent)
      → ((x : Error) → l ≡ err x → x ≡ index_error)
      → OnlyIndex (residue_with inputs guards texts config t cancel l)
  unfolding residue_with
  residue_with-OnlyIndex t cancel (ok last) h = tt
  residue_with-OnlyIndex t cancel (err x) h = h x refl

  residue_after-OnlyIndex :
      (t : ℕ) (o : Option TradeEvent) → OnlyIndex (residue_after inputs guards texts config t o)
  unfolding residue_after
  residue_after-OnlyIndex t none = tt
  residue_after-OnlyIndex t (some cancel) =
      elim (Bool-cases (is_rebooked inputs guards texts config t)) [
        | inl rebooked ↦ rw rebooked tt
        | inr free ↦ rw free (
            residue_with-OnlyIndex t cancel (last_terms (events_of inputs t))
              (last_terms-error (events_of inputs t)))
      ]

  residue_at-OnlyIndex : (t : ℕ) → OnlyIndex (residue_at inputs guards texts config t)
  unfolding residue_at
  residue_at-OnlyIndex t = residue_after-OnlyIndex t _

  raises_first :
      (r q : Result (List UnresolvedPair))
      → r ≡ err index_error
      → (r >>= λ ps. q >>= λ rest. ok (ps ++ rest)) ≡ err index_error
  raises_first (ok ps) q h = absurd (ground arith)
  raises_first (err x) q h = cc

  raises_later :
      (r q : Result (List UnresolvedPair))
      → OnlyIndex r
      → q ≡ err index_error
      → (r >>= λ ps. q >>= λ rest. ok (ps ++ rest)) ≡ err index_error
  raises_later (ok ps) (ok rest) i h = absurd (ground arith)
  raises_later (ok ps) (err x) i h = cc
  raises_later (err x) q i h = ap err i

  residue_of-fails :
      (ts : List ℕ) (t : ℕ)
      → residue_at inputs guards texts config t ≡ err index_error
      → Memᴰ t ts
      → residue_of inputs guards texts config ts ≡ err index_error
  unfolding residue_of
  residue_of-fails [] t h m = elim m [ ]
  residue_of-fails (u ∷ us) t h (Memᴰ.head e) =
      raises_first (residue_at inputs guards texts config u) _
        (subst (λ v. residue_at inputs guards texts config v ≡ err index_error) e h)
  residue_of-fails (u ∷ us) t h (Memᴰ.tail m) =
      raises_later (residue_at inputs guards texts config u) _ (residue_at-OnlyIndex u)
        (residue_of-fails us t h m)

  residue_at-fails :
      (t : ℕ) (es : List TradeEvent)
      → events_of inputs t ≡ es
      → 2 ≤ length es
      → all cancels es ≡ true
      → is_rebooked inputs guards texts config t ≡ false
      → residue_after inputs guards texts config t (find cancels es) ≡ err index_error
  unfolding residue_after residue_with
  residue_at-fails t [] e h c n = absurd (omega (arith, h))
  residue_at-fails t (x ∷ []) e h c n = absurd (omega (arith, h))
  residue_at-fails t (x ∷ y ∷ es) e h c n =
      rw (and_left (cancels x) (all cancels (y ∷ es)) c, n, e, last_terms-cancels x y es c) refl

  pub residue-fails :
      (t : ℕ)
      → t < length (trade_ids inputs)
      → 2 ≤ length (events_of inputs t)
      → all cancels (events_of inputs t) ≡ true
      → is_rebooked inputs guards texts config t ≡ false
      → residue inputs guards texts config ≡ err index_error
  unfolding residue residue_at
  residue-fails t h two c n =
      residue_of-fails (places (length (trade_ids inputs)) []) t
        (residue_at-fails t (events_of inputs t) refl two c n)
        (places-Memᴰ (length (trade_ids inputs)) t [] (inl h))
