-- ===== src/Store/Audit/Encoding.antt =====
-- A digest for the examples: an entry's body written out as a text from
-- which it can be read back.
use sep.Base.{ℕ, String, ◌≡◌, refl, ap, List, [], ◌∷◌, arith}
use Prim.Native.Char.{Char, code}
use sep.Store.Audit.{Body}
use sep.Store.Audit.Chain.{CollisionFree}

abbrev cons : Char → String → String
cons = String.◌∷◌

abbrev first_code : String → ℕ
first_code String.[] = 0
first_code (String.◌∷◌ c s) = code c

abbrev rest_of : String → String
rest_of String.[] = String.[]
rest_of (String.◌∷◌ c s) = s

-- Each character behind a mark, and a full stop at the end.
quote : String → String → String
quote String.[] r = cons "." r
quote (String.◌∷◌ c s) r = cons "x" (cons c (quote s r))

quote-injective : (s t r r' : String) → quote s r ≡ quote t r' → (s ≡ t) × (r ≡ r')
unfolding quote
quote-injective String.[] String.[] r r' e = (refl, ap rest_of e)
quote-injective String.[] (String.◌∷◌ d t) r r' e = absurd (omega (arith, ap first_code e))
quote-injective (String.◌∷◌ c s) String.[] r r' e = absurd (omega (arith, ap first_code e))
quote-injective (String.◌∷◌ c s) (String.◌∷◌ d t) r r' e =
    let tails : cons c (quote s r) ≡ cons d (quote t r') = ap rest_of e in
    let (rest, same) = quote-injective s t r r' (ap rest_of tails) in (cc (rest, tails), same)

quote_pairs : List (String × String) → String → String
unfolding quote
quote_pairs [] r = cons "." r
quote_pairs ((k, v) ∷ l) r = cons "x" (quote k (quote v (quote_pairs l r)))

quote_pairs-injective :
    (l m : List (String × String)) (r r' : String)
    → quote_pairs l r ≡ quote_pairs m r'
    → (l ≡ m) × (r ≡ r')
unfolding quote_pairs
quote_pairs-injective [] [] r r' e = (refl, ap rest_of e)
quote_pairs-injective [] ((k, v) ∷ m) r r' e = absurd (omega (arith, ap first_code e))
quote_pairs-injective ((k, v) ∷ l) [] r r' e = absurd (omega (arith, ap first_code e))
quote_pairs-injective ((k, v) ∷ l) ((k', v') ∷ m) r r' e =
    let (keys, e1) = quote-injective k k' _ _ (ap rest_of e) in
    let (values, e2) = quote-injective v v' _ _ e1 in
    let (rest, same) = quote_pairs-injective l m r r' e2 in (cc (keys, values, rest), same)

unfoldable pub written : Body → String
unfolding quote_pairs
written b = cons "x" (
    quote b.at (
      quote b.actor
        (quote b.action (quote b.subject (quote_pairs b.detail (quote b.prev String.[]))))))

written-injective : (a b : Body) → written a ≡ written b → a ≡ b
unfolding written
written-injective a b e =
    let (at, e1) = quote-injective a.at b.at _ _ (ap rest_of e) in
    let (actor, e2) = quote-injective a.actor b.actor _ _ e1 in
    let (action, e3) = quote-injective a.action b.action _ _ e2 in
    let (subject, e4) = quote-injective a.subject b.subject _ _ e3 in
    let (detail, e5) = quote_pairs-injective a.detail b.detail _ _ e4 in
    let (prev, _) = quote-injective a.prev b.prev _ _ e5 in
    λ i. record {
      at = at i;
      actor = actor i;
      action = action i;
      subject = subject i;
      detail = detail i;
      prev = prev i;
    }

pub written-CollisionFree : CollisionFree written
unfolding written
written-CollisionFree = record {
  injective = written-injective;
  ne_genesis = λ a e. absurd (omega (arith, ap first_code e));
}
