-- ===== src/Base/Number.antt =====
-- Python's `Decimal(text)`: the texts it accepts and the values it gives, NaN and the infinities
-- included. Digits are the ASCII ones; the context's limits of exponents are not reached.
use Prim.Native.Nat.{ℕ, suc, ◌+◌, ◌-◌, ◌*◌}
use Prim.Native.String.{String}
use Prim.Native.Char.{code}
use mathlib.Core.Path.{◌≡◌, refl}
use mathlib.Core.Bool.{Bool, true, false, not, ◌&&◌, ◌||◌}
use mathlib.Core.Option.{Option, none, some}
use mathlib.Core.List.{List, [], ◌∷◌, map}
use sep.Base.Tests.{leb, eqb, if◌then◌else◌}
use sep.Base.Lists.{filter, all, reverse}
use sep.Base.Decimal.{Decimal, ten_to}

pub data Number : Type 0 where
  finite : Decimal → Number
  infinite : (negative : Bool) → Number
  nan : Number

unfoldable pub codes : String → List ℕ
codes String.[] = []
codes (String.◌∷◌ c s) = code c ∷ codes s

is_digit : ℕ → Bool
is_digit c = leb 48 c && leb c 57

is_blank : ℕ → Bool
is_blank c = eqb c 32 || (leb 9 c && leb c 13)

lower : ℕ → ℕ
lower c = if leb 65 c && leb c 90 then c + 32 else c

unfoldable pub drop_blanks : List ℕ → List ℕ
unfolding is_blank
drop_blanks [] = []
drop_blanks (c ∷ cs) = let rest = drop_blanks cs in if is_blank c then rest else c ∷ cs

-- `text.strip()`, without underscores, in lower case
normal : String → List ℕ
unfolding codes drop_blanks lower
normal s =
    map lower
      (filter (λ (c : ℕ). not (eqb c 95)) (reverse (drop_blanks (reverse (drop_blanks (codes s))))))

abbrev pub same_codes : List ℕ → List ℕ → Bool
same_codes [] [] = true
same_codes (c ∷ cs) (d ∷ ds) = eqb c d && same_codes cs ds
same_codes _ _ = false

-- The value of leading digits onto `acc`, their number onto `n`, and the rest.
digits : ℕ → ℕ → List ℕ → ℕ × (ℕ × List ℕ)
unfolding is_digit
digits acc n [] = (acc, (n, []))
digits acc n (c ∷ cs) =
    let more = digits (acc * 10 + (c - 48)) (suc n) cs in
    if is_digit c then more else (acc, (n, c ∷ cs))

-- `m` with `places` digits behind the point, times ten to the power of `up` less `down`.
scaled : Bool → ℕ → ℕ → ℕ → ℕ → Number
unfolding ten_to
scaled negative m places up down =
    if leb (places + down) up
    then finite
        (record { negative = negative; digits = m * ten_to (up - (places + down)); scale = 0 })
    else finite (record { negative = negative; digits = m; scale = places + down - up })

-- The digits of an exponent, which end the text.
power : (ℕ → Number) → List ℕ → Option Number
unfolding digits
power build cs =
    let (value, (n, rest)) = digits 0 0 cs in
    elim rest [ [] ↦ (if eqb n 0 then none else some (build value)) | c ∷ more ↦ none ]

signed_power : (up down : ℕ → Number) → List ℕ → Option Number
unfolding power
signed_power up down [] = none
signed_power up down (c ∷ cs) =
    if eqb c 43 then power up cs else if eqb c 45 then power down cs else power up (c ∷ cs)

-- What may follow the digits: nothing, or `e` and an exponent.
exponent : Bool → ℕ → ℕ → List ℕ → Option Number
unfolding scaled signed_power
exponent negative m places [] = some (scaled negative m places 0 0)
exponent negative m places (c ∷ cs) =
    if eqb c 101
    then signed_power (λ v. scaled negative m places v 0) (λ v. scaled negative m places 0 v) cs
    else none

-- The fraction and the exponent, behind `n` digits of value `m`.
fraction : Bool → ℕ → ℕ → List ℕ → Option Number
unfolding exponent digits
fraction negative m n [] = if eqb n 0 then none else exponent negative m 0 []
fraction negative m n (c ∷ cs) =
    let (whole, (places, rest)) = digits m 0 cs in
    if eqb c 46
    then (if eqb (n + places) 0 then none else exponent negative whole places rest)
    else if eqb n 0
    then none
    else exponent negative m 0 (c ∷ cs)

starts : List ℕ → List ℕ → Bool
starts [] cs = true
starts (w ∷ ws) [] = false
starts (w ∷ ws) (c ∷ cs) = eqb w c && starts ws cs

abbrev rest_after : List ℕ → List ℕ → List ℕ
rest_after [] cs = cs
rest_after (w ∷ ws) [] = []
rest_after (w ∷ ws) (c ∷ cs) = rest_after ws cs

-- `nan` or `snan`, with digits behind it.
is_nan : List ℕ → Bool
unfolding codes starts is_digit
is_nan cs =
    (starts (codes "nan") cs && all is_digit (rest_after (codes "nan") cs))
    || (starts (codes "snan") cs && all is_digit (rest_after (codes "snan") cs))

unsigned : Bool → List ℕ → Option Number
unfolding codes is_nan fraction digits
unsigned negative cs =
    let (m, (n, rest)) = digits 0 0 cs in
    if is_nan cs
    then some nan
    else if same_codes cs (codes "inf") || same_codes cs (codes "infinity")
    then some (infinite negative)
    else fraction negative m n rest

signed : List ℕ → Option Number
unfolding unsigned
signed [] = none
signed (c ∷ cs) =
    if eqb c 43
    then unsigned false cs
    else if eqb c 45
    then unsigned true cs
    else unsigned false (c ∷ cs)

-- `Decimal(text)`, where none is InvalidOperation.
unfoldable pub number : String → Option Number
unfolding normal signed
number text = signed (normal text)

number_sample :
    number " -12.50e1 " ≡ some (finite (record { negative = true; digits = 1250; scale = 1 }))
unfolding number scaled ten_to
number_sample = refl

number_not : number "1.2.3" ≡ none
unfolding number
number_not = refl

number_nan : number "NaN" ≡ some nan
unfolding number
number_nan = refl
