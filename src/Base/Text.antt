-- ===== src/Base/Text.antt =====
-- `str(n)` and `f"{n:04d}"`: the decimal text of a number, and its value.
use Prim.Native.Nat.{ℕ, zero, suc, ◌+◌, ◌-◌, ◌*◌, ◌/◌, ◌%◌, ◌<◌}
use Prim.Native.Char.{code}
use Prim.Native.String.{String, ◌++◌, count}
use Prim.Native.String.append
use mathlib.Core.Path.{◌≡◌, refl, ap, sym, ◌∙◌}
use mathlib.Core.Logic.{inl, inr}
use native.Mathlib.Omega.{arith}
use sep.Base.Tests.{if◌then◌else◌, ltb, eqb, ltb→lt, ltb→ge, Bool-cases}

digit : ℕ → String
digit n =
    if eqb n 0
    then "0"
    else if eqb n 1
    then "1"
    else if eqb n 2
    then "2"
    else if eqb n 3
    then "3"
    else if eqb n 4
    then "4"
    else if eqb n 5
    then "5"
    else if eqb n 6
    then "6"
    else if eqb n 7
    then "7"
    else if eqb n 8
    then "8"
    else "9"

str_fuel : ℕ → ℕ → String
unfolding digit
str_fuel zero n = ""
str_fuel (suc f) n =
    let rest = str_fuel f (n / 10) in if ltb n 10 then digit n else rest ++ digit (n % 10)

-- `str(n)`. One digit is written for each unit of fuel at most, and a number has no more digits
-- than its successor's value.
unfoldable pub str : ℕ → String
unfolding str_fuel
str n = str_fuel (suc n) n

zeros : ℕ → String
zeros zero = ""
zeros (suc k) = "0" ++ zeros k

-- `f"{n:04d}"`
unfoldable pub str_04d : ℕ → String
unfolding zeros str
str_04d n = let s = str n in zeros (4 - count s) ++ s

-- The number that a text of digits denotes, after the digits of `acc`.
value : ℕ → String → ℕ
value acc String.[] = acc
value acc (String.◌∷◌ c s) = value (acc * 10 + (code c - 48)) s

value-append : (a : ℕ) (s t : String) → value a (s ++ t) ≡ value (value a s) t
unfolding value
value-append a String.[] t = ap (value a) (append.nil t)
value-append a (String.◌∷◌ c s) t =
    ap (value a) (append.cons c s t) ∙ value-append (a * 10 + (code c - 48)) s t

value-digit : (a d : ℕ) → d < 10 → value a (digit d) ≡ a * 10 + d
unfolding value digit
value-digit a zero h = refl
value-digit a (suc zero) h = refl
value-digit a (suc (suc zero)) h = refl
value-digit a (suc (suc (suc zero))) h = refl
value-digit a (suc (suc (suc (suc zero)))) h = refl
value-digit a (suc (suc (suc (suc (suc zero))))) h = refl
value-digit a (suc (suc (suc (suc (suc (suc zero)))))) h = refl
value-digit a (suc (suc (suc (suc (suc (suc (suc zero))))))) h = refl
value-digit a (suc (suc (suc (suc (suc (suc (suc (suc zero)))))))) h = refl
value-digit a (suc (suc (suc (suc (suc (suc (suc (suc (suc zero))))))))) h = refl
value-digit a (suc (suc (suc (suc (suc (suc (suc (suc (suc (suc n)))))))))) h = absurd (omega arith)

value-str_fuel : (f n : ℕ) → n < f → value 0 (str_fuel f n) ≡ n
unfolding str_fuel
value-str_fuel zero n h = elim h [ ]
value-str_fuel (suc f) n h = elim (Bool-cases (ltb n 10)) [
  | inl one ↦ rw one (omega (arith, value-digit 0 n (ltb→lt n 10 one)))
  | inr more ↦
      rw
        (
          more,
          value-append 0 (str_fuel f (n / 10)) (digit (n % 10)),
          value-str_fuel f (n / 10) (omega (arith, ltb→ge n 10 more)),
          value-digit (n / 10) (n % 10) (omega arith),
        )
        (omega arith)
]

pub str-injective : (m n : ℕ) → str m ≡ str n → m ≡ n
unfolding str
str-injective m n e =
    sym (value-str_fuel (suc m) m (omega arith))
    ∙ (ap (value 0) e ∙ value-str_fuel (suc n) n (omega arith))

str_04d_sample : str_04d 120 ≡ "0120"
unfolding str_04d
str_04d_sample = refl
