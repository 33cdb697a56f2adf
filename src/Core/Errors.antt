-- ===== src/Core/Errors.antt =====
-- core/errors.py, and the exceptions of the language that the modelled code can raise. An error is
-- kept by its class; the message text, which only people read, is not.
use mathlib.Core.Path.{◌≡◌, refl, ap}

pub data Error : Type 0 where
  config_missing data_contract_error permission_denied governance_error : Error
  immutable_record_error duplicate_key_error anchor_error model_error : Error
  validation_error key_error value_error type_error : Error
  index_error invalid_operation : Error
  unknown_field_error point_in_time_violation : Error
  tool_error tool_not_allowed budget_exceeded : Error

pub data Result {ℓ} (A : Type ℓ) : Type ℓ where
  ok : A → Result A
  err : Error → Result A

-- An exception passes through the statements behind it.
infixl 10 ◌>>=◌ ◌>>◌
abbrev pub ◌>>=◌ {ℓ κ} : {A : Type ℓ} {B : Type κ} → Result A → (A → Result B) → Result B
err error >>= next = err error
ok value >>= next = next value

abbrev pub ◌>>◌ {ℓ} : {B : Type ℓ} → Result (Unit {0}) → Result B → Result B
first >> second = first >>= λ _. second

pub ok-injective {ℓ} : {A : Type ℓ} (a b : A) → ok a ≡ ok b → a ≡ b
ok-injective a b h = ap (λ r. elim r [ ok x ↦ x | err e ↦ a ]) h

-- What returned has returned at each step.
pub bind_ok {ℓ κ} :
    {A : Type ℓ} {B : Type κ} (r : Result A) (f : A → Result B) (b : B)
    → (r >>= f) ≡ ok b
    → (a : A) × (r ≡ ok a) × (f a ≡ ok b)
bind_ok (ok a) f b h = (a, refl, h)
bind_ok (err e) f b h = cc
