-- ===== src/Common/Results.antt =====
-- Fallible code: the errors of internal/loan/errors.go as values, and the result of a Go function
-- that returns a value and an error. A formatted error keeps what `errors.Is` sees of it; its text
-- is not kept.
use mathlib.Core.Path.{◌≡◌, refl}
use mathlib.Core.Logic.{◌⊎◌, inl, inr}
use mathlib.Core.Bool.{Bool, true, false}

-- The variables of errors.go, the errors that other packages declare, and
-- `foreign` for any other error. `joined` is errors.Join.
pub data Error : Type 0 where
  not_found ambiguous_account_resolution invalid_input unsupported_calculation : Error
  unsupported_repayment_reversal unsupported_repayment_adjustment historical_evidence : Error
  current_snapshot fincloud_credentials fincloud_session fincloud_unavailable : Error
  dwh_unavailable mso_unavailable invariant deadline_exceeded foreign : Error
  slik_not_found slik_not_ready slik_expired refresh_in_progress : Error
  user_not_found username_taken session_not_found invalid_credentials inactive_user : Error
  unauthenticated login_throttled fincloud_invalid_credentials : Error
  unknown_permission baseline_permission last_access_manager : Error
  joined : Error → Error → Error

-- A Go pair of a value and an error, of which the caller uses one.
pub data Result {ℓ} (Value : Type ℓ) : Type ℓ where
  err : Error → Result Value
  ok : Value → Result Value

-- `if err != nil { return ..., err }`, and the rest with the value.
infixl 5 ◌>>=◌ ◌>>◌
abbrev pub ◌>>=◌ {ℓ κ} :
    {Value : Type ℓ} {Next : Type κ} → Result Value → (Value → Result Next) → Result Next
err failure >>= rest = err failure
ok value >>= rest = rest value

abbrev pub ◌>>◌ {κ} : {Next : Type κ} → Result (Unit {0}) → Result Next → Result Next
test >> rest = test >>= λ passed. rest

-- `if refused { return ..., e }`.
abbrev pub refuse : Bool → Error → Result (Unit {0})
refuse true e = err e
refuse false e = ok tt

abbrev pub is_ok {ℓ} : {A : Type ℓ} → Result A → Bool
is_ok (ok a) = true
is_ok (err e) = false

-- What a chain that ends well went through.
pub >>=-eq-ok {ℓ κ} :
    {Value : Type ℓ} {Next : Type κ} (r : Result Value) (rest : Value → Result Next) {end : Next}
    → (r >>= rest) ≡ ok end
    → (value : Value) × (r ≡ ok value) × (rest value ≡ ok end)
>>=-eq-ok (err failure) rest h = cc
>>=-eq-ok (ok value) rest h = (value, refl, h)

pub refuse-eq-ok {ℓ} :
    {B : Type ℓ} (c : Bool) (e : Error) (k : Result B) {b : B}
    → (refuse c e >> k) ≡ ok b
    → (c ≡ false) × (k ≡ ok b)
refuse-eq-ok true e k h = cc
refuse-eq-ok false e k h = (refl, h)

pub Result-cases {ℓ} :
    {A : Type ℓ} (r : Result A) → ((a : A) × (r ≡ ok a)) ⊎ ((e : Error) × (r ≡ err e))
Result-cases (ok a) = inl (a, refl)
Result-cases (err e) = inr (e, refl)

pub ok-injective {ℓ} : {A : Type ℓ} (a b : A) → ok a ≡ ok b → a ≡ b
ok-injective a b h = cc

pub is_ok->>= {ℓ κ} :
    {Value : Type ℓ} {Next : Type κ} (r : Result Value) (after : Value → Next)
    → is_ok r ≡ true
    → is_ok (r >>= λ value. ok (after value)) ≡ true
is_ok->>= (err failure) after h = cc
is_ok->>= (ok value) after h = refl
