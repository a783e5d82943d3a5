-- ===== src/Loan/Money/Decimal.antt =====
-- internal/loan/money.go: ParseMoney.
use new_trs.Common.{
  ℕ, ◌+◌, ◌-◌, ◌*◌, ◌^◌, ◌≡◌, refl, Bool, not, ◌&&◌, ◌==◌, if◌then◌else◌, List, [], ◌∷◌, ◌++◌,
  length, Result, ok, err, foreign, refuse, ◌>>◌, ◌>>=◌,
}
use new_trs.Common.Int.{ℤ, pos, ◌-ℤ◌}
use new_trs.Common.Text.{Text, codes, is_digit, is_empty, trim_space, split, all_of}
use new_trs.Loan.Money.{Money}

-- The number that the digits write, after those read so far.
unfoldable pub digits_value : ℕ → Text → ℕ
digits_value n [] = n
digits_value n (c ∷ s) = digits_value (n * 10 + (c - 48)) s

unfoldable pub is_number : Text → Bool
is_number s = not (is_empty s) && all_of is_digit s

-- A numerator and the count of digits after the point.
unfoldable pub unsigned_parts : List Text → Result (ℕ × ℕ)
unsigned_parts [] = err foreign
unsigned_parts (whole ∷ []) = refuse (not (is_number whole)) foreign >> ok (digits_value 0 whole, 0)
unsigned_parts (whole ∷ part ∷ []) =
    refuse (not (is_number whole && is_number part)) foreign
    >> ok (digits_value 0 (whole ++ part), length part)
unsigned_parts (whole ∷ part ∷ more ∷ rest) = err foreign

unfoldable pub unsigned_decimal : Text → Result (ℕ × ℕ)
unsigned_decimal s = unsigned_parts (split 46 s)

abbrev pub fraction : ℤ → ℕ → Money
fraction n scale = record { num = n; den_pred = 10 ^ scale - 1 }

-- Behind a sign there must be a digit.
unfoldable pub signed_decimal : Text → Result Money
signed_decimal [] = err foreign
signed_decimal (c ∷ s) =
    if c == 45
    then (unsigned_decimal s >>= λ d. ok (fraction (pos 0 -ℤ pos d.0) d.1))
    else (unsigned_decimal (if c == 43 then s else c ∷ s) >>= λ d. ok (fraction (pos d.0) d.1))

unfoldable pub parse_money : Text → Result Money
parse_money raw = signed_decimal (trim_space raw)

parse_cents : parse_money (codes " -12.05") ≡ ok (fraction (pos 0 -ℤ pos 1205) 2)
unfolding parse_money trim_space signed_decimal unsigned_decimal split unsigned_parts is_number
    is_empty all_of is_digit digits_value
parse_cents = refl
