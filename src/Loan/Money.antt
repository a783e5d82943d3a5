-- ===== src/Loan/Money.antt =====
-- internal/loan/money.go: exact amounts. A `*big.Rat` is a fraction with a positive denominator,
-- kept here as its predecessor; the fraction need not be in lowest terms, since the source reads
-- amounts by Cmp, and `lowest` gives the terms that Num and Denom return.
pub mod Units
pub mod Order
pub mod Decimal
use Prim.Native.Nat.{compare, Ordering}
use new_trs.Common.{
  ℕ, zero, suc, ◌+◌, ◌-◌, ◌*◌, ◌≡◌, Bool, true, false, ◌||◌, Result, ok, err, Error, foreign, arith,
}
use new_trs.Common.Int.{ℤ, pos, negsuc, pos_part, neg_part, ◌+ℤ◌, ◌-ℤ◌, ◌*ℤ◌, compare_ℤ, eq_ℤ}

pub record Money : Type 0 where
  pub num : ℤ
  pub den_pred : ℕ

abbrev pub den : Money → ℕ
den x = suc x.den_pred

-- The zero value of the type, and MoneyFromInt.
abbrev pub zero_money : Money
zero_money = record { num = pos 0; den_pred = 0 }

abbrev pub money_from_int : ℤ → Money
money_from_int n = record { num = n; den_pred = 0 }

-- The predecessor of the product of two denominators.
abbrev pub den_product : Money → Money → ℕ
den_product x y = x.den_pred * y.den_pred + x.den_pred + y.den_pred

unfoldable pub add : Money → Money → Money
add x y = record { num = x.num *ℤ pos (den y) +ℤ y.num *ℤ pos (den x); den_pred = den_product x y }

unfoldable pub sub : Money → Money → Money
sub x y = record { num = x.num *ℤ pos (den y) -ℤ y.num *ℤ pos (den x); den_pred = den_product x y }

unfoldable pub mul : Money → Money → Money
mul x y = record { num = x.num *ℤ y.num; den_pred = den_product x y }

unfoldable pub div_int : Money → ℤ → Result Money
div_int x (pos zero) = err foreign
div_int x (pos (suc d)) =
    ok (record { num = x.num; den_pred = den_product x (record { num = pos 0; den_pred = d }) })
div_int x (negsuc d) = ok (record {
  num = pos 0 -ℤ x.num;
  den_pred = den_product x (record { num = pos 0; den_pred = d });
})

unfoldable pub neg : Money → Money
neg x = record { num = pos 0 -ℤ x.num; den_pred = x.den_pred }

unfoldable pub cmp : Money → Money → Ordering
cmp x y = compare_ℤ (x.num *ℤ pos (den y)) (y.num *ℤ pos (den x))

abbrev is_lt : Ordering → Bool
is_lt Ordering.lt = true
is_lt _ = false

abbrev is_eq : Ordering → Bool
is_eq Ordering.eq = true
is_eq _ = false

abbrev is_gt : Ordering → Bool
is_gt Ordering.gt = true
is_gt _ = false

unfoldable pub is_zero : Money → Bool
is_zero x = is_eq (cmp x zero_money)

unfoldable pub is_negative : Money → Bool
is_negative x = is_lt (cmp x zero_money)

unfoldable pub is_positive : Money → Bool
is_positive x = is_gt (cmp x zero_money)

-- `left.Cmp(right) > 0` and `left.Cmp(right) == 0`.
unfoldable pub exceeds : Money → Money → Bool
exceeds x y = is_gt (cmp x y)

unfoldable pub equal : Money → Money → Bool
equal x y = is_eq (cmp x y)

unfoldable pub min_money : Money → Money → Money
min_money x y = elim (cmp x y) [ Ordering.gt ↦ y | _ ↦ x ]
