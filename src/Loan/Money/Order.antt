-- ===== src/Loan/Money/Order.antt =====
-- internal/loan/money.go: laws of the tests of amounts.
use new_trs.Common.{ℕ, suc, ◌≡◌, refl, sym, true, false, [], ◌∷◌, ok, arith, ◌∙◌}
use new_trs.Common.Int.{
  ℤ, pos, ◌≤ℤ◌, ◌-ℤ◌, ◌+ℤ◌, ◌*ℤ◌, *ℤ_parts, ltb_ℤ, int_laws, min_ℤ, min_ℤ_bounds,
}
use new_trs.Loan.Money.{
  Money, den, add, sub, mul, div_int, is_negative, is_positive, exceeds, min_money, zero_money,
}
use new_trs.Loan.Money.Units.{common, sub-At, add-At, min-At, is_negative-At, exceeds-At}

pub nonneg_of_test : (a : ℤ) → ltb_ℤ a (pos 0) ≡ false → pos 0 ≤ℤ a
nonneg_of_test a h = ground arith

pub test_of_nonneg : (a : ℤ) → pos 0 ≤ℤ a → ltb_ℤ a (pos 0) ≡ false
test_of_nonneg a h = ground arith

pub sub_nonneg : (x y : Money) → exceeds x y ≡ false → is_negative (sub y x) ≡ false
sub_nonneg x y h =
    let (d, hd, us) = common (x ∷ y ∷ []) in
    let ((a, ha), ((b, hb), _)) = us in
    let le : a ≤ℤ b = ground (arith, exceeds-At d hd x a ha y b hb) in
    is_negative-At d hd (sub y x) (b -ℤ a) (sub-At d y x b a hb ha)
    ∙ test_of_nonneg (b -ℤ a) (omega int_laws)

pub sub_nonneg_self : (x : Money) → is_negative (sub x x) ≡ false
sub_nonneg_self x =
    let (d, hd, us) = common (x ∷ []) in
    let ((a, ha), _) = us in
    is_negative-At d hd (sub x x) (a -ℤ a) (sub-At d x x a a ha ha)
    ∙ test_of_nonneg (a -ℤ a) (omega int_laws)

pub add_nonneg :
    (x y : Money) → is_negative x ≡ false → is_negative y ≡ false → is_negative (add x y) ≡ false
add_nonneg x y h k =
    let (d, hd, us) = common (x ∷ y ∷ []) in
    let ((a, ha), ((b, hb), _)) = us in
    let p : pos 0 ≤ℤ a = ground (arith, is_negative-At d hd x a ha) in
    let q : pos 0 ≤ℤ b = ground (arith, is_negative-At d hd y b hb) in
    is_negative-At d hd (add x y) (a +ℤ b) (add-At d x y a b ha hb)
    ∙ test_of_nonneg (a +ℤ b) (omega int_laws)

-- The sign of a fraction is that of its numerator.
pub is_negative-num : (x : Money) → is_negative x ≡ ltb_ℤ x.num (pos 0)
is_negative-num x = is_negative-At (den x) (omega arith) x x.num (omega arith)

pub mul_nonneg :
    (x y : Money) → is_negative x ≡ false → is_negative y ≡ false → is_negative (mul x y) ≡ false
unfolding mul
mul_nonneg x y h k =
    is_negative-num (mul x y)
    ∙ product x.num y.num (sym (is_negative-num x) ∙ h) (sym (is_negative-num y) ∙ k)
  where
    product :
        (a b : ℤ)
        → ltb_ℤ a (pos 0) ≡ false
        → ltb_ℤ b (pos 0) ≡ false
        → ltb_ℤ (a *ℤ b) (pos 0) ≡ false
    product a b h k = ground (arith, *ℤ_parts a b)

-- Dividing by a positive number gives a value, and keeps the sign.
pub div_int_nonneg :
    (x : Money) (t : ℕ)
    → is_negative x ≡ false
    → (y : Money) × (div_int x (pos (suc t)) ≡ ok y) × (is_negative y ≡ false)
unfolding div_int
div_int_nonneg x t h = (_, refl, is_negative-num _ ∙ (sym (is_negative-num x) ∙ h))

pub min_nonneg :
    (x y : Money)
    → is_negative x ≡ false
    → is_negative y ≡ false
    → is_negative (min_money x y) ≡ false
unfolding min_money
min_nonneg x y h k = ground arith

pub nonneg_of_positive : (x : Money) → is_positive x ≡ true → is_negative x ≡ false
unfolding is_positive is_negative
nonneg_of_positive x h = ground arith

-- An amount that is not below a nonnegative one.
pub nonneg_of_within :
    (x y : Money) → is_negative x ≡ false → exceeds x y ≡ false → is_negative y ≡ false
nonneg_of_within x y h k =
    let (d, hd, us) = common (x ∷ y ∷ []) in
    let ((a, ha), ((b, hb), _)) = us in
    let p : pos 0 ≤ℤ a = ground (arith, is_negative-At d hd x a ha) in
    let q : a ≤ℤ b = ground (arith, exceeds-At d hd x a ha y b hb) in
    is_negative-At d hd y b hb ∙ test_of_nonneg b (omega arith)

-- Adding to x at most what y has beyond it does not pass y.
pub add-min_within : (x y z : Money) → exceeds (add x (min_money z (sub y x))) y ≡ false
add-min_within x y z =
    let (d, hd, us) = common (x ∷ y ∷ z ∷ []) in
    let ((a, ha), ((b, hb), ((c, hc), _))) = us in
    let sum =
      add-At d x _ a _ ha (min-At d z (sub y x) c (b -ℤ a) hd hc (sub-At d y x b a hb ha)) in
    exceeds-At d hd _ _ sum y b hb ∙ within a b c
  where
    within : (a b c : ℤ) → ltb_ℤ b (a +ℤ min_ℤ c (b -ℤ a)) ≡ false
    within a b c = test_le (a +ℤ min_ℤ c (b -ℤ a)) b (omega (int_laws, min_ℤ_bounds))
      where
        test_le : (m n : ℤ) → m ≤ℤ n → ltb_ℤ n m ≡ false
        test_le m n h = ground arith

pub zero_money_nonneg : is_negative zero_money ≡ false
zero_money_nonneg = is_negative-num zero_money
