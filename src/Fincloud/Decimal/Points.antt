-- ===== src/Fincloud/Decimal/Points.antt =====
-- What NormalizeDecimal makes of a plain number with one point.
use new_trs.Common.{
  and-left, and-right, and-true, ℕ, suc, ◌≡◌, refl, sym, ap, ◌∙◌, Bool, true, false, not, ◌&&◌,
  ◌||◌, ltb, leb, ◌==◌, if◌then◌else◌, [], ◌∷◌, ◌++◌, length, none, some, ok, arith,
}
use new_trs.Common.Text.{
  Text, is_digit, is_empty, is_space, trim_space, eq_text, split, all_of, without, all_of-append,
  all_of_weaken, trim_space-id, without-id,
}
use new_trs.Fincloud.Decimal.{
  count, last_index, is_decimal_byte, one_point, decide, normalize_decimal,
}

-- A text of digits that is not empty.
abbrev pub IsDigits : Text → Type 0
IsDigits a = (all_of is_digit a ≡ true) × (is_empty a ≡ false)

abbrev is_pointed : ℕ → Bool
is_pointed c = is_digit c || (c == 46)

not_digit : (c x : ℕ) → is_digit c ≡ true → (x == 46) ≡ true → not (c == x) ≡ true
unfolding is_digit
not_digit c x h e = ground (arith, h, e)

no_point : (c : ℕ) → is_digit c ≡ true → (c == 46) ≡ false
unfolding is_digit
no_point c h = ground (arith, h)

simple_number :
    (x : Text) (d : ℕ)
    → trim_space (without 37 x) ≡ x
    → (is_empty x || eq_text x (45 ∷ [])) ≡ false
    → all_of is_decimal_byte x ≡ true
    → without 32 x ≡ x
    → count 45 x ≡ 0
    → last_index 44 x ≡ none
    → last_index 46 x ≡ some d
    → count 46 x ≡ 1
    → normalize_decimal x ≡ ok (one_point x (split 46 x))
unfolding normalize_decimal decide
simple_number x d clean given bytes no_blanks no_minus no_comma last one =
    simp (clean, given, bytes, no_blanks, no_minus, no_comma, last, one)

not-false : (b : Bool) → not b ≡ true → b ≡ false
not-false true h = sym h
not-false false h = refl

count-none : (c : ℕ) (s : Text) → all_of (λ d. not (d == c)) s ≡ true → count c s ≡ 0
unfolding count all_of
count-none c [] h = refl
count-none c (d ∷ s) h =
    let other : (d == c) ≡ false = not-false _ (and-left (not (d == c)) _ h) in
    rw other (count-none c s (and-right (not (d == c)) _ h))

last_index-none : (c : ℕ) (s : Text) → all_of (λ d. not (d == c)) s ≡ true → last_index c s ≡ none
unfolding last_index all_of
last_index-none c [] h = refl
last_index-none c (d ∷ s) h =
    let other : (d == c) ≡ false = not-false _ (and-left (not (d == c)) _ h) in
    simp (last_index-none c s (and-right (not (d == c)) _ h), other)

last_index_point :
    (a b : Text) → all_of is_digit b ≡ true → last_index 46 (a ++ (46 ∷ b)) ≡ some (length a)
unfolding last_index
last_index_point [] b h = simp (
    last_index-none 46 b
      (all_of_weaken is_digit (λ d. not (d == 46)) b (λ c e. not_digit c 46 e refl) h))
last_index_point (c ∷ a) b h = simp (last_index_point a b h)

count_point :
    (a b : Text)
    → all_of is_digit a ≡ true
    → all_of is_digit b ≡ true
    → count 46 (a ++ (46 ∷ b)) ≡ 1
unfolding count all_of
count_point [] b h k = ap suc (
    count-none 46 b
      (all_of_weaken is_digit (λ d. not (d == 46)) b (λ c e. not_digit c 46 e refl) k))
count_point (c ∷ a) b h k =
    let other : (c == 46) ≡ false = no_point c (and-left (is_digit c) _ h) in
    rw other (count_point a b (and-right (is_digit c) _ h) k)

split_none : (b : Text) → all_of is_digit b ≡ true → split 46 b ≡ b ∷ []
unfolding split all_of
split_none [] h = refl
split_none (c ∷ b) h =
    let other : (c == 46) ≡ false = no_point c (and-left (is_digit c) _ h) in
    simp (other, split_none b (and-right (is_digit c) _ h))

split_point :
    (a b : Text)
    → all_of is_digit a ≡ true
    → all_of is_digit b ≡ true
    → split 46 (a ++ (46 ∷ b)) ≡ a ∷ b ∷ []
unfolding split all_of
split_point [] b h k = ap (λ parts. [] ∷ parts) (split_none b k)
split_point (c ∷ a) b h k =
    let other : (c == 46) ≡ false = no_point c (and-left (is_digit c) _ h) in
    simp (other, split_point a b (and-right (is_digit c) _ h) k)

digit_pointed : (c : ℕ) → is_digit c ≡ true → is_pointed c ≡ true
digit_pointed c h = ground (arith, h)

pointed_point : (c : ℕ) → (c == 46) ≡ true → is_pointed c ≡ true
pointed_point c h = ground (arith, h)

-- No digit and no point.
abbrev is_other : ℕ → Bool
is_other x = ltb x 46

pointed_other : (x : ℕ) → is_other x ≡ true → (c : ℕ) → is_pointed c ≡ true → not (c == x) ≡ true
unfolding is_digit
pointed_other x h c e = ground (arith, h, e)

pointed_black : (c : ℕ) → is_pointed c ≡ true → not (is_space c) ≡ true
unfolding is_digit
pointed_black c h = ground (arith, h)

pointed_decimal : (c : ℕ) → is_pointed c ≡ true → is_decimal_byte c ≡ true
pointed_decimal c h = ground (arith, h)

-- The bytes of a number with a point.
pointed :
    (a b : Text) (q : ℕ → Bool)
    → all_of is_digit a ≡ true
    → all_of is_digit b ≡ true
    → ((c : ℕ) → is_pointed c ≡ true → q c ≡ true)
    → all_of q (a ++ (46 ∷ b)) ≡ true
unfolding all_of
pointed a b q h k f =
    all_of-append q a (46 ∷ b) (all_of_weaken is_digit q a (λ c e. f c (digit_pointed c e)) h) (
      and-true _ _ (f 46 (pointed_point 46 refl))
        (all_of_weaken is_digit q b (λ c e. f c (digit_pointed c e)) k))

head_digit : (a b : Text) → IsDigits a → (is_empty (a ++ b) || eq_text (a ++ b) (45 ∷ [])) ≡ false
unfolding is_empty eq_text all_of is_digit
head_digit [] b h = cc
head_digit (c ∷ a) b h = ground (arith, h.0)

-- A number with digits before and behind one point stays as it is, but where at most three digits are
-- before it and exactly three behind it, the point goes.
pub normalize_decimal_point :
    (a b : Text)
    → (all_of is_digit a ≡ true) × (is_empty a ≡ false)
    → (all_of is_digit b ≡ true) × (is_empty b ≡ false)
    → normalize_decimal (a ++ (46 ∷ b))
      ≡ ok (if leb (length a) 3 && (length b == 3) then a ++ b else a ++ (46 ∷ b))
unfolding one_point
normalize_decimal_point a b h k =
    let all =
      λ (q : ℕ → Bool) (f : (c : ℕ) → is_pointed c ≡ true → q c ≡ true). pointed a b q h.0 k.0 f in
    let x = a ++ (46 ∷ b) in
    simple_number x (length a)
      (ap trim_space (without-id 37 x (all (λ c. not (c == 37)) (pointed_other 37 refl)))
        ∙ trim_space-id x (all (λ c. not (is_space c)) pointed_black))
      (head_digit a (46 ∷ b) h) (all is_decimal_byte pointed_decimal)
      (without-id 32 x (all (λ c. not (c == 32)) (pointed_other 32 refl)))
      (count-none 45 x (all (λ c. not (c == 45)) (pointed_other 45 refl)))
      (last_index-none 44 x (all (λ c. not (c == 44)) (pointed_other 44 refl)))
      (last_index_point a b k.0) (count_point a b h.0 k.0)
    ∙ ap (λ parts. ok (one_point x parts)) (split_point a b h.0 k.0)
