-- ===== src/Fincloud/Decimal.antt =====
-- internal/fincloud/loan.go: NormalizeDecimal, which guesses what the points and commas of a number mean.
pub mod Points
use new_trs.Common.{
  ℕ, suc, ◌+◌, ◌≤◌, ◌<◌, ◌≡◌, refl, Bool, true, false, not, ◌&&◌, ◌||◌, ltb, leb, ◌==◌,
  if◌then◌else◌, List, [], ◌∷◌, ◌++◌, map, length, Option, none, some, Result, ok, err, foreign,
  refuse, ◌>>◌, ◌>>=◌,
}
use new_trs.Common.Text.{
  Text, codes, is_digit, is_empty, trim_space, eq_text, split, all_of, without,
}

abbrev pub point : ℕ
point = 46

abbrev pub minus : ℕ
minus = 45

unfoldable pub count : ℕ → Text → ℕ
count c [] = 0
count c (d ∷ s) = let later = count c s in if d == c then suc later else later

-- strings.LastIndex of a byte.
unfoldable pub last_index : ℕ → Text → Option ℕ
last_index c [] = none
last_index c (d ∷ s) = elim (last_index c s) [
  | none ↦ if d == c then some 0 else none
  | some i ↦ some (suc i)
]

abbrev pub is_decimal_byte : ℕ → Bool
is_decimal_byte c = is_digit c || (c == 44) || (c == point) || (c == minus) || (c == 32)

-- strings.ReplaceAll of commas by points.
unfoldable pub with_point : Text → Text
with_point s = map (λ c. if c == 44 then point else c) s

abbrev pub starts_with_minus : Text → Bool
starts_with_minus [] = false
starts_with_minus (c ∷ s) = c == minus

abbrev pub without_sign : Text → Text
without_sign [] = []
without_sign (c ∷ s) = if c == minus then s else c ∷ s

unfoldable pub all_triples : List Text → Bool
all_triples [] = true
all_triples (part ∷ rest) = (length part == 3) && all_triples rest

-- All parts but the last one, joined, then a point and the last one.
unfoldable pub last_point : List Text → Text
last_point [] = []
last_point (part ∷ []) = point ∷ part
last_point (part ∷ next ∷ rest) = part ++ last_point (next ∷ rest)

abbrev pub is_group : Text → Bool
is_group first = not (is_empty first) && leb (length first) 3

-- Two points or more: thousands, or a last point among them.
unfoldable pub many_points : Text → List Text → Text
many_points value [] = value
many_points value (first ∷ rest) =
    if is_group (without_sign first) && all_triples rest
    then without point value
    else last_point (first ∷ rest)

-- One point: three digits behind it are thousands.
unfoldable pub one_point : Text → List Text → Text
one_point value (first ∷ part ∷ []) =
    if leb (length first) 3 && (length part == 3) then first ++ part else value
one_point value _ = value

unfoldable pub decide : Text → Option ℕ → Option ℕ → Text
decide value (some comma) none = with_point value
decide value (some comma) (some dot) =
    if ltb dot comma then with_point (without point value) else without 44 value
decide value none (some dot) =
    if ltb 1 (count point value)
    then many_points value (split point value)
    else one_point value (split point value)
decide value none none = value

unfoldable pub normalize_decimal : Text → Result Text
normalize_decimal raw = do
  let trimmed = trim_space (without 37 raw)
  refuse (is_empty trimmed || eq_text trimmed (minus ∷ [])) foreign
  refuse (not (all_of is_decimal_byte trimmed)) foreign
  let value = without 32 trimmed
  refuse (ltb 1 (count minus value) || (ltb 0 (count minus value) && not (starts_with_minus value)))
      foreign
  ok (decide value (last_index 44 value) (last_index point value))

separators :
    (normalize_decimal (codes "1.234,56") ≡ ok (codes "1234.56"))
    × (normalize_decimal (codes "1,234.56") ≡ ok (codes "1234.56"))
    × (normalize_decimal (codes "1.234.567") ≡ ok (codes "1234567"))
    × (normalize_decimal (codes "1234.567.890") ≡ ok (codes "1234567.890"))
    × (normalize_decimal (codes "1234.56") ≡ ok (codes "1234.56"))
    × (normalize_decimal (codes "12x") ≡ err foreign)
unfolding normalize_decimal trim_space without is_empty eq_text all_of is_digit count last_index
    decide with_point many_points one_point split all_triples last_point
separators = (refl, refl, refl, refl, refl, refl)
