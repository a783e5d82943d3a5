-- ===== src/Common/Utf8.antt =====
-- The package unicode/utf8 on lists of bytes: whether a text is valid, and how many runes it has. A byte
-- that starts no rune counts as one.
use new_trs.Common.{
  ℕ, zero, suc, ◌≤◌, ◌≡◌, refl, Bool, true, false, ◌&&◌, ◌||◌, ltb, leb, if◌then◌else◌, [], ◌∷◌,
  length, arith,
}
use new_trs.Common.Text.{Text}

abbrev is_between : ℕ → ℕ → ℕ → Bool
is_between low high c = leb low c && leb c high

-- The next bytes lie between 128 and 191.
continues : ℕ → Text → Bool
continues zero rest = true
continues (suc n) [] = false
continues (suc n) (c ∷ rest) = is_between 128 191 c && continues n rest

-- As `continues`, with other bounds for the first of them.
continues_from : ℕ → ℕ → ℕ → Text → Bool
unfolding continues
continues_from low high n [] = false
continues_from low high n (c ∷ rest) = is_between low high c && continues n rest

-- The number of bytes that follow the first byte of a rune; none if no rune starts here.
unfoldable pub is_start : ℕ → Text → Bool
unfolding continues_from
is_start c rest =
    ltb c 128
    || (is_between 194 223 c && continues_from 128 191 0 rest)
    || (is_between 224 224 c && continues_from 160 191 1 rest)
    || (is_between 225 236 c && continues_from 128 191 1 rest)
    || (is_between 237 237 c && continues_from 128 159 1 rest)
    || (is_between 238 239 c && continues_from 128 191 1 rest)
    || (is_between 240 240 c && continues_from 144 191 2 rest)
    || (is_between 241 243 c && continues_from 128 191 2 rest)
    || (is_between 244 244 c && continues_from 128 143 2 rest)

unfoldable pub following : ℕ → Text → ℕ
following c rest =
    if is_start c rest
    then (if ltb c 128 then 0 else if ltb c 224 then 1 else if ltb c 240 then 2 else 3)
    else 0

-- The first argument is the number of bytes that are still part of the last rune.
valid_from : ℕ → Text → Bool
valid_from n [] = true
valid_from zero (c ∷ rest) = is_start c rest && valid_from (following c rest) rest
valid_from (suc n) (c ∷ rest) = valid_from n rest

count_from : ℕ → Text → ℕ
count_from n [] = 0
count_from zero (c ∷ rest) = suc (count_from (following c rest) rest)
count_from (suc n) (c ∷ rest) = count_from n rest

-- utf8.ValidString and utf8.RuneCountInString.
unfoldable pub valid_string : Text → Bool
unfolding valid_from
valid_string s = valid_from 0 s

unfoldable pub rune_count : Text → ℕ
unfolding count_from
rune_count s = count_from 0 s

count_from-length : (n : ℕ) (s : Text) → count_from n s ≤ length s
unfolding count_from
count_from-length n [] = omega arith
count_from-length zero (c ∷ rest) = omega (arith, count_from-length (following c rest) rest)
count_from-length (suc n) (c ∷ rest) = omega (arith, count_from-length n rest)

-- A text has no more runes than bytes.
pub rune_count-length : (s : Text) → rune_count s ≤ length s
unfolding rune_count
rune_count-length s = count_from-length 0 s

two_runes : (rune_count (195 ∷ 169 ∷ 65 ∷ []) ≡ 2) × (valid_string (195 ∷ 65 ∷ []) ≡ false)
unfolding rune_count valid_string is_start following
two_runes = (refl, refl)
