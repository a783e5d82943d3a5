-- ===== src/Lps/Fields.antt =====
-- internal/lps/generator.go: the fields of the report's lines. The bytes of a character beyond ASCII are
-- all above 127, so that removing bytes or characters is the same.
unfoldable pub use new_trs.Common.Text.{join, without, all_of}
use new_trs.Common.{
  ℕ, ◌≡◌, refl, Bool, false, not, ◌&&◌, ◌||◌, ltb, leb, ◌==◌, if◌then◌else◌, [], ◌∷◌, keep, length,
  replicate,
}
use new_trs.Common.Text.{Text, codes, is_digit, is_empty, trim_space}
use new_trs.Lps.Codes.{is_valid_dati_code}

abbrev pub pipe : Text
pipe = 124 ∷ []

abbrev pub line_end : Text
line_end = 10 ∷ []

unfoldable pub value_if : Bool → Text → Text → Text
value_if condition if_true if_false = if condition then if_true else if_false

abbrev pub zeros : Text
zeros = replicate 16 48

unfoldable pub is_letter : ℕ → Bool
is_letter c = (leb 65 c && leb c 90) || (leb 97 c && leb c 122)

abbrev among : ℕ → Text → Bool
among c [] = false
among c (d ∷ rest) = (d == c) || among c rest

-- The characters that the regular expression leaves.
unfoldable pub is_address : ℕ → Bool
is_address c = is_digit c || is_letter c || among c (codes ".,_'/()& -")

-- Each run of spaces becomes one.
unfoldable pub single_spaces : Text → Text
single_spaces [] = []
single_spaces (c ∷ []) = c ∷ []
single_spaces (c ∷ d ∷ s) =
    let later = single_spaces (d ∷ s) in if (c == 32) && (d == 32) then later else c ∷ later

unfoldable pub clean_alamat : Text → Text
clean_alamat value = trim_space (single_spaces (keep is_address value))

unfoldable pub normalize_dati_code : Text → Text
normalize_dati_code value =
    let padded = if length value == 3 then 48 ∷ value else value in
    if is_valid_dati_code padded then padded else codes "0000"

-- A text with a digit for each byte.
unfoldable pub digits : Text → ℕ → Bool
digits value size = (length value == size) && all_of is_digit value

abbrev pub is_token : ℕ → Bool
is_token c = is_letter c || is_digit c || (c == 45) || (c == 95)

-- `unicode_token` is what the unicode package says of a text with characters beyond ASCII.
unfoldable pub safe_token : (Text → Bool) → Text → Bool
safe_token unicode_token value =
    not (is_empty value || ltb 32 (length value))
    && (if all_of (λ c. ltb c 128) value then all_of is_token value else unicode_token value)

clean_codes : clean_alamat (codes " JL. | A   B#\n 1 ") ≡ codes "JL. A B 1"
unfolding clean_alamat single_spaces trim_space is_address is_digit is_letter
clean_codes = refl
