-- ===== src/Lps/Details.antt =====
-- internal/lps/generator.go: the details of loans, in one file or in eight parts that are joined.
use new_trs.Common.{
  ℕ, zero, suc, ◌+◌, Bool, true, not, ◌&&◌, ◌==◌, if◌then◌else◌, List, [], ◌∷◌, ◌++◌, length,
  Result, ok, err, foreign, refuse, ◌>>◌, ◌>>=◌,
}
use new_trs.Common.Text.{Text, codes, contains}
use new_trs.Lps.Csv.{newline, read_all}
use new_trs.Lps.Fields.{join, pipe, line_end}

abbrev first_of : List (List Text) → Result (List Text)
first_of [] = err foreign
first_of (header ∷ rows) = ok header

-- The first row that the reader finds.
unfoldable pub read_header : Text → Result (List Text)
read_header part = first_of (read_all part)

-- What follows the first line feed.
unfoldable pub after_line : Text → Text
after_line [] = []
after_line (c ∷ s) = if c == newline then s else after_line s

unfoldable pub distinct_names : List Text → List Text
distinct_names [] = []
distinct_names (t ∷ rest) =
    let later = distinct_names rest in if contains t rest then later else t ∷ later

unfoldable pub all_among : List Text → List Text → Bool
all_among [] names = true
all_among (t ∷ rest) names = contains t names && all_among rest names

-- The header of a later part against the set of names of the first.
unfoldable pub is_consistent : List Text → List Text → Bool
is_consistent first header =
    (length header == length (distinct_names first)) && all_among header first

unfoldable pub part_name : ℕ → Text
part_name number = codes "DetailOutstandingRekeningPinjaman_00" ++ (48 + number) ∷ codes ".csv"

-- The parts from a number on, whose headers must be consistent with the first one.
unfoldable pub later_parts : (Text → Result Text) → List Text → ℕ → ℕ → Result Text
later_parts download first zero number = ok []
later_parts download first (suc left) number = do
  part ← download (part_name number)
  header ← read_header part
  refuse (not (is_consistent first header)) foreign
  rest ← later_parts download first left (suc number)
  ok (after_line part ++ rest)

unfoldable pub join_parts : (Text → Result Text) → Result Text
join_parts download = do
  part ← download (part_name 1)
  header ← read_header part
  rest ← later_parts download header 7 2
  ok (join pipe header ++ line_end ++ after_line part ++ rest)

unfoldable pub download_loan_details : (Text → Text → Result Text) → Text → Result Text
download_loan_details download path =
    elim (download (codes "DetailOutstandingRekeningPinjaman.csv") path) [
      | ok body ↦ ok body
      | err e ↦ join_parts (λ name. download name path)
    ]
