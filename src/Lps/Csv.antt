-- ===== src/Lps/Csv.antt =====
-- internal/lps/generator.go: reading the bank's tables. The reader is encoding/csv as newCSVReader sets
-- it up: the separator `|`, lazy quotes, leading blanks trimmed, any number of fields in a row. With
-- lazy quotes no text is an error. The reader is written as a machine over the bytes of the text.
use new_trs.Common.{
  ℕ, suc, ◌≡◌, refl, Bool, true, false, not, ◌&&◌, ◌==◌, if◌then◌else◌, List, [], ◌∷◌, reverse,
  Option, none, some, get_elem?, Result, ok, err, foreign, refuse, ◌>>◌, ◌>>=◌,
}
use new_trs.Common.Text.{Text, is_space, trim_space, eq_text, codes}

abbrev pub comma : ℕ
comma = 124

abbrev pub newline : ℕ
newline = 10

abbrev pub quote : ℕ
quote = 34

-- Where the reader is: before a row, before a field, in a plain field, in a quoted field, after a quote
-- in a quoted field.
pub data Mode : Type 0 where
  before_row before_field plain quoted after_quote : Mode

-- The field, the row and the rows so far, each in reverse.
pub record Reader : Type 0 where
  pub mode : Mode
  pub field : Text
  pub row : List Text
  pub rows : List (List Text)

abbrev pub fresh : List (List Text) → Reader
fresh rows = record { mode = before_row; field = []; row = []; rows = rows }

abbrev pub push : ℕ → Mode → Reader → Reader
push c mode r = record r { mode = mode; field = c ∷ r.field }

abbrev pub end_field : Reader → Reader
end_field r = record r { mode = before_field; field = []; row = reverse r.field ∷ r.row }

abbrev pub end_row : Reader → Reader
end_row r = fresh (reverse (reverse r.field ∷ r.row) ∷ r.rows)

-- At the start of a field: leading blanks go, the end of the line ends the row.
unfoldable pub open_field : ℕ → Reader → Reader
open_field c r =
    if c == newline
    then end_row r
    else if is_space c
    then record r { mode = before_field }
    else if c == comma
    then end_field r
    else if c == quote
    then record r { mode = quoted }
    else push c plain r

unfoldable pub step_in : Mode → ℕ → Reader → Reader
step_in before_row c r = if c == newline then r else open_field c r
step_in before_field c r = open_field c r
step_in plain c r =
    if c == newline then end_row r else if c == comma then end_field r else push c plain r
step_in quoted c r = if c == quote then record r { mode = after_quote } else push c quoted r
step_in after_quote c r =
    if c == newline
    then end_row r
    else if c == comma
    then end_field r
    else if c == quote
    then push quote quoted r
    else push c quoted (push quote quoted r)

unfoldable pub step : ℕ → Reader → Reader
step c r = step_in r.mode c r

unfoldable pub run : Text → Reader → Reader
run [] r = r
run (c ∷ s) r = run s (step c r)

-- At the end of the text a row that has begun is ended.
unfoldable pub finish_in : Mode → Reader → List (List Text)
finish_in before_row r = reverse r.rows
finish_in before_field r = reverse (end_row r).rows
finish_in plain r = reverse (end_row r).rows
finish_in quoted r = reverse (end_row r).rows
finish_in after_quote r = reverse (end_row r).rows

-- The ends of lines that readLine normalises.
unfoldable pub unix_lines : Text → Text
unix_lines [] = []
unix_lines (c ∷ []) = if c == 13 then [] else c ∷ []
unix_lines (c ∷ d ∷ s) =
    let later = unix_lines (d ∷ s) in if (c == 13) && (d == newline) then later else c ∷ later

unfoldable pub read_all : Text → List (List Text)
read_all body = let r = run (unix_lines body) (fresh []) in finish_in r.mode r

pub record Table : Type 0 where
  pub header : List Text
  pub rows : List (List Text)

unfoldable pub table_of : List (List Text) → Result Table
table_of [] = err foreign
table_of (header ∷ rows) = ok (record { header = header; rows = rows })

unfoldable pub parse_table : Text → Result Table
parse_table body = table_of (read_all body)

unfoldable pub index : List Text → Text → Option ℕ
index [] name = none
index (h ∷ rest) name =
    if eq_text (trim_space h) name
    then some 0
    else (elim (index rest name) [ none ↦ none | some i ↦ some (suc i) ])

abbrev pub is_column : Option ℕ → Bool
is_column none = false
is_column (some i) = true

unfoldable pub require : List Text → List Text → Result (Unit {0})
require header [] = ok tt
require header (column ∷ rest) =
    if is_column (index header column) then require header rest else err foreign

abbrev pub or_empty : Option Text → Text
or_empty none = []
or_empty (some t) = t

-- No index stands for -1.
unfoldable pub value_at : List Text → Option ℕ → Text
value_at row none = []
value_at row (some i) = or_empty (get_elem? row i)

-- What a row has under the name: of columns with the same name the last one counts.
unfoldable pub named : List Text → List Text → Text → Option Text
named [] row name = none
named (h ∷ header) [] name = elim (named header [] name) [
  | none ↦ if eq_text h name then some [] else none
  | some t ↦ some t
]
named (h ∷ header) (v ∷ row) name = elim (named header row name) [
  | none ↦ if eq_text h name then some v else none
  | some t ↦ some t
]

-- The last row with the key, as its cells overwrite those of the rows before it.
unfoldable pub last_row : Option ℕ → Text → List (List Text) → Option (List Text)
last_row key account [] = none
last_row key account (row ∷ rest) = elim (last_row key account rest) [
  | none ↦ if eq_text (value_at row key) account then some row else none
  | some later ↦ some later
]

-- `details[account][name]`, the empty text where there is no such row or column.
unfoldable pub cell : List Text → Text → Option (List Text) → Text
cell header name none = []
cell header name (some row) = or_empty (named header row name)

unfoldable pub transpose_table : Text → Text → Result (Text → Text → Text)
transpose_table body key = do
  t ← parse_table body
  refuse (not (is_column (index t.header key))) foreign
  ok (λ account name. cell t.header name (last_row (index t.header key) account t.rows))

quoted_rows :
    read_all (codes " a|\"b|c\"|\n\nd")
    ≡ (codes "a" ∷ codes "b|c" ∷ [] ∷ []) ∷ (codes "d" ∷ []) ∷ []
unfolding read_all run step step_in open_field finish_in unix_lines
quoted_rows = refl
