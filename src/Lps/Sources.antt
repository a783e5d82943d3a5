-- ===== src/Lps/Sources.antt =====
-- internal/lps/accounts.go: what the lines on savings, deposits and loans share. The numbers of the tables
-- are floats, whose operations are the fields of a record.
use new_trs.Common.{
  ℕ, Bool, true, false, not, ◌||◌, ◌==◌, if◌then◌else◌, List, [], ◌∷◌, reverse, Option, none, some,
  Result, ok, is_ok, foreign, refuse, ◌>>◌, ◌>>=◌,
}
use new_trs.Common.Text.{Text, codes, is_empty, has_prefix}
use new_trs.Loan.Date.Text.{parse_date}
use new_trs.Lps.Csv.{index}
use new_trs.Lps.Fields.{join, pipe}

-- float64 and strconv, with the verb `%.2f` and `%d` of the truncated number.
pub record Floats : Type 1 where
  pub Float : Type 0
  pub zero_float : Float
  pub parse_float : Text → Result Float
  pub is_above : Float → Float → Bool
  pub is_fraction : Float → Bool
  pub hundred_times : Float → Float
  pub two_decimals : Float → Text
  pub truncated : Float → Text

abbrev pub dsn_columns : List Text
dsn_columns =
    codes "cif_no"
    ∷ codes "acc_no"
    ∷ codes "product"
    ∷ codes "start_date"
    ∷ codes "interest_rate"
    ∷ codes "nominal"
    ∷ codes "blocked_nominal"
    ∷ codes "end_date"
    ∷ []

abbrev pub dk_columns : List Text
dk_columns =
    codes "cifno"
    ∷ codes "loan_no"
    ∷ codes "collectibility"
    ∷ codes "credit_limit_effective"
    ∷ codes "outstanding"
    ∷ codes "principal_arrears"
    ∷ codes "start_date"
    ∷ codes "mature_date"
    ∷ []

-- Both tables have the column, at the same place.
abbrev pub same_column : Option ℕ → Option ℕ → Bool
same_column none j = false
same_column (some i) none = false
same_column (some i) (some j) = i == j

unfoldable pub require_same : List Text → List Text → List Text → Result (Unit {0})
require_same savings deposits [] = ok tt
require_same savings deposits (column ∷ rest) =
    refuse (not (same_column (index savings column) (index deposits column))) foreign
    >> require_same savings deposits rest

-- The eight digits of a day with the dashes.
unfoldable pub dashed : Text → Text
dashed (y ∷ y' ∷ y'' ∷ y''' ∷ m ∷ m' ∷ d ∷ d' ∷ []) =
    y ∷ y' ∷ y'' ∷ y''' ∷ 45 ∷ m ∷ m' ∷ 45 ∷ d ∷ d' ∷ []
dashed value = value

-- The day of the report, which has eight digits, as the rates name it.
unfoldable pub reporting_rate_key : Text → Text
reporting_rate_key date = if is_ok (parse_date (dashed date)) then dashed date else date

abbrev pub installment_products : List Text
installment_products =
    codes "103" ∷ codes "114" ∷ codes "115" ∷ codes "116" ∷ codes "117" ∷ codes "118" ∷ []

unfoldable pub starts_with_one : List Text → Text → Bool
starts_with_one [] product = false
starts_with_one (p ∷ rest) product = has_prefix p product || starts_with_one rest product

unfoldable pub fund_status : Text → Text
fund_status product = if starts_with_one installment_products product then codes "B" else codes "S"

-- strings.TrimSuffix, and whether it was there, on the reversed text.
unfoldable pub percent_cut : Text → Bool × Text
percent_cut [] = (false, [])
percent_cut (c ∷ s) = if c == 37 then (true, reverse s) else (false, reverse (c ∷ s))

-- The lines, in order, and the CIFs of the rows, also of those without an account.
unfoldable pub lines_of :
    (List Text → Text)
    → (List Text → Text)
    → (List Text → Text → Text → Result (List Text))
    → List (List Text)
    → Result (List Text × List Text)
lines_of cif_of account_of fields [] = ok ([], [])
lines_of cif_of account_of fields (row ∷ rest) =
    let cif = cif_of row in
    let account = account_of row in
    let later = lines_of cif_of account_of fields rest in
    if is_empty cif
    then later
    else if is_empty account
    then (later >>= λ l. ok (l.0, cif ∷ l.1))
    else (fields row cif account >>= λ f. later >>= λ l. ok (join pipe f ∷ l.0, cif ∷ l.1))
