-- ===== src/Lps/Accounts.antt =====
-- internal/lps/accounts.go and rates.go: the lines on savings, deposits and loans. The numbers of the
-- tables are floats, whose operations are the fields of a record.
use new_trs.Common.{
  Bool, not, ◌&&◌, ◌==◌, if◌then◌else◌, List, [], ◌∷◌, ◌++◌, map, reverse, Option, none, some,
  Result, ok, err, foreign, refuse, ◌>>◌, ◌>>=◌,
}
use new_trs.Common.Text.{Text, codes, trim_space, eq_text, is_empty}
use new_trs.Lps.Csv.{parse_table, require, transpose_table}
use new_trs.Lps.Fields.{without}
use new_trs.Lps.Customers.{cell_of}
use new_trs.Lps.Sources.{
  Floats, dsn_columns, dk_columns, require_same, reporting_rate_key, fund_status, percent_cut,
  lines_of,
}

module _ (floats : Floats) where
  -- An entry of the rates: the day as 2006-01-02 and the rate.
  abbrev pub RateEntry : Type 0
  RateEntry = Text × floats.Float

  unfoldable pub string_to_float : Text → floats.Float
  string_to_float value = elim (floats.parse_float (without 44 value)) [
    | err e ↦ floats.zero_float
    | ok x ↦ x
  ]

  unfoldable pub percentage : Bool → Text → Result floats.Float
  percentage has_percent raw = do
    parsed ← floats.parse_float (map (λ c. if c == 44 then 46 else c) raw)
    ok (
        if not has_percent && floats.is_fraction parsed
        then floats.hundred_times parsed
        else parsed)

  unfoldable pub parse_percentage : Text → Result floats.Float
  parse_percentage value =
      let raw = trim_space value in
      let cut = percent_cut (reverse raw) in
      refuse (is_empty raw) foreign >> percentage cut.0 (if cut.0 then trim_space cut.1 else raw)

  -- Of entries for the same day the last one counts; zero where there is none.
  unfoldable pub rate_by_date : List RateEntry → Text → Option floats.Float
  rate_by_date [] day = none
  rate_by_date (entry ∷ rest) day = elim (rate_by_date rest day) [
    | none ↦ if eq_text entry.0 day then some entry.1 else none
    | some x ↦ some x
  ]

  unfoldable pub rate_of : List RateEntry → Text → floats.Float
  rate_of rates day = elim (rate_by_date rates day) [ none ↦ floats.zero_float | some x ↦ x ]

  abbrev pub is_positive : floats.Float → Bool
  is_positive x = floats.is_above x floats.zero_float

  unfoldable pub savings_fields :
      (Text → Text → Text)
      → Text
      → List RateEntry
      → (Text → Text)
      → Text
      → Text
      → Result (List Text)
  savings_fields standing reporting rates value cif account =
      let status = fund_status (value (codes "product")) in
      let ordered = standing account (codes "End Date") in
      let end_date =
        if eq_text status (codes "B") && not (is_empty ordered) then ordered else reporting in
      let blocked = string_to_float (value (codes "blocked_nominal")) in
      (do
        interest ← parse_percentage (value (codes "interest_rate"))
        ok (
            codes "D"
            ∷ codes "R"
            ∷ []
            ∷ cif
            ∷ codes "TAB"
            ∷ value (codes "acc_no")
            ∷ status
            ∷ without 45 reporting
            ∷ codes "1"
            ∷ floats.two_decimals interest
            ∷ codes "0"
            ∷ floats.two_decimals (rate_of rates (reporting_rate_key reporting))
            ∷ codes "1"
            ∷ floats.truncated (string_to_float (value (codes "nominal")))
            ∷ floats.truncated blocked
            ∷ (if is_positive blocked then codes "99" else [])
            ∷ codes "0"
            ∷ []
            ∷ without 45 end_date
            ∷ []))

  unfoldable pub deposit_fields :
      (Text → Text → Text)
      → Text
      → List RateEntry
      → (Text → Text)
      → Text
      → Text
      → Result (List Text)
  deposit_fields balances reporting rates value cif account =
      let start_date = trim_space (value (codes "start_date")) in
      let lps_rate = rate_of rates start_date in
      let accrued = string_to_float (balances account (codes "Accrued Interest")) in
      (do
        interest ← parse_percentage (value (codes "interest_rate"))
        ok (
            codes "D"
            ∷ codes "R"
            ∷ []
            ∷ cif
            ∷ codes "DEP"
            ∷ account
            ∷ codes "B"
            ∷ without 45 start_date
            ∷ codes "1"
            ∷ floats.two_decimals interest
            ∷ codes "0"
            ∷ floats.two_decimals lps_rate
            ∷ (if floats.is_above interest lps_rate then codes "2.B" else codes "1")
            ∷ floats.truncated (string_to_float (value (codes "nominal")))
            ∷ codes "0"
            ∷ []
            ∷ floats.truncated accrued
            ∷ (if is_positive accrued then reporting else [])
            ∷ without 45 (value (codes "end_date"))
            ∷ []))

  abbrev pub trimmed : List Text → Text → List Text → Text
  trimmed header column row = trim_space (cell_of header row column)

  unfoldable pub build_dsn :
      Text → Text → Text → Text → Text → List RateEntry → Result (List Text × List Text)
  build_dsn savings_body deposit_body balance_body standing_body reporting rates = do
    savings ← parse_table savings_body
    deposits ← parse_table deposit_body
    require_same savings.header deposits.header dsn_columns
    balances ← transpose_table balance_body (codes "Account No")
    standing ← transpose_table standing_body (codes "Destination Account Number")
    let header = savings.header
    front ←
        lines_of (trimmed header (codes "cif_no")) (trimmed header (codes "acc_no"))
          (λ row. savings_fields standing reporting rates (cell_of header row)) savings.rows
    back ←
        lines_of (trimmed header (codes "cif_no")) (trimmed header (codes "acc_no"))
          (λ row. deposit_fields balances reporting rates (cell_of header row)) deposits.rows
    ok (front.0 ++ back.0, front.1 ++ back.1)

  unfoldable pub loan_fields :
      (Text → Text → Text) → (Text → Text) → Text → Text → Result (List Text)
  loan_fields details value cif account = ok (
      codes "D"
      ∷ cif
      ∷ account
      ∷ codes "03"
      ∷ value (codes "collectibility")
      ∷ floats.truncated (string_to_float (value (codes "credit_limit_effective")))
      ∷ floats.truncated (string_to_float (value (codes "outstanding")))
      ∷ floats.truncated (string_to_float (value (codes "principal_arrears")))
      ∷ floats.truncated (string_to_float (details account (codes "tunggakan_bunga")))
      ∷ codes "300"
      ∷ without 45 (value (codes "start_date"))
      ∷ without 45 (value (codes "mature_date"))
      ∷ codes "4"
      ∷ [])

  unfoldable pub build_dk : Text → Text → Result (List Text × List Text)
  build_dk body detail_body = do
    loans ← parse_table body
    require loans.header dk_columns
    details ← transpose_table detail_body (codes "no_rekening")
    lines_of (trimmed loans.header (codes "cifno")) (trimmed loans.header (codes "loan_no"))
        (λ row. loan_fields details (cell_of loans.header row)) loans.rows
