-- ===== src/Lps/Generator.antt =====
-- internal/lps/generator.go: the report. The services are the fields of a record; the archive is the list
-- of its files, whose writing cannot fail here.
use new_trs.Common.{
  ℕ, zero, suc, ◌+◌, ◌/◌, ◌%◌, Bool, not, ◌||◌, ltb, ◌==◌, if◌then◌else◌, List, [], ◌∷◌, ◌++◌,
  length, Result, ok, is_ok, invalid_input, refuse, ◌>>◌, ◌>>=◌,
}
use new_trs.Common.Text.{Text, codes, is_empty, text_before}
use new_trs.Common.Sort.{sort}
use new_trs.Loan.Date.Text.{parse_date}
use new_trs.Lps.Fields.{join, pipe, line_end, digits, safe_token}
use new_trs.Lps.Customers.{parse_customers, build_dn}
use new_trs.Lps.Live.{Members, complete_missing_dn}
use new_trs.Lps.Sources.{Floats, dashed}
use new_trs.Lps.Accounts.{RateEntry, build_dsn, build_dk}
use new_trs.Lps.Details.{download_loan_details}

pub record Input : Type 0 where
  pub participant_code : Text
  pub reporting_date : Text
  pub period : Text
  pub version : Text

-- The result that is returned, with the files of the archive.
pub record Report : Type 0 where
  pub filename : Text
  pub dn_rows : ℕ
  pub dsn_rows : ℕ
  pub dk_rows : ℕ
  pub files : List (Text × Text)

unfoldable pub validate : (Text → Bool) → Input → Result Text
validate unicode_token input = do
  refuse
      (not (digits input.participant_code 8)
        || not (digits input.reporting_date 8)
        || not (safe_token unicode_token input.period)
        || not (safe_token unicode_token input.version))
      invalid_input
  refuse (not (is_ok (parse_date (dashed input.reporting_date)))) invalid_input
  ok input.reporting_date

unfoldable pub rows_body : List Text → Text
rows_body [] = []
rows_body (row ∷ rest) = join line_end (row ∷ rest) ++ line_end

-- strings.Count of a byte.
unfoldable pub count_byte : ℕ → Text → ℕ
count_byte c [] = 0
count_byte c (d ∷ s) = let later = count_byte c s in if d == c then suc later else later

-- The verb `%d`. Each round leaves a tenth, so that the number itself is fuel enough.
unfoldable pub decimal_in : ℕ → ℕ → Text
decimal_in zero n = (48 + n % 10) ∷ []
decimal_in (suc fuel) n =
    let front = decimal_in fuel (n / 10) in
    if ltb n 10 then (48 + n) ∷ [] else front ++ (48 + n % 10) ∷ []

unfoldable pub decimal : ℕ → Text
decimal n = decimal_in n n

unfoldable pub file_header : Input → ℕ → Text
file_header input count = join pipe (
    codes "H"
    ∷ input.participant_code
    ∷ input.reporting_date
    ∷ input.period
    ∷ input.version
    ∷ decimal count
    ∷ [])

unfoldable pub build_file_content : Input → ℕ → Text → Text
build_file_content input count body =
    if is_empty body
    then file_header input count ++ line_end
    else file_header input count ++ line_end ++ body

-- The body of the customers' file and its count.
unfoldable pub dn_content : List Text → List Text → ℕ × Text
dn_content dn_rows additional =
    let body = rows_body dn_rows in
    (count_byte 10 body + length additional, body ++ join line_end additional)

abbrev pub underscore : Text
underscore = codes "_"

unfoldable pub file_name : Text → Input → Text
file_name kind input =
    join underscore
      (kind ∷ input.participant_code ∷ input.reporting_date ∷ input.period ∷ input.version ∷ [])
    ++ codes ".txt"

unfoldable pub report_of : Input → List Text → List Text → List Text → List Text → Report
report_of input dn additional dsn dk =
    let customers = dn_content dn additional in
    let accounts = rows_body dsn in
    let loans = rows_body dk in
    record {
      filename =
          join underscore (codes "LPS" ∷ input.participant_code ∷ input.reporting_date ∷ [])
          ++ codes ".zip";
      dn_rows = customers.0;
      dsn_rows = count_byte 10 accounts;
      dk_rows = count_byte 10 loans;
      files =
          sort (λ a b. text_before a.0 b.0)
            ((file_name (codes "DN") input, build_file_content input customers.0 customers.1)
              ∷ (
                file_name (codes "DSN") input,
                build_file_content input (count_byte 10 accounts) accounts,
              )
              ∷ (file_name (codes "DK") input, build_file_content input (count_byte 10 loans) loans)
              ∷ (file_name (codes "DSJ") input, build_file_content input 0 [])
              ∷ []);
    }

module _ (floats : Floats) where
  pub record Services : Type 0 where
    pub maintenance : Text → Text → Result Text
    pub standing_orders : Result Text
    pub get_cif : Text → Result Members
    pub debtor_type : Text → Result Text
    pub rates : Result (List (RateEntry floats))
    pub unicode_token : Text → Bool
    pub arrival : List Text → List Text

  -- The downloaded tables.
  pub record Bodies : Type 0 where
    pub customers : Text
    pub savings : Text
    pub deposits : Text
    pub balances : Text
    pub standing : Text
    pub loans : Text
    pub details : Text

  unfoldable pub download : Services → Text → Result Bodies
  download s date = do
    let cbr = codes "/app/report/cbr/" ++ date
    let daily = codes "/app/report/daily/" ++ date
    customers ← s.maintenance (codes "cbrcustomer.csv") cbr
    savings ← s.maintenance (codes "cbrsavings.csv") cbr
    deposits ← s.maintenance (codes "cbrtimedeposit.csv") cbr
    balances ← s.maintenance (codes "Time Deposit Account Balance Details.csv") daily
    standing ← s.standing_orders
    loans ← s.maintenance (codes "cbrloan.csv") cbr
    details ← download_loan_details s.maintenance daily
    ok (record {
      customers = customers;
      savings = savings;
      deposits = deposits;
      balances = balances;
      standing = standing;
      loans = loans;
      details = details;
    })

  unfoldable pub dsn_of : Bodies → Input → List (RateEntry floats) → Result (List Text × List Text)
  dsn_of b input rates =
      build_dsn floats b.savings b.deposits b.balances b.standing input.reporting_date rates

  unfoldable pub assemble : Services → Input → List (RateEntry floats) → Bodies → Result Report
  assemble s input rates b = do
    customers ← parse_customers b.customers
    dsn ← dsn_of b input rates
    dk ← build_dk floats b.loans b.details
    additional ← complete_missing_dn s.get_cif s.debtor_type s.arrival customers.1 (dsn.1 ++ dk.1)
    ok (report_of input (build_dn s.debtor_type customers.0) additional dsn.0 dk.0)

  unfoldable pub generate : Services → Input → Result Report
  generate s input = do
    date ← validate s.unicode_token input
    rates ← s.rates
    bodies ← download s date
    assemble s input rates bodies
