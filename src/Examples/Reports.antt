-- ===== src/Examples/Reports.antt =====
-- A report on one savings account, whose customer is not in the customers' table.
use new_trs.Common.{
  ℕ, ◌+◌, ◌-◌, ◌*◌, ltb, if◌then◌else◌, ◌≡◌, refl, true, false, List, [], ◌∷◌, ◌++◌, All, Result,
  ok, err, foreign, not_found,
}
use new_trs.Common.Text.{Text, codes, eq_text, contains, is_empty, is_digit, trim_space}
use new_trs.Loan.Date.{days_in}
use new_trs.Loan.Date.Text.{parse_date}
use new_trs.Lps.Csv.{
  Table, open_field, step_in, step, run, finish_in, unix_lines, read_all, table_of, parse_table,
  index, require, value_at, last_row, cell, transpose_table,
}
use new_trs.Lps.Fields.{join, all_of, digits, safe_token, without, is_letter}
use new_trs.Lps.Customers.{Customer, cif_of, customer_of, customers_of, cifs, parse_customers}
use new_trs.Lps.Live.{text, member, no_members, missing_cifs, collect, complete_missing_dn}
use new_trs.Lps.Sources.{Floats, dashed, require_same, lines_of, percent_cut}
use new_trs.Lps.Accounts.{
  build_dsn, savings_fields, parse_percentage, percentage, string_to_float, build_dk,
}
use new_trs.Lps.Details.{download_loan_details}
use new_trs.Lps.Generator.{
  Input, Report, rows_body, dn_content, count_byte, Services, validate, download, dsn_of, assemble,
  generate,
}
use new_trs.Lps.Lines.{is_plain, starts_plain, is_row}
use new_trs.Lps.Written.{read_all-rows_body}
use new_trs.Lps.Counts.{line_count, dn_content-line_count}
use new_trs.Lps.Complete.{IsDistinct, parse_customers_complete}
use new_trs.Lps.Covered.{Generated, generate-covered}

abbrev small_table : List (List Text)
small_table = (codes "cif" ∷ codes "name" ∷ []) ∷ ([] ∷ codes "a b" ∷ []) ∷ []

read_all-rows_body_example :
    read_all (rows_body ((codes "cif|name") ∷ (codes "|a b") ∷ [])) ≡ small_table
unfolding is_row is_plain starts_plain all_of join
read_all-rows_body_example =
    read_all-rows_body small_table
      ((refl, ((refl, refl), ((refl, refl), tt))), ((refl, ((refl, refl), ((refl, refl), tt))), tt))

dn_content-line_count_example :
    ((dn_content (codes "D|1" ∷ []) (codes "D|2" ∷ [])).0 ≡ 2)
    × (line_count (codes "D|2" ∷ []) (dn_content (codes "D|1" ∷ []) (codes "D|2" ∷ [])).1 ≡ 2)
unfolding count_byte
dn_content-line_count_example =
    dn_content-line_count (codes "D|1" ∷ []) (codes "D|2" ∷ []) (refl, tt) (refl, tt)

abbrev customer_body : Text
customer_body =
    codes
      "cif_no|cif_alternate_no|customer_type|customer_name|idtype|identity_number|mother_maiden_name|"
    ++ codes
        "birth_date|tax_id|management_name|management_identity|address1|citydati2|phone_no|debtor_type\n"
    ++ codes "7|\n7|\n|x\n8|\n"

abbrev customer_table : Result Table
customer_table = parse_table customer_body

abbrev table_or : Result Table → Table
table_or (err e) = record { header = []; rows = [] }
table_or (ok t) = t

abbrev customers_or : Result (List Customer × List Text) → List Customer × List Text
customers_or (err e) = ([], [])
customers_or (ok c) = c

parse_customers_complete_example :
    IsDistinct (cifs (customers_or (parse_customers customer_body)).0)
    × All (λ t. is_empty t ≡ false) (cifs (customers_or (parse_customers customer_body)).0)
    × All
        (λ row.
          is_empty (cif_of (table_or customer_table).header row) ≡ false
          → contains
              (cif_of (table_or customer_table).header row)
              (cifs (customers_or (parse_customers customer_body)).0)
            ≡ true)
        (table_or customer_table).rows
unfolding parse_table read_all run step step_in open_field unix_lines finish_in table_of
    parse_customers require index eq_text trim_space
parse_customers_complete_example =
    parse_customers_complete customer_body (table_or customer_table)
      (customers_or (parse_customers customer_body)) refl refl

abbrev whole : ℕ → Text → ℕ
whole n [] = n
whole n (c ∷ s) = whole (n * 10 + (c - 48)) s

-- Whole numbers for floats.
abbrev whole_floats : Floats
whole_floats = record {
  Float = ℕ;
  zero_float = 0;
  parse_float = λ t. if all_of is_digit t then ok (whole 0 t) else err foreign;
  is_above = λ x y. ltb y x;
  is_fraction = λ x. false;
  hundred_times = λ x. x * 100;
  two_decimals = λ x. codes "0.00";
  truncated = λ x. codes "0";
}

abbrev files : List (Text × Text)
files =
    (codes "cbrcustomer.csv", customer_body)
    ∷ (
      codes "cbrsavings.csv",
      codes
          "cif_no|acc_no|product|start_date|interest_rate|nominal|blocked_nominal|end_date\n9|900|101||3%|5|0|\n",
    )
    ∷ (
      codes "cbrtimedeposit.csv",
      codes "cif_no|acc_no|product|start_date|interest_rate|nominal|blocked_nominal|end_date\n",
    )
    ∷ (codes "Time Deposit Account Balance Details.csv", codes "Account No|Accrued Interest\n")
    ∷ (
      codes "cbrloan.csv",
      codes
          "cifno|loan_no|collectibility|credit_limit_effective|outstanding|principal_arrears|start_date|mature_date\n",
    )
    ∷ (codes "DetailOutstandingRekeningPinjaman.csv", codes "no_rekening|tunggakan_bunga\n")
    ∷ []

abbrev file_of : List (Text × Text) → Text → Result Text
file_of [] name = err not_found
file_of (f ∷ rest) name = if eq_text f.0 name then ok f.1 else file_of rest name

abbrev services : Services whole_floats
services = record {
  maintenance = λ name path. file_of files name;
  standing_orders = ok (codes "Destination Account Number|End Date\n");
  get_cif = λ cif. ok (member (codes "id") (text cif) no_members);
  debtor_type = λ alternate. err not_found;
  rates = ok [];
  unicode_token = λ t. false;
  arrival = λ asked. asked;
}

abbrev input : Input
input = record {
  participant_code = codes "12345678";
  reporting_date = codes "20250131";
  period = codes "M";
  version = codes "1";
}

abbrev report_or : Result Report → Report
report_or (err e) = record { filename = []; dn_rows = 0; dsn_rows = 0; dk_rows = 0; files = [] }
report_or (ok r) = r

generate-covered_example :
    Generated whole_floats services input (report_or (generate whole_floats services input))
unfolding generate validate digits safe_token is_letter is_digit all_of is_empty dashed parse_date
    days_in download download_loan_details eq_text assemble parse_customers require index trim_space
    parse_table read_all run step step_in open_field unix_lines finish_in table_of dsn_of build_dsn
    require_same transpose_table last_row cell value_at lines_of savings_fields parse_percentage
    percent_cut percentage without string_to_float build_dk complete_missing_dn missing_cifs collect
    contains cifs customers_of customer_of
generate-covered_example =
    generate-covered whole_floats services input (report_or (generate whole_floats services input))
      (λ asked t h. h) refl
