-- ===== src/Examples/Contracts.antt =====
-- A loan that the new core system finds under its alternate number.
use new_trs.Loan.Date.{no_date}
use new_trs.Loan.Money.{zero_money}
use new_trs.Common.{some, ◌≡◌, refl, true, [], ◌∷◌, ◌⊎◌, ok, err, not_found, if◌then◌else◌}
use new_trs.Common.Int.{pos}
use new_trs.Common.Text.{
  Text, codes, eq_text, contains, is_digit, is_empty, all_of, split, trim_space, without,
}
use new_trs.Common.Errors.{error_code, is_error}
use new_trs.Loan.Money.Decimal.{
  parse_money, signed_decimal, unsigned_decimal, unsigned_parts, is_number, digits_value,
}
use new_trs.Loan.Model.{ContractData}
use new_trs.Fincloud.Decimal.{count, last_index, decide, many_points, one_point, normalize_decimal}
use new_trs.Fincloud.Decimal.Points.{normalize_decimal_point}
use new_trs.Fincloud.Contract.{
  Scalar, LoanDto, unavailable, money_of, required_money, optional_money, tenor_of, first_number,
  leading_digits, close_date, repayments_of, map_loan,
}
use new_trs.Fincloud.Resolve.{
  Client, checked_loan, get_loan, is_candidate, candidates, only_candidate, resolve_alternate,
  by_alternate, or_alternate, resolve_loan, ByAlternate, resolve_loan-ByAlternate,
}

normalize_decimal_point_example : normalize_decimal (codes "12.125") ≡ ok (codes "12125")
unfolding all_of is_digit is_empty
normalize_decimal_point_example =
    normalize_decimal_point (codes "12") (codes "125") (refl, refl) (refl, refl)

abbrev given : Text → Scalar
given t = record { value = t; present = true }

abbrev dto : LoanDto
dto = record {
  id = codes "77";
  no_alt = codes "A1";
  cif = codes "5";
  cif_number = [];
  customer_name = codes "Ana";
  branch = [];
  product = [];
  plafond_limit = given (codes "100");
  tenor = given (codes "12 bulan");
  flat_rate = given (codes "9");
  reference_rate = given [];
  collectability = pos 1;
  principal_due = given [];
  interest_due = given [];
  penalty_due = given [];
  status = [];
  close_date_legacy = [];
  close_date_object = [];
  schedule = [];
  repayments = [];
}

abbrev client : Client
client = record {
  inquire = λ account. if eq_text account (codes "77") then ok dto else err not_found;
  search = λ alternate.
      ok (record { id = codes "77"; no_alt = codes " A1" } ∷ record { id = []; no_alt = [] } ∷ []);
}

abbrev detail : ContractData
detail = record {
  primary_account = codes "77";
  alternate_account = codes "A1";
  cif = codes "5";
  customer_name = codes "Ana";
  branch = [];
  product = [];
  plafond_limit = record { num = pos 100; den_pred = 0 };
  tenor_months = pos 12;
  flat_rate_percent = record { num = pos 9; den_pred = 0 };
  reference_rate_percent = zero_money;
  current_collectability = pos 1;
  current_principal_due = zero_money;
  current_interest_due = zero_money;
  penalty_due = zero_money;
  status = [];
  close_date = no_date;
  raw_schedule_count = pos 0;
  contract_schedule_evidence = some [];
  contract_schedule = [];
  repayments = [];
}

resolve_loan-ByAlternate_example :
    (get_loan client (trim_space (codes " A1")) ≡ ok detail)
    ⊎ ByAlternate client (trim_space (codes " A1")) detail
unfolding resolve_loan or_alternate by_alternate resolve_alternate only_candidate candidates
    is_candidate contains get_loan checked_loan map_loan required_money optional_money money_of
    unavailable normalize_decimal decide many_points one_point count last_index parse_money
    signed_decimal unsigned_decimal unsigned_parts is_number digits_value tenor_of first_number
    leading_digits close_date repayments_of is_error error_code eq_text is_empty is_digit all_of
    split trim_space without
resolve_loan-ByAlternate_example = resolve_loan-ByAlternate client (codes " A1") detail refl
