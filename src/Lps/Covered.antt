-- ===== src/Lps/Covered.antt =====
-- Every customer of the accounts' lines is in the customers' file, or was asked for and added.
use new_trs.Common.{
  All, false, ◌≡◌, refl, subst, true, List, ◌++◌, ◌⊎◌, Result, ok, >>=-eq-ok, ok-injective,
}
use new_trs.Common.Text.{Text, codes, is_empty, contains}
use new_trs.Lps.Csv.{Table, parse_table, require}
use new_trs.Lps.Customers.{Customer, cifs, parse_customers, build_dn}
use new_trs.Lps.Live.{Members, complete_missing_dn}
use new_trs.Lps.Sources.{Floats}
use new_trs.Lps.Accounts.{RateEntry, build_dk, trimmed}
use new_trs.Lps.Rows.{
  IsCovered-All, append_left-IsCovered, append_right-IsCovered, build_dsn-SavingsRows,
  build_dk-LoanRows,
}
use new_trs.Lps.Generator.{
  Input, Report, Services, validate, report_of, Bodies, download, dsn_of, assemble, generate,
}
use new_trs.Lps.Added.{IsAdded, complete_missing_dn-IsAdded}

-- The customer is among those read, or the bank's service knows it and its line was added.
pub HasLine :
    (get_cif : Text → Result Members) (debtors : Text → Result Text) (customers : List Customer)
    (additional : List Text) (cif : Text)
    → Type 0
HasLine get_cif debtors customers additional cif =
    (contains cif (cifs customers) ≡ true) ⊎ IsAdded get_cif debtors additional cif

-- The parts of a report that was generated, and the tables of accounts that were downloaded for it.
-- Each row of a table that names a customer has the customer's line.
pub record Generated (floats : Floats) (s : Services floats) (input : Input) (report : Report)
    : Type 0 where
  pub date : Text
  pub rates : List (RateEntry floats)
  pub bodies : Bodies floats
  pub customers : List Customer × List Text
  pub dsn : List Text × List Text
  pub dk : List Text × List Text
  pub additional : List Text
  pub savings : Table
  pub deposits : Table
  pub loans : Table
  pub valid : validate s.unicode_token input ≡ ok date
  pub fetched : s.rates ≡ ok rates
  pub downloaded : download floats s date ≡ ok bodies
  pub read : parse_customers bodies.customers ≡ ok customers
  pub dsn_made : dsn_of floats bodies input rates ≡ ok dsn
  pub dk_made : build_dk floats bodies.loans bodies.details ≡ ok dk
  pub made : report_of input (build_dn s.debtor_type customers.0) additional dsn.0 dk.0 ≡ report
  pub savings_read : parse_table bodies.savings ≡ ok savings
  pub deposits_read : parse_table bodies.deposits ≡ ok deposits
  pub loans_read : parse_table bodies.loans ≡ ok loans
  pub savings_covered :
      All
        (λ row.
          is_empty (trimmed floats savings.header (codes "cif_no") row) ≡ false
          → HasLine s.get_cif s.debtor_type customers.0 additional
              (trimmed floats savings.header (codes "cif_no") row))
        savings.rows
  pub deposits_covered :
      All
        (λ row.
          is_empty (trimmed floats savings.header (codes "cif_no") row) ≡ false
          → HasLine s.get_cif s.debtor_type customers.0 additional
              (trimmed floats savings.header (codes "cif_no") row))
        deposits.rows
  pub loans_covered :
      All
        (λ row.
          is_empty (trimmed floats loans.header (codes "cifno") row) ≡ false
          → HasLine s.get_cif s.debtor_type customers.0 additional
              (trimmed floats loans.header (codes "cifno") row))
        loans.rows

customers-cifs :
    (body : Text) (c : List Customer × List Text) → parse_customers body ≡ ok c → c.1 ≡ cifs c.0
unfolding parse_customers
customers-cifs body c h =
    let (table, parsed, h₁) = >>=-eq-ok (parse_table body) _ h in
    let (v, required, h₂) = >>=-eq-ok (require table.header _) _ h₁ in
    subst (λ q. q.1 ≡ cifs q.0) (ok-injective _ c h₂) refl

needed-HasLine :
    (floats : Floats) (s : Services floats) (body : Text) (customers : List Customer × List Text)
    (additional needed : List Text) (cif : Text)
    → parse_customers body ≡ ok customers
    → ((asked : List Text) (t : Text)
        → contains t asked ≡ true
        → contains t (s.arrival asked) ≡ true)
    → complete_missing_dn s.get_cif s.debtor_type s.arrival customers.1 needed ≡ ok additional
    → contains cif needed ≡ true
    → HasLine s.get_cif s.debtor_type customers.0 additional cif
unfolding HasLine
needed-HasLine floats s body customers additional needed cif read arrives asked there =
    subst (λ seen. (contains cif seen ≡ true) ⊎ IsAdded s.get_cif s.debtor_type additional cif)
      (customers-cifs body customers read)
      (complete_missing_dn-IsAdded s.get_cif s.debtor_type s.arrival customers.1 needed additional
        cif arrives asked there)

assemble-covered :
    (floats : Floats) (s : Services floats) (input : Input) (rates : List (RateEntry floats))
    (b : Bodies floats) (report : Report) (date : Text)
    → ((asked : List Text) (t : Text)
        → contains t asked ≡ true
        → contains t (s.arrival asked) ≡ true)
    → validate s.unicode_token input ≡ ok date
    → s.rates ≡ ok rates
    → download floats s date ≡ ok b
    → assemble floats s input rates b ≡ ok report
    → Generated floats s input report
unfolding assemble dsn_of
assemble-covered floats s input rates b report date arrives valid fetched downloaded h =
    let (customers, read, h₁) = >>=-eq-ok (parse_customers b.customers) _ h in
    let (dsn, dsn_made, h₂) = >>=-eq-ok (dsn_of floats b input rates) _ h₁ in
    let (dk, dk_made, h₃) = >>=-eq-ok (build_dk floats b.loans b.details) _ h₂ in
    let (additional, asked, h₄) =
      >>=-eq-ok (complete_missing_dn s.get_cif s.debtor_type s.arrival customers.1 (dsn.1 ++ dk.1))
        _ h₃ in
    let saved =
      build_dsn-SavingsRows floats b.savings b.deposits b.balances b.standing input.reporting_date
        rates dsn dsn_made in
    let lent = build_dk-LoanRows floats b.loans b.details dk dk_made in
    let Line : Text → Type 0 = HasLine s.get_cif s.debtor_type customers.0 additional in
    let has : (cif : Text) → contains cif (dsn.1 ++ dk.1) ≡ true → Line cif = λ cif there.
      needed-HasLine floats s b.customers customers additional (dsn.1 ++ dk.1) cif read arrives
        asked there in
    record {
      date = date;
      rates = rates;
      bodies = b;
      customers = customers;
      additional = additional;
      dsn = dsn;
      dk = dk;
      savings = saved.savings;
      deposits = saved.deposits;
      loans = lent.loans;
      valid = valid;
      fetched = fetched;
      downloaded = downloaded;
      read = read;
      dsn_made = dsn_made;
      dk_made = dk_made;
      made = ok-injective _ report h₄;
      savings_read = saved.savings_read;
      deposits_read = saved.deposits_read;
      loans_read = lent.loans_read;
      savings_covered =
          IsCovered-All Line _ (dsn.1 ++ dk.1) saved.savings.rows has
            (append_left-IsCovered _ dsn.1 dk.1 saved.savings.rows saved.savings_covered);
      deposits_covered =
          IsCovered-All Line _ (dsn.1 ++ dk.1) saved.deposits.rows has
            (append_left-IsCovered _ dsn.1 dk.1 saved.deposits.rows saved.deposits_covered);
      loans_covered =
          IsCovered-All Line _ (dsn.1 ++ dk.1) lent.loans.rows has
            (append_right-IsCovered _ dsn.1 dk.1 lent.loans.rows lent.loans_covered);
    }

-- A report that is generated is made of the customers' lines, the added ones and the lines of the
-- accounts, out of the tables downloaded for the date of the input, where the results of the requests
-- arrive in some order and none is lost. For each row of savings, deposits and loans whose CIF is not
-- empty, also one without an account, the customer with this CIF is among the customers read, or the
-- bank's service knows it and its line is among the added ones.
pub generate-covered :
    (floats : Floats) (s : Services floats) (input : Input) (report : Report)
    → ((asked : List Text) (t : Text)
        → contains t asked ≡ true
        → contains t (s.arrival asked) ≡ true)
    → generate floats s input ≡ ok report
    → Generated floats s input report
unfolding generate
generate-covered floats s input report arrives h =
    let (date, valid, h₁) = >>=-eq-ok (validate s.unicode_token input) _ h in
    let (rates, fetched, h₂) = >>=-eq-ok s.rates _ h₁ in
    let (bodies, downloaded, h₃) = >>=-eq-ok (download floats s date) _ h₂ in
    assemble-covered floats s input rates bodies report date arrives valid fetched downloaded h₃
