-- ===== src/Lps/Rows.antt =====
-- internal/lps/accounts.go: the CIF of every row of the accounts is among those that are asked for.
use new_trs.Common.{
  ◌≡◌, refl, subst, true, false, Bool-cases, inl, inr, List, [], ◌∷◌, ◌++◌, All, All-imp, Result,
  ok, >>=-eq-ok, ok-injective,
}
use new_trs.Common.Text.{Text, codes, contains, contains-cons, contains_first, eq_text, is_empty}
use new_trs.Lps.Csv.{Table, parse_table, require, transpose_table}
use new_trs.Lps.Sources.{Floats, dsn_columns, dk_columns, require_same, lines_of}
use new_trs.Lps.Accounts.{RateEntry, build_dsn, build_dk, trimmed}

true-false : true ≡ false → ⊥
true-false h = cc

-- Each row that names a customer names one of these.
pub IsCovered : (List Text → Text) → List Text → List (List Text) → Type 0
IsCovered cif_of names =
    All (λ row. is_empty (cif_of row) ≡ false → contains (cif_of row) names ≡ true)

contains-append_left :
    (t : Text) (xs ys : List Text) → contains t xs ≡ true → contains t (xs ++ ys) ≡ true
unfolding contains
contains-append_left t [] ys h = cc
contains-append_left t (x ∷ xs) ys h = elim (Bool-cases (eq_text x t)) [
  | inl e ↦ rw e refl
  | inr e ↦ rw e (contains-append_left t xs ys (rw e at h))
]

contains-append_right :
    (t : Text) (xs ys : List Text) → contains t ys ≡ true → contains t (xs ++ ys) ≡ true
contains-append_right t [] ys h = h
contains-append_right t (x ∷ xs) ys h =
    contains-cons t x (xs ++ ys) (contains-append_right t xs ys h)

pub append_left-IsCovered :
    (cif_of : List Text → Text) (xs ys : List Text) (rows : List (List Text))
    → IsCovered cif_of xs rows
    → IsCovered cif_of (xs ++ ys) rows
unfolding IsCovered
append_left-IsCovered cif_of xs ys rows =
    All-imp _ _ (λ row h named. contains-append_left (cif_of row) xs ys (h named)) rows

pub append_right-IsCovered :
    (cif_of : List Text → Text) (xs ys : List Text) (rows : List (List Text))
    → IsCovered cif_of ys rows
    → IsCovered cif_of (xs ++ ys) rows
unfolding IsCovered
append_right-IsCovered cif_of xs ys rows =
    All-imp _ _ (λ row h named. contains-append_right (cif_of row) xs ys (h named)) rows

cons-IsCovered :
    (cif_of : List Text → Text) (names : List Text) (row : List Text) (rows : List (List Text))
    → IsCovered cif_of names rows
    → IsCovered cif_of (cif_of row ∷ names) (row ∷ rows)
unfolding IsCovered
cons-IsCovered cif_of names row rows h = (
  λ named. contains_first (cif_of row) names,
  All-imp _ _ (λ r k named. contains-cons (cif_of r) (cif_of row) names (k named)) rows h,
)

pub lines_of-IsCovered :
    (cif_of account_of : List Text → Text) (fields : List Text → Text → Text → Result (List Text))
    (rows : List (List Text)) (l : List Text × List Text)
    → lines_of cif_of account_of fields rows ≡ ok l
    → IsCovered cif_of l.1 rows
unfolding lines_of IsCovered
lines_of-IsCovered cif_of account_of fields [] l h = tt
lines_of-IsCovered cif_of account_of fields (row ∷ rest) l h =
    elim (Bool-cases (is_empty (cif_of row))) [
      | inl e ↦ (
        λ named. absurd (true-false (subst (λ b. b ≡ false) e named)),
        lines_of-IsCovered cif_of account_of fields rest l (rw e at h),
      )
      | inr e ↦ elim (Bool-cases (is_empty (account_of row))) [
        | inl a ↦
            let (later, h₁, h₂) =
              >>=-eq-ok (lines_of cif_of account_of fields rest) _ (rw (e, a) at h) in
            subst (λ q. IsCovered cif_of q.1 (row ∷ rest)) (ok-injective _ l h₂)
              (cons-IsCovered cif_of later.1 row rest
                (lines_of-IsCovered cif_of account_of fields rest later h₁))
        | inr a ↦
            let (f, made, h₁) =
              >>=-eq-ok (fields row (cif_of row) (account_of row)) _ (rw (e, a) at h) in
            let (later, h₂, h₃) = >>=-eq-ok (lines_of cif_of account_of fields rest) _ h₁ in
            subst (λ q. IsCovered cif_of q.1 (row ∷ rest)) (ok-injective _ l h₃)
              (cons-IsCovered cif_of later.1 row rest
                (lines_of-IsCovered cif_of account_of fields rest later h₂))
      ]
    ]

-- What holds of every name holds of every row that the names cover.
pub IsCovered-All :
    (HasOne : Text → Type 0) (cif_of : List Text → Text) (needed : List Text)
    (rows : List (List Text))
    → ((cif : Text) → contains cif needed ≡ true → HasOne cif)
    → IsCovered cif_of needed rows
    → All (λ row. is_empty (cif_of row) ≡ false → HasOne (cif_of row)) rows
unfolding IsCovered
IsCovered-All HasOne cif_of needed rows has =
    All-imp _ _ (λ row h named. has (cif_of row) (h named)) rows

-- The tables of savings and deposits, whose rows are all covered.
pub record SavingsRows (floats : Floats) (savings_body deposit_body : Text) (names : List Text)
    : Type 0 where
  pub savings : Table
  pub deposits : Table
  pub savings_read : parse_table savings_body ≡ ok savings
  pub deposits_read : parse_table deposit_body ≡ ok deposits
  pub savings_covered :
      IsCovered (trimmed floats savings.header (codes "cif_no")) names savings.rows
  pub deposits_covered :
      IsCovered (trimmed floats savings.header (codes "cif_no")) names deposits.rows

pub build_dsn-SavingsRows :
    (floats : Floats) (savings_body deposit_body balance_body standing_body reporting : Text)
    (rates : List (RateEntry floats)) (dsn : List Text × List Text)
    → build_dsn floats savings_body deposit_body balance_body standing_body reporting rates ≡ ok dsn
    → SavingsRows floats savings_body deposit_body dsn.1
unfolding build_dsn
build_dsn-SavingsRows floats savings_body deposit_body balance_body standing_body reporting rates
      dsn h =
    let (savings, savings_read, h₁) = >>=-eq-ok (parse_table savings_body) _ h in
    let (deposits, deposits_read, h₂) = >>=-eq-ok (parse_table deposit_body) _ h₁ in
    let (u, same, h₃) = >>=-eq-ok (require_same savings.header deposits.header dsn_columns) _ h₂ in
    let (balances, b, h₄) = >>=-eq-ok (transpose_table balance_body (codes "Account No")) _ h₃ in
    let (standing, o, h₅) =
      >>=-eq-ok (transpose_table standing_body (codes "Destination Account Number")) _ h₄ in
    let (front, front_made, h₆) = >>=-eq-ok (lines_of _ _ _ savings.rows) _ h₅ in
    let (back, back_made, h₇) = >>=-eq-ok (lines_of _ _ _ deposits.rows) _ h₆ in
    subst (λ q. SavingsRows floats savings_body deposit_body q.1) (ok-injective _ dsn h₇)
      (record {
        savings = savings;
        deposits = deposits;
        savings_read = savings_read;
        deposits_read = deposits_read;
        savings_covered =
            append_left-IsCovered _ front.1 back.1 savings.rows
              (lines_of-IsCovered _ _ _ savings.rows front front_made);
        deposits_covered =
            append_right-IsCovered _ front.1 back.1 deposits.rows
              (lines_of-IsCovered _ _ _ deposits.rows back back_made);
      })

-- The table of loans, whose rows are all covered.
pub record LoanRows (floats : Floats) (body : Text) (names : List Text) : Type 0 where
  pub loans : Table
  pub loans_read : parse_table body ≡ ok loans
  pub loans_covered : IsCovered (trimmed floats loans.header (codes "cifno")) names loans.rows

pub build_dk-LoanRows :
    (floats : Floats) (body detail_body : Text) (dk : List Text × List Text)
    → build_dk floats body detail_body ≡ ok dk
    → LoanRows floats body dk.1
unfolding build_dk
build_dk-LoanRows floats body detail_body dk h =
    let (loans, loans_read, h₁) = >>=-eq-ok (parse_table body) _ h in
    let (u, required, h₂) = >>=-eq-ok (require loans.header dk_columns) _ h₁ in
    let (details, d, h₃) = >>=-eq-ok (transpose_table detail_body (codes "no_rekening")) _ h₂ in
    record {
      loans = loans;
      loans_read = loans_read;
      loans_covered = lines_of-IsCovered _ _ _ loans.rows dk h₃;
    }
