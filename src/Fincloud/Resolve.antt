-- ===== src/Fincloud/Resolve.antt =====
-- internal/fincloud/loan.go: finding the loan of an account number, which may be an alternate one. The
-- decoded answers of the two requests are the fields of a record.
use new_trs.Common.{
  ◌≡◌, sym, ap, ◌∙◌, subst, Bool, true, false, not, ◌&&◌, ◌||◌, if◌then◌else◌, Bool-cases, List, [],
  ◌∷◌, All, All-imp, ◌⊎◌, inl, inr, Result, ok, err, Error, invalid_input, not_found,
  ambiguous_account_resolution, invariant, refuse, ◌>>◌, ◌>>=◌, >>=-eq-ok, refuse-eq-ok,
  ok-injective, Result-cases, arith,
}
use new_trs.Common.Text.{
  Text, eq_text, eq_text-eq, contains, contains-cons, contains_first, is_empty, trim_space,
}
use new_trs.Common.Errors.{error_code, is_error}
use new_trs.Loan.Model.{ContractData}
use new_trs.Fincloud.Contract.{LoanDto, map_loan}

-- A row of the search: the primary and the alternate number.
pub record SearchRow : Type 0 where
  pub id : Text
  pub no_alt : Text

pub record Client : Type 0 where
  pub inquire : Text → Result LoanDto
  pub search : Text → Result (List SearchRow)

unfoldable pub checked_loan : LoanDto → Result ContractData
checked_loan dto = refuse (is_empty (trim_space dto.id)) not_found >> map_loan dto

unfoldable pub get_loan : Client → Text → Result ContractData
get_loan client account =
    refuse (is_empty (trim_space account)) invalid_input
    >> (client.inquire (trim_space account) >>= checked_loan)

unfoldable pub is_candidate : Text → SearchRow → Bool
is_candidate alternate row =
    not (is_empty (trim_space row.id))
    && (is_empty (trim_space row.no_alt) || eq_text (trim_space row.no_alt) alternate)

-- The primary numbers of the candidates, each once.
unfoldable pub candidates : Text → List SearchRow → List Text
candidates alternate [] = []
candidates alternate (row ∷ rest) =
    let later = candidates alternate rest in
    if is_candidate alternate row && not (contains (trim_space row.id) later)
    then trim_space row.id ∷ later
    else later

unfoldable pub only_candidate : List Text → Result Text
only_candidate [] = err not_found
only_candidate (primary ∷ []) = ok primary
only_candidate (primary ∷ other ∷ rest) = err ambiguous_account_resolution

unfoldable pub resolve_alternate : Client → Text → Result Text
resolve_alternate client alternate =
    client.search alternate >>= λ rows. only_candidate (candidates alternate rows)

unfoldable pub by_alternate : Client → Text → Result ContractData
by_alternate client account = do
  primary ← resolve_alternate client account
  detail ← get_loan client primary
  refuse (not (eq_text detail.primary_account primary)) invariant
  ok detail

unfoldable pub or_alternate : Client → Text → Result ContractData → Result ContractData
or_alternate client account (ok detail) = ok detail
or_alternate client account (err e) =
    if is_error e (error_code not_found) then by_alternate client account else err e

unfoldable pub resolve_loan : Client → Text → Result ContractData
resolve_loan client account =
    refuse (is_empty (trim_space account)) invalid_input
    >> or_alternate client (trim_space account) (get_loan client (trim_space account))

-- All candidates of the search have the one number.
pub record IsUnique (alternate primary : Text) (rows : List SearchRow) : Type 0 where
  pub there : contains primary (candidates alternate rows) ≡ true
  pub alone : All (λ row. is_candidate alternate row ≡ true → trim_space row.id ≡ primary) rows

-- The loan of a number for which the system itself has none.
pub record ByAlternate (client : Client) (account : Text) (detail : ContractData) : Type 0 where
  pub failure : Error
  pub failed : get_loan client account ≡ err failure
  pub unknown : is_error failure (error_code not_found) ≡ true
  pub rows : List SearchRow
  pub primary : Text
  pub searched : client.search account ≡ ok rows
  pub unique : IsUnique account primary rows
  pub found : get_loan client primary ≡ ok detail
  pub same : detail.primary_account ≡ primary

false-true : false ≡ true → ⊥
false-true h = cc

err-ok {ℓ} : {A : Type ℓ} (e : Error) (a : A) → err e ≡ ok a → ⊥
err-ok e a h = cc

candidates-cons :
    (alternate t : Text) (row : SearchRow) (rest : List SearchRow)
    → contains t (candidates alternate rest) ≡ true
    → contains t (candidates alternate (row ∷ rest)) ≡ true
unfolding candidates
candidates-cons alternate t row rest h =
    elim (Bool-cases (
      is_candidate alternate row
      && not (contains (trim_space row.id) (candidates alternate rest)))) [
        | inl e ↦ rw e (contains-cons t (trim_space row.id) (candidates alternate rest) h)
        | inr e ↦ rw e h
      ]

candidates_first :
    (alternate : Text) (row : SearchRow) (rest : List SearchRow)
    → is_candidate alternate row ≡ true
    → contains (trim_space row.id) (candidates alternate (row ∷ rest)) ≡ true
unfolding candidates
candidates_first alternate row rest h =
    elim (Bool-cases (contains (trim_space row.id) (candidates alternate rest))) [
      | inl e ↦ rw (h, e) e
      | inr e ↦ rw (h, e) (contains_first (trim_space row.id) (candidates alternate rest))
    ]

contains-candidates :
    (alternate : Text) (rows : List SearchRow)
    → All
        (λ row.
          is_candidate alternate row ≡ true
          → contains (trim_space row.id) (candidates alternate rows) ≡ true)
        rows
contains-candidates alternate [] = tt
contains-candidates alternate (row ∷ rest) = (
  candidates_first alternate row rest,
  All-imp _ _ (λ r k h. candidates-cons alternate (trim_space r.id) row rest (k h)) rest
      (contains-candidates alternate rest),
)

only_contained : (t u : Text) → contains t (u ∷ []) ≡ true → t ≡ u
unfolding contains
only_contained t u h = elim (Bool-cases (eq_text u t)) [
  | inl e ↦ sym (eq_text-eq u t e)
  | inr e ↦ absurd (false-true (rw e at h))
]

only_candidate-eq-ok :
    (names : List Text) (primary : Text) → only_candidate names ≡ ok primary → names ≡ primary ∷ []
unfolding only_candidate
only_candidate-eq-ok [] primary h = cc
only_candidate-eq-ok (name ∷ []) primary h = ap (λ t. t ∷ []) (ok-injective name primary h)
only_candidate-eq-ok (name ∷ other ∷ rest) primary h = cc

only_candidate-IsUnique :
    (alternate primary : Text) (rows : List SearchRow)
    → only_candidate (candidates alternate rows) ≡ ok primary
    → IsUnique alternate primary rows
only_candidate-IsUnique alternate primary rows h =
    let one = only_candidate-eq-ok (candidates alternate rows) primary h in
    record {
      there = subst (λ names. contains primary names ≡ true) (sym one) (contains_first primary []);
      alone =
          All-imp _ _
            (λ row k c.
              only_contained (trim_space row.id) primary
                (subst (λ names. contains (trim_space row.id) names ≡ true) one (k c)))
            rows (contains-candidates alternate rows);
    }

by_alternate-ByAlternate :
    (client : Client) (account : Text) (detail : ContractData) (e : Error)
    → get_loan client account ≡ err e
    → is_error e (error_code not_found) ≡ true
    → by_alternate client account ≡ ok detail
    → ByAlternate client account detail
unfolding by_alternate resolve_alternate
by_alternate-ByAlternate client account detail e failed unknown h =
    let (primary, resolved, h₁) = >>=-eq-ok (resolve_alternate client account) _ h in
    let (rows, searched, h₂) = >>=-eq-ok (client.search account) _ resolved in
    let (d, found, h₃) = >>=-eq-ok (get_loan client primary) _ h₁ in
    let (same, h₄) = refuse-eq-ok (not (eq_text d.primary_account primary)) invariant _ h₃ in
    subst (ByAlternate client account) (ok-injective d detail h₄) (record {
      failure = e;
      failed = failed;
      unknown = unknown;
      rows = rows;
      primary = primary;
      searched = searched;
      unique = only_candidate-IsUnique account primary rows h₂;
      found = found;
      same = eq_text-eq d.primary_account primary (ground (arith, same));
    })

-- The loan of a number is the one that the system has for it, or, where asking for it failed with not
-- found and with no other error, the one of the only primary number to which all candidates of the
-- search for the alternate number point, and then the loan says that number itself.
pub resolve_loan-ByAlternate :
    (client : Client) (account : Text) (detail : ContractData)
    → resolve_loan client account ≡ ok detail
    → (get_loan client (trim_space account) ≡ ok detail)
      ⊎ ByAlternate client (trim_space account) detail
unfolding resolve_loan or_alternate
resolve_loan-ByAlternate client account detail h =
    let (given, h₁) = refuse-eq-ok (is_empty (trim_space account)) invalid_input _ h in
    elim (Result-cases (get_loan client (trim_space account))) [
      | inl (d, found) ↦ inl (found ∙ rw found at h₁)
      | inr (e, failed) ↦ elim (Bool-cases (is_error e (error_code not_found))) [
        | inl b ↦ inr (
            by_alternate-ByAlternate client (trim_space account) detail e failed b
              (rw (failed, b) at h₁))
        | inr b ↦ absurd (err-ok e detail (rw (failed, b) at h₁))
      ]
    ]
