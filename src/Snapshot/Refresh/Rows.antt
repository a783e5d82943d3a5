-- ===== src/Snapshot/Refresh/Rows.antt =====
-- What the checks of a refresh let through, and what its chunks add up to.
use new_trs.Common.{
  ℕ, zero, suc, ◌≤◌, ◌≡◌, refl, ap, sym, ◌∙◌, Bool, true, false, ◌||◌, List, [], ◌∷◌, ◌++◌, map,
  length, All, All-imp, ok, foreign, refuse-eq-ok, >>=-eq-ok, ok-injective, arith,
}
use new_trs.Common.Text.{Text, trim_space, eq_text}
use new_trs.Loan.Date.{Date}
use new_trs.Loan.Model.{LoanPosition}
use new_trs.Snapshot.Refresh.{
  Environment, bad_row, is_seen, check_rows, validate_rows, check_chunk, chunk_size, front, back,
  insert_chunks, stored,
}
use new_trs.Snapshot.Columns.{StoredRow}

abbrev pub account_of : LoanPosition → Text
account_of row = trim_space row.account_number

-- No two rows are of one account.
pub IsDistinct : List LoanPosition → Type 0
IsDistinct [] = Unit
IsDistinct (row ∷ rest) =
    All (λ r. eq_text (account_of row) (account_of r) ≡ false) rest × IsDistinct rest

or_false : (a b : Bool) → (a || b) ≡ false → (a ≡ false) × (b ≡ false)
or_false true b h = cc
or_false false b h = (refl, h)

check_rows-eq-ok :
    (seen : List Text) (rows : List LoanPosition) (date : Date)
    → check_rows seen rows date ≡ ok tt
    → All (λ r. (bad_row r date ≡ false) × (is_seen (account_of r) seen ≡ false)) rows
      × IsDistinct rows
unfolding check_rows IsDistinct is_seen
check_rows-eq-ok seen [] date h = (tt, tt)
check_rows-eq-ok seen (row ∷ rest) date h =
    let (good, h₁) = refuse-eq-ok (bad_row row date) foreign _ h in
    let (fresh, h₂) = refuse-eq-ok (is_seen (account_of row) seen) foreign _ h₁ in
    let later = check_rows-eq-ok (account_of row ∷ seen) rest date h₂ in
    (
      ((good, fresh), All-imp _ _ (λ r p. (p.0, (or_false _ _ p.1).1)) rest later.0),
      (All-imp _ _ (λ r p. (or_false _ _ p.1).0) rest later.0, later.1),
    )

pub validate_rows-eq-ok :
    (rows : List LoanPosition) (date : Date)
    → validate_rows rows date ≡ ok tt
    → All (λ r. bad_row r date ≡ false) rows × IsDistinct rows × (1 ≤ length rows)
unfolding validate_rows
validate_rows-eq-ok [] date h = cc
validate_rows-eq-ok (row ∷ rest) date h =
    let found = check_rows-eq-ok [] (row ∷ rest) date h in
    (All-imp _ _ (λ r p. p.0) (row ∷ rest) found.0, found.1, omega arith)

append_nil {ℓ} : {A : Type ℓ} (xs : List A) → xs ++ [] ≡ xs
append_nil [] = refl
append_nil (x ∷ xs) = ap (λ r. x ∷ r) (append_nil xs)

append_assoc {ℓ} : {A : Type ℓ} (xs ys zs : List A) → (xs ++ ys) ++ zs ≡ xs ++ (ys ++ zs)
append_assoc [] ys zs = refl
append_assoc (x ∷ xs) ys zs = ap (λ r. x ∷ r) (append_assoc xs ys zs)

front-back : (n : ℕ) (rows : List LoanPosition) → front n rows ++ back n rows ≡ rows
unfolding front back
front-back zero rows = refl
front-back (suc n) [] = refl
front-back (suc n) (row ∷ rest) = ap (λ r. row ∷ r) (front-back n rest)

map-append {ℓ κ} :
    {A : Type ℓ} {B : Type κ} (f : A → B) (xs ys : List A) → map f (xs ++ ys) ≡ map f xs ++ map f ys
map-append f [] ys = refl
map-append f (x ∷ xs) ys = ap (λ r. f x ∷ r) (map-append f xs ys)

pub length-map {ℓ κ} :
    {A : Type ℓ} {B : Type κ} (f : A → B) (xs : List A) → length (map f xs) ≡ length xs
length-map f [] = refl
length-map f (x ∷ xs) = ap suc (length-map f xs)

-- The chunks put every row in the table, in order, as the columns keep it.
pub insert_chunks-eq-ok :
    (fuel : ℕ) (env : Environment) (rows : List LoanPosition) (table result : List StoredRow)
    → insert_chunks fuel env rows table ≡ ok result
    → result ≡ table ++ map (stored env) rows
unfolding insert_chunks
insert_chunks-eq-ok fuel env [] table result h =
    sym (ok-injective table result h) ∙ sym (append_nil table)
insert_chunks-eq-ok zero env (row ∷ rest) table result h = cc
insert_chunks-eq-ok (suc fuel) env (row ∷ rest) table result h =
    let chunk = front chunk_size (row ∷ rest) in
    let later = back chunk_size (row ∷ rest) in
    let (u, checked, h₁) = >>=-eq-ok (check_chunk chunk) _ h in
    let (v, inserted, h₂) = >>=-eq-ok (env.insert_answer chunk) _ h₁ in
    insert_chunks-eq-ok fuel env later (table ++ map (stored env) chunk) result h₂
    ∙ append_assoc table (map (stored env) chunk) (map (stored env) later)
    ∙ ap (λ r. table ++ r)
        (sym (map-append (stored env) chunk later)
          ∙ ap (map (stored env)) (front-back chunk_size (row ∷ rest)))
