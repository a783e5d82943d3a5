-- ===== src/Lps/Complete.antt =====
-- Every customer of the accounts' lines is in the customers' file.
use new_trs.Common.{
  ◌≡◌, refl, sym, ap, ◌∙◌, subst, Bool, true, false, ◌||◌, Bool-cases, List, [], ◌∷◌, All, All-imp,
  ◌⊎◌, inl, inr, ok, >>=-eq-ok, ok-injective, arith,
}
use new_trs.Common.Text.{
  contains-cons, contains_first, Text, eq_text, eq_text-eq, contains, is_empty,
}
use new_trs.Lps.Csv.{Table, parse_table, require}
use new_trs.Lps.Customers.{
  Customer, dn_columns, customer_of, cif_of, customers_of, cifs, parse_customers,
}

-- Each text once.
unfoldable pub IsDistinct : List Text → Type 0
IsDistinct [] = Unit
IsDistinct (t ∷ rest) = (contains t rest ≡ false) × IsDistinct rest

pub false-true : false ≡ true → ⊥
false-true h = cc

or-left : (a b : Bool) → (a || b) ≡ false → a ≡ false
or-left true b h = h
or-left false b h = refl

or-right : (a b : Bool) → (a || b) ≡ false → b ≡ false
or-right true b h = cc
or-right false b h = h

or-rest : (a b : Bool) → (a || b) ≡ true → a ≡ false → b ≡ true
or-rest a b h g = ground (arith, h, g)

seen_other :
    (c t : Text) (seen : List Text)
    → contains c seen ≡ false
    → contains t seen ≡ true
    → eq_text c t ≡ false
seen_other c t seen h g = elim (Bool-cases (eq_text c t)) [
  | inl e ↦
      absurd (false-true (sym h ∙ subst (λ x. contains x seen ≡ true) (sym (eq_text-eq c t e)) g))
  | inr e ↦ e
]

-- What was seen is not among the customers.
unseen :
    (header : List Text) (rows : List (List Text)) (seen : List Text) (t : Text)
    → contains t seen ≡ true
    → contains t (cifs (customers_of header rows seen)) ≡ false
unfolding customers_of cifs contains customer_of
unseen header [] seen t h = refl
unseen header (row ∷ rest) seen t h =
    let cif = cif_of header row in
    elim (Bool-cases (is_empty cif || contains cif seen)) [
      | inl s ↦ rw s (unseen header rest seen t h)
      | inr s ↦
          let other : eq_text cif t ≡ false = seen_other cif t seen (or-right _ _ s) h in
          rw (s, other) (unseen header rest (cif ∷ seen) t (contains-cons t cif seen h))
    ]

customers_of-IsDistinct :
    (header : List Text) (rows : List (List Text)) (seen : List Text)
    → IsDistinct (cifs (customers_of header rows seen))
unfolding customers_of cifs IsDistinct customer_of
customers_of-IsDistinct header [] seen = tt
customers_of-IsDistinct header (row ∷ rest) seen =
    let cif = cif_of header row in
    elim (Bool-cases (is_empty cif || contains cif seen)) [
      | inl s ↦ rw s (customers_of-IsDistinct header rest seen)
      | inr s ↦ rw s (
        unseen header rest (cif ∷ seen) cif (contains_first cif seen),
        customers_of-IsDistinct header rest (cif ∷ seen),
      )
    ]

-- A row's CIF is seen or among the customers.
abbrev IsListed : List Text → List Text → List Text → List Text → Type 0
IsListed header seen customers row =
    is_empty (cif_of header row) ≡ false
    → (contains (cif_of header row) seen ≡ true) ⊎ (contains (cif_of header row) customers ≡ true)

customers_of-skipped :
    (header row : List Text) (rest : List (List Text)) (seen : List Text)
    → (is_empty (cif_of header row) || contains (cif_of header row) seen) ≡ true
    → customers_of header (row ∷ rest) seen ≡ customers_of header rest seen
unfolding customers_of
customers_of-skipped header row rest seen h = rw h refl

customers_of-added :
    (header row : List Text) (rest : List (List Text)) (seen : List Text)
    → (is_empty (cif_of header row) || contains (cif_of header row) seen) ≡ false
    → cifs (customers_of header (row ∷ rest) seen)
      ≡ cif_of header row ∷ cifs (customers_of header rest (cif_of header row ∷ seen))
unfolding customers_of cifs customer_of
customers_of-added header row rest seen h = rw h refl

IsListed-cons :
    (header : List Text) (c : Text) (seen later row : List Text)
    → IsListed header (c ∷ seen) later row
    → IsListed header seen (c ∷ later) row
unfolding contains
IsListed-cons header c seen later row k h = elim (Bool-cases (eq_text c (cif_of header row))) [
  | inl e ↦ inr (rw e refl)
  | inr e ↦ rw e (rw e at k h)
]

customers_of-IsListed :
    (header : List Text) (rows : List (List Text)) (seen : List Text)
    → All (IsListed header seen (cifs (customers_of header rows seen))) rows
customers_of-IsListed header [] seen = tt
customers_of-IsListed header (row ∷ rest) seen =
    let cif = cif_of header row in
    elim (Bool-cases (is_empty cif || contains cif seen)) [
      | inl s ↦
          subst (λ cs. All (IsListed header seen (cifs cs)) (row ∷ rest))
            (sym (customers_of-skipped header row rest seen s))
            ((λ h. inl (or-rest _ _ s h)), customers_of-IsListed header rest seen)
      | inr s ↦
          let later = cifs (customers_of header rest (cif ∷ seen)) in
          subst (λ cs. All (IsListed header seen cs) (row ∷ rest))
            (sym (customers_of-added header row rest seen s))
            (
              (λ h. inr (contains_first cif later)),
              All-imp _ _ (IsListed-cons header cif seen later) rest
                  (customers_of-IsListed header rest (cif ∷ seen)),
            )
    ]

customers_of-nonempty :
    (header : List Text) (rows : List (List Text)) (seen : List Text)
    → All (λ t. is_empty t ≡ false) (cifs (customers_of header rows seen))
unfolding customers_of cifs customer_of
customers_of-nonempty header [] seen = tt
customers_of-nonempty header (row ∷ rest) seen =
    let cif = cif_of header row in
    elim (Bool-cases (is_empty cif || contains cif seen)) [
      | inl s ↦ rw s (customers_of-nonempty header rest seen)
      | inr s ↦ rw s (or-left _ _ s, customers_of-nonempty header rest (cif ∷ seen))
    ]

-- The customers read are those of the table: each CIF is there once and is not empty, and each row with
-- a CIF has its customer.
pub parse_customers_complete :
    (body : Text) (table : Table) (c : List Customer × List Text)
    → parse_table body ≡ ok table
    → parse_customers body ≡ ok c
    → IsDistinct (cifs c.0)
      × All (λ t. is_empty t ≡ false) (cifs c.0)
      × All
          (λ row.
            is_empty (cif_of table.header row) ≡ false
            → contains (cif_of table.header row) (cifs c.0) ≡ true)
          table.rows
unfolding parse_customers contains
parse_customers_complete body table c parsed h =
    let (v, required, h₁) = >>=-eq-ok (require table.header dn_columns) _ (rw parsed at h) in
    let all = customers_of table.header table.rows [] in
    subst
      (λ cs.
        IsDistinct (cifs cs)
        × All (λ t. is_empty t ≡ false) (cifs cs)
        × All
            (λ row.
              is_empty (cif_of table.header row) ≡ false
              → contains (cif_of table.header row) (cifs cs) ≡ true)
            table.rows)
      (ap (λ q. q.0) (ok-injective (all, cifs all) c h₁))
      (
        customers_of-IsDistinct table.header table.rows [],
        customers_of-nonempty table.header table.rows [],
        All-imp _ _
            (λ row k e. elim (k e) [
              | inl none_seen ↦ absurd (false-true none_seen)
              | inr there ↦ there
            ])
            table.rows (customers_of-IsListed table.header table.rows []),
      )
