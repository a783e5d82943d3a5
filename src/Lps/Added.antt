-- ===== src/Lps/Added.antt =====
-- internal/lps/generator.go: a customer that is asked for has a line among the added ones.
use new_trs.Common.{
  ◌≡◌, refl, subst, true, Bool-cases, List, [], ◌∷◌, ◌⊎◌, inl, inr, Result, ok, >>=-eq-ok,
  ok-injective,
}
use new_trs.Common.Text.{contains-cons, contains_first, Text, eq_text, eq_text-eq, contains}
use new_trs.Lps.Live.{Members, build_live_dn, missing_cifs, collect, complete_missing_dn}

-- The bank's service knows the customer, and its line is among the lines.
pub record IsAdded (get_cif : Text → Result Members) (debtors : Text → Result Text)
    (lines : List Text) (cif : Text) : Type 0 where
  pub customer : Members
  pub known : get_cif cif ≡ ok customer
  pub printed : contains (build_live_dn debtors customer) lines ≡ true

collect-IsAdded :
    (get_cif : Text → Result Members) (debtors : Text → Result Text) (asked lines : List Text)
    (cif : Text)
    → collect get_cif debtors asked ≡ ok lines
    → contains cif asked ≡ true
    → IsAdded get_cif debtors lines cif
unfolding collect contains
collect-IsAdded get_cif debtors [] lines cif h there = cc
collect-IsAdded get_cif debtors (c ∷ rest) lines cif h there =
    let (m, known, h₁) = >>=-eq-ok (get_cif c) _ h in
    let (more, collected, h₂) = >>=-eq-ok (collect get_cif debtors rest) _ h₁ in
    elim (Bool-cases (eq_text c cif)) [
      | inl e ↦
          subst (λ x. IsAdded get_cif debtors lines x) (eq_text-eq c cif e)
            (record {
              customer = m;
              known = known;
              printed =
                  subst (λ ls. contains (build_live_dn debtors m) ls ≡ true)
                    (ok-injective _ lines h₂) (contains_first _ more);
            })
      | inr e ↦
          let later = collect-IsAdded get_cif debtors rest more cif collected (rw e at there) in
          record {
            customer = later.customer;
            known = later.known;
            printed =
                subst (λ ls. contains (build_live_dn debtors later.customer) ls ≡ true)
                  (ok-injective _ lines h₂)
                  (contains-cons _ (build_live_dn debtors m) more later.printed);
          }
    ]

missing_cifs-contains :
    (seen needed : List Text) (cif : Text)
    → contains cif needed ≡ true
    → (contains cif seen ≡ true) ⊎ (contains cif (missing_cifs seen needed) ≡ true)
unfolding missing_cifs contains
missing_cifs-contains seen [] cif there = cc
missing_cifs-contains seen (c ∷ rest) cif there = elim (Bool-cases (eq_text c cif)) [
  | inl e ↦ elim (Bool-cases (contains c seen)) [
    | inl s ↦ inl (subst (λ x. contains x seen ≡ true) (eq_text-eq c cif e) s)
    | inr s ↦ inr (rw (s, contains, e) refl)
  ]
  | inr e ↦ elim (Bool-cases (contains c seen)) [
    | inl s ↦ rw s (missing_cifs-contains seen rest cif (rw e at there))
    | inr s ↦ elim (missing_cifs-contains (c ∷ seen) rest cif (rw e at there)) [
      | inl k ↦ inl (rw e at k)
      | inr k ↦ inr (rw (s, contains, e) k)
    ]
  ]
]

-- Where the results arrive in any order but each of them arrives, a needed CIF that was not seen has
-- its line.
pub complete_missing_dn-IsAdded :
    (get_cif : Text → Result Members) (debtors : Text → Result Text)
    (arrival : List Text → List Text) (seen needed lines : List Text) (cif : Text)
    → ((asked : List Text) (t : Text) → contains t asked ≡ true → contains t (arrival asked) ≡ true)
    → complete_missing_dn get_cif debtors arrival seen needed ≡ ok lines
    → contains cif needed ≡ true
    → (contains cif seen ≡ true) ⊎ IsAdded get_cif debtors lines cif
unfolding complete_missing_dn
complete_missing_dn-IsAdded get_cif debtors arrival seen needed lines cif arrives h there =
    elim (missing_cifs-contains seen needed cif there) [
      | inl s ↦ inl s
      | inr m ↦ inr (
          collect-IsAdded get_cif debtors (arrival (missing_cifs seen needed)) lines cif h
            (arrives _ cif m))
    ]
