-- ===== src/Lps/Lines.antt =====
-- How the reader of the tables reads a line of plain fields.
use mathlib.Core.List.{reverse_aux, append_assoc, reverse-reverse}
use new_trs.Common.{
  and-left, and-right, ℕ, ◌≡◌, refl, ap, ◌∙◌, Bool, true, false, not, ◌&&◌, ◌==◌, List, [], ◌∷◌,
  ◌++◌, reverse, All, arith,
}
use new_trs.Common.Text.{Text, is_space}
use new_trs.Lps.Csv.{Reader, before_field, plain, fresh, open_field, step_in, step, run}
use new_trs.Lps.Fields.{join, pipe, all_of}

-- A byte that stands for itself within a field.
unfoldable pub is_plain : ℕ → Bool
is_plain c = not (c == 10) && not (c == 124) && not (c == 13)

unfoldable pub starts_plain : Text → Bool
starts_plain [] = true
starts_plain (c ∷ s) = not (is_space c) && not (c == 34)

abbrev pub IsPlain : Text → Type 0
IsPlain t = (all_of is_plain t ≡ true) × (starts_plain t ≡ true)

-- A row whose line is not empty.
unfoldable pub is_row : List Text → Bool
is_row [] = false
is_row ([] ∷ []) = false
is_row ((c ∷ s) ∷ rest) = true
is_row ([] ∷ u ∷ rest) = true

abbrev at : List Text → List (List Text) → Reader
at row rows = record { mode = before_field; field = []; row = row; rows = rows }

abbrev within : Text → List Text → List (List Text) → Reader
within field row rows = record { mode = plain; field = field; row = row; rows = rows }

step-within :
    (c : ℕ) (field : Text) (row : List Text) (rows : List (List Text))
    → is_plain c ≡ true
    → step c (within field row rows) ≡ within (c ∷ field) row rows
unfolding step step_in is_plain
step-within c field row rows p =
    let no_end : (c == 10) ≡ false = ground (arith, p) in
    let no_comma : (c == 124) ≡ false = ground (arith, p) in simp (no_end, no_comma)

run-within :
    (s rest field : Text) (row : List Text) (rows : List (List Text))
    → all_of is_plain s ≡ true
    → run (s ++ rest) (within field row rows) ≡ run rest (within (reverse_aux s field) row rows)
unfolding run all_of
run-within [] rest field row rows h = refl
run-within (c ∷ s) rest field row rows h =
    ap (run (s ++ rest)) (step-within c field row rows (and-left _ _ h))
    ∙ run-within s rest (c ∷ field) row rows (and-right (is_plain c) _ h)

open_field-plain :
    (c : ℕ) (row : List Text) (rows : List (List Text))
    → is_plain c ≡ true
    → (not (is_space c) && not (c == 34)) ≡ true
    → open_field c (at row rows) ≡ within (c ∷ []) row rows
unfolding open_field is_plain
open_field-plain c row rows p h =
    let no_end : (c == 10) ≡ false = ground (arith, p) in
    let no_comma : (c == 124) ≡ false = ground (arith, p) in
    let no_space : is_space c ≡ false = ground (arith, h) in
    let no_quote : (c == 34) ≡ false = ground (arith, h) in
    simp (no_end, no_space, no_comma, no_quote)

-- A field before a separator, and a field before the end of its line.
run-comma :
    (t rest : Text) (row : List Text) (rows : List (List Text))
    → IsPlain t
    → run (t ++ (124 ∷ rest)) (at row rows) ≡ run rest (at (t ∷ row) rows)
unfolding run step step_in open_field all_of starts_plain
run-comma [] rest row rows p = refl
run-comma (c ∷ s) rest row rows p =
    ap (run (s ++ (124 ∷ rest))) (open_field-plain c row rows (and-left _ _ p.0) p.1)
    ∙ run-within s (124 ∷ rest) (c ∷ []) row rows (and-right (is_plain c) _ p.0)
    ∙ ap (λ f. run rest (at (f ∷ row) rows)) (reverse-reverse (c ∷ s))

run-newline :
    (t rest : Text) (row : List Text) (rows : List (List Text))
    → IsPlain t
    → run (t ++ (10 ∷ rest)) (at row rows) ≡ run rest (fresh (reverse (t ∷ row) ∷ rows))
unfolding run step step_in open_field all_of starts_plain
run-newline [] rest row rows p = refl
run-newline (c ∷ s) rest row rows p =
    ap (run (s ++ (10 ∷ rest))) (open_field-plain c row rows (and-left _ _ p.0) p.1)
    ∙ run-within s (10 ∷ rest) (c ∷ []) row rows (and-right (is_plain c) _ p.0)
    ∙ ap (λ f. run rest (fresh (reverse (f ∷ row) ∷ rows))) (reverse-reverse (c ∷ s))

pub regroup : (t u v : Text) (c : ℕ) → t ++ (c ∷ []) ++ u ++ v ≡ t ++ (c ∷ (u ++ v))
regroup t u v c = append_assoc (t ++ (c ∷ [])) u v ∙ append_assoc t (c ∷ []) (u ++ v)

run-row :
    (t : Text) (more : List Text) (rest : Text) (row : List Text) (rows : List (List Text))
    → All IsPlain (t ∷ more)
    → run (join pipe (t ∷ more) ++ (10 ∷ rest)) (at row rows)
      ≡ run rest (fresh (reverse (reverse_aux (t ∷ more) row) ∷ rows))
unfolding join
run-row t [] rest row rows p = run-newline t rest row rows p.0
run-row t (u ∷ more) rest row rows p =
    ap (λ x. run x (at row rows)) (regroup t (join pipe (u ∷ more)) (10 ∷ rest) 124)
    ∙ run-comma t (join pipe (u ∷ more) ++ (10 ∷ rest)) row rows p.0
    ∙ run-row u more rest (t ∷ row) rows p.1

-- The first byte of a line that is not empty is like that of a field.
run-fresh :
    (c : ℕ) (s : Text) (rows : List (List Text))
    → (c == 10) ≡ false
    → run (c ∷ s) (fresh rows) ≡ run (c ∷ s) (at [] rows)
unfolding run step step_in open_field
run-fresh c s rows h = rw h refl

pub run-line :
    (r : List Text) (rest : Text) (rows : List (List Text))
    → is_row r ≡ true
    → All IsPlain r
    → run (join pipe r ++ (10 ∷ rest)) (fresh rows) ≡ run rest (fresh (r ∷ rows))
unfolding is_row join all_of is_plain
run-line [] rest rows e p = cc
run-line ([] ∷ []) rest rows e p = cc
run-line ((c ∷ s) ∷ []) rest rows e p =
    run-fresh c (s ++ (10 ∷ rest)) rows (ground (arith, p.0.0)) ∙ run-row (c ∷ s) [] rest [] rows p
run-line ((c ∷ s) ∷ u ∷ more) rest rows e p =
    run-fresh c _ rows (ground (arith, p.0.0))
    ∙ run-row (c ∷ s) (u ∷ more) rest [] rows p
    ∙ ap (λ x. run rest (fresh (x ∷ rows))) (reverse-reverse ((c ∷ s) ∷ u ∷ more))
run-line ([] ∷ u ∷ more) rest rows e p =
    run-fresh 124 _ rows refl
    ∙ run-row [] (u ∷ more) rest [] rows p
    ∙ ap (λ x. run rest (fresh (x ∷ rows))) (reverse-reverse ([] ∷ u ∷ more))
