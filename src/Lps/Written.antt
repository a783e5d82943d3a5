-- ===== src/Lps/Written.antt =====
-- What the report writes, the reader of the tables reads back.
use mathlib.Core.List.{reverse_aux, reverse-reverse}
use new_trs.Common.{
  and-right, and-true, ℕ, ◌≡◌, refl, sym, ap, ◌∙◌, subst, Bool, true, false, not, ◌==◌, List, [],
  ◌∷◌, ◌++◌, map, All, arith,
}
use new_trs.Common.Text.{all_of-append, Text}
use new_trs.Lps.Csv.{fresh, run, finish_in, unix_lines, read_all}
use new_trs.Lps.Fields.{join, pipe, line_end, all_of}
use new_trs.Lps.Lines.{is_plain, IsPlain, is_row, run-line, regroup}
use new_trs.Lps.Generator.{rows_body}

pub rows_body-cons :
    (line : Text) (rest : List Text) → rows_body (line ∷ rest) ≡ line ++ (10 ∷ rows_body rest)
unfolding rows_body join
rows_body-cons line [] = refl
rows_body-cons line (m ∷ rest) = regroup line (join line_end (m ∷ rest)) line_end 10

abbrev IsRow : List Text → Type 0
IsRow r = (is_row r ≡ true) × All IsPlain r

run-rows :
    (table rows : List (List Text))
    → All IsRow table
    → run (rows_body (map (join pipe) table)) (fresh rows) ≡ fresh (reverse_aux table rows)
unfolding run rows_body
run-rows [] rows h = refl
run-rows (r ∷ rest) rows h =
    ap (λ x. run x (fresh rows)) (rows_body-cons (join pipe r) (map (join pipe) rest))
    ∙ run-line r (rows_body (map (join pipe) rest)) rows h.0.0 h.0.1
    ∙ run-rows rest (r ∷ rows) h.1

not_return : ℕ → Bool
not_return c = not (c == 13)

unix_lines-id : (s : Text) → all_of not_return s ≡ true → unix_lines s ≡ s
unfolding unix_lines all_of not_return
unix_lines-id [] h = refl
unix_lines-id (c ∷ []) h = let other : (c == 13) ≡ false = ground (arith, h) in simp other
unix_lines-id (c ∷ d ∷ s) h =
    let other : (c == 13) ≡ false = ground (arith, h) in
    simp (other, unix_lines-id (d ∷ s) (and-right (not (c == 13)) _ h))

plain-not_return : (s : Text) → all_of is_plain s ≡ true → all_of not_return s ≡ true
unfolding all_of is_plain not_return
plain-not_return [] h = refl
plain-not_return (c ∷ s) h =
    and-true _ _ (ground (arith, h)) (plain-not_return s (and-right (is_plain c) _ h))

join-not_return : (r : List Text) → All IsPlain r → all_of not_return (join pipe r) ≡ true
unfolding join all_of not_return
join-not_return [] h = refl
join-not_return (t ∷ []) h = plain-not_return t h.0.0
join-not_return (t ∷ u ∷ rest) h =
    all_of-append not_return (t ++ pipe) _
      (all_of-append not_return t pipe (plain-not_return t h.0.0) refl)
      (join-not_return (u ∷ rest) h.1)

rows_body-not_return :
    (table : List (List Text))
    → All IsRow table
    → all_of not_return (rows_body (map (join pipe) table)) ≡ true
unfolding all_of not_return rows_body
rows_body-not_return [] h = refl
rows_body-not_return (r ∷ rest) h =
    subst (λ x. all_of not_return x ≡ true)
      (sym (rows_body-cons (join pipe r) (map (join pipe) rest)))
      (all_of-append not_return (join pipe r) _ (join-not_return r h.0.1)
        (rows_body-not_return rest h.1))

-- Rows are read back as they were written, where each row has a line that is not empty, and no field
-- has a separator or the end of a line or starts with a blank or a quote.
pub read_all-rows_body :
    (table : List (List Text))
    → All (λ r. (is_row r ≡ true) × All IsPlain r) table
    → read_all (rows_body (map (join pipe) table)) ≡ table
unfolding read_all finish_in
read_all-rows_body table h =
    ap (λ s. finish_in (run s (fresh [])).mode (run s (fresh [])))
      (unix_lines-id _ (rows_body-not_return table h))
    ∙ ap (λ r. finish_in r.mode r) (run-rows table [] h)
    ∙ reverse-reverse table
