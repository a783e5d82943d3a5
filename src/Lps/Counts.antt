-- ===== src/Lps/Counts.antt =====
-- The counts of the customers' file.
use mathlib.Core.List.{append_assoc}
use new_trs.Common.{
  ℕ, suc, ◌+◌, ◌≡◌, refl, ap, ◌∙◌, ◌==◌, Bool-cases, inl, inr, List, [], ◌∷◌, ◌++◌, length, All,
  arith,
}
use new_trs.Common.Text.{Text}
use new_trs.Lps.Fields.{join, line_end}
use new_trs.Lps.Generator.{rows_body, count_byte, dn_content}
use new_trs.Lps.Written.{rows_body-cons}

count_byte-append : (c : ℕ) (s t : Text) → count_byte c (s ++ t) ≡ count_byte c s + count_byte c t
unfolding count_byte
count_byte-append c [] t = omega arith
count_byte-append c (d ∷ s) t =
    let later = count_byte-append c s t in
    elim (Bool-cases (d == c)) [ inl e ↦ rw e (omega (arith, later)) | inr e ↦ rw e later ]

-- A line that has no end within it.
abbrev pub IsLine : Text → Type 0
IsLine line = count_byte 10 line ≡ 0

count_byte-rows_body :
    (lines : List Text) → All IsLine lines → count_byte 10 (rows_body lines) ≡ length lines
unfolding count_byte rows_body
count_byte-rows_body [] h = refl
count_byte-rows_body (line ∷ rest) h =
    let later = count_byte-rows_body rest h.1 in
    let cut = count_byte-append 10 line (10 ∷ rows_body rest) in
    let same = ap (count_byte 10) (rows_body-cons line rest) in
    let one : count_byte 10 (10 ∷ rows_body rest) ≡ suc (count_byte 10 (rows_body rest)) = refl in
    let none_in = h.0 in omega (arith, later, cut, same, one, none_in)

-- The lines of a file that are ended, with the last one if something follows the last end.
abbrev pub line_count : List Text → Text → ℕ
line_count [] body = count_byte 10 body
line_count (a ∷ rest) body = count_byte 10 (body ++ line_end)

-- Where no line has an end within it, the count in the customers' file is the number of its lines: those
-- of the customers read and the added ones, the last of which has no end.
pub dn_content-line_count :
    (dn additional : List Text)
    → All IsLine dn
    → All IsLine additional
    → ((dn_content dn additional).0 ≡ length dn + length additional)
      × (line_count additional (dn_content dn additional).1 ≡ length dn + length additional)
unfolding dn_content join count_byte rows_body
dn_content-line_count dn [] h k =
    let first = count_byte-rows_body dn h in
    let cut = count_byte-append 10 (rows_body dn) [] in
    (omega (arith, first), omega (arith, first, cut))
dn_content-line_count dn (a ∷ rest) h k =
    let first = count_byte-rows_body dn h in
    let others = count_byte-rows_body (a ∷ rest) k in
    let joined =
      ap (count_byte 10) (append_assoc (rows_body dn) (join line_end (a ∷ rest)) line_end) in
    let cut = count_byte-append 10 (rows_body dn) (rows_body (a ∷ rest)) in
    (omega (arith, first), joined ∙ omega (arith, first, cut, others))
