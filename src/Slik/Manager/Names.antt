-- ===== src/Slik/Manager/Names.antt =====
-- Safe names, and failures that do not depend on the order of joined errors.
use new_trs.Common.{
  ℕ, ◌≡◌, sym, ◌∙◌, true, not, ◌&&◌, ◌||◌, leb, ◌==◌, ==_iff, [], ◌∷◌, ◌++◌, map, length, All, ok,
  Error, joined, foreign, refuse-eq-ok, ok-injective, arith,
}
use new_trs.Common.Text.{to_lower, Text, eq_text, eq_text-eq}
use new_trs.Common.Errors.{is_error}
use new_trs.Slik.Manager.{is_hex, all_hex, valid_job_id, safe_path, safe_failure}

-- A digit or a letter from a to f.
pub IsLowerHex : ℕ → Type 0
IsLowerHex c = ((leb 48 c && leb c 57) || (leb 97 c && leb c 102)) ≡ true

all_hex-IsLowerHex :
    (id : Text) → eq_text (map to_lower id) id ≡ true → all_hex id ≡ true → All IsLowerHex id
unfolding eq_text all_hex is_hex to_lower IsLowerHex
all_hex-IsLowerHex [] h k = tt
all_hex-IsLowerHex (c ∷ rest) h k =
    (ground arith, all_hex-IsLowerHex rest (ground arith) (ground arith))

-- A name that safePath accepts is the suffix after a job id of 32 bytes, each a digit or a letter
-- from a to f.
pub safe_path-eq-ok :
    (base : Text → Text) (name id suffix path : Text)
    → safe_path base name id suffix ≡ ok path
    → (path ≡ id ++ suffix) × (length id ≡ 32) × All IsLowerHex id
unfolding safe_path valid_job_id
safe_path-eq-ok base name id suffix path h =
    let (checks, h₁) =
      refuse-eq-ok
        (not (valid_job_id id)
          || not (eq_text name (id ++ suffix))
          || not (eq_text (base name) name))
        foreign (ok name) h in
    let same : eq_text name (id ++ suffix) ≡ true = ground arith in
    let size : (length id == 32) ≡ true = ground arith in
    let low : eq_text (map to_lower id) id ≡ true = ground arith in
    let hex : all_hex id ≡ true = ground arith in
    (
      sym (ok-injective name path h₁) ∙ eq_text-eq name (id ++ suffix) same,
      (==_iff (length id) 32).0 size,
      all_hex-IsLowerHex id low hex,
    )

is_error-joined_comm : (a b : Error) (n : ℕ) → is_error (joined a b) n ≡ is_error (joined b a) n
unfolding is_error
is_error-joined_comm a b n = ground arith

-- The text of a failure does not depend on the order in which two errors were joined.
pub safe_failure-joined_comm : (a b : Error) → safe_failure (joined a b) ≡ safe_failure (joined b a)
unfolding safe_failure
safe_failure-joined_comm a b = simp (is_error-joined_comm a b)
