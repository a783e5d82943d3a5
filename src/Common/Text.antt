-- ===== src/Common/Text.antt =====
-- Texts as lists of bytes: the tests and the trimming that the packages of the program share. A
-- byte above 127 is a byte like any other, so the Unicode spaces of strings.TrimSpace beyond ASCII
-- are not treated.
use Prim.Native.Char.{code}
use Prim.Native.String.{String}
use mathlib.Core.List.{reverse_aux, reverse-reverse}
use new_trs.Common.{
  ℕ, ◌+◌, ◌++◌, Bool-cases, inl, inr, and-left, and-right, and-true, ap, ◌∙◌, keep, not, ◌≡◌, refl,
  Bool, true, false, List, [], ◌∷◌, ◌&&◌, ◌||◌, leb, ltb, ◌==◌, if◌then◌else◌, reverse, arith,
}

abbrev pub Text : Type 0
Text = List ℕ

-- The bytes of an ASCII literal.
abbrev pub codes : String → Text
codes String.[] = []
codes (String.◌∷◌ c s) = code c ∷ codes s

unfoldable pub is_digit : ℕ → Bool
is_digit c = leb b'0' c && leb c b'9'

-- Blank, tab, line feed, vertical tab, form feed and carriage return.
abbrev pub is_space : ℕ → Bool
is_space c = (c == 32) || (leb 9 c && leb c 13)

pub trim_left : Text → Text
trim_left [] = []
trim_left (c ∷ s) = if is_space c then trim_left s else c ∷ s

-- strings.TrimSpace.
unfoldable pub trim_space : Text → Text
unfolding trim_left
trim_space s = reverse (trim_left (reverse (trim_left s)))

-- `a == b` on strings.
unfoldable pub eq_text : Text → Text → Bool
eq_text [] [] = true
eq_text [] (d ∷ t) = false
eq_text (c ∷ s) [] = false
eq_text (c ∷ s) (d ∷ t) = (c == d) && eq_text s t

-- `a < b` on strings: by bytes.
unfoldable pub text_before : Text → Text → Bool
text_before s [] = false
text_before [] (d ∷ t) = true
text_before (c ∷ s) (d ∷ t) = ltb c d || ((c == d) && text_before s t)

-- strings.Split at one byte: always one part more than there are bytes to split at.
unfoldable pub split : ℕ → Text → List Text
split at [] = [] ∷ []
split at (c ∷ s) =
    if c == at
    then [] ∷ split at s
    else (elim (split at s) [ [] ↦ (c ∷ []) ∷ [] | part ∷ rest ↦ (c ∷ part) ∷ rest ])

-- strings.ToLower on ASCII bytes.
unfoldable pub to_lower : ℕ → ℕ
to_lower c = if leb 65 c && leb c 90 then c + 32 else c

-- strings.HasPrefix, with the prefix first.
unfoldable pub has_prefix : Text → Text → Bool
has_prefix [] s = true
has_prefix (c ∷ p) [] = false
has_prefix (c ∷ p) (d ∷ s) = (c == d) && has_prefix p s

unfoldable pub contains : Text → List Text → Bool
contains text [] = false
contains text (t ∷ rest) = eq_text t text || contains text rest

unfoldable pub is_empty : Text → Bool
is_empty [] = true
is_empty (c ∷ s) = false

-- strings.Join.
unfoldable pub join : Text → List Text → Text
join between [] = []
join between (t ∷ []) = t
join between (t ∷ u ∷ rest) = t ++ between ++ join between (u ∷ rest)

-- strings.ReplaceAll of a byte by nothing.
unfoldable pub without : ℕ → Text → Text
without c s = keep (λ d. not (d == c)) s

unfoldable pub all_of : (ℕ → Bool) → Text → Bool
all_of test [] = true
all_of test (c ∷ s) = test c && all_of test s

pub eq_text-eq : (s t : Text) → eq_text s t ≡ true → s ≡ t
unfolding eq_text
eq_text-eq [] [] h = refl
eq_text-eq [] (d ∷ t) h = cc
eq_text-eq (c ∷ s) [] h = cc
eq_text-eq (c ∷ s) (d ∷ t) h = ground (arith, eq_text-eq s t)

pub eq_text_refl : (s : Text) → eq_text s s ≡ true
unfolding eq_text
eq_text_refl [] = refl
eq_text_refl (c ∷ s) = ground (arith, eq_text_refl s)

pub contains-cons :
    (t u : Text) (rest : List Text) → contains t rest ≡ true → contains t (u ∷ rest) ≡ true
unfolding contains
contains-cons t u rest h = elim (Bool-cases (eq_text u t)) [ inl e ↦ rw e refl | inr e ↦ rw e h ]

pub contains_first : (t : Text) (rest : List Text) → contains t (t ∷ rest) ≡ true
unfolding contains
contains_first t rest = rw (eq_text_refl t) refl

pub all_of-append :
    (p : ℕ → Bool) (s t : Text) → all_of p s ≡ true → all_of p t ≡ true → all_of p (s ++ t) ≡ true
unfolding all_of
all_of-append p [] t a b = b
all_of-append p (c ∷ s) t a b =
    and-true _ _ (and-left _ _ a) (all_of-append p s t (and-right (p c) _ a) b)

all_of-reverse_aux :
    (p : ℕ → Bool) (s r : Text)
    → all_of p s ≡ true
    → all_of p r ≡ true
    → all_of p (reverse_aux s r) ≡ true
unfolding all_of
all_of-reverse_aux p [] r a b = b
all_of-reverse_aux p (c ∷ s) r a b =
    all_of-reverse_aux p s (c ∷ r) (and-right (p c) _ a) (and-true _ _ (and-left _ _ a) b)

pub all_of_weaken :
    (p q : ℕ → Bool) (s : Text)
    → ((c : ℕ) → p c ≡ true → q c ≡ true)
    → all_of p s ≡ true
    → all_of q s ≡ true
unfolding all_of
all_of_weaken p q [] f h = refl
all_of_weaken p q (c ∷ s) f h =
    and-true _ _ (f c (and-left _ _ h)) (all_of_weaken p q s f (and-right (p c) _ h))

abbrev is_black : ℕ → Bool
is_black c = not (is_space c)

trim_left-id : (s : Text) → all_of is_black s ≡ true → trim_left s ≡ s
unfolding trim_left all_of
trim_left-id [] h = refl
trim_left-id (c ∷ s) h = let black : is_space c ≡ false = ground (arith, h) in rw black refl

-- A text without blanks stays as it is.
pub trim_space-id : (s : Text) → all_of (λ c. not (is_space c)) s ≡ true → trim_space s ≡ s
unfolding trim_space all_of
trim_space-id s h =
    ap (λ t. reverse (trim_left (reverse t))) (trim_left-id s h)
    ∙ ap reverse (trim_left-id (reverse s) (all_of-reverse_aux is_black s [] h refl))
    ∙ reverse-reverse s

pub without-id : (x : ℕ) (s : Text) → all_of (λ c. not (c == x)) s ≡ true → without x s ≡ s
unfolding without all_of
without-id x [] h = refl
without-id x (c ∷ s) h =
    let kept : not (c == x) ≡ true = and-left _ _ h in
    rw kept (ap (λ t. c ∷ t) (without-id x s (and-right _ _ h)))

pub trim_space-codes : trim_space (codes "  1001 ") ≡ codes "1001"
unfolding trim_space
trim_space-codes = refl
