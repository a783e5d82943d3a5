-- ===== src/Loan/Money/Units.antt =====
-- internal/loan/money.go: amounts measured in units of 1/D. Over a common denominator D the exact
-- operations are those of the integers, which is how the laws of amounts are proved.
use Prim.Native.Nat.{compare}
use native.Mathlib.Nat.{mul_comm}
use new_trs.Common.{ℕ, ◌+◌, ◌*◌, ◌<◌, ◌≡◌, subst, ap, arith, List, [], ◌∷◌, All, All-imp}
use new_trs.Common.Int.{
  ℤ, pos, pos_part, neg_part, ◌+ℤ◌, ◌-ℤ◌, ◌*ℤ◌, compare_ℤ, +ℤ_parts, -ℤ_parts, *ℤ_parts, min_ℤ,
  ltb_ℤ, eq_ℤ,
}
use new_trs.Loan.Money.{
  Money, den, zero_money, add, sub, cmp, min_money, is_negative, is_zero, is_positive, exceeds,
  equal,
}

-- x is z units of 1/D.
abbrev pub At : ℕ → Money → ℤ → Type 0
At d x z = pos_part x.num * d + neg_part z * den x ≡ pos_part z * den x + neg_part x.num * d

module _ (d : ℕ) (x y : Money) (a b : ℤ) (ax : At d x a) (by : At d y b) where
  pub add-At : At d (add x y) (a +ℤ b)
  unfolding add
  add-At = omega (
    arith,
    ap (λ (t : ℕ). t * den y) ax,
    ap (λ (t : ℕ). t * den x) by,
    ap (λ (t : ℕ). t * d) (+ℤ_parts (x.num *ℤ pos (den y)) (y.num *ℤ pos (den x))),
    ap (λ (t : ℕ). t * d) (*ℤ_parts x.num (pos (den y))),
    ap (λ (t : ℕ). t * d) (*ℤ_parts y.num (pos (den x))),
    ap (λ (t : ℕ). t * den x * den y) (+ℤ_parts a b),
  )

  pub sub-At : At d (sub x y) (a -ℤ b)
  unfolding sub
  sub-At = omega (
    arith,
    ap (λ (t : ℕ). t * den y) ax,
    ap (λ (t : ℕ). t * den x) by,
    ap (λ (t : ℕ). t * d) (-ℤ_parts (x.num *ℤ pos (den y)) (y.num *ℤ pos (den x))),
    ap (λ (t : ℕ). t * d) (*ℤ_parts x.num (pos (den y))),
    ap (λ (t : ℕ). t * d) (*ℤ_parts y.num (pos (den x))),
    ap (λ (t : ℕ). t * den x * den y) (-ℤ_parts a b),
  )

-- A comparison of fractions is one of their numerators over a common denominator.
cross_compare :
    (p q p' q' d m : ℕ)
    → 0 < d
    → 0 < m
    → p * d + q' * m ≡ p' * m + q * d
    → compare p q ≡ compare p' q'
cross_compare p q p' q' d m hd hm e =
    grind (arith, scale-lt p q d, scale-lt p' q' m, scale-lt q p d, scale-lt q' p' m)
  where
    scale-lt : (a b k : ℕ) → a < b → 0 < k → a * k < b * k
    scale-lt a b k h hk = grind arith

module _ (d : ℕ) (x y : Money) (a b : ℤ) (hd : 0 < d) (ax : At d x a) (by : At d y b) where
  pub cmp-At : cmp x y ≡ compare_ℤ a b
  unfolding cmp
  cmp-At = cross_compare _ _ _ _ d (den x * den y) hd (omega arith) (
      omega (
        arith,
        ap (λ (t : ℕ). t * den y) ax,
        ap (λ (t : ℕ). t * den x) by,
        ap (λ (t : ℕ). t * d) (*ℤ_parts x.num (pos (den y))),
        ap (λ (t : ℕ). t * d) (*ℤ_parts y.num (pos (den x))),
      ))

  pub min-At : At d (min_money x y) (min_ℤ a b)
  unfolding min_money
  min-At = rw (cmp-At, min_money) (ground arith)

pub zero-At : (d : ℕ) → At d zero_money (pos 0)
zero-At d = omega arith

-- Any amounts have a common denominator.
abbrev pub Units : ℕ → List Money → Type 0
Units d xs = All (λ x. (z : ℤ) × At d x z) xs

widen-At : (d k : ℕ) (x : Money) (z : ℤ) → At d x z → At (k * d) x (pos k *ℤ z)
widen-At d k x z h =
    omega (arith, ap (λ (t : ℕ). t * den x) (*ℤ_parts (pos k) z), ap (λ (t : ℕ). t * k) h)

own-At : (k : ℕ) (x : Money) → At (k * den x) x (pos k *ℤ x.num)
own-At k x = omega (arith, ap (λ (t : ℕ). t * den x) (*ℤ_parts (pos k) x.num))

pub common : (xs : List Money) → (d : ℕ) × (0 < d) × Units d xs
common [] = (1, omega arith, tt)
common (x ∷ xs) =
    let (d, h, us) = common xs in
    (
      den x * d,
      omega arith,
      (
        (pos d *ℤ x.num, subst (λ k. At k x (pos d *ℤ x.num)) (mul_comm d (den x)) (own-At d x)),
        All-imp (λ y. (z : ℤ) × At d y z) (λ y. (z : ℤ) × At (den x * d) y z)
            (λ y u. (pos (den x) *ℤ u.0, widen-At d (den x) y u.0 u.1)) xs us,
      ),
    )

-- The tests of an amount, on its units.
module _ (d : ℕ) (hd : 0 < d) (x : Money) (a : ℤ) (ax : At d x a) where
  pub is_negative-At : is_negative x ≡ ltb_ℤ a (pos 0)
  unfolding is_negative
  is_negative-At = rw (cmp-At d x zero_money a (pos 0) hd ax (zero-At d)) (ground arith)

  pub is_zero-At : is_zero x ≡ eq_ℤ a (pos 0)
  unfolding is_zero
  is_zero-At = rw (cmp-At d x zero_money a (pos 0) hd ax (zero-At d)) (ground arith)

  pub is_positive-At : is_positive x ≡ ltb_ℤ (pos 0) a
  unfolding is_positive
  is_positive-At = rw (cmp-At d x zero_money a (pos 0) hd ax (zero-At d)) (ground arith)

  module _ (y : Money) (b : ℤ) (by : At d y b) where
    pub exceeds-At : exceeds x y ≡ ltb_ℤ b a
    unfolding exceeds
    exceeds-At = rw (cmp-At d x y a b hd ax by) (ground arith)

    pub equal-At : equal x y ≡ eq_ℤ a b
    unfolding equal
    equal-At = rw (cmp-At d x y a b hd ax by) (ground arith)
