-- ===== src/Contractual/Schedule/Exact.antt =====
-- internal/contractual/calculator.go: with no rounding policy, BuildSchedule refuses its input only for
-- the parameters or the numbering; the row loop cannot exhaust the principal early.
use new_trs.Common.{
  ℕ, suc, ◌+◌, ◌*◌, ◌≤◌, ◌<◌, ◌≡◌, true, false, ◌==◌, List, [], ◌∷◌, none, ok, is_ok, is_ok->>=,
  length, arith, ap, refl, ◌∙◌, sym, subst, ◌-◌,
}
use new_trs.Common.Int.{ℤ, pos, negsuc, eq_ℤ, eq_ℤ_refl, ltb_ℤ, ◌-ℤ◌, int_laws}
use new_trs.Common.Sort.{sort, length-sort}
use new_trs.Loan.Money.{Money, sub, mul, is_negative, div_int, exceeds}
use new_trs.Loan.Money.Units.{At, common, is_negative-At, sub-At, exceeds-At}
use new_trs.Loan.Money.Order.{mul_nonneg, div_int_nonneg}
use new_trs.Loan.Model.{ContractualInstallment}
use new_trs.Contractual.Schedule.{
  round, build_schedule, bad_parameters, smaller_number, check_numbering, period_principal,
  period_interest, fill_rows,
}

-- Enough is left for the rows to come.
fill_rows-is_ok :
    (tenor : ℕ) (per_period interest : Money) (d : ℕ)
    → 0 < d
    → (k : ℕ) → At d per_period (pos k)
    → (index : ℕ) (balance : Money) (is : List ContractualInstallment) → index + length is ≡ tenor
    → At d balance (pos (length is * k))
    → is_ok (fill_rows tenor per_period interest index balance is) ≡ true
unfolding fill_rows
fill_rows-is_ok tenor per_period interest d hd k hp index balance [] n hb = refl
fill_rows-is_ok tenor per_period interest d hd k hp index balance (i ∷ []) n hb =
    let last : (suc index == tenor) ≡ true = ground arith in rw (last, fill_rows)
fill_rows-is_ok tenor per_period interest d hd k hp index balance (i ∷ j ∷ is) n hb =
    let later : (suc index == tenor) ≡ false = ground arith in
    let enough = exceeds-At d hd per_period (pos k) hp balance (pos (length (i ∷ j ∷ is) * k)) hb in
    let fits : exceeds per_period balance ≡ false = enough ∙ small k (length is) in
    let left = sub-At d balance per_period (pos (length (i ∷ j ∷ is) * k)) (pos k) hb hp in
    let next =
      fill_rows-is_ok tenor per_period interest d hd k hp (suc index) (sub balance per_period)
        (j ∷ is) (omega arith)
        (subst (At d (sub balance per_period)) (one_less k (length is)) left) in
    rw (later, fits, fill_rows) (is_ok->>= _ _ next)
  where
    small : (k n : ℕ) → ltb_ℤ (pos (suc (suc n) * k)) (pos k) ≡ false
    small k n = ground (arith, grow)
      where
        grow : k ≤ suc (suc n) * k
        grow = grind arith

    one_less : (k n : ℕ) → pos (suc (suc n) * k) -ℤ pos k ≡ pos (suc n * k)
    one_less k n = omega int_laws

div_int-At :
    (d : ℕ) (x : Money) (k t : ℕ)
    → At d x (pos k)
    → (y : Money) × (div_int x (pos (suc t)) ≡ ok y) × At (d * suc t) y (pos k)
unfolding div_int
div_int-At d x k t h = (_, refl, omega (arith, ap (λ (n : ℕ). n * suc t) h))

natural : (z : ℤ) → ltb_ℤ z (pos 0) ≡ false → (k : ℕ) × (z ≡ pos k)
natural (pos k) h = (k, refl)
natural (negsuc k) h = absurd (ground arith)

-- The principal of one of `suc n` periods, in units of which the principal has `suc n` times as many.
period_units :
    (principal : Money) (n : ℕ)
    → is_negative principal ≡ false
    → (y : Money) × (period_principal principal (pos (suc n)) ≡ ok y)
      × (d : ℕ) × (0 < d)
      × (k : ℕ) × At d y (pos k)
      × At d principal (pos (suc n * k))
unfolding period_principal
period_units principal n h =
    let (d, hd, us) = common (principal ∷ []) in
    let ((z, hz), _) = us in
    let (k, e) = natural z (sym (is_negative-At d hd principal z hz) ∙ h) in
    let at = subst (At d principal) e hz in
    let (y, q, hy) = div_int-At d principal k n at in
    (y, rw q, d * suc n, omega arith, k, hy, omega (arith, ap (λ (t : ℕ). t * suc n) at))

period_interest_nonneg :
    (principal flat_rate : Money)
    → is_negative principal ≡ false
    → is_negative flat_rate ≡ false
    → (y : Money) × (period_interest principal flat_rate ≡ ok y) × (is_negative y ≡ false)
unfolding period_interest
period_interest_nonneg principal flat_rate h k =
    let (y, q, s) =
      div_int_nonneg (mul principal flat_rate) 1199 (mul_nonneg principal flat_rate h k) in
    (y, rw q, s)

module _ (principal : Money) (tenor : ℤ) (flat_rate : Money) (source : List ContractualInstallment)
    (good : bad_parameters principal tenor flat_rate ≡ false) (full : pos (length source) ≡ tenor)
    (numbered : check_numbering 0 none (sort smaller_number source) ≡ ok tt) where
  built_exactly :
      (n : ℕ)
      → length source ≡ suc n
      → is_ok (build_schedule none principal tenor flat_rate source) ≡ true
  unfolding build_schedule round
  built_exactly n e =
      let nonneg : is_negative principal ≡ false = unfold bad_parameters in ground (arith, good) in
      let rate_nonneg : is_negative flat_rate ≡ false =
        unfold bad_parameters in ground (arith, good) in
      let (y, q, d, hd, k, hy, hz) = period_units principal n nonneg in
      let (i, r, hi) = period_interest_nonneg principal flat_rate nonneg rate_nonneg in
      let size : length (sort smaller_number source) ≡ suc n =
        length-sort smaller_number source ∙ e in
      let period : period_principal principal tenor ≡ ok y = rw (← full, e) q in
      let matches : eq_ℤ (pos (length (sort smaller_number source))) tenor ≡ true =
        rw (size, ← full, e) (eq_ℤ_refl (pos (suc n))) in
      let hp : is_negative y ≡ false = is_negative-At d hd y (pos k) hy ∙ natural_test k in
      rw (good, matches, numbered, period, r, hp, hi, build_schedule)
        (fill_rows-is_ok (length (sort smaller_number source)) y i d hd k hy 0 principal
          (sort smaller_number source) (omega arith) (rw size hz))
    where
      natural_test : (k : ℕ) → ltb_ℤ (pos k) (pos 0) ≡ false
      natural_test k = ground arith

  -- Without a rounding policy, BuildSchedule succeeds for valid parameters and as many
  -- installments as months, correctly numbered: the row loop cannot exhaust the principal
  -- early.
  pub build_schedule_exact-is_ok :
      is_ok (build_schedule none principal tenor flat_rate source) ≡ true
  build_schedule_exact-is_ok =
      built_exactly (length source - 1) (unfold bad_parameters in ground (arith, good))
