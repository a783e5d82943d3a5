-- ===== src/Contractual/Schedule/Rows.antt =====
-- internal/contractual/calculator.go: the rows of a built schedule.
use new_trs.Common.{
  ℕ, suc, ◌+◌, ◌≡◌, Bool, true, false, not, ◌&&◌, ◌==◌, if◌then◌else◌, List, [], ◌∷◌, ok, invariant,
  All, length, arith, refuse-eq-ok, >>=-eq-ok, ok-injective, subst, sym, refl,
}
use new_trs.Common.Int.{ℤ, pos, ◌+ℤ◌, ◌-ℤ◌, int_laws}
use new_trs.Loan.Money.{Money, zero_money, add, sub, is_negative, exceeds}
use new_trs.Loan.Money.Units.{At, add-At, sub-At, zero-At}
use new_trs.Loan.Money.Order.{sub_nonneg, sub_nonneg_self}
use new_trs.Loan.Model.{ContractualInstallment, ContractualScheduleRow}
use new_trs.Contractual.Schedule.{fill_rows}

-- The row of an installment, from the principal that it takes of the balance.
abbrev row_of : ContractualInstallment → Money → Money → Money → ContractualScheduleRow
row_of i principal interest balance = record {
  number = i.number;
  due_date = i.due_date;
  principal = principal;
  interest = interest;
  installment = add principal interest;
  scheduled_balance = sub balance principal;
}

module _ (tenor : ℕ) (per_period interest : Money) where
  -- The principal that the row at `index` takes.
  abbrev taken : ℕ → Money → Money
  taken index balance = if suc index == tenor then balance else per_period

  pub fill_rows-cons :
      (index : ℕ) (balance : Money) (i : ContractualInstallment)
      (rest : List ContractualInstallment) (rows : List ContractualScheduleRow)
      → fill_rows tenor per_period interest index balance (i ∷ rest) ≡ ok rows
      → (not (suc index == tenor) && exceeds per_period balance ≡ false)
        × (more : List ContractualScheduleRow) × (fill_rows tenor per_period interest
              (suc index)
              (sub balance (taken index balance))
              rest
            ≡ ok more)
        × (rows ≡ row_of i (taken index balance) interest balance ∷ more)
  unfolding fill_rows
  fill_rows-cons index balance i rest rows h =
      let (a, k) =
        refuse-eq-ok (not (suc index == tenor) && exceeds per_period balance) invariant _ h in
      let (more, e, f) = >>=-eq-ok _ _ k in (a, more, e, sym (ok-injective _ _ f))

-- No row asks for a negative amount, or leaves a negative balance.
pub record IsPayable (interest : Money) (r : ContractualScheduleRow) : Type 0 where
  pub principal_nonneg : is_negative r.principal ≡ false
  pub balance_nonneg : is_negative r.scheduled_balance ≡ false
  pub interest_same : r.interest ≡ interest
  pub installment_sum : r.installment ≡ add r.principal r.interest

module _ (tenor : ℕ) (per_period interest : Money) (hp : is_negative per_period ≡ false) where
  pub fill_rows-IsPayable :
      (index : ℕ) (balance : Money) (is : List ContractualInstallment)
      (rows : List ContractualScheduleRow)
      → is_negative balance ≡ false
      → fill_rows tenor per_period interest index balance is ≡ ok rows
      → All (IsPayable interest) rows
  fill_rows-IsPayable index balance [] rows hb h =
      let e : ok [] ≡ ok rows = unfold fill_rows in h in
      subst (All (IsPayable interest)) (ok-injective [] rows e) tt
  fill_rows-IsPayable index balance (i ∷ is) rows hb h =
      let (a, more, e, f) = fill_rows-cons tenor per_period interest index balance i is rows h in
      let left = left_nonneg (suc index == tenor) a in
      let principal = taken_nonneg (suc index == tenor) in
      rw f (
        record {
          principal_nonneg = principal;
          balance_nonneg = left;
          interest_same = refl;
          installment_sum = refl;
        },
        fill_rows-IsPayable (suc index) _ is more left e,
      )
    where
      taken_nonneg : (b : Bool) → is_negative (if b then balance else per_period) ≡ false
      taken_nonneg true = hb
      taken_nonneg false = hp

      left_nonneg :
          (b : Bool)
          → (not b && exceeds per_period balance) ≡ false
          → is_negative (sub balance (if b then balance else per_period)) ≡ false
      left_nonneg true a = sub_nonneg_self balance
      left_nonneg false a = sub_nonneg per_period balance a

-- The sum of the principal column, and the balance after the last row.
pub sum_principal : List ContractualScheduleRow → Money
sum_principal [] = zero_money
sum_principal (r ∷ rs) = add r.principal (sum_principal rs)

pub final_balance : Money → List ContractualScheduleRow → Money
final_balance balance [] = balance
final_balance balance (r ∷ rs) = final_balance r.scheduled_balance rs

module _ (tenor : ℕ) (per_period interest : Money) (d : ℕ) (p : ℤ) (hp : At d per_period p) where
  -- In units the rows pay the balance off, when the last of them is row `tenor`.
  pub fill_rows-sum-At :
      (index : ℕ) (balance : Money) (b : ℤ) (i : ContractualInstallment)
      (is : List ContractualInstallment) (rows : List ContractualScheduleRow)
      → suc (index + length is) ≡ tenor
      → At d balance b
      → fill_rows tenor per_period interest index balance (i ∷ is) ≡ ok rows
      → At d (sum_principal rows) b × At d (final_balance balance rows) (pos 0)
  unfolding sum_principal final_balance
  fill_rows-sum-At index balance b i [] rows n hb h =
      let (a, more, e, f) = fill_rows-cons tenor per_period interest index balance i [] rows h in
      let last : (suc index == tenor) ≡ true = ground arith in
      let nothing : ok [] ≡ ok more = unfold fill_rows in e in
      let all_paid : rows ≡ row_of i balance interest balance ∷ [] =
        rw (f, last, ← ok-injective [] more nothing) in
      rw all_paid (
        subst (At d (add balance zero_money)) (plus_none b)
            (add-At d balance zero_money b (pos 0) hb (zero-At d)),
        subst (At d (sub balance balance)) (minus_self b) (sub-At d balance balance b b hb hb),
      )
    where
      plus_none : (z : ℤ) → z +ℤ pos 0 ≡ z
      plus_none z = omega int_laws

      minus_self : (z : ℤ) → z -ℤ z ≡ pos 0
      minus_self z = omega int_laws
  fill_rows-sum-At index balance b i (j ∷ is) rows n hb h =
      let (a, more, e, f) =
        fill_rows-cons tenor per_period interest index balance i (j ∷ is) rows h in
      let later : (suc index == tenor) ≡ false = ground arith in
      let left = sub-At d balance per_period b p hb hp in
      let (sum, final) =
        fill_rows-sum-At (suc index) (sub balance per_period) (b -ℤ p) j is more (omega arith) left
          (rw later at e) in
      let row : rows ≡ row_of i per_period interest balance ∷ more = rw (f, later) in
      rw row (
        subst (At d (add per_period (sum_principal more))) (put_back p b)
            (add-At d per_period _ p _ hp sum),
        final,
      )
    where
      put_back : (p b : ℤ) → p +ℤ (b -ℤ p) ≡ b
      put_back p b = omega int_laws
