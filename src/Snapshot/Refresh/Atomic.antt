-- ===== src/Snapshot/Refresh/Atomic.antt =====
-- A refresh replaces the rows whole or not at all.
use new_trs.Common.{
  ℕ, ◌≤◌, ◌≡◌, refl, ap, sym, ◌∙◌, subst, Bool, true, false, List, [], map, length, All, Result, ok,
  err, Error, >>=-eq-ok, ok-injective, Result-cases, inl, inr,
}
use new_trs.Loan.Model.{LoanPosition}
use new_trs.Snapshot.Refresh.{
  stored, Environment, Tables, bad_row, validate_rows, insert_chunks, replace_all, mark_attempt,
  mark_failure, replacement, concluded, with_lock, locked, refresh,
}
use new_trs.Snapshot.Refresh.Rows.{IsDistinct, validate_rows-eq-ok, insert_chunks-eq-ok, length-map}

-- What a successful refresh left behind: the rows of the source, as the columns keep them.
pub record IsReplaced (env : Environment) (t : Tables) (count : ℕ) : Type 0 where
  pub source : List LoanPosition
  pub fetched : env.fetch env.business_date ≡ ok source
  pub kept : t.rows ≡ map (stored env) source
  pub counted : count ≡ length t.rows
  pub recorded : t.status.last_row_count ≡ count
  pub some_row : 1 ≤ length t.rows
  pub good : All (λ r. bad_row r env.business_date ≡ false) source
  pub distinct : IsDistinct source

-- Either the old rows and an error, or new rows that were checked.
pub Outcome : Environment → Tables → Tables × Result ℕ → Type 0
Outcome env before (t, err e) = t.rows ≡ before.rows
Outcome env before (t, ok count) = IsReplaced env t count

mark_failure-rows :
    (env : Environment) (e : Error) (t : Tables) → (mark_failure env e t).rows ≡ t.rows
unfolding mark_failure
mark_failure-rows env e t = elim (Result-cases env.mark_failure_answer) [
  | inl (u, h) ↦ rw h refl
  | inr (f, h) ↦ rw h refl
]

replacement-IsReplaced :
    (env : Environment) (before t : Tables) (count : ℕ)
    → replacement env before ≡ ok (t, count)
    → IsReplaced env t count
unfolding replacement replace_all
replacement-IsReplaced env before t count h =
    let (rows, fetched, h₁) = >>=-eq-ok (env.fetch env.business_date) _ h in
    let (v, valid, h₂) = >>=-eq-ok (validate_rows rows env.business_date) _ h₁ in
    let (replaced, done, h₃) = >>=-eq-ok (replace_all env rows before) _ h₂ in
    let (u₁, begun, d₁) = >>=-eq-ok env.begin_answer _ done in
    let (u₂, empty, d₂) = >>=-eq-ok env.clear_answer _ d₁ in
    let (table, inserted, d₃) = >>=-eq-ok (insert_chunks (length rows) env rows []) _ d₂ in
    let (u₃, recorded, d₄) = >>=-eq-ok env.record_answer _ d₃ in
    let (u₄, committed, d₅) = >>=-eq-ok env.commit_answer _ d₄ in
    let whole = insert_chunks-eq-ok (length rows) env rows [] table inserted in
    let checked = validate_rows-eq-ok rows env.business_date valid in
    let pair = ok-injective _ (t, count) h₃ in
    let same_tables = ok-injective _ replaced d₅ ∙ ap (λ p. p.0) pair in
    let kept : t.rows ≡ map (stored env) rows = sym (ap (λ q. q.rows) same_tables) ∙ whole in
    let same_length : length rows ≡ length t.rows =
      sym (ap length kept ∙ length-map (stored env) rows) in
    record {
      source = rows;
      fetched = fetched;
      kept = kept;
      counted = sym (ap (λ p. p.1) pair) ∙ same_length;
      recorded = sym (ap (λ q. q.status.last_row_count) same_tables) ∙ ap (λ p. p.1) pair;
      some_row = subst (λ n. 1 ≤ n) same_length checked.2;
      good = checked.0;
      distinct = checked.1;
    }

concluded-Outcome :
    (env : Environment) (before : Tables)
    → Outcome env before (concluded env before (replacement env before))
unfolding concluded Outcome
concluded-Outcome env before = elim (Result-cases (replacement env before)) [
  | inl ((t, count), h) ↦ rw h (replacement-IsReplaced env before t count h)
  | inr (e, h) ↦ rw h (mark_failure-rows env e before)
]

with_lock-Outcome :
    (env : Environment) (before : Tables) (marked : Result (Unit {0}))
    → Outcome env before (with_lock env before marked)
unfolding with_lock mark_attempt Outcome
with_lock-Outcome env before (err e) = refl
with_lock-Outcome env before (ok u) = concluded-Outcome env (mark_attempt env.now before)

locked-Outcome :
    (env : Environment) (before : Tables) (lock : Result Bool)
    → Outcome env before (locked env before lock)
unfolding locked Outcome
locked-Outcome env before (err e) = refl
locked-Outcome env before (ok false) = refl
locked-Outcome env before (ok true) = with_lock-Outcome env before env.mark_attempt_answer

-- A refresh that fails keeps the stored rows; one that succeeds stores the rows of the source and no
-- others, in order and as the columns keep them, at least one, all of them checked for the business
-- date and no two of one account, and returns and records their number.
pub refresh-Outcome :
    (env : Environment) (before : Tables) → Outcome env before (refresh env before)
unfolding refresh
refresh-Outcome env before = locked-Outcome env before env.lock
