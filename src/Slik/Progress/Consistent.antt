-- ===== src/Slik/Progress/Consistent.antt =====
-- What holds of every job in every store that statements lead to.
use new_trs.Common.{
  ℕ, suc, ◌+◌, ◌≡◌, refl, ap, sym, ◌∙◌, subst, foreign, Bool, true, false, not, ◌&&◌, ◌==◌, ==_iff,
  Bool-cases, List, [], ◌∷◌, map, Option, none, some, length, keep, All, inl, inr, ok, refuse-eq-ok,
  ok-injective, arith,
}
use new_trs.Common.Sort.{sort}
use new_trs.Common.Text.{Text, eq_text}
use new_trs.Slik.Store.{
  JobStatus, queued, Values, Job, JobAccount, Entry, Store, is_terminal, is_processing, is_queued,
  set_status, queued-is_terminal, processing-is_terminal, claim, claimed_first, is_waiting, find,
  update_job, update_all, has_status, create, recover, claim_next, new_account, new_entry,
}
use new_trs.Slik.Progress.{
  complete, progressed, cleared, is_open, has_one_open, remaining, save, terminal, cancel,
  can_cancel, stopped, ended, clear_files, can_clear, check_complete, Step, created, recovered,
  claimed, saved, terminated, canceled_by, files_cleared, IsReachable, no_jobs, after_step,
}

abbrev pub is_some {ℓ} : {A : Type ℓ} → Option A → Bool
is_some none = false
is_some (some a) = true

-- The counters agree with the accounts, and exactly the jobs that have ended expire.
pub record IsConsistent (e : Entry) : Type 0 where
  pub counted : e.job.processed + remaining e.accounts ≡ length e.accounts
  pub total : e.job.total_accounts ≡ length e.accounts
  pub expires : is_terminal e.job.status ≡ is_some e.job.expires_at

remaining-new : (accounts : List Text) → remaining (map new_account accounts) ≡ length accounts
unfolding remaining
remaining-new [] = refl
remaining-new (a ∷ rest) = ap suc (remaining-new rest)

length-new : (accounts : List Text) → length (map new_account accounts) ≡ length accounts
length-new [] = refl
length-new (a ∷ rest) = ap suc (length-new rest)

length-complete :
    (account primary : Text) (values : Values) (accounts : List JobAccount)
    → length (complete account primary values accounts) ≡ length accounts
unfolding complete
length-complete account primary values [] = refl
length-complete account primary values (a ∷ rest) =
    ap suc (length-complete account primary values rest)

-- A checkpoint leaves as many accounts fewer as were open under its key.
remaining-complete :
    (account primary : Text) (values : Values) (accounts : List JobAccount)
    → remaining (complete account primary values accounts)
        + length (keep (is_open account) accounts)
      ≡ remaining accounts
unfolding complete remaining
remaining-complete account primary values [] = refl
remaining-complete account primary values (a ∷ rest) =
    let later = remaining-complete account primary values rest in
    elim (Bool-cases (is_waiting a.status)) [
      | inl w ↦ elim (Bool-cases (eq_text a.requested_account account)) [
        | inl e ↦ ground (arith, later)
        | inr e ↦ ground (arith, later)
      ]
      | inr w ↦ elim (Bool-cases (eq_text a.requested_account account)) [
        | inl e ↦ ground (arith, later)
        | inr e ↦ ground (arith, later)
      ]
    ]

update_job-All {κ} :
    (P : Entry → Type κ) (id : Text) (test : Entry → Bool) (change : Entry → Entry) (s : Store)
    → ((e : Entry) → P e → test e ≡ true → P (change e))
    → All P s
    → All P (update_job id test change s)
unfolding update_job
update_job-All P id test change [] f h = tt
update_job-All P id test change (e ∷ rest) f h = elim (Bool-cases (eq_text e.job.id id)) [
  | inl m ↦ elim (Bool-cases (test e)) [ inl t ↦ rw (m, t) (f e h.0 t, h.1) | inr t ↦ rw (m, t) h ]
  | inr m ↦ rw m (h.0, update_job-All P id test change rest f h.1)
]

update_all-All {κ} :
    (P : Entry → Type κ) (test : Entry → Bool) (change : Entry → Entry) (s : Store)
    → ((e : Entry) → P e → test e ≡ true → P (change e))
    → All P s
    → All P (update_all test change s)
unfolding update_all
update_all-All P test change [] f h = tt
update_all-All P test change (e ∷ rest) f h = elim (Bool-cases (test e)) [
  | inl t ↦ rw t (f e h.0 t, update_all-All P test change rest f h.1)
  | inr t ↦ rw t (h.0, update_all-All P test change rest f h.1)
]

-- A job that has not ended does not expire.
unended :
    (e : Entry)
    → IsConsistent e
    → is_terminal e.job.status ≡ false
    → is_some e.job.expires_at ≡ false
unended e c on = sym c.expires ∙ on

create-IsConsistent :
    (j : Job) (accounts : List Text) (s t : Store)
    → create j accounts s ≡ ok t
    → All IsConsistent s
    → All IsConsistent t
unfolding create
create-IsConsistent j accounts s t e h =
    let (fresh, e₁) = refuse-eq-ok _ foreign _ e in
    let first : IsConsistent (new_entry j accounts) = record {
      counted = omega (arith, remaining-new accounts, length-new accounts);
      total = sym (length-new accounts);
      expires = refl;
    } in
    let both : All IsConsistent (new_entry j accounts ∷ s) = (first, h) in
    subst (All IsConsistent) (ok-injective _ t e₁) both

recover-IsConsistent : (s : Store) → All IsConsistent s → All IsConsistent (recover s)
unfolding recover
recover-IsConsistent s =
    update_all-All IsConsistent (has_status is_processing) (set_status queued) s (λ e c p. record {
      counted = c.counted;
      total = c.total;
      expires = sym (unended e c (processing-is_terminal e.job.status p));
    })

claim_next-IsConsistent :
    (now : ℕ) (s : Store) → All IsConsistent s → All IsConsistent ((claim_next now s).1)
unfolding claim_next
claim_next-IsConsistent now s h =
    elim (sort claimed_first (keep (has_status is_queued) s))
      as (λ found. All IsConsistent (
        (elim found as (λ _. Option Text × Store) [
          | [] ↦ (none, s)
          | e ∷ rest ↦ (some e.job.id, update_job e.job.id (has_status is_queued) (claim now) s)
        ]).1)) [
          | [] ↦ h
          | e ∷ rest ↦
              update_job-All IsConsistent e.job.id (has_status is_queued) (claim now) s
                (λ e c q. record {
                  counted = c.counted;
                  total = c.total;
                  expires = sym (unended e c (queued-is_terminal e.job.status q));
                })
                h
        ]

and_right : (a b : Bool) → (a && b) ≡ true → b ≡ true
and_right true b h = h
and_right false b h = cc

not-injective : (a : Bool) → not a ≡ false → a ≡ true
not-injective true h = refl
not-injective false h = cc

-- Exactly one account is open, so one fewer remains.
progressed-IsConsistent :
    (account primary : Text) (values : Values) (e : Entry)
    → IsConsistent e
    → has_one_open account e ≡ true
    → IsConsistent (progressed account primary values e)
unfolding has_one_open
progressed-IsConsistent account primary values e c one = record {
  counted = omega (
    arith,
    c.counted,
    remaining-complete account primary values e.accounts,
    length-complete account primary values e.accounts,
    (==_iff _ 1).0 one,
  );
  total = c.total ∙ sym (length-complete account primary values e.accounts);
  expires = c.expires;
}

save-IsConsistent :
    (id account primary : Text) (values : Values) (s t : Store)
    → save id account primary values s ≡ ok t
    → All IsConsistent s
    → All IsConsistent t
unfolding save
save-IsConsistent id account primary values s t e h =
    let (run, e₁) = refuse-eq-ok _ foreign _ e in
    let (one, e₂) = refuse-eq-ok _ foreign _ e₁ in
    subst (All IsConsistent) (ok-injective _ t e₂) (
      update_job-All IsConsistent id (λ e. is_processing e.job.status && has_one_open account e)
        (progressed account primary values) s
        (λ e c both. progressed-IsConsistent account primary values e c (and_right _ _ both)) h)

terminal-IsConsistent :
    (now : ℕ) (id account reason output : Text) (status : JobStatus) (s t : Store)
    → terminal now id status account reason output s ≡ ok t
    → All IsConsistent s
    → All IsConsistent t
unfolding terminal ended
terminal-IsConsistent now id account reason output status s t e h =
    let (last, e₁) = refuse-eq-ok _ foreign _ e in
    let (run, e₂) = refuse-eq-ok _ foreign _ e₁ in
    subst (All IsConsistent) (ok-injective _ t e₂) (
      update_job-All IsConsistent id (has_status is_processing)
        (ended now status account reason output) s
        (λ e c p. record { counted = c.counted; total = c.total; expires = not-injective _ last })
        h)

cancel-IsConsistent :
    (now : ℕ) (id : Text) (owner : ℕ) (view_all : Bool) (s : Store)
    → All IsConsistent s
    → All IsConsistent (cancel now id owner view_all s)
unfolding cancel stopped
cancel-IsConsistent now id owner view_all s =
    update_job-All IsConsistent id (can_cancel owner view_all) (stopped now) s
      (λ e c p. record { counted = c.counted; total = c.total; expires = refl })

clear_files-IsConsistent :
    (now : ℕ) (id : Text) (s : Store) → All IsConsistent s → All IsConsistent (clear_files now id s)
unfolding clear_files
clear_files-IsConsistent now id s =
    update_job-All IsConsistent id (can_clear now) cleared s
      (λ e c p. record { counted = c.counted; total = c.total; expires = c.expires })

Step-IsConsistent : (s t : Store) → Step s t → All IsConsistent s → All IsConsistent t
Step-IsConsistent s t (created j accounts u v e) = create-IsConsistent j accounts s t e
Step-IsConsistent s t (recovered u) = recover-IsConsistent s
Step-IsConsistent s t (claimed now u) = claim_next-IsConsistent now s
Step-IsConsistent s t (saved id account primary values u v e) =
    save-IsConsistent id account primary values s t e
Step-IsConsistent s t (terminated now id account reason output status u v e) =
    terminal-IsConsistent now id account reason output status s t e
Step-IsConsistent s t (canceled_by now id owner view_all u) =
    cancel-IsConsistent now id owner view_all s
Step-IsConsistent s t (files_cleared now id u) = clear_files-IsConsistent now id s

-- In every store that the statements lead to from the empty tables, each job's processed count plus
-- its open accounts is its number of accounts, and exactly the jobs that have ended expire.
pub reachable-IsConsistent : (s : Store) → IsReachable s → All IsConsistent s
reachable-IsConsistent s no_jobs = tt
reachable-IsConsistent s (after_step r t h step) =
    Step-IsConsistent r s step (reachable-IsConsistent r h)

some-injective {ℓ} : {A : Type ℓ} (a b : A) → some a ≡ some b → a ≡ b
some-injective a b h = cc

pub find-All {κ} :
    (P : Entry → Type κ) (id : Text) (s : Store) (e : Entry) → find id s ≡ some e → All P s → P e
unfolding find
find-All P id [] e h all = cc
find-All P id (x ∷ rest) e h all = elim (Bool-cases (eq_text x.job.id id)) [
  | inl m ↦ subst P (some-injective x e (rw (m, find) at h)) all.0
  | inr m ↦ find-All P id rest e (rw (m, find) at h) all.1
]

-- In a store that the statements lead to, a job of which CheckComplete accepts the accounts has
-- processed them all.
pub check_complete-processed :
    (s : Store) (id : Text) (e : Entry)
    → IsReachable s
    → find id s ≡ some e
    → check_complete id s ≡ ok tt
    → e.job.processed ≡ e.job.total_accounts
unfolding check_complete
check_complete-processed s id e reach found h =
    let c = find-All IsConsistent id s e found (reachable-IsConsistent s reach) in
    let (all_done, h₁) =
      refuse-eq-ok (not (remaining e.accounts == 0)) foreign (ok tt)
        (rw (found, check_complete) at h) in
    omega
      (arith, c.counted, c.total, (==_iff (remaining e.accounts) 0).0 (not-injective _ all_done))
