-- ===== src/Slik/Progress/Final.antt =====
-- Jobs that have ended stay as they are, and an account is charged once.
use new_trs.Common.{
  ℕ, ◌≡◌, refl, ap, sym, ◌∙◌, subst, Bool, true, false, not, ◌&&◌, ◌||◌, ◌==◌, ==_iff, Bool-cases,
  if◌then◌else◌, List, [], ◌∷◌, Option, none, some, keep, inl, inr, ok, foreign, refuse-eq-ok,
  ok-injective, arith,
}
use new_trs.Common.Sort.{sort}
use new_trs.Common.Text.{Text, eq_text, eq_text-eq}
use new_trs.Slik.Store.{
  JobStatus, queued, Values, Job, Entry, Store, is_queued, is_terminal, is_processing, update_job,
  update_all, affected, has_status, set_status, claim, claimed_first, has_duplicate,
  queued-is_terminal, processing-is_terminal, create, recover, claim_next, new_entry,
}
use new_trs.Slik.Progress.{
  progressed, has_one_open, save, terminal, cancel, can_cancel, stopped, ended, clear_files,
  can_clear, cleared, Step, created, recovered, claimed, saved, terminated, canceled_by,
  files_cleared,
}

-- The status of the job with an id.
unfoldable pub status_of : Text → Store → Option JobStatus
status_of id [] = none
status_of id (e ∷ rest) = if eq_text e.job.id id then some e.job.status else status_of id rest

-- What a change may do to the rows that it selects: keep the id, and the status of a job that has
-- ended.
pub IsGentle : (Entry → Bool) → (Entry → Entry) → Type 0
IsGentle test change =
    (e : Entry)
    → test e ≡ true
    → ((change e).job.id ≡ e.job.id)
      × (is_terminal e.job.status ≡ true → (change e).job.status ≡ e.job.status)

-- An ended job before is one of the same status after.
pub KeepsEnded : Store → Store → Type 0
KeepsEnded s t =
    (id : Text) (status : JobStatus)
    → status_of id s ≡ some status
    → is_terminal status ≡ true
    → status_of id t ≡ some status

some-injective {ℓ} : {A : Type ℓ} (a b : A) → some a ≡ some b → a ≡ b
some-injective a b h = cc

none-some {ℓ} : {A : Type ℓ} (a : A) → none ≡ some a → ⊥
none-some a h = cc

not_both : (b : Bool) → b ≡ true → b ≡ false → ⊥
not_both b h k = cc

left_not : (a b : Bool) → (not a || b) ≡ false → a ≡ true
left_not true b h = refl
left_not false b h = cc

-- The same head, changed gently, and a rest that keeps what has ended.
cons-KeepsEnded :
    (e f : Entry) (s t : Store)
    → f.job.id ≡ e.job.id
    → (is_terminal e.job.status ≡ true → f.job.status ≡ e.job.status)
    → KeepsEnded s t
    → KeepsEnded (e ∷ s) (f ∷ t)
unfolding KeepsEnded status_of
cons-KeepsEnded e f s t i k rest id status h last = elim (Bool-cases (eq_text e.job.id id)) [
  | inl m ↦
      let same = some-injective e.job.status status (rw (m, status_of) at h) in
      rw (i, m, k (rw same last), same)
  | inr m ↦ rw (i, m) (rest id status (rw (m, status_of) at h) last)
]

refl-KeepsEnded : (s : Store) → KeepsEnded s s
unfolding KeepsEnded
refl-KeepsEnded s id status h last = h

update_job-KeepsEnded :
    (id : Text) (test : Entry → Bool) (change : Entry → Entry) (s : Store)
    → IsGentle test change
    → KeepsEnded s (update_job id test change s)
unfolding update_job IsGentle
update_job-KeepsEnded id test change [] g = refl-KeepsEnded []
update_job-KeepsEnded id test change (e ∷ rest) g = elim (Bool-cases (eq_text e.job.id id)) [
  | inl m ↦ elim (Bool-cases (test e)) [
    | inl t ↦
        rw (m, t)
          (cons-KeepsEnded e (change e) rest rest (g e t).0 (g e t).1 (refl-KeepsEnded rest))
    | inr t ↦ rw (m, t) (refl-KeepsEnded (e ∷ rest))
  ]
  | inr m ↦
      rw m
        (cons-KeepsEnded e e rest _ refl (λ k. refl) (update_job-KeepsEnded id test change rest g))
]

update_all-KeepsEnded :
    (test : Entry → Bool) (change : Entry → Entry) (s : Store)
    → IsGentle test change
    → KeepsEnded s (update_all test change s)
unfolding update_all IsGentle
update_all-KeepsEnded test change [] g = refl-KeepsEnded []
update_all-KeepsEnded test change (e ∷ rest) g = elim (Bool-cases (test e)) [
  | inl t ↦ rw t (
      cons-KeepsEnded e (change e) rest _ (g e t).0 (g e t).1
        (update_all-KeepsEnded test change rest g))
  | inr t ↦
      rw t (cons-KeepsEnded e e rest _ refl (λ k. refl) (update_all-KeepsEnded test change rest g))
]

-- A new id is not that of a job.
status_of-affected : (id : Text) (s : Store) → affected id (λ e. true) s ≡ 0 → status_of id s ≡ none
unfolding status_of affected
status_of-affected id [] h = refl
status_of-affected id (e ∷ rest) h = elim (Bool-cases (eq_text e.job.id id)) [
  | inl m ↦ absurd (omega (arith, rw (m, affected) at h))
  | inr m ↦ rw m (status_of-affected id rest (rw (m, affected) at h))
]

create-KeepsEnded :
    (j : Job) (accounts : List Text) (s t : Store) → create j accounts s ≡ ok t → KeepsEnded s t
unfolding create KeepsEnded status_of
create-KeepsEnded j accounts s t e id status h last =
    let (fresh, e₁) =
      refuse-eq-ok (not (affected j.id (λ e. true) s == 0) || has_duplicate accounts) foreign
        (ok (new_entry j accounts ∷ s)) e in
    let free = status_of-affected j.id s ((==_iff _ 0).0 (left_not _ _ fresh)) in
    let kept : status_of id (new_entry j accounts ∷ s) ≡ some status =
      elim (Bool-cases (eq_text j.id id)) [
        | inl m ↦
            absurd
              (none-some status (sym free ∙ ap (λ i. status_of i s) (eq_text-eq j.id id m) ∙ h))
        | inr m ↦ rw m h
      ] in
    subst (λ u. status_of id u ≡ some status) (ok-injective (new_entry j accounts ∷ s) t e₁) kept

recover-KeepsEnded : (s : Store) → KeepsEnded s (recover s)
unfolding recover IsGentle
recover-KeepsEnded s =
    update_all-KeepsEnded (has_status is_processing) (set_status queued) s
      (λ e p. (refl, λ last. absurd (not_both _ last (processing-is_terminal e.job.status p))))

claim_next-KeepsEnded : (now : ℕ) (s : Store) → KeepsEnded s ((claim_next now s).1)
unfolding claim_next IsGentle
claim_next-KeepsEnded now s =
    elim (sort claimed_first (keep (has_status is_queued) s))
      as (λ found. KeepsEnded s (
        (elim found as (λ _. Option Text × Store) [
          | [] ↦ (none, s)
          | e ∷ rest ↦ (some e.job.id, update_job e.job.id (has_status is_queued) (claim now) s)
        ]).1)) [
          | [] ↦ refl-KeepsEnded s
          | e ∷ rest ↦
              update_job-KeepsEnded e.job.id (has_status is_queued) (claim now) s (λ e q.
                (refl, λ last. absurd (not_both _ last (queued-is_terminal e.job.status q))))
        ]

save-KeepsEnded :
    (id account primary : Text) (values : Values) (s t : Store)
    → save id account primary values s ≡ ok t
    → KeepsEnded s t
unfolding save IsGentle
save-KeepsEnded id account primary values s t e =
    let (run, e₁) = refuse-eq-ok _ foreign _ e in
    let (one, e₂) = refuse-eq-ok _ foreign _ e₁ in
    subst (KeepsEnded s) (ok-injective _ t e₂) (
      update_job-KeepsEnded id (λ e. is_processing e.job.status && has_one_open account e)
        (progressed account primary values) s (λ e both. (refl, λ last. refl)))

terminal-KeepsEnded :
    (now : ℕ) (id account reason output : Text) (status : JobStatus) (s t : Store)
    → terminal now id status account reason output s ≡ ok t
    → KeepsEnded s t
unfolding terminal ended IsGentle
terminal-KeepsEnded now id account reason output status s t e =
    let (ends, e₁) = refuse-eq-ok _ foreign _ e in
    let (run, e₂) = refuse-eq-ok _ foreign _ e₁ in
    subst (KeepsEnded s) (ok-injective _ t e₂) (
      update_job-KeepsEnded id (has_status is_processing) (ended now status account reason output) s
        (λ e p. (refl, λ last. absurd (not_both _ last (processing-is_terminal e.job.status p)))))

can_cancel-is_terminal :
    (owner : ℕ) (view_all : Bool) (e : Entry)
    → can_cancel owner view_all e ≡ true
    → is_terminal e.job.status ≡ false
unfolding can_cancel
can_cancel-is_terminal owner view_all e h = elim (Bool-cases (is_queued e.job.status)) [
  | inl q ↦ queued-is_terminal e.job.status q
  | inr q ↦ processing-is_terminal e.job.status (ground arith)
]

cancel-KeepsEnded :
    (now : ℕ) (id : Text) (owner : ℕ) (view_all : Bool) (s : Store)
    → KeepsEnded s (cancel now id owner view_all s)
unfolding cancel stopped IsGentle
cancel-KeepsEnded now id owner view_all s =
    update_job-KeepsEnded id (can_cancel owner view_all) (stopped now) s
      (λ e p. (refl, λ last. absurd (not_both _ last (can_cancel-is_terminal owner view_all e p))))

clear_files-KeepsEnded : (now : ℕ) (id : Text) (s : Store) → KeepsEnded s (clear_files now id s)
unfolding clear_files IsGentle
clear_files-KeepsEnded now id s =
    update_job-KeepsEnded id (can_clear now) cleared s (λ e p. (refl, λ last. refl))

Step-KeepsEnded : (s t : Store) → Step s t → KeepsEnded s t
Step-KeepsEnded s t (created j accounts u v e) = create-KeepsEnded j accounts s t e
Step-KeepsEnded s t (recovered u) = recover-KeepsEnded s
Step-KeepsEnded s t (claimed now u) = claim_next-KeepsEnded now s
Step-KeepsEnded s t (saved id account primary values u v e) =
    save-KeepsEnded id account primary values s t e
Step-KeepsEnded s t (terminated now id account reason output status u v e) =
    terminal-KeepsEnded now id account reason output status s t e
Step-KeepsEnded s t (canceled_by now id owner view_all u) =
    cancel-KeepsEnded now id owner view_all s
Step-KeepsEnded s t (files_cleared now id u) = clear_files-KeepsEnded now id s

-- No statement changes the status of a job that is completed, failed or canceled.
pub status_of-Step :
    (s t : Store) (id : Text) (status : JobStatus)
    → Step s t
    → status_of id s ≡ some status
    → is_terminal status ≡ true
    → status_of id t ≡ some status
unfolding KeepsEnded
status_of-Step s t id status step = Step-KeepsEnded s t step id status
