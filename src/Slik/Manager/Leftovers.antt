-- ===== src/Slik/Manager/Leftovers.antt =====
-- What a run has seen where the output file is there after it.
use new_trs.Common.{
  ◌≡◌, ◌≢◌, refl, sym, ◌∙◌, Bool, true, false, not, ◌&&◌, ◌||◌, Bool-cases, if◌then◌else◌, [],
  Option, none, some, ◌⊎◌, inl, inr, Result, ok, err, Error, ok-injective,
}
use new_trs.Common.Text.{Text}
use new_trs.Slik.Store.{completed}
use new_trs.Slik.Manager.{
  Answers, Removal, at_start, unpatched, lock_lost_then, canceled_then, lock_lost_at_last, RunEnd,
  left, ended_with, stop_on_error, stays, publish_checked, publish_unless, publish, generate,
  after_work, unless_canceled, conclude, unless_canceled_before, output_of, attempt, valid_job_id,
}

-- A run that leaves the file has passed every check.
pub record IsPublished (output : Text) (a : Answers) (r : RunEnd × Bool) : Type 0 where
  pub ending : r ≡ (ended_with completed [] [] output, true)
  pub complete : a.complete ≡ ok tt
  pub patched : a.patched ≡ ok tt
  pub not_canceled : a.canceled_last ≡ ok false

-- A file that the run tried to remove and could not, and what it had seen.
pub data IsLeftover (a : Answers) : Type 0 where
  before_run : a.there_before ≡ true → a.removes at_start ≡ false → IsLeftover a
  failed_patch :
      (e : Error)
      → a.patched ≡ err e
      → a.there_unpatched ≡ true
      → a.removes unpatched ≡ false
      → IsLeftover a
  lost_then : a.lock_lost_patched ≡ true → a.removes lock_lost_then ≡ false → IsLeftover a
  was_canceled : a.canceled_last ≢ ok false → a.removes canceled_then ≡ false → IsLeftover a
  lost_at_last : a.lock_lost_last ≡ true → a.removes lock_lost_at_last ≡ false → IsLeftover a

-- What is said of a file that is there.
unfoldable pub Explained : Text → Answers → RunEnd × Bool → Type 0
Explained output a r = r.1 ≡ true → IsPublished output a r ⊎ IsLeftover a

false-true : false ≡ true → ⊥
false-true h = cc

true-false : true ≡ false → ⊥
true-false h = cc

absent : (output : Text) (a : Answers) (e : RunEnd) → Explained output a (e, false)
unfolding Explained
absent output a e h = absurd (false-true h)

not-true : (b : Bool) → not b ≡ true → b ≡ false
not-true true h = cc
not-true false h = refl

pub both : (a b : Bool) → (a && b) ≡ true → (a ≡ true) × (b ≡ true)
both true b h = (refl, h)
both false b h = cc

pub stays-removes : (a : Answers) (place : Removal) → stays a place ≡ true → a.removes place ≡ false
unfolding stays
stays-removes a place h = not-true (a.removes place) h

err-ok {ℓ} : {A : Type ℓ} (e : Error) (x : A) → err e ≡ ok x → ⊥
err-ok e x h = cc

ok_true-ok_false : ok true ≡ ok false → ⊥
ok_true-ok_false h = true-false (ok-injective true false h)

if-Explained :
    (output : Text) (a : Answers) (b : Bool) (r q : RunEnd × Bool)
    → (b ≡ true → Explained output a r)
    → (b ≡ false → Explained output a q)
    → Explained output a (if b then r else q)
if-Explained output a true r q f g = f refl
if-Explained output a false r q f g = g refl

module _ (output : Text) (a : Answers) where
  -- CheckComplete and the writing of the workbook went well.
  IsReady : Type 0
  IsReady = (a.complete ≡ ok tt) × (a.patched ≡ ok tt)

  publish_checked-Explained :
      (lost : Bool)
      → IsReady
      → a.canceled_last ≡ ok false
      → a.lock_lost_last ≡ lost
      → Explained output a (publish_checked output a lost)
  unfolding IsReady Explained publish_checked
  publish_checked-Explained true ready c l h =
      inr (lost_at_last l (stays-removes a lock_lost_at_last h))
  publish_checked-Explained false ready c l h =
      inl (record { ending = refl; complete = ready.0; patched = ready.1; not_canceled = c })

  publish_unless-Explained :
      (canceled : Result Bool)
      → IsReady
      → a.canceled_last ≡ canceled
      → Explained output a (publish_unless output a canceled)
  unfolding publish_unless Explained
  publish_unless-Explained (err e) ready c h =
      inr (was_canceled (λ k. err-ok e false (sym c ∙ k)) (stays-removes a canceled_then h))
  publish_unless-Explained (ok true) ready c h =
      inr (was_canceled (λ k. ok_true-ok_false (sym c ∙ k)) (stays-removes a canceled_then h))
  publish_unless-Explained (ok false) ready c h =
      publish_checked-Explained a.lock_lost_last ready c refl h

  publish-Explained : IsReady → Explained output a (publish output a)
  unfolding publish Explained
  publish-Explained ready =
      if-Explained output a a.lock_lost_patched _ _
        (λ l h. inr (lost_then l (stays-removes a lock_lost_then h)))
        (λ k. publish_unless-Explained a.canceled_last ready refl)

  stop_on_error-Explained :
      (r : Result (Unit {0})) (reason : Text) (present : Bool) (next : RunEnd × Bool)
      → ((e : Error) → r ≡ err e → present ≡ true → IsLeftover a)
      → (r ≡ ok tt → Explained output a next)
      → Explained output a (stop_on_error r reason present next)
  unfolding stop_on_error Explained
  stop_on_error-Explained (err e) reason present next f k h = inr (f e refl h)
  stop_on_error-Explained (ok tt) reason present next f k h = k refl h

  not_there : (r : Result (Unit {0})) (e : Error) → r ≡ err e → false ≡ true → IsLeftover a
  not_there r e k h = absurd (false-true h)

  generate-Explained : Explained output a (generate output a)
  unfolding generate IsReady
  generate-Explained =
      stop_on_error-Explained a.complete _ false _ (not_there a.complete) λ complete.
        stop_on_error-Explained a.workbook _ false _ (not_there a.workbook) λ w.
          stop_on_error-Explained a.results _ false _ (not_there a.results) λ r.
            stop_on_error-Explained a.patched _ (a.there_unpatched && stays a unpatched) _
              (λ e failed h.
                let (there, kept) = both a.there_unpatched (stays a unpatched) h in
                failed_patch e failed there (stays-removes a unpatched kept))
              λ patched. publish-Explained (complete, patched)

  after_work-Explained :
      (failure : Option (Text × Text)) → Explained output a (after_work output a failure)
  unfolding after_work
  after_work-Explained (some (account, reason)) = absent output a _
  after_work-Explained none =
      if-Explained output a a.interrupted _ _
        (λ i.
          if-Explained output a a.lock_lost_interrupted _ _ (λ l. absent output a left)
            (λ k. absent output a _))
        (λ k. generate-Explained)

  unless_canceled-Explained :
      (canceled : Result Bool) → Explained output a (unless_canceled output a canceled)
  unfolding unless_canceled
  unless_canceled-Explained (err e) = absent output a _
  unless_canceled-Explained (ok true) = absent output a _
  unless_canceled-Explained (ok false) = after_work-Explained a.failure

  conclude-Explained : Explained output a (conclude output a)
  unfolding conclude
  conclude-Explained =
      if-Explained output a (a.lock_lost_first || a.shutdown) _ _ (λ l. absent output a left)
        (λ k. unless_canceled-Explained a.canceled_first)

  unless_canceled_before-Explained :
      (canceled : Result Bool) → Explained output a (unless_canceled_before output a canceled)
  unfolding unless_canceled_before
  unless_canceled_before-Explained (err e) = absent output a _
  unless_canceled_before-Explained (ok true) = absent output a _
  unless_canceled_before-Explained (ok false) =
      if-Explained output a a.lock_lost_before _ _ (λ l. absent output a left)
        (λ k. conclude-Explained)

pub attempt-Explained :
    (id : Text) (a : Answers) → valid_job_id id ≡ true → Explained (output_of id) a (attempt id a)
unfolding attempt Explained
attempt-Explained id a valid = elim (Bool-cases (a.removes at_start)) [
  | inl e ↦ rw (valid, e) (unless_canceled_before-Explained (output_of id) a a.canceled_before)
  | inr e ↦ rw (valid, e) λ h. inr (before_run h e)
]
