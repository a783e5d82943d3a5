-- ===== src/Access/Tokens.antt =====
-- A token that a login hands out resolves to its user.
use new_trs.Common.{
  ℕ, ◌<◌, ◌≡◌, refl, subst, Bool-cases, inl, inr, length, Result, ok, err, >>=-eq-ok, ok-injective,
  fincloud_invalid_credentials,
}
use new_trs.Common.Text.{trim_space}
use new_trs.Common.Errors.{error_code, is_error}
use new_trs.Login.Lockout.{blocked}
use new_trs.Access.Tables.{Tables}
use new_trs.Access.Users.{
  Provided, find_by_username, find_or_create, normalize_username, validate_username,
}
use new_trs.Access.Managers.{IsDescending}
use new_trs.Access.Resolved.{err-ok}
use new_trs.Access.Login.{
  AuthService, LoginInput, LoginResult, World, bad_input, throttle_key, start_session, or_without,
  opened_for, open_session, accepted, judged, login, principal_of, resolve_session,
}
use new_trs.Access.Known.{IsKnown, provide_user-IsKnown, IsResolved, start_session-IsResolved}

or_without-IsResolved :
    (a : AuthService) (later : ℕ) (s : Tables) (r : Result (LoginResult × Tables))
    (result : LoginResult)
    → ((x : LoginResult × Tables) → r ≡ ok x → IsResolved a later x)
    → (or_without s r).1 ≡ ok result
    → IsResolved a later (result, (or_without s r).0)
unfolding or_without
or_without-IsResolved a later s (err e) result k h = err-ok e result h
or_without-IsResolved a later s (ok (x, t)) result k h =
    subst (λ y. IsResolved a later (y, t)) (ok-injective x result h) (k (x, t) refl)

opened_for-IsResolved :
    (a : AuthService) (i : LoginInput) (now : ℕ) (s : Tables) (r : Result Provided)
    (result : LoginResult) (later : ℕ)
    → ((p : Provided) → r ≡ ok p → IsKnown p)
    → (opened_for a i now s r).1 ≡ ok result
    → IsResolved a later (result, (opened_for a i now s r).0)
unfolding opened_for open_session
opened_for-IsResolved a i now s (err e) result later k h = err-ok e result h
opened_for-IsResolved a i now s (ok p) result later k h =
    or_without-IsResolved a later p.tables (start_session a i now p) result
      (λ x started. start_session-IsResolved a i now p x later (k p refl) started) h

judged-IsResolved :
    (a : AuthService) (i : LoginInput) (now : ℕ) (w : World) (r : Result (Unit {0}))
    (result : LoginResult) (later : ℕ)
    → IsDescending w.tables.next_id w.tables.users
    → (judged (λ t. t) a i now w r).1 ≡ ok result
    → IsResolved a later (result, (judged (λ t. t) a i now w r).0.tables)
unfolding judged accepted find_or_create
judged-IsResolved a i now w (err e) result later d h =
    elim (Bool-cases (is_error e (error_code fincloud_invalid_credentials))) [
      | inl b ↦ err-ok _ result (rw b at h)
      | inr b ↦ err-ok _ result (rw b at h)
    ]
judged-IsResolved a i now w (ok u) result later d h =
    opened_for-IsResolved a i now w.tables _ result later
      (λ p g.
        let name = normalize_username (trim_space i.username) in
        let (v, valid, g₁) = >>=-eq-ok (validate_username name) _ g in
        let (v', again, g₂) = >>=-eq-ok (validate_username (normalize_username name)) _ g₁ in
        provide_user-IsKnown (normalize_username name) now w.tables
          (find_by_username (normalize_username name) w.tables) p d (λ u r. r) g₂)
      h

-- Where a login succeeds on tables with users in order, the hash of its token, if it has 32 bytes,
-- resolves to the user and the session of the result at each time before the session expires.
pub login-resolve_session :
    (a : AuthService) (i : LoginInput) (now : ℕ) (w : World) (result : LoginResult) (later : ℕ)
    → IsDescending w.tables.next_id w.tables.users
    → (login (λ t. t) a i now w).1 ≡ ok result
    → length (a.hash_token result.raw_token) ≡ 32
    → later < result.session.expires_at
    → (resolve_session (a.hash_token result.raw_token) later (login (λ t. t) a i now w).0.tables).1
      ≡ ok (principal_of result.session result.user (login (λ t. t) a i now w).0.tables)
unfolding login IsResolved
login-resolve_session a i now w result later d h = elim (Bool-cases (bad_input i)) [
  | inl b ↦ err-ok _ result (rw b at h)
  | inr b ↦ elim (Bool-cases (blocked a.lockout (throttle_key i) now w.failures).1) [
    | inl l ↦ err-ok _ result (rw (b, l) at h)
    | inr l ↦
        rw (b, l)
          (judged-IsResolved a i now
            (record w { failures = (blocked a.lockout (throttle_key i) now w.failures).0 }) _ result
            later d (rw (b, l) at h))
  ]
]
