-- ===== src/Access/Managers/SignedIn.antt =====
-- Signing in and resolving sessions lose no manager.
use new_trs.Common.{
  ℕ, suc, ◌+◌, ◌≤◌, ◌≡◌, refl, ap, subst, true, not, ◌==◌, Bool-cases, List, ◌∷◌, Option, none,
  some, inl, inr, Result, ok, err, Error, foreign, >>=-eq-ok, refuse-eq-ok, ok-injective,
  user_not_found, username_taken, inactive_user, fincloud_invalid_credentials, leb, ltb, arith,
}
use new_trs.Common.Text.{Text, eq_text, trim_space}
use new_trs.Common.Errors.{error_code, is_error}
use new_trs.Login.Lockout.{blocked}
use new_trs.Access.Tables.{User, Grant, Session, Tables, find_user, count_managers}
use new_trs.Access.Users.{
  Provided, CreateParams, new_user, create_user, find_by_username, found_user, created_user,
  provide_user, find_or_create, normalize_username, validate_username, validate_name,
  update_last_login_at,
}
use new_trs.Access.Sessions.{
  no_hash, is_stored, find_hash, new_session, CreateSessionParams, create_session,
  update_last_seen_at, revoke,
}
use new_trs.Access.Login.{
  AuthService, LoginInput, LoginResult, World, bad_input, last_seen_touch_interval, throttle_key,
  session_params, start_session, or_without, opened_for, open_session, accepted, judged, login,
  touched, resolve_user, resolve_found,
}
use new_trs.Access.Managers.{IsDescending, IsDescending-update, count_managers-update}
use new_trs.Access.Managers.Kept.{
  IsKept, refl_IsKept, trans_IsKept, sessions_IsKept, session_IsKept,
}

err-ok {ℓ} : {A : Type ℓ} (e : Error) (a : A) → err e ≡ ok a → ⊥
err-ok e a h = cc

count_managers-cons :
    (p : ℕ) (u : User) (users : List User) (grants : List Grant)
    → count_managers p users grants ≤ count_managers p (u ∷ users) grants
unfolding count_managers
count_managers-cons p u users grants = ground arith

new_user-IsDescending :
    (params : CreateParams) (now : ℕ) (s : Tables)
    → IsDescending s.next_id s.users
    → IsDescending (suc s.next_id) (new_user params now s.next_id ∷ s.users)
unfolding IsDescending
new_user-IsDescending params now s d = (omega arith, d)

resolve_user-IsKept :
    (hash : Text) (now : ℕ) (t : Tables) (x : Session) (o : Option User)
    → IsKept t (resolve_user hash now t x o).0
unfolding resolve_user revoke touched update_last_seen_at
resolve_user-IsKept hash now t x none = sessions_IsKept t _
resolve_user-IsKept hash now t x (some u) = elim (Bool-cases u.is_active) [
  | inl a ↦ elim (Bool-cases (leb (x.last_seen_at + last_seen_touch_interval) now)) [
    | inl l ↦ simp (a, l) (sessions_IsKept t _)
    | inr l ↦ simp (a, l) (refl_IsKept t)
  ]
  | inr a ↦ simp a (sessions_IsKept t _)
]

pub resolve_found-IsKept :
    (hash : Text) (now : ℕ) (t : Tables) (r : Result Session)
    → IsKept t (resolve_found hash now t r).0
unfolding resolve_found
resolve_found-IsKept hash now t (err e) = refl_IsKept t
resolve_found-IsKept hash now t (ok x) =
    resolve_user-IsKept hash now t x (find_user x.user_id t.users)

create_session-IsKept :
    (p : CreateSessionParams) (now : ℕ) (s t : Tables) (x : Session)
    → create_session p now s ≡ ok (x, t)
    → IsKept s t
unfolding create_session
create_session-IsKept p now s t x h =
    let (c₁, h₁) = refuse-eq-ok (p.user_id == 0) foreign _ h in
    let (c₂, h₂) = refuse-eq-ok (eq_text p.token_hash no_hash) foreign _ h₁ in
    let (c₃, h₃) = refuse-eq-ok (p.last_seen_at == 0) foreign _ h₂ in
    let (c₄, h₄) = refuse-eq-ok (not (ltb now p.expires_at)) foreign _ h₃ in
    let (c₅, h₅) = refuse-eq-ok (is_stored (find_hash p.token_hash s.sessions)) foreign _ h₄ in
    let same = ap (λ q. q.1) (ok-injective _ (x, t) h₅) in
    subst (IsKept s) same (session_IsKept s (new_session p now s.next_id ∷ s.sessions))

create_user-IsKept :
    (params : CreateParams) (now : ℕ) (s t : Tables) (u : User)
    → create_user params now s ≡ ok (u, t)
    → IsKept s t
unfolding create_user
create_user-IsKept params now s t u h =
    let (v, c₁, h₁) = >>=-eq-ok (validate_username (normalize_username params.username)) _ h in
    let (w, c₂, h₂) = >>=-eq-ok (validate_name (trim_space params.name)) _ h₁ in
    let (c₃, h₃) = refuse-eq-ok _ username_taken _ h₂ in
    let same = ap (λ q. q.1) (ok-injective _ (u, t) h₃) in
    subst (IsKept s) same (record {
      permissions = refl;
      descending = new_user-IsDescending params now s;
      no_less = λ q. count_managers-cons q (new_user params now s.next_id) s.users s.grants;
    })

found_user-IsKept :
    (t : Tables) (r : Result User) (p : Provided) → found_user t r ≡ ok p → IsKept t p.tables
unfolding found_user
found_user-IsKept t (err e) p h = cc
found_user-IsKept t (ok u) p h = subst (λ q. IsKept t q.tables) (ok-injective _ p h) (refl_IsKept t)

created_user-IsKept :
    (username : Text) (s : Tables) (r : Result (User × Tables)) (p : Provided)
    → ((u : User) (t : Tables) → r ≡ ok (u, t) → IsKept s t)
    → created_user username s r ≡ ok p
    → IsKept s p.tables
unfolding created_user
created_user-IsKept username s (ok (u, t)) p k h =
    subst (λ q. IsKept s q.tables) (ok-injective _ p h) (k u t refl)
created_user-IsKept username s (err e) p k h =
    elim (Bool-cases (is_error e (error_code username_taken))) [
      | inl b ↦ found_user-IsKept s (find_by_username username s) p (rw (b, created_user) at h)
      | inr b ↦ absurd (err-ok e p (rw (b, created_user) at h))
    ]

provide_user-IsKept :
    (username : Text) (now : ℕ) (s : Tables) (r : Result User) (p : Provided)
    → provide_user username now s s r ≡ ok p
    → IsKept s p.tables
unfolding provide_user
provide_user-IsKept username now s (ok u) p h = found_user-IsKept s (ok u) p h
provide_user-IsKept username now s (err e) p h =
    elim (Bool-cases (is_error e (error_code user_not_found))) [
      | inl b ↦
          created_user-IsKept username s _ p
            (λ u t.
              create_user-IsKept (record { username = username; name = username; is_active = true })
                now s t u)
            (rw (b, provide_user) at h)
      | inr b ↦ absurd (err-ok e p (rw (b, provide_user) at h))
    ]

update_last_login_at-IsKept : (id now : ℕ) (t : Tables) → IsKept t (update_last_login_at id now t)
unfolding update_last_login_at
update_last_login_at-IsKept id now t = record {
  permissions = refl;
  descending = IsDescending-update t.next_id id _ t.users (λ u. refl);
  no_less = λ p. count_managers-update p id _ t.users t.grants (λ u. refl) (λ u a. a);
}

start_session-IsKept :
    (a : AuthService) (i : LoginInput) (now : ℕ) (p : Provided) (result : LoginResult) (t : Tables)
    → start_session a i now p ≡ ok (result, t)
    → IsKept p.tables t
unfolding start_session
start_session-IsKept a i now p result t h =
    let (active, h₁) = refuse-eq-ok _ inactive_user _ h in
    let (token, drawn, h₂) = >>=-eq-ok a.generate_token _ h₁ in
    let ((x, u), made, h₃) =
      >>=-eq-ok (create_session (session_params a i p.user token now) now p.tables) _ h₂ in
    let same = ap (λ q. q.1) (ok-injective _ (result, t) h₃) in
    subst (IsKept p.tables) same (
      trans_IsKept p.tables u _ (create_session-IsKept _ now p.tables u x made)
        (update_last_login_at-IsKept p.user.id now u))

or_without-IsKept :
    (s : Tables) (r : Result (LoginResult × Tables))
    → ((x : LoginResult) (t : Tables) → r ≡ ok (x, t) → IsKept s t)
    → IsKept s (or_without s r).0
unfolding or_without
or_without-IsKept s (err e) k = refl_IsKept s
or_without-IsKept s (ok (x, t)) k = k x t refl

opened_for-IsKept :
    (a : AuthService) (i : LoginInput) (now : ℕ) (s : Tables) (r : Result Provided)
    → ((p : Provided) → r ≡ ok p → IsKept s p.tables)
    → IsKept s (opened_for a i now s r).0
unfolding opened_for open_session
opened_for-IsKept a i now s (err e) k = refl_IsKept s
opened_for-IsKept a i now s (ok p) k =
    trans_IsKept s p.tables _ (k p refl)
      (or_without-IsKept p.tables (start_session a i now p) (start_session-IsKept a i now p))

accepted-IsKept :
    (a : AuthService) (i : LoginInput) (now : ℕ) (s : Tables)
    → IsKept s (accepted (λ t. t) a i now s).0
unfolding accepted find_or_create
accepted-IsKept a i now s = opened_for-IsKept a i now s _ (λ p h.
    let (u, valid, h₁) =
      >>=-eq-ok (validate_username (normalize_username (trim_space i.username))) _ h in
    let (v, again, h₂) =
      >>=-eq-ok
        (validate_username (normalize_username (normalize_username (trim_space i.username)))) _
        h₁ in
    provide_user-IsKept _ now s _ p h₂)

judged-IsKept :
    (a : AuthService) (i : LoginInput) (now : ℕ) (w : World) (r : Result (Unit {0}))
    → IsKept w.tables (judged (λ t. t) a i now w r).0.tables
unfolding judged
judged-IsKept a i now w (err e) =
    elim (Bool-cases (is_error e (error_code fincloud_invalid_credentials))) [
      | inl b ↦ rw b (refl_IsKept w.tables)
      | inr b ↦ rw b (refl_IsKept w.tables)
    ]
judged-IsKept a i now w (ok u) = accepted-IsKept a i now w.tables

pub login-IsKept :
    (a : AuthService) (i : LoginInput) (now : ℕ) (w : World)
    → IsKept w.tables (login (λ t. t) a i now w).0.tables
unfolding login
login-IsKept a i now w = elim (Bool-cases (bad_input i)) [
  | inl b ↦ rw b (refl_IsKept w.tables)
  | inr b ↦ elim (Bool-cases (blocked a.lockout (throttle_key i) now w.failures).1) [
    | inl l ↦ rw (b, l) (refl_IsKept w.tables)
    | inr l ↦
        rw (b, l)
          (judged-IsKept a i now
            (record w { failures = (blocked a.lockout (throttle_key i) now w.failures).0 }) _)
  ]
]
